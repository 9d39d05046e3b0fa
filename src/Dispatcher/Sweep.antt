-- ===== src/Dispatcher/Sweep.antt =====
-- src/scheduler/task_dispatcher.py, `expire_stale_leases`: what the sweep does to crashed attempts.
use mathlib.Core.List.{Forall₂}
use post_call_processing_pip.Prelude.{
  ltb, ◌≤◌, take, ℕ, zero, suc, ◌+◌, ◌<◌, ◌≡◌, refl, ◌≢◌, true, false, List, [], ◌∷◌, none, some,
  String, arith, inl, inr, Bool-cases, ◌⊎◌, Option-cases,
}
use post_call_processing_pip.Models.{ProcessingTask, TaskLane, TaskStatus, same_lane_iff}
use post_call_processing_pip.Context.{Context, seconds}
use post_call_processing_pip.Db.{Db}
use post_call_processing_pip.Dispatcher.{claim_row, is_due, claim_due_tasks}
use post_call_processing_pip.Dispatcher.Outcomes.{
  is_stale, reclaimed_row, reclaim_rows, expire_stale_leases,
}

-- What the sweep at `now` makes of a row: one whose lease ran out before `now` is given up and due
-- again at once in its lane, with its attempts and its payload; a row that is not in progress, has no
-- lease, or one that has not run out, is left as it is.
abbrev pub Swept : ℕ → ProcessingTask → ProcessingTask → Type 0
Swept now t t' =
    ((until : ℕ) × (t.status ≡ TaskStatus.in_progress)
      × (t.locked_until ≡ some until)
      × (until < now)
      × (t'.status ≡ TaskStatus.scheduled)
      × (t'.locked_by ≡ none)
      × (t'.id ≡ t.id)
      × (t'.interaction_id ≡ t.interaction_id)
      × (t'.step ≡ t.step)
      × (t'.payload ≡ t.payload)
      × (t'.max_attempts ≡ t.max_attempts)
      × (t'.attempts ≡ t.attempts)
      × (is_due now (t.lane ∷ []) t' ≡ true))
    ⊎ ((t' ≡ t)
        × ((t.status ≢ TaskStatus.in_progress)
            ⊎ ((t.locked_until ≡ none)
                ⊎ ((until : ℕ) × (t.locked_until ≡ some until) × (now ≤ until)))))

reclaimed_row-due :
    (now : ℕ) (t : ProcessingTask) → is_due now (t.lane ∷ []) (reclaimed_row now t) ≡ true
unfolding is_due
reclaimed_row-due now t = ground (arith, (same_lane_iff t.lane t.lane).1 refl)

reclaimed_row-Swept :
    (now : ℕ) (t : ProcessingTask) → is_stale now t ≡ true → Swept now t (reclaimed_row now t)
unfolding is_stale
reclaimed_row-Swept now t h = elim (Option-cases t.locked_until) [
  | inl open' ↦ absurd (ground arith)
  | inr (until, e) ↦ inl (
    until,
    ground arith,
    e,
    ground arith,
    refl,
    refl,
    refl,
    refl,
    refl,
    refl,
    refl,
    refl,
    reclaimed_row-due now t,
  )
]

kept-Swept : (now : ℕ) (t : ProcessingTask) → is_stale now t ≡ false → Swept now t t
unfolding is_stale
kept-Swept now t h = elim (Option-cases t.locked_until) [
  | inl open' ↦ inr (refl, inr (inl open'))
  | inr (until, e) ↦ elim (Bool-cases (ltb until now)) [
    | inl over ↦ inr (refl, inl (λ busy. absurd (ground arith)))
    | inr young ↦ inr (refl, inr (inr (until, e, ground (arith, young))))
  ]
]

reclaim_rows-Swept :
    (now : ℕ) (ts : List ProcessingTask) → Forall₂ (Swept now) ts (reclaim_rows now ts)
reclaim_rows-Swept now [] = Forall₂.nil
reclaim_rows-Swept now (t ∷ ts) = elim (Bool-cases (is_stale now t)) [
  | inl stale ↦
      rw stale (Forall₂.cons (reclaimed_row-Swept now t stale) (reclaim_rows-Swept now ts))
  | inr fine ↦ rw fine (Forall₂.cons (kept-Swept now t fine) (reclaim_rows-Swept now ts))
]

-- The sweep at `now` gives up exactly the in-progress rows whose lease ran out before `now`: each
-- is due again at once in its lane, as the row of the same step of its interaction, with its attempts,
-- the limit on them and its payload. It leaves every other row as
-- it is, and adds nothing to the audit trail although statuses change.
pub expire_stale_leases-Swept :
    (now : ℕ) (db : Db)
    → let db' = (expire_stale_leases now db).1 in
      Forall₂ (Swept now) db.tasks db'.tasks × (db'.audit ≡ db.audit)
unfolding expire_stale_leases
expire_stale_leases-Swept now db = (reclaim_rows-Swept now db.tasks, refl)

take-none : (n : ℕ) → take {A = ProcessingTask} n [] ≡ []
take-none zero = refl
take-none (suc n) = refl

abbrev pub both_lanes : List TaskLane
both_lanes = TaskLane.hot ∷ TaskLane.cold ∷ []

module _ (worker : String) (limit lease_seconds : ℕ) where
  -- A worker claims what is due and dies with it; the sweep runs a microsecond after the lease has run
  -- out.
  abbrev pub crash_round : Context → Db → Db
  crash_round c db =
      let claimed =
        (claim_due_tasks c worker both_lanes (suc limit) lease_seconds (λ _. false) db).1 in
      (expire_stale_leases (c.now + seconds lease_seconds + 1) claimed).1

  abbrev pub next_round : Context → Context
  next_round c = record c { now = c.now + seconds lease_seconds + 1 }

  abbrev pub crash_rounds : ℕ → Context → Db → Db
  crash_rounds zero c db = db
  crash_rounds (suc k) c db = crash_rounds k (next_round c) (crash_round c db)

  abbrev survivor : Context → ProcessingTask → ProcessingTask
  survivor c t =
      reclaimed_row (c.now + seconds lease_seconds + 1) (claim_row c worker lease_seconds t)

  claim_one :
      (c : Context) (db : Db) (t : ProcessingTask)
      → db.tasks ≡ t ∷ []
      → is_due c.now both_lanes t ≡ true
      → (claim_due_tasks c worker both_lanes (suc limit) lease_seconds (λ _. false) db).1.tasks
        ≡ claim_row c worker lease_seconds t ∷ []
  unfolding claim_due_tasks
  claim_one c db t e due = rw e (rw due (rw (take-none limit) (ground arith)))

  crash_round-survivor :
      (c : Context) (db : Db) (t : ProcessingTask)
      → db.tasks ≡ t ∷ []
      → is_due c.now both_lanes t ≡ true
      → (crash_round c db).tasks ≡ survivor c t ∷ []
  unfolding expire_stale_leases
  crash_round-survivor c db t e due = rw (claim_one c db t e due) (ground arith)

  survivor-due :
      (c : Context) (t : ProcessingTask)
      → is_due c.now both_lanes t ≡ true
      → is_due (next_round c).now both_lanes (survivor c t) ≡ true
  unfolding is_due
  survivor-due c t due = ground arith

  -- However often a worker claims the only task, a due one, and dies, the sweep running once the lease
  -- has run out, and whatever its `max_attempts`, the task is never dead-lettered: after k such rounds
  -- it has k more attempts and the same limit on them.
  pub crash_rounds_alive :
      (k : ℕ) (c : Context) (db : Db) (t : ProcessingTask)
      → db.tasks ≡ t ∷ []
      → is_due c.now both_lanes t ≡ true
      → (t' : ProcessingTask) × ((crash_rounds k c db).tasks ≡ t' ∷ [])
        × (t'.attempts ≡ t.attempts + k)
        × (t'.max_attempts ≡ t.max_attempts)
        × (t'.status ≢ TaskStatus.dead_letter)
  unfolding is_due
  crash_rounds_alive zero c db t e due = (t, e, omega arith, refl, λ dead. absurd (ground arith))
  crash_rounds_alive (suc k) c db t e due =
      let (t', rows, attempts, max, alive) =
        crash_rounds_alive k (next_round c) (crash_round c db) (survivor c t)
          (crash_round-survivor c db t e due) (survivor-due c t due) in
      (t', rows, omega arith, max, alive)
