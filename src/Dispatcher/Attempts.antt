-- ===== src/Dispatcher/Attempts.antt =====
-- src/scheduler/task_dispatcher.py: how the operations that end an attempt leave the row, the tables
-- and the audit trail.
use post_call_processing_pip.Prelude.{
  ℕ, ◌+◌, ◌*◌, ◌/◌, max, ◌≤◌, ◌<◌, ◌≡◌, refl, ◌⊎◌, inl, inr, Bool-cases, String, List, [], ◌∷◌,
  ◌++◌, Option, none, some, arith, leb, Option-cases,
}
use post_call_processing_pip.Json.{Fields}
use post_call_processing_pip.Models.{ProcessingTask, TaskStatus, AuditStatus, InteractionAuditLog}
use post_call_processing_pip.Context.{Context, seconds}
use post_call_processing_pip.Db.{Db, ok, replace, save}
use post_call_processing_pip.Audit.{record_event, audit_row}
use post_call_processing_pip.Dispatcher.{task_event}
use post_call_processing_pip.Dispatcher.Backoff.{next_run_at_bounds}
use post_call_processing_pip.Dispatcher.Outcomes.{
  reschedule, mark_dead_letter, mark_for_retry, retry_at, dead_letter_row, scheduled_row,
  usable_hint,
}

-- `db'` is `db` with the row `t` flushed and one audit row appended, which names the row's
-- interaction, customer, step and attempt, and the status.
pub record Flushed (t : ProcessingTask) (status : AuditStatus) (db db' : Db) : Type 0 where
  pub row : InteractionAuditLog
  pub stored : db'.tasks ≡ replace t db.tasks
  pub appended : db'.audit ≡ db.audit ++ row ∷ []
  pub about : row.interaction_id ≡ t.interaction_id
  pub for_customer : row.customer_id ≡ t.customer_id
  pub of_step : row.step ≡ t.step
  pub with_status : row.status ≡ status
  pub at_attempt : row.attempt ≡ t.attempts
  pub same_ledger : db'.ledger ≡ db.ledger
  pub same_interactions : db'.interactions ≡ db.interactions

-- `t'` is `t` with its lease given up, and with nothing of the work itself lost.
pub record Released (t t' : ProcessingTask) : Type 0 where
  pub same_id : t'.id ≡ t.id
  pub same_interaction : t'.interaction_id ≡ t.interaction_id
  pub same_step : t'.step ≡ t.step
  pub same_lane : t'.lane ≡ t.lane
  pub same_payload : t'.payload ≡ t.payload
  pub same_attempts : t'.attempts ≡ t.attempts
  pub same_max_attempts : t'.max_attempts ≡ t.max_attempts
  pub unlocked : t'.locked_by ≡ none
  pub no_lease : t'.locked_until ≡ none

pub task_event-Flushed :
    (c : Context) (t : ProcessingTask) (status : AuditStatus) (detail : Fields) (db : Db)
    → Flushed t status db (task_event c t status detail (save t db))
unfolding record_event
task_event-Flushed c t status detail db = record {
  row =
      audit_row c t.interaction_id t.customer_id (some t.correlation_id) t.step status t.attempts
        detail;
  stored = refl;
  appended = refl;
  about = refl;
  for_customer = refl;
  of_step = refl;
  with_status = refl;
  at_attempt = refl;
  same_ledger = refl;
  same_interactions = refl;
}

pub dead_letter-Released :
    (error : String) (t : ProcessingTask) → Released t (dead_letter_row error t)
dead_letter-Released error t = record {
  same_id = refl;
  same_interaction = refl;
  same_step = refl;
  same_lane = refl;
  same_payload = refl;
  same_attempts = refl;
  same_max_attempts = refl;
  unlocked = refl;
  no_lease = refl;
}

scheduled-Released :
    (error : String) (run_at : ℕ) (t : ProcessingTask) → Released t (scheduled_row error run_at t)
scheduled-Released error run_at t = record {
  same_id = refl;
  same_interaction = refl;
  same_step = refl;
  same_lane = refl;
  same_payload = refl;
  same_attempts = refl;
  same_max_attempts = refl;
  unlocked = refl;
  no_lease = refl;
}

abbrev pub Retried : Context → String → ProcessingTask → Db → ProcessingTask × Db → Type 0
Retried c error t db (t', db') =
    Released t t'
    × (t'.last_error ≡ some error)
    × (((t.max_attempts ≤ t.attempts)
          × (t'.status ≡ TaskStatus.dead_letter)
          × Flushed t' AuditStatus.dead_letter db db')
        ⊎ ((t.attempts < t.max_attempts)
            × (t'.status ≡ TaskStatus.scheduled)
            × (c.now + seconds 1 ≤ t'.next_run_at)
            × Flushed t' AuditStatus.retry_scheduled db db'))

retry_at_ahead :
    (c : Context) (hint : Option ℕ) (s : ℕ) (ss : List ℕ) (attempts : ℕ)
    → 0 < c.draw_den
    → c.draw_num ≤ 20 * c.draw_den
    → (run_at : ℕ) × (retry_at c hint (s ∷ ss) attempts ≡ ok run_at) × (c.now + seconds 1 ≤ run_at)
unfolding retry_at
retry_at_ahead c hint s ss attempts d r =
    let (run_at, e, low, high) = next_run_at_bounds c attempts s ss d r in
    elim (Option-cases (usable_hint hint)) [
      | inl use_schedule ↦ (run_at, rw (use_schedule, retry_at) e, omega arith)
      | inr (ms, use_hint) ↦
          (c.now + seconds (max 1 (ms / 1000)), rw (use_hint, retry_at), omega arith)
    ]

-- With a draw of `random.uniform(-10, 10)` and a schedule that has an entry, a failed attempt
-- always ends in one of two ways, whatever the hint: if the attempts are used up the row is dead-
-- lettered, and if not it is scheduled at least a second ahead. Either way its lease is given up,
-- its error is stored, its payload, attempt count and limit on attempts are kept, and the flush comes
-- with one audit row.
pub mark_for_retry_total :
    (c : Context) (error : String) (hint : Option ℕ) (s : ℕ) (ss : List ℕ) (detail : Fields)
    (t : ProcessingTask) (db : Db)
    → 0 < c.draw_den
    → c.draw_num ≤ 20 * c.draw_den
    → (r : ProcessingTask × Db) × (mark_for_retry c error hint (s ∷ ss) detail t db ≡ ok r)
      × Retried c error t db r
unfolding mark_for_retry
mark_for_retry_total c error hint s ss detail t db d r =
    elim (Bool-cases (leb t.max_attempts t.attempts)) [
      | inl spent ↦ (
        mark_dead_letter c error detail t db,
        rw (spent, mark_for_retry),
        (
          dead_letter-Released error t,
          refl,
          inl (ground arith, refl, task_event-Flushed c _ _ _ db),
        ),
      )
      | inr left ↦
          let (run_at, e, ahead) = retry_at_ahead c hint s ss t.attempts d r in
          (
            reschedule c error hint detail t db run_at,
            rw (left, mark_for_retry) (rw e),
            (
              scheduled-Released error run_at t,
              refl,
              inr (ground arith, refl, ahead, task_event-Flushed c _ _ _ db),
            ),
          )
    ]
