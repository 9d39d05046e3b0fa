-- ===== src/System/Polling.antt =====
-- src/scheduler/task_dispatcher.py in the running program: what a poller that claims due rows, and the
-- sweep over stale leases, leave alone.
use post_call_processing_pip.Prelude.{
  ℕ, String, Bool, ◌≡◌, refl, ◌∙◌, ap, sym, List, [], ◌∷◌, true, false, some, ◌==◌, not, ◌&&◌, find,
  arith, Bool-cases, inl, inr, All, All-mono,
}
use mathlib.Core.List.{Memᴰ}
use post_call_processing_pip.Models.{ProcessingTask, TaskLane}
use post_call_processing_pip.Context.{Context}
use post_call_processing_pip.Db.{Db, find_task, replace}
use post_call_processing_pip.Harness.{is_completed}
use post_call_processing_pip.Dispatcher.{
  claim_row, claim_rows, due_rows, claim_due_tasks, is_due, mark_in_progress,
}
use post_call_processing_pip.Dispatcher.Claims.{All-due_rows}
use post_call_processing_pip.Dispatcher.Outcomes.{is_stale, reclaim_rows, expire_stale_leases}
use post_call_processing_pip.Audit.{record_event}
use post_call_processing_pip.System.Keys.{
  key, keys, Keyed-found, keys-replace_same, some_injective, UniqueIds, UniqueIds-keys,
}
use post_call_processing_pip.System.Evolution.{Sound}
use post_call_processing_pip.System.Effects.{
  Appended, Appended-refl, Appended-trans, find-replace_ne, find-replace_self,
}
use post_call_processing_pip.System.Routing.{All-Mem, find_task-Mem}

-- No row comes or goes, no completed row is touched, and nothing is charged.
pub record Polled (db db' : Db) : Type 0 where
  pub same_keys : keys db'.tasks ≡ keys db.tasks
  pub same_next : db'.next_id ≡ db.next_id
  pub same_ledger : db'.ledger ≡ db.ledger
  pub audit : Appended db.audit db'.audit
  pub completed :
      (i : ℕ) (t : ProcessingTask)
      → find_task i db ≡ some t
      → is_completed t.status ≡ true
      → find_task i db' ≡ some t

Polled-refl : (db : Db) → Polled db db
Polled-refl db = record {
  same_keys = refl;
  same_next = refl;
  same_ledger = refl;
  audit = Appended-refl db.audit;
  completed = λ i t found done'. found;
}

Polled-trans : (db db' db'' : Db) → Polled db db' → Polled db' db'' → Polled db db''
Polled-trans db db' db'' p q = record {
  same_keys = q.same_keys ∙ p.same_keys;
  same_next = q.same_next ∙ p.same_next;
  same_ledger = q.same_ledger ∙ p.same_ledger;
  audit = Appended-trans db.audit db'.audit db''.audit p.audit q.audit;
  completed = λ i t found done'. q.completed i t (p.completed i t found done') done';
}

-- The row that is to be claimed is in the table, and is not completed.
abbrev Open : Db → ProcessingTask → Type 0
Open db t =
    (t' : ProcessingTask) × (find_task t.id db ≡ some t')
    × (key t' ≡ key t)
    × (is_completed t'.status ≡ false)

module _ (c : Context) (worker : String) (lease_seconds : ℕ) where
  claimed : ProcessingTask → Db → Db
  claimed t db = (mark_in_progress c worker lease_seconds t db).1

  claimed-tasks :
      (t : ProcessingTask) (db : Db)
      → (claimed t db).tasks ≡ replace (claim_row c worker lease_seconds t) db.tasks
  unfolding claimed mark_in_progress record_event
  claimed-tasks t db = refl

  claimed-Polled :
      (t : ProcessingTask) (db : Db) → UniqueIds db.tasks → Open db t → Polled db (claimed t db)
  unfolding claimed mark_in_progress record_event
  claimed-Polled t db unique (t', found, same, open') = record {
    same_keys =
        keys-replace_same t' (claim_row c worker lease_seconds t) db.tasks (sym same)
        ∙ (Keyed-found t.id db.tasks t' unique found).1;
    same_next = refl;
    same_ledger = refl;
    audit = (_, refl);
    completed = λ i u there done'.
        find-replace_ne i (claim_row c worker lease_seconds t) u db.tasks
          (λ e.
            let one =
              some_injective u t' (sym there ∙ ap (λ (j : ℕ). find_task j db) (sym e) ∙ found) in
            absurd (cc))
          there;
  }

  -- A claim of one row leaves another that is to be claimed so.
  claimed-Open : (t u : ProcessingTask) (db : Db) → Open db t → Open db u → Open (claimed t db) u
  unfolding claimed mark_in_progress record_event
  claimed-Open t u db (t', found, same, open') (u', there, same', open'') =
      elim (Bool-cases (t.id == u.id)) [
        | inl one ↦
            let e : t.id ≡ u.id = ground (arith, one) in
            let both : t' ≡ u' =
              some_injective t' u' (sym found ∙ ap (λ (j : ℕ). find_task j db) e ∙ there) in
            (
              claim_row c worker lease_seconds t,
              ap
                    (λ (j : ℕ).
                      find (λ r. r.id == j) (replace (claim_row c worker lease_seconds t) db.tasks))
                    (sym e)
                  ∙ find-replace_self (claim_row c worker lease_seconds t) t' db.tasks found,
              sym same ∙ ap key both ∙ same',
              refl,
            )
        | inr two ↦ (
          u',
          find-replace_ne u.id (claim_row c worker lease_seconds t) u' db.tasks
              (λ e. absurd (ground (arith, two, e))) there,
          same',
          open'',
        )
      ]

  claim_rows-Polled :
      (ts : List ProcessingTask) (db : Db)
      → UniqueIds db.tasks
      → All (Open db) ts
      → Polled db (claim_rows c worker lease_seconds ts db).1
  unfolding claim_rows claimed
  claim_rows-Polled [] db unique h = Polled-refl db
  claim_rows-Polled (t ∷ ts) db unique h =
      let first = claimed-Polled t db unique h.0 in
      Polled-trans db (claimed t db) _ first (
        claim_rows-Polled ts (claimed t db)
          (UniqueIds-keys db.tasks (claimed t db).tasks first.same_keys unique)
          (All-mono _ _ ts (λ u o. claimed-Open t u db h.0 o) h.1))

due-open :
    (now : ℕ) (lanes : List TaskLane) (free : Bool) (t : ProcessingTask)
    → (is_due now lanes t && free) ≡ true
    → is_completed t.status ≡ false
unfolding is_due
due-open now lanes free t due = ground arith

pub claim_due_tasks-Polled :
    (c : Context) (worker : String) (lanes : List TaskLane) (limit lease_seconds : ℕ)
    (row_locked : ℕ → Bool) (db : Db)
    → Sound db
    → Polled db (claim_due_tasks c worker lanes limit lease_seconds row_locked db).1
unfolding claim_due_tasks
claim_due_tasks-Polled c worker lanes limit lease_seconds row_locked db sound =
    claim_rows-Polled c worker lease_seconds (due_rows c.now lanes limit row_locked db) db
      sound.unique_ids
      (All-mono _ _ _
        (λ t h. (
          t,
          find_task-Mem db.tasks t sound.unique_ids h.0,
          refl,
          due-open c.now lanes (not (row_locked t.id)) t h.1,
        ))
        (All-due_rows (λ t. Memᴰ t db.tasks) c.now lanes limit row_locked db (All-Mem db.tasks)))

reclaim_rows-keys : (now : ℕ) (rs : List ProcessingTask) → keys (reclaim_rows now rs) ≡ keys rs
reclaim_rows-keys now [] = refl
reclaim_rows-keys now (r ∷ rs) =
    let rest = ap (λ l. key r ∷ l) (reclaim_rows-keys now rs) in
    elim (Bool-cases (is_stale now r)) [ inl stale ↦ rw stale rest | inr fine ↦ rw fine rest ]

completed-fine :
    (now : ℕ) (r : ProcessingTask) → is_completed r.status ≡ true → is_stale now r ≡ false
unfolding is_stale
completed-fine now r h = ground arith

reclaim_rows-completed :
    (now i : ℕ) (rs : List ProcessingTask) (t : ProcessingTask)
    → find (λ r. r.id == i) rs ≡ some t
    → is_completed t.status ≡ true
    → find (λ r. r.id == i) (reclaim_rows now rs) ≡ some t
reclaim_rows-completed now i [] t found done' = absurd (cc found)
reclaim_rows-completed now i (r ∷ rs) t found done' = elim (Bool-cases (r.id == i)) [
  | inl here ↦
      let one : r ≡ t = some_injective r t (rw here at found) in
      let fine : is_stale now r ≡ false =
        completed-fine now r (ap (λ (x : ProcessingTask). is_completed x.status) one ∙ done') in
      rw fine (rw here (ap some one))
  | inr there ↦
      let rest = reclaim_rows-completed now i rs t (rw there at found) done' in
      elim (Bool-cases (is_stale now r)) [
        | inl stale ↦ rw stale (rw there rest)
        | inr fine ↦ rw fine (rw there rest)
      ]
]

pub expire_stale_leases-Polled : (now : ℕ) (db : Db) → Polled db (expire_stale_leases now db).1
unfolding expire_stale_leases
expire_stale_leases-Polled now db = record {
  same_keys = reclaim_rows-keys now db.tasks;
  same_next = refl;
  same_ledger = refl;
  audit = Appended-refl db.audit;
  completed = λ i t found done'. reclaim_rows-completed now i db.tasks t found done';
}
