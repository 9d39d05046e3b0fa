-- ===== src/Dispatcher/Claims.antt =====
-- src/scheduler/task_dispatcher.py, `claim_due_tasks`: a claimed row is out of every other claim.
use post_call_processing_pip.Prelude.{
  ℕ, ◌≡◌, refl, ◌≢◌, ◌⊎◌, inl, inr, Bool, true, not, ◌&&◌, String, List, [], ◌∷◌, map, arith, ap,
  ◌==◌, leb, All, All-take, All-map, All-mono, All-select, Bool-cases,
}
use post_call_processing_pip.Models.{ProcessingTask, TaskLane, TaskStatus}
use post_call_processing_pip.Context.{Context}
use post_call_processing_pip.Db.{Db, replace}
use post_call_processing_pip.Dispatcher.{
  claim_row, claim_rows, due_rows, claim_due_tasks, is_due, insert_by_run_at, sort_by_run_at,
}

-- The rows of id `i`, if any, are in progress.
abbrev Busy : ℕ → List ProcessingTask → Type 0
Busy i = All (λ r. (r.id ≢ i) ⊎ (r.status ≡ TaskStatus.in_progress))

replace-Busy_self :
    (t : ProcessingTask) (rs : List ProcessingTask)
    → t.status ≡ TaskStatus.in_progress
    → Busy t.id (replace t rs)
replace-Busy_self t [] h = tt
replace-Busy_self t (r ∷ rs) h = (
  elim (Bool-cases (r.id == t.id)) [
    | inl same ↦ rw same (inr h)
    | inr other ↦ rw other (inl (ground arith))
  ],
  replace-Busy_self t rs h,
)

replace-Busy :
    (t : ProcessingTask) (i : ℕ) (rs : List ProcessingTask)
    → t.status ≡ TaskStatus.in_progress
    → Busy i rs
    → Busy i (replace t rs)
replace-Busy t i [] h b = tt
replace-Busy t i (r ∷ rs) h b = (
  elim (Bool-cases (r.id == t.id)) [ inl same ↦ rw same (inr h) | inr other ↦ rw other (b.0) ],
  replace-Busy t i rs h b.1,
)

module _ (c : Context) (worker : String) (lease_seconds : ℕ) where
  claim_rows-eq-map :
      (ts : List ProcessingTask) (db : Db)
      → (claim_rows c worker lease_seconds ts db).0 ≡ map (claim_row c worker lease_seconds) ts
  unfolding claim_rows
  claim_rows-eq-map [] db = refl
  claim_rows-eq-map (t ∷ ts) db =
      ap (◌∷◌ (claim_row c worker lease_seconds t)) (claim_rows-eq-map ts _)

  claim_rows-Busy :
      (i : ℕ) (ts : List ProcessingTask) (db : Db)
      → Busy i db.tasks
      → Busy i (claim_rows c worker lease_seconds ts db).1.tasks
  unfolding claim_rows
  claim_rows-Busy i [] db b = b
  claim_rows-Busy i (t ∷ ts) db b =
      claim_rows-Busy i ts _ (replace-Busy (claim_row c worker lease_seconds t) i db.tasks refl b)

  claim_rows-Busy-All :
      (ts : List ProcessingTask) (db : Db)
      → All (λ t. Busy t.id (claim_rows c worker lease_seconds ts db).1.tasks) ts
  unfolding claim_rows
  claim_rows-Busy-All [] db = tt
  claim_rows-Busy-All (t ∷ ts) db = (
    claim_rows-Busy t.id ts _
        (replace-Busy_self (claim_row c worker lease_seconds t) db.tasks refl),
    claim_rows-Busy-All ts _,
  )

All-insert_by_run_at {κ} :
    (P : ProcessingTask → Type κ) (t : ProcessingTask) (rs : List ProcessingTask)
    → P t
    → All P rs
    → All P (insert_by_run_at t rs)
unfolding insert_by_run_at
All-insert_by_run_at P t [] h hs = (h, tt)
All-insert_by_run_at P t (r ∷ rs) h hs = elim (Bool-cases (leb t.next_run_at r.next_run_at)) [
  | inl first ↦ rw first (h, hs)
  | inr later ↦ rw later (hs.0, All-insert_by_run_at P t rs h hs.1)
]

pub All-sort_by_run_at {κ} :
    (P : ProcessingTask → Type κ) (rs : List ProcessingTask) → All P rs → All P (sort_by_run_at rs)
unfolding sort_by_run_at
All-sort_by_run_at P [] hs = tt
All-sort_by_run_at P (r ∷ rs) hs =
    All-insert_by_run_at P r (sort_by_run_at rs) hs.0 (All-sort_by_run_at P rs hs.1)

-- What all rows are known for holds of the chosen ones, with the test that chose them.
pub All-due_rows {κ} :
    (P : ProcessingTask → Type κ) (now : ℕ) (lanes : List TaskLane) (limit : ℕ)
    (row_locked : ℕ → Bool) (db : Db)
    → All P db.tasks
    → All
        (λ r. P r × ((is_due now lanes r && not (row_locked r.id)) ≡ true))
        (due_rows now lanes limit row_locked db)
unfolding due_rows
All-due_rows P now lanes limit row_locked db h =
    All-take _ limit _ (All-sort_by_run_at _ _ (All-select P _ db.tasks h))

busy_not_due :
    (i now : ℕ) (lanes : List TaskLane) (locked : Bool) (r : ProcessingTask)
    → (r.id ≢ i) ⊎ (r.status ≡ TaskStatus.in_progress)
    → (is_due now lanes r && locked) ≡ true
    → r.id ≢ i
unfolding is_due
busy_not_due i now lanes locked r (inl other) due = other
busy_not_due i now lanes locked r (inr busy) due = ground arith

module _ (c : Context) (worker : String) (lanes : List TaskLane) (limit lease_seconds : ℕ)
    (row_locked : ℕ → Bool) where
  -- A claim returns the due rows, each marked as claimed.
  pub claim_due_tasks-eq-map :
      (db : Db)
      → (claim_due_tasks c worker lanes limit lease_seconds row_locked db).0
        ≡ map (claim_row c worker lease_seconds) (due_rows c.now lanes limit row_locked db)
  unfolding claim_due_tasks
  claim_due_tasks-eq-map db = claim_rows-eq-map c worker lease_seconds _ db

  claim_due_tasks-avoids :
      (i : ℕ) (db : Db)
      → Busy i db.tasks
      → All (λ u. u.id ≢ i) (claim_due_tasks c worker lanes limit lease_seconds row_locked db).0
  claim_due_tasks-avoids i db b = rw (claim_due_tasks-eq-map db) (
      All-map _ _ _ (
        All-mono _ _ _ (λ r h. busy_not_due i c.now lanes _ r h.0 h.1)
          (All-due_rows _ c.now lanes limit row_locked db b)))

  claim_due_tasks-Busy :
      (db : Db)
      → All
          (λ t.
            Busy t.id (claim_due_tasks c worker lanes limit lease_seconds row_locked db).1.tasks)
          (due_rows c.now lanes limit row_locked db)
  unfolding claim_due_tasks
  claim_due_tasks-Busy db = claim_rows-Busy-All c worker lease_seconds _ db

-- A worker that claims after another one, however much later and whatever lanes and limits the two
-- use, gets none of the rows of the first: a claimed row is in progress, and no lapse of its lease
-- alone makes it due.
pub claim_due_tasks-disjoint :
    (c c' : Context) (worker worker' : String) (lanes lanes' : List TaskLane)
    (limit limit' lease_seconds lease_seconds' : ℕ) (row_locked row_locked' : ℕ → Bool) (db : Db)
    → let (first, db') = claim_due_tasks c worker lanes limit lease_seconds row_locked db in
      let (second, _) = claim_due_tasks c' worker' lanes' limit' lease_seconds' row_locked' db' in
      All (λ t. All (λ u. u.id ≢ t.id) second) first
claim_due_tasks-disjoint c c' worker worker' lanes lanes' limit limit' lease lease' locked locked'
      db =
    rw (claim_due_tasks-eq-map c worker lanes limit lease locked db) (
      All-map _ _ _ (
        All-mono _ _ _
          (λ t b. claim_due_tasks-avoids c' worker' lanes' limit' lease' locked' t.id _ b)
          (claim_due_tasks-Busy c worker lanes limit lease locked db)))
