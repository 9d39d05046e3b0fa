-- ===== src/Dispatcher/Order.antt =====
-- src/scheduler/task_dispatcher.py, `claim_due_tasks`: which of the due rows are claimed.
use mathlib.Core.List.{Perm}
use mathlib.Core.List.Perm
use post_call_processing_pip.Prelude.{
  ℕ, suc, zero, ◌≤◌, ◌≡◌, Bool, not, ◌&&◌, List, [], ◌∷◌, ◌++◌, min, arith, leb, length, take, drop,
  select, All, Bool-cases, inl, inr, take-append-drop, length-take, All-mono,
}
use post_call_processing_pip.Models.{ProcessingTask, TaskLane}
use post_call_processing_pip.Db.{Db}
use post_call_processing_pip.Dispatcher.{is_due, insert_by_run_at, sort_by_run_at, due_rows}

abbrev pub NotBefore : ℕ → ProcessingTask → Type 0
NotBefore n r = n ≤ r.next_run_at

abbrev Sorted : List ProcessingTask → Type 0
Sorted [] = Unit {0}
Sorted (r ∷ rs) = All (NotBefore r.next_run_at) rs × Sorted rs

insert-perm :
    (t : ProcessingTask) (rs : List ProcessingTask) → Perm (insert_by_run_at t rs) (t ∷ rs)
unfolding insert_by_run_at
insert-perm t [] = Perm.refl (t ∷ [])
insert-perm t (r ∷ rs) = elim (Bool-cases (leb t.next_run_at r.next_run_at)) [
  | inl first ↦ rw first (Perm.refl (t ∷ r ∷ rs))
  | inr later ↦ rw later (Perm.trans (Perm.cons r (insert-perm t rs)) (Perm.swap t r rs))
]

sort-perm : (rs : List ProcessingTask) → Perm (sort_by_run_at rs) rs
unfolding sort_by_run_at
sort-perm [] = Perm.refl []
sort-perm (r ∷ rs) = Perm.trans (insert-perm r (sort_by_run_at rs)) (Perm.cons r (sort-perm rs))

insert-NotBefore :
    (n : ℕ) (t : ProcessingTask) (rs : List ProcessingTask)
    → n ≤ t.next_run_at
    → All (NotBefore n) rs
    → All (NotBefore n) (insert_by_run_at t rs)
unfolding insert_by_run_at
insert-NotBefore n t [] h hs = (h, tt)
insert-NotBefore n t (r ∷ rs) h hs = elim (Bool-cases (leb t.next_run_at r.next_run_at)) [
  | inl first ↦ rw first (h, hs)
  | inr later ↦ rw later (hs.0, insert-NotBefore n t rs h hs.1)
]

insert-Sorted :
    (t : ProcessingTask) (rs : List ProcessingTask) → Sorted rs → Sorted (insert_by_run_at t rs)
unfolding insert_by_run_at
insert-Sorted t [] s = (tt, tt)
insert-Sorted t (r ∷ rs) s = elim (Bool-cases (leb t.next_run_at r.next_run_at)) [
  | inl first ↦
      let le : t.next_run_at ≤ r.next_run_at = ground arith in
      rw first ((le, All-mono _ _ rs (λ u h. omega arith) s.0), s)
  | inr later ↦
      rw later (insert-NotBefore r.next_run_at t rs (ground arith) s.0, insert-Sorted t rs s.1)
]

sort-Sorted : (rs : List ProcessingTask) → Sorted (sort_by_run_at rs)
unfolding sort_by_run_at
sort-Sorted [] = tt
sort-Sorted (r ∷ rs) = insert-Sorted r (sort_by_run_at rs) (sort-Sorted rs)

All-drop {κ} :
    (P : ProcessingTask → Type κ) (n : ℕ) (rs : List ProcessingTask) → All P rs → All P (drop n rs)
All-drop P zero rs h = h
All-drop P (suc n) [] h = tt
All-drop P (suc n) (r ∷ rs) h = All-drop P n rs h.1

take-before-drop :
    (n : ℕ) (rs : List ProcessingTask)
    → Sorted rs
    → All (λ r. All (NotBefore r.next_run_at) (drop n rs)) (take n rs)
take-before-drop zero rs s = tt
take-before-drop (suc n) [] s = tt
take-before-drop (suc n) (r ∷ rs) s = (All-drop _ n rs s.0, take-before-drop n rs s.1)

-- The due rows, no other transaction holding them, split into the chosen ones and the rest: as many
-- are chosen as the limit allows, and none of the rest was to run before a chosen one.
pub due_rows-earliest :
    (now : ℕ) (lanes : List TaskLane) (limit : ℕ) (row_locked : ℕ → Bool) (db : Db)
    → let due = select (λ t. is_due now lanes t && not (row_locked t.id)) db.tasks in
      let chosen = due_rows now lanes limit row_locked db in
      (rest : List ProcessingTask) × Perm (chosen ++ rest) due
      × (length chosen ≡ min limit (length (chosen ++ rest)))
      × All (λ r. All (NotBefore r.next_run_at) rest) chosen
unfolding due_rows
due_rows-earliest now lanes limit row_locked db =
    let due = select (λ t. is_due now lanes t && not (row_locked t.id)) db.tasks in
    let sorted = sort_by_run_at due in
    (
      drop limit sorted,
      rw (take-append-drop limit sorted) (sort-perm due),
      rw (take-append-drop limit sorted) (length-take limit sorted),
      take-before-drop limit sorted (sort-Sorted due),
    )
