-- ===== src/Dispatcher/Enqueue.antt =====
-- src/scheduler/task_dispatcher.py, `enqueue_step`: one row for each step of an interaction.
use post_call_processing_pip.Prelude.{
  ◌⊎◌, ℕ, ◌≡◌, refl, inl, inr, List, [], ◌∷◌, ◌++◌, none, some, true, false, arith, find,
  Option-cases,
}
use post_call_processing_pip.Models.{ProcessingTask, TaskStep, TaskStatus, same_step, same_step_iff}
use post_call_processing_pip.Audit.{record_event}
use post_call_processing_pip.Context.{Context}
use post_call_processing_pip.Db.{Db, is_step, find_step}
use post_call_processing_pip.Db.{has_interaction, ok, err, integrity_error}
use post_call_processing_pip.Db.Rows.{ok_injective}
use post_call_processing_pip.Prelude.{Bool-cases}
use post_call_processing_pip.Dispatcher.{
  enqueue_step, NewStep, new_task, enqueue_new, add_step, record_event,
}

find-append_new :
    (i : ℕ) (s : TaskStep) (rs : List ProcessingTask) (t : ProcessingTask)
    → find (is_step i s) rs ≡ none
    → is_step i s t ≡ true
    → find (is_step i s) (rs ++ t ∷ []) ≡ some t
find-append_new i s [] t h e = rw e
find-append_new i s (r ∷ rs) t h e = ground (arith, find-append_new i s rs t)

add_step_found :
    (c : Context) (n : NewStep) (db : Db) (t : ProcessingTask)
    → find_step n.interaction_id n.step db ≡ some t
    → add_step c n db ≡ (t, db)
unfolding add_step
add_step_found c n db t h = rw (h, add_step)

add_step_missing :
    (c : Context) (n : NewStep) (db : Db)
    → find_step n.interaction_id n.step db ≡ none
    → add_step c n db ≡ enqueue_new c n db
unfolding add_step
add_step_missing c n db h = rw (h, add_step)

is_step-new_task :
    (c : Context) (n : NewStep) (id : ℕ) → is_step n.interaction_id n.step (new_task c n id) ≡ true
is_step-new_task c n id = ground (arith, same_step_iff n.step n.step)

abbrev pub Absent : ℕ → TaskStep → List ProcessingTask → Type 0
Absent i s rs = find (is_step i s) rs ≡ none

-- The UNIQUE constraint on (interaction_id, step).
abbrev pub UniqueSteps : List ProcessingTask → Type 0
UniqueSteps [] = Unit {0}
UniqueSteps (r ∷ rs) = Absent r.interaction_id r.step rs × UniqueSteps rs

same_step_sym : (s t : TaskStep) → same_step s t ≡ same_step t s
same_step_sym s t = ground arith

Absent-append :
    (i : ℕ) (s : TaskStep) (rs : List ProcessingTask) (t : ProcessingTask)
    → Absent i s rs
    → is_step i s t ≡ false
    → Absent i s (rs ++ t ∷ [])
Absent-append i s [] t h e = rw e
Absent-append i s (r ∷ rs) t h e = ground (arith, Absent-append i s rs t)

UniqueSteps-append :
    (rs : List ProcessingTask) (t : ProcessingTask)
    → UniqueSteps rs
    → Absent t.interaction_id t.step rs
    → UniqueSteps (rs ++ t ∷ [])
UniqueSteps-append [] t u a = (refl, tt)
UniqueSteps-append (r ∷ rs) t u a = (
  Absent-append r.interaction_id r.step rs t u.0 (ground (arith, same_step_sym r.step t.step)),
  UniqueSteps-append rs t u.1 (ground arith),
)

-- The rows stay within the table's UNIQUE constraint, so its INSERT is never refused.
pub add_step-UniqueSteps :
    (c : Context) (n : NewStep) (db : Db)
    → UniqueSteps db.tasks
    → UniqueSteps (add_step c n db).1.tasks
unfolding record_event
add_step-UniqueSteps c n db u = elim (Option-cases (find_step n.interaction_id n.step db)) [
  | inl new ↦
      rw (add_step_missing c n db new) (UniqueSteps-append db.tasks (new_task c n db.next_id) u new)
  | inr (t, old) ↦ rw (add_step_found c n db t old) u
]

find-append_other :
    (i : ℕ) (s : TaskStep) (rs : List ProcessingTask) (t : ProcessingTask)
    → is_step i s t ≡ false
    → find (is_step i s) (rs ++ t ∷ []) ≡ find (is_step i s) rs
find-append_other i s [] t e = rw e
find-append_other i s (r ∷ rs) t e = rw (find-append_other i s rs t e)

-- What `add_step` returns is the row that a lookup finds afterwards: the old one, or a new one.
abbrev pub Enqueued : NewStep → Db → ProcessingTask → Type 0
Enqueued n db t =
    (find_step n.interaction_id n.step db ≡ some t)
    ⊎ ((find_step n.interaction_id n.step db ≡ none)
        × (t.customer_id ≡ n.customer_id)
        × (t.payload ≡ n.payload)
        × (t.lane ≡ n.lane)
        × (t.status ≡ TaskStatus.pending))

pub add_step-Enqueued :
    (c : Context) (n : NewStep) (db : Db)
    → let (t, db') = add_step c n db in
      (find_step n.interaction_id n.step db' ≡ some t) × Enqueued n db t
unfolding record_event
add_step-Enqueued c n db = elim (Option-cases (find_step n.interaction_id n.step db)) [
  | inl new ↦ rw (add_step_missing c n db new) (
    find-append_new n.interaction_id n.step db.tasks (new_task c n db.next_id) new
        (is_step-new_task c n db.next_id),
    inr (new, refl, refl, refl, refl),
  )
  | inr (t, old) ↦ rw (add_step_found c n db t old) (old, inl old)
]

-- To enqueue a step leaves the ledger and the interactions alone.
pub add_step-elsewhere :
    (c : Context) (n : NewStep) (db : Db)
    → ((add_step c n db).1.ledger ≡ db.ledger)
      × ((add_step c n db).1.interactions ≡ db.interactions)
unfolding record_event
add_step-elsewhere c n db = elim (Option-cases (find_step n.interaction_id n.step db)) [
  | inl new ↦ rw (add_step_missing c n db new) (refl, refl)
  | inr (t, old) ↦ rw (add_step_found c n db t old) (refl, refl)
]

-- To enqueue another step changes nothing in what a lookup of this one finds.
pub add_step_other :
    (c : Context) (n : NewStep) (db : Db) (i : ℕ) (s : TaskStep)
    → same_step n.step s ≡ false
    → find_step i s (add_step c n db).1 ≡ find_step i s db
unfolding record_event
add_step_other c n db i s e = elim (Option-cases (find_step n.interaction_id n.step db)) [
  | inl new ↦
      rw (add_step_missing c n db new)
        (find-append_other i s db.tasks (new_task c n db.next_id) (ground (arith, e)))
  | inr (t, old) ↦ rw (add_step_found c n db t old)
]

pub add_step-interactions :
    (c : Context) (n : NewStep) (db : Db) → (add_step c n db).1.interactions ≡ db.interactions
unfolding record_event
add_step-interactions c n db = elim (Option-cases (find_step n.interaction_id n.step db)) [
  | inl new ↦ rw (add_step_missing c n db new)
  | inr (t, old) ↦ rw (add_step_found c n db t old)
]

-- With its interaction in the table no insert is refused.
pub enqueue_step-add_step :
    (c : Context) (n : NewStep) (db : Db)
    → has_interaction n.interaction_id db ≡ true
    → enqueue_step c n db ≡ ok (add_step c n db)
unfolding enqueue_step add_step
enqueue_step-add_step c n db h = elim (Option-cases (find_step n.interaction_id n.step db)) [
  | inl new ↦ rw (new, enqueue_step, add_step) (rw h refl)
  | inr (t, old) ↦ rw (old, enqueue_step, add_step) refl
]

-- Where it does not raise, that is what it returns.
pub enqueue_step_ok :
    (c : Context) (n : NewStep) (db : Db) (r : ProcessingTask × Db)
    → enqueue_step c n db ≡ ok r
    → add_step c n db ≡ r
unfolding enqueue_step add_step
enqueue_step_ok c n db r e = elim (Option-cases (find_step n.interaction_id n.step db)) [
  | inl new ↦ elim (Bool-cases (has_interaction n.interaction_id db)) [
    | inl there ↦ rw (new, add_step) (ok_injective _ r (rw there at (rw (new, enqueue_step) at e)))
    | inr missing ↦ absurd (cc (rw missing at (rw (new, enqueue_step) at e)))
  ]
  | inr (t, old) ↦ rw (old, add_step) (ok_injective _ r (rw (old, enqueue_step) at e))
]

-- A new row is refused where the interaction is missing.
pub enqueue_step_refused :
    (c : Context) (n : NewStep) (db : Db)
    → find_step n.interaction_id n.step db ≡ none
    → has_interaction n.interaction_id db ≡ false
    → enqueue_step c n db ≡ err integrity_error
unfolding enqueue_step
enqueue_step_refused c n db new missing = rw (new, enqueue_step) (rw missing refl)

enqueue_step_old :
    (c : Context) (n : NewStep) (db : Db) (t : ProcessingTask)
    → find_step n.interaction_id n.step db ≡ some t
    → enqueue_step c n db ≡ ok (t, db)
unfolding enqueue_step
enqueue_step_old c n db t h = rw (h, enqueue_step) refl

-- Once a step is enqueued, to enqueue the same step of the same interaction again, at any time and with
-- any other arguments, returns the row of the first time and changes nothing.
pub enqueue_step_again :
    (c c' : Context) (n n' : NewStep) (db : Db) (t : ProcessingTask) (db' : Db)
    → n'.interaction_id ≡ n.interaction_id
    → n'.step ≡ n.step
    → enqueue_step c n db ≡ ok (t, db')
    → enqueue_step c' n' db' ≡ ok (t, db')
enqueue_step_again c c' n n' db t db' ei es e =
    let same = enqueue_step_ok c n db (t, db') e in
    let found : find_step n.interaction_id n.step db' ≡ some t =
      rw same at (add_step-Enqueued c n db).0 in
    enqueue_step_old c' n' db' t (rw (ei, es) found)

pub has_interaction-add_step :
    (c : Context) (n : NewStep) (db : Db) (i : ℕ)
    → has_interaction i db ≡ true
    → has_interaction i (add_step c n db).1 ≡ true
has_interaction-add_step c n db i h = rw (add_step-interactions c n db) h
