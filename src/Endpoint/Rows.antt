-- ===== src/Endpoint/Rows.antt =====
-- src/api/endpoints.py: what the two calls of `enqueue_step` leave in the task table.
use mathlib.Core.List.{Forall₂}
use post_call_processing_pip.Prelude.{
  ℕ, String, ◌≡◌, refl, ◌≢◌, ◌⊎◌, inl, inr, true, false, List, [], ◌∷◌, Option, some, arith,
  Bool-cases, ◌==◌,
}
use post_call_processing_pip.Models.{Interaction, ProcessingTask, TaskStep, same_step}
use post_call_processing_pip.Context.{Context}
use post_call_processing_pip.Db.{Db, find_step, update_rows}
use post_call_processing_pip.Dispatcher.Enqueue.{
  add_step-interactions, Enqueued, add_step-Enqueued, add_step_other, UniqueSteps,
  add_step-UniqueSteps,
}
use post_call_processing_pip.Harness.{Message}
use post_call_processing_pip.Dispatcher.{add_step, enqueue_step}
use post_call_processing_pip.Dispatcher.Enqueue.{
  enqueue_step-add_step, enqueue_step_ok, enqueue_step_refused,
}
use post_call_processing_pip.Db.{ok, err, integrity_error, has_interaction}
use post_call_processing_pip.Db.Rows.{bind_ok, ok_injective}
use post_call_processing_pip.Endpoint.{is_text, recording_step, poll_message, enqueue_recording}
use post_call_processing_pip.Prelude.{any, none, if◌then◌else◌}
use post_call_processing_pip.Endpoint.Loading.{Loaded}

-- A row of the id gets the values of the update, and any other row stays as it is.
abbrev pub Updated : ℕ → (Interaction → Interaction) → Interaction → Interaction → Type 0
Updated id f r r' = ((r.id ≡ id) × (r' ≡ f r)) ⊎ ((r.id ≢ id) × (r' ≡ r))

pub update_rows-Updated :
    (id : ℕ) (f : Interaction → Interaction) (rs : List Interaction)
    → Forall₂ (Updated id f) rs (update_rows id f rs)
update_rows-Updated id f [] = Forall₂.nil
update_rows-Updated id f (r ∷ rs) = elim (Bool-cases (r.id == id)) [
  | inl same ↦ rw same (Forall₂.cons (inl (ground arith, refl)) (update_rows-Updated id f rs))
  | inr other ↦ rw other (Forall₂.cons (inr (ground arith, refl)) (update_rows-Updated id f rs))
]

-- What the part about the recording returns and leaves where it does not raise.
unfoldable pub add_recording : Context → ℕ → Loaded → Option String → Db → List Message × Db
unfolding add_step
add_recording c id i call_sid db =
    if is_text call_sid
    then (let (t, db') = add_step c (recording_step c id i call_sid) db in
        (poll_message t.id ∷ [], db'))
    else ([], db)

-- What the part about the recording does, for a call with an id and for one without.
pub data RecordingRow (c : Context) (id : ℕ) (i : Loaded) (call_sid : Option String) (db : Db)
    (sent : List Message) (db' : Db) : Type 0 where
  polled :
      (t : ProcessingTask)
      → is_text call_sid ≡ true
      → find_step id TaskStep.recording_poll db' ≡ some t
      → Enqueued (recording_step c id i call_sid) db t
      → sent ≡ record { task_name = "dispatch.recording_poll"; task_id = t.id } ∷ []
      → RecordingRow c id i call_sid db sent db'
  no_recording :
      is_text call_sid ≡ false
      → find_step id TaskStep.recording_poll db' ≡ find_step id TaskStep.recording_poll db
      → sent ≡ []
      → RecordingRow c id i call_sid db sent db'

module _ (c : Context) (id : ℕ) (i : Loaded) (call_sid : Option String) (db : Db) where
  pub add_recording-RecordingRow :
      let (sent, db') = add_recording c id i call_sid db in RecordingRow c id i call_sid db sent db'
  unfolding add_recording
  add_recording-RecordingRow = elim (Bool-cases (is_text call_sid)) [
    | inl call ↦
        let (found, from) = add_step-Enqueued c (recording_step c id i call_sid) db in
        rw call (RecordingRow.polled _ call found from refl)
    | inr no_call ↦ rw no_call (RecordingRow.no_recording no_call refl refl)
  ]

  pub add_recording_other :
      (s : TaskStep)
      → same_step TaskStep.recording_poll s ≡ false
      → find_step id s (add_recording c id i call_sid db).1 ≡ find_step id s db
  unfolding add_recording
  add_recording_other s e = elim (Bool-cases (is_text call_sid)) [
    | inl call ↦ rw call (add_step_other c (recording_step c id i call_sid) db id s e)
    | inr no_call ↦ rw no_call
  ]

  pub add_recording-UniqueSteps :
      UniqueSteps db.tasks → UniqueSteps (add_recording c id i call_sid db).1.tasks
  unfolding add_recording
  add_recording-UniqueSteps u = elim (Bool-cases (is_text call_sid)) [
    | inl call ↦ rw call (add_step-UniqueSteps c (recording_step c id i call_sid) db u)
    | inr no_call ↦ rw no_call u
  ]

  pub add_recording-interactions :
      (add_recording c id i call_sid db).1.interactions ≡ db.interactions
  unfolding add_recording
  add_recording-interactions = elim (Bool-cases (is_text call_sid)) [
    | inl call ↦ rw call (add_step-interactions c (recording_step c id i call_sid) db)
    | inr no_call ↦ rw no_call
  ]

  pub enqueue_recording-add_recording :
      has_interaction id db ≡ true
      → enqueue_recording c id i call_sid db ≡ ok (add_recording c id i call_sid db)
  unfolding enqueue_recording add_recording
  enqueue_recording-add_recording h = elim (Bool-cases (is_text call_sid)) [
    | inl call ↦ rw call (rw (enqueue_step-add_step c (recording_step c id i call_sid) db h) refl)
    | inr no_call ↦ rw no_call refl
  ]

  pub enqueue_recording_ok :
      (r : List Message × Db)
      → enqueue_recording c id i call_sid db ≡ ok r
      → add_recording c id i call_sid db ≡ r
  unfolding enqueue_recording add_recording
  enqueue_recording_ok r e = elim (Bool-cases (is_text call_sid)) [
    | inl call ↦
        let n = recording_step c id i call_sid in
        let (x, how, e') = bind_ok (enqueue_step c n db) _ r (rw call at e) in
        rw (call, enqueue_step_ok c n db x how) (ok_injective _ r e')
    | inr no_call ↦ rw no_call (ok_injective _ r (rw no_call at e))
  ]

  pub enqueue_recording_refused :
      is_text call_sid ≡ true
      → find_step id TaskStep.recording_poll db ≡ none
      → has_interaction id db ≡ false
      → enqueue_recording c id i call_sid db ≡ err integrity_error
  unfolding enqueue_recording
  enqueue_recording_refused call new missing =
      rw (call, enqueue_step_refused c (recording_step c id i call_sid) db new missing) refl

  pub has_interaction-add_recording :
      (j : ℕ)
      → has_interaction j db ≡ true
      → has_interaction j (add_recording c id i call_sid db).1 ≡ true
  has_interaction-add_recording j h = rw add_recording-interactions h

-- An UPDATE that keeps the keys keeps the interactions there.
pub has_interaction-update :
    (j id : ℕ) (f : Interaction → Interaction) (rs : List Interaction)
    → ((r : Interaction) → (f r).id ≡ r.id)
    → any (λ r. r.id == j) (update_rows id f rs) ≡ any (λ r. r.id == j) rs
has_interaction-update j id f [] h = refl
has_interaction-update j id f (r ∷ rs) h = elim (Bool-cases (r.id == id)) [
  | inl same ↦ rw same (rw (h r, has_interaction-update j id f rs h) refl)
  | inr other ↦ rw other (rw (has_interaction-update j id f rs h) refl)
]
