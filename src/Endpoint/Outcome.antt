-- ===== src/Endpoint/Outcome.antt =====
-- src/api/endpoints.py: how a request to end an interaction ends.
use mathlib.Core.List.{Forall₂}
use mathlib.Core.Path.{ap}
use post_call_processing_pip.Prelude.{
  ◌==◌, inl, inr, arith, ℕ, String, ◌≡◌, refl, ◌∙◌, false, List, [], ◌∷◌, ◌++◌, Option, none, some,
}
use post_call_processing_pip.Json.{get_or, Json, Fields, arr, nil}
use post_call_processing_pip.Models.{ProcessingTask, TaskStep, same_step}
use post_call_processing_pip.Context.{Context}
use post_call_processing_pip.Db.{Db, ok, find_step, update_interaction}
use post_call_processing_pip.Dispatcher.{add_step}
use post_call_processing_pip.Dispatcher.Enqueue.{
  Enqueued, add_step-Enqueued, add_step_other, add_step-interactions, UniqueSteps,
  add_step-UniqueSteps,
}
use post_call_processing_pip.Harness.{Message}
use post_call_processing_pip.Classifier.{Lane, classify_transcript}
use post_call_processing_pip.Db.{err, integrity_error, has_interaction}
use post_call_processing_pip.Db.Rows.{bind_ok, ok_injective}
use post_call_processing_pip.Dispatcher.{enqueue_step}
use post_call_processing_pip.Dispatcher.Enqueue.{enqueue_step-add_step, enqueue_step_ok}
use post_call_processing_pip.Prelude.{Bool-cases, true, any}
use post_call_processing_pip.Endpoint.{
  is_text, enqueue_recording, ended_row, InteractionEndRequest, Served, call_sid_of, ended_row,
  lane_step, lane_task, end_call, base_payload, end_interaction, served, step_of, Interaction, find,
}
use post_call_processing_pip.Endpoint.Loading.{
  Loaded, load_interaction, find_interaction, mock_interaction, transcript_lines,
}
use post_call_processing_pip.Endpoint.Rows.{
  add_recording, enqueue_recording-add_recording, enqueue_recording_ok, enqueue_recording_refused,
  has_interaction-add_recording, has_interaction-update, Updated, update_rows-Updated, RecordingRow,
  polled, no_recording, add_recording-RecordingRow, add_recording_other, add_recording-UniqueSteps,
  add_recording-interactions,
}

-- The one of the two steps that a call of this lane does not get yet.
abbrev pub later_step : Lane → TaskStep
later_step Lane.skip = TaskStep.llm_analysis
later_step _ = TaskStep.lead_stage

-- What the committed transaction of a call has done, and what was sent after it.
pub record CallEnded (c : Context) (id : ℕ) (r : InteractionEndRequest) (i : Loaded) (lane : Lane)
    (payload : Fields) (id_json : ℕ → Json) (db : Db) (sent : List Message) (db' : Db)
    : Type 0 where
  pub updated :
      Forall₂ (Updated id (ended_row c r lane (call_sid_of r i))) db.interactions db'.interactions
  pub first : List Message
  pub recording : RecordingRow c id i (call_sid_of r i) db first db'
  pub task : ProcessingTask
  pub stored : find_step id (step_of lane) db' ≡ some task
  pub enqueued : Enqueued (lane_step c id i lane payload id_json) db task
  pub not_yet : find_step id (later_step lane) db' ≡ find_step id (later_step lane) db
  pub no_signal : find_step id TaskStep.signal_jobs db' ≡ find_step id TaskStep.signal_jobs db
  pub all_sent : sent ≡ first ++ record { task_name = lane_task lane; task_id = task.id } ∷ []

-- What was done to the recording's row, seen from tables with the same such row on either side.
RecordingRow-between :
    (c : Context) (id : ℕ) (i : Loaded) (call_sid : Option String) (db0 db : Db)
    (sent : List Message) (db' db'' : Db)
    → find_step id TaskStep.recording_poll db ≡ find_step id TaskStep.recording_poll db0
    → find_step id TaskStep.recording_poll db'' ≡ find_step id TaskStep.recording_poll db'
    → RecordingRow c id i call_sid db sent db'
    → RecordingRow c id i call_sid db0 sent db''
RecordingRow-between c id i call_sid db0 db sent db' db'' e0 e (polled t call found from all) =
    polled t call (e ∙ found) (rw e0 at from) all
RecordingRow-between c id i call_sid db0 db sent db' db'' e0 e
      (no_recording no_call same none_sent) =
    no_recording no_call (e ∙ same ∙ e0) none_sent

not_recording : (lane : Lane) → same_step (step_of lane) TaskStep.recording_poll ≡ false
not_recording lane = ground arith

recording_not : (lane : Lane) → same_step TaskStep.recording_poll (step_of lane) ≡ false
recording_not lane = ground arith

not_later : (lane : Lane) → same_step (step_of lane) (later_step lane) ≡ false
not_later lane = ground arith

recording_not_later : (lane : Lane) → same_step TaskStep.recording_poll (later_step lane) ≡ false
recording_not_later lane = ground arith

not_signal : (lane : Lane) → same_step (step_of lane) TaskStep.signal_jobs ≡ false
not_signal lane = ground arith

-- What the request's transaction sends and leaves where it does not raise.
unfoldable pub ended_call :
    Context
    → ℕ
    → InteractionEndRequest
    → Loaded
    → Lane
    → Fields
    → (ℕ → Json)
    → Db
    → List Message × Db
unfolding add_recording
ended_call c id r i lane payload id_json db =
    let updated = update_interaction id (ended_row c r lane (call_sid_of r i)) db in
    let (sent, db') = add_recording c id i (call_sid_of r i) updated in
    let (t, db'') = add_step c (lane_step c id i lane payload id_json) db' in
    (sent ++ record { task_name = lane_task lane; task_id = t.id } ∷ [], db'')

module _ (c : Context) (id : ℕ) (r : InteractionEndRequest) (i : Loaded) (payload : Fields)
    (id_json : ℕ → Json) (db : Db) where
  -- The tables once the interaction is updated and the recording poll enqueued.
  abbrev recorded : Lane → List Message × Db
  recorded lane =
      add_recording c id i (call_sid_of r i)
        (update_interaction id (ended_row c r lane (call_sid_of r i)) db)

  pub ended_call-CallEnded :
      (lane : Lane)
      → let (sent, db') = ended_call c id r i lane payload id_json db in
        CallEnded c id r i lane payload id_json db sent db'
  unfolding ended_call
  ended_call-CallEnded lane =
      let updated = update_interaction id (ended_row c r lane (call_sid_of r i)) db in
      let (first, db1) = recorded lane in
      let n = lane_step c id i lane payload id_json in
      let (found, from) = add_step-Enqueued c n db1 in
      let kept =
        λ (s : TaskStep) (e : same_step (step_of lane) s ≡ false). add_step_other c n db1 id s e in
      let before = λ (s : TaskStep) (e : same_step TaskStep.recording_poll s ≡ false).
        add_recording_other c id i (call_sid_of r i) updated s e in
      record {
        updated =
            rw
              (
                add_step-interactions c n db1,
                add_recording-interactions c id i (call_sid_of r i) updated,
              )
              (update_rows-Updated id _ db.interactions);
        first = first;
        recording =
            RecordingRow-between c id i (call_sid_of r i) db updated first db1 _ refl
              (kept TaskStep.recording_poll (not_recording lane))
              (add_recording-RecordingRow c id i (call_sid_of r i) updated);
        task = (add_step c n db1).0;
        stored = found;
        enqueued = rw (← before (step_of lane) (recording_not lane)) from;
        not_yet =
            kept (later_step lane) (not_later lane)
            ∙ before (later_step lane) (recording_not_later lane);
        no_signal = kept TaskStep.signal_jobs (not_signal lane) ∙ before TaskStep.signal_jobs refl;
        all_sent = refl;
      }

  pub ended_call-UniqueSteps :
      (lane : Lane)
      → UniqueSteps db.tasks
      → UniqueSteps (ended_call c id r i lane payload id_json db).1.tasks
  unfolding ended_call
  ended_call-UniqueSteps lane u =
      add_step-UniqueSteps c (lane_step c id i lane payload id_json) _
        (add_recording-UniqueSteps c id i (call_sid_of r i) _ u)

  updated-has :
      (lane : Lane)
      → has_interaction id (update_interaction id (ended_row c r lane (call_sid_of r i)) db)
        ≡ has_interaction id db
  updated-has lane =
      has_interaction-update id id (ended_row c r lane (call_sid_of r i)) db.interactions
        (λ x. refl)

  end_call-ended_call :
      (lane : Lane)
      → has_interaction id db ≡ true
      → end_call c id r i lane payload id_json db ≡ ok (ended_call c id r i lane payload id_json db)
  unfolding end_call ended_call
  end_call-ended_call lane h =
      let updated = update_interaction id (ended_row c r lane (call_sid_of r i)) db in
      let there : has_interaction id updated ≡ true = updated-has lane ∙ h in
      rw
        (
          enqueue_recording-add_recording c id i (call_sid_of r i) updated there,
          enqueue_step-add_step c (lane_step c id i lane payload id_json)
              (add_recording c id i (call_sid_of r i) updated).1
              (has_interaction-add_recording c id i (call_sid_of r i) updated id there),
        )
        refl

  pub end_call_ok :
      (lane : Lane) (out : List Message × Db)
      → end_call c id r i lane payload id_json db ≡ ok out
      → ended_call c id r i lane payload id_json db ≡ out
  unfolding end_call ended_call
  end_call_ok lane out e =
      let updated = update_interaction id (ended_row c r lane (call_sid_of r i)) db in
      let n = lane_step c id i lane payload id_json in
      let ((sent, db'), first, e1) =
        bind_ok (enqueue_recording c id i (call_sid_of r i) updated) _ out e in
      let ((t, db''), second, e2) = bind_ok (enqueue_step c n db') _ out e1 in
      rw
        (
          enqueue_recording_ok c id i (call_sid_of r i) updated (sent, db') first,
          enqueue_step_ok c n db' (t, db'') second,
        )
        (ok_injective _ out e2)

  end_call_refused :
      (lane : Lane)
      → is_text (call_sid_of r i) ≡ true
      → find_step id TaskStep.recording_poll db ≡ none
      → has_interaction id db ≡ false
      → end_call c id r i lane payload id_json db ≡ err integrity_error
  unfolding end_call
  end_call_refused lane call new missing =
      let updated = update_interaction id (ended_row c r lane (call_sid_of r i)) db in
      rw
        (enqueue_recording_refused c id i (call_sid_of r i) updated call new
          (updated-has lane ∙ missing))
        refl

-- For an interaction that is in the table the request is served when the transcript can be iterated:
-- the response has the lane of the classification and the request's correlation id. The interaction is
-- updated and no other; a call with an id has a recording poll; a skipped call has a lead-stage row
-- and any other an analysis row, the other of these two steps and the signal jobs being left as they
-- were; each of these rows is sent on; and the rows stay within the UNIQUE constraint, if they were.
pub end_interaction_total :
    (lower : String → String) (text : Json → String) (id_json : ℕ → Json) (c : Context)
    (session_id id : ℕ) (r : InteractionEndRequest) (db : Db) (lines : List String)
    → has_interaction id db ≡ true
    → UniqueSteps db.tasks
    → transcript_lines text
        (get_or (arr nil) "transcript" (load_interaction id db).conversation_data)
      ≡ ok lines
    → let i = load_interaction id db in
      let lane = (classify_transcript lower [] i.conversation_data).lane in
      (s : Served) × (end_interaction lower text id_json c session_id id r db ≡ ok s)
      × (s.response ≡ record { interaction_id = id; correlation_id = c.uuid_hex; lane = lane })
      × UniqueSteps s.db.tasks
      × CallEnded c id r i lane (base_payload c session_id r i lines id_json) id_json db s.sent s.db
unfolding end_interaction
end_interaction_total lower text id_json c session_id id r db lines there u e =
    let i = load_interaction id db in
    let lane = (classify_transcript lower [] i.conversation_data).lane in
    let payload = base_payload c session_id r i lines id_json in
    (
      served id c lane (ended_call c id r i lane payload id_json db),
      rw (end_interaction, e)
          (rw (end_call-ended_call c id r i payload id_json db lane there) refl),
      refl,
      ended_call-UniqueSteps c id r i payload id_json db lane u,
      ended_call-CallEnded c id r i payload id_json db lane,
    )

load_interaction_missing :
    (id : ℕ) (db : Db) → find_interaction id db ≡ none → load_interaction id db ≡ mock_interaction
unfolding load_interaction
load_interaction_missing id db missing = rw (missing, load_interaction)

mock_lines :
    (text : Json → String) (id : ℕ) (db : Db)
    → find_interaction id db ≡ none
    → (lines : List String) × (transcript_lines text
          (get_or (arr nil) "transcript" (load_interaction id db).conversation_data)
        ≡ ok lines)
unfolding transcript_lines
mock_lines text id db missing = rw (load_interaction_missing id db missing) (_, refl)

has_interaction_missing :
    (id : ℕ) (rs : List Interaction)
    → find (λ i. i.id == id) rs ≡ none
    → any (λ i. i.id == id) rs ≡ false
has_interaction_missing id [] h = refl
has_interaction_missing id (r ∷ rs) h = elim (Bool-cases (r.id == id)) [
  | inl here ↦ absurd (cc (rw here at h))
  | inr there ↦ rw there (has_interaction_missing id rs (rw there at h))
]

mock_call : (r : InteractionEndRequest) → is_text (call_sid_of r mock_interaction) ≡ true
mock_call r = elim (Bool-cases (is_text r.call_sid)) [
  | inl given ↦ rw given given
  | inr none_given ↦ rw none_given refl
]

-- A request for an id that no interaction has, and no recording poll either, gets no further than the
-- first insert: it raises an IntegrityError, and nothing is committed or sent.
pub end_interaction_unknown :
    (lower : String → String) (text : Json → String) (id_json : ℕ → Json) (c : Context)
    (session_id id : ℕ) (r : InteractionEndRequest) (db : Db)
    → find_interaction id db ≡ none
    → find_step id TaskStep.recording_poll db ≡ none
    → end_interaction lower text id_json c session_id id r db ≡ err integrity_error
unfolding end_interaction
end_interaction_unknown lower text id_json c session_id id r db missing new =
    let mock = load_interaction_missing id db missing in
    let (lines, read) = mock_lines text id db missing in
    let i = load_interaction id db in
    let lane = (classify_transcript lower [] i.conversation_data).lane in
    let call : is_text (call_sid_of r i) ≡ true =
      ap (λ (x : Loaded). is_text (call_sid_of r x)) mock ∙ mock_call r in
    rw (end_interaction, read)
      (rw
        (end_call_refused c id r i (base_payload c session_id r i lines id_json) id_json db lane
          call new (has_interaction_missing id db.interactions missing))
        refl)
