-- ===== src/Endpoint.antt =====
-- src/api/endpoints.py: what happens when the telephony provider reports the end of a call. Python's
-- `str.lower` and the texts of values that an f-string shows are arguments. The clock stands still
-- during one request.
pub mod Loading
pub mod Rows
pub mod Outcome
pub mod Skipped
pub mod Agreement
mod Tests
use post_call_processing_pip.Prelude.{
  ℕ, String, Bool, true, false, List, [], ◌∷◌, ◌++◌, Option, none, some, find, ◌==◌, str_eq, not,
  if◌then◌else◌,
}
use post_call_processing_pip.Prelude.Integers.{ℤ}
use post_call_processing_pip.Json.{
  Json, Items, Fields, null, bool, num, str, instant, arr, obj, nil, cons, field, end, dict, get,
  get_or_null, get_or,
}
use post_call_processing_pip.Models.{
  Interaction, InteractionStatus, AnalysisStatus, RecordingStatus, ProcessingTask, TaskStep,
  TaskLane,
}
use post_call_processing_pip.Context.{Context, or_text}
use post_call_processing_pip.Db.{Db, Error, Result, ok, err, type_error, ◌>>=◌, update_interaction}
use post_call_processing_pip.Dispatcher.{NewStep, enqueue_step}
use post_call_processing_pip.Harness.{Message}
use post_call_processing_pip.Strings.{join}
use post_call_processing_pip.Classifier.{Lane, Classification, classify_transcript}
use post_call_processing_pip.Workers.Recording.{text_or_null}
use post_call_processing_pip.Endpoint.Loading.{
  Loaded, find_interaction, load_interaction, loaded_row, mock_interaction, mock_transcript,
  transcript_lines, turn_texts,
}

pub record InteractionEndRequest : Type 0 where
  pub call_sid : Option String
  pub duration_seconds : Option ℤ
  pub additional_data : Fields

pub record InteractionEndResponse : Type 0 where
  pub interaction_id : ℕ
  pub correlation_id : String
  pub lane : Lane

abbrev pub is_text : Option String → Bool
is_text none = false
is_text (some s) = not (str_eq s "")

-- request.call_sid or interaction.get("call_sid", "")
abbrev pub call_sid_of : InteractionEndRequest → Loaded → Option String
call_sid_of r i = if is_text r.call_sid then r.call_sid else i.call_sid

abbrev pub base_payload :
    Context → ℕ → InteractionEndRequest → Loaded → List String → (ℕ → Json) → Fields
unfolding join
base_payload c session_id r i lines id_json = dict (
    ("session_id", id_json session_id)
    ∷ ("lead_id", id_json i.lead_id)
    ∷ ("agent_id", id_json i.agent_id)
    ∷ ("call_sid", text_or_null (call_sid_of r i))
    ∷ ("transcript_text", str (join "\n" lines))
    ∷ ("conversation_data", obj i.conversation_data)
    ∷ ("additional_data", obj r.additional_data)
    ∷ ("ended_at", instant c.now)
    ∷ ("exotel_account_id", i.exotel_account_id)
    ∷ [])

abbrev pub lane_of : Lane → TaskLane
lane_of Lane.hot = TaskLane.hot
lane_of Lane.cold = TaskLane.cold
lane_of Lane.skip = TaskLane.skip

abbrev pub analysis_status_of : Lane → AnalysisStatus
analysis_status_of Lane.skip = AnalysisStatus.skipped
analysis_status_of _ = AnalysisStatus.pending

-- The values of the UPDATE.
abbrev pub ended_row :
    Context → InteractionEndRequest → Lane → Option String → Interaction → Interaction
ended_row c r lane call_sid i = record i {
  status = InteractionStatus.ended;
  ended_at = some c.now;
  duration_seconds = r.duration_seconds;
  call_sid = r.call_sid;
  correlation_id = some c.uuid_hex;
  processing_lane = some (lane_of lane);
  analysis_status = analysis_status_of lane;
  recording_status =
      if is_text call_sid then RecordingStatus.pending else RecordingStatus.no_recording;
}

-- The arguments that all three calls of `enqueue_step` share.
abbrev pub step_for : Context → ℕ → Loaded → TaskStep → TaskLane → Fields → ℕ → NewStep
step_for c id i step lane payload estimated = record {
  interaction_id = id;
  customer_id = i.customer_id;
  campaign_id = i.campaign_id;
  correlation_id = some c.uuid_hex;
  step = step;
  lane = lane;
  payload = payload;
  estimated_tokens = estimated;
  next_run_at = none;
  max_attempts = 6;
}

abbrev pub recording_step : Context → ℕ → Loaded → Option String → NewStep
recording_step c id i call_sid =
    step_for c id i TaskStep.recording_poll TaskLane.cold
      (dict (("call_sid", text_or_null call_sid) ∷ ("exotel_account_id", i.exotel_account_id) ∷ []))
      0

abbrev pub skip_payload : Json → Fields
skip_payload lead_id = dict (
    ("lead_id", lead_id)
    ∷ ("analysis_result", obj (dict (("call_stage", str "short_call") ∷ [])))
    ∷ [])

-- The step that the lane asks for, its own lane, its payload and its estimate.
abbrev pub step_of : Lane → TaskStep
step_of Lane.skip = TaskStep.lead_stage
step_of _ = TaskStep.llm_analysis

abbrev pub task_lane : Lane → TaskLane
task_lane Lane.cold = TaskLane.cold
task_lane _ = TaskLane.hot

abbrev pub payload_of : Lane → Fields → Json → Fields
payload_of Lane.skip payload lead_id = skip_payload lead_id
payload_of _ payload lead_id = payload

abbrev pub estimate_of : Lane → ℕ
estimate_of Lane.skip = 0
estimate_of _ = 1500

abbrev pub lane_step : Context → ℕ → Loaded → Lane → Fields → (ℕ → Json) → NewStep
lane_step c id i lane payload id_json =
    step_for c id i (step_of lane) (task_lane lane) (payload_of lane payload (id_json i.lead_id))
      (estimate_of lane)

-- The Celery task that the lane's row is sent to.
abbrev pub lane_task : Lane → String
lane_task Lane.skip = "dispatch.lead_stage"
lane_task Lane.hot = "dispatch.llm_analysis_hot"
lane_task Lane.cold = "dispatch.llm_analysis_cold"

abbrev pub poll_message : ℕ → Message
poll_message id = record { task_name = "dispatch.recording_poll"; task_id = id }

unfoldable pub enqueue_recording :
    Context → ℕ → Loaded → Option String → Db → Result (List Message × Db)
unfolding enqueue_step
enqueue_recording c id i call_sid db =
    if is_text call_sid
    then (do
      (t, db') ← enqueue_step c (recording_step c id i call_sid) db
      ok (poll_message t.id ∷ [], db'))
    else ok ([], db)

-- From the UPDATE on: the messages sent after the commit, and the tables.
unfoldable pub end_call :
    Context
    → ℕ
    → InteractionEndRequest
    → Loaded
    → Lane
    → Fields
    → (ℕ → Json)
    → Db
    → Result (List Message × Db)
unfolding enqueue_recording
end_call c id r i lane payload id_json db =
    let updated = update_interaction id (ended_row c r lane (call_sid_of r i)) db in
    (do
      (sent, db') ← enqueue_recording c id i (call_sid_of r i) updated
      (t, db'') ← enqueue_step c (lane_step c id i lane payload id_json) db'
      ok (sent ++ record { task_name = lane_task lane; task_id = t.id } ∷ [], db''))

-- How a request ends: a response with what was committed and sent, or an exception, which rolls the
-- transaction back before anything is sent.
pub record Served : Type 0 where
  pub response : InteractionEndResponse
  pub sent : List Message
  pub db : Db

abbrev pub served : ℕ → Context → Lane → List Message × Db → Served
served id c lane (sent, db) = record {
  response = record { interaction_id = id; correlation_id = c.uuid_hex; lane = lane };
  sent = sent;
  db = db;
}

-- end_interaction
unfoldable pub end_interaction :
    (String → String)
    → (Json → String)
    → (ℕ → Json)
    → Context
    → ℕ
    → ℕ
    → InteractionEndRequest
    → Db
    → Result Served
unfolding load_interaction classify_transcript transcript_lines end_call
end_interaction lower text id_json c session_id id r db =
    let i = load_interaction id db in
    let lane = (classify_transcript lower [] i.conversation_data).lane in
    (do
      lines ← transcript_lines text (get_or (arr nil) "transcript" i.conversation_data)
      ended ← end_call c id r i lane (base_payload c session_id r i lines id_json) id_json db
      ok (served id c lane ended))
