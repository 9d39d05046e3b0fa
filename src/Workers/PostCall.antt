-- ===== src/Workers/PostCall.antt =====
-- The data of src/services/post_call_processor.py, and what src/tasks/workers/llm_worker.py makes of
-- it: the estimate and the context before the call, and the follow-up steps after it. The processor
-- is an argument of the worker, and the comparison of characters in a regular
-- expression and `datetime.fromisoformat` are Python's.
use Prim.Native.Char.{Char}
use post_call_processing_pip.Prelude.{
  ℕ, ◌+◌, ◌/◌, min, max, String, [], ◌∷◌, Option, none, some, if◌then◌else◌, Bool,
}
use post_call_processing_pip.Prelude.Integers.{ℤ}
use post_call_processing_pip.Json.{
  items_length, fields_length, Json, Fields, str, arr, obj, end, dict, get_or_null, truthy, merge,
}
use post_call_processing_pip.Models.{ProcessingTask, TaskStep, TaskLane}
use post_call_processing_pip.Context.{Context}
use post_call_processing_pip.Db.{Db, Result, ok, err, type_error, value_error, ◌>>=◌}
use post_call_processing_pip.Dispatcher.{NewStep, enqueue_step, add_step}
use post_call_processing_pip.Workers.{or_json, get_or_empty_text}

pub record PostCallContext : Type 0 where
  pub interaction_id : ℕ
  pub session_id : Json
  pub lead_id : Json
  pub campaign_id : ℕ
  pub customer_id : ℕ
  pub agent_id : Json
  pub call_sid : Json
  pub transcript_text : Json
  pub conversation_data : Json
  pub additional_data : Json
  pub ended_at : ℕ
  pub exotel_account_id : Json

-- The fields that the worker reads; the latency is in whole milliseconds, as the worker cuts it.
pub record AnalysisResult : Type 0 where
  pub call_stage : Json
  pub entities : Json
  pub summary : Json
  pub tokens_used : ℤ
  pub latency_ms : ℤ
  pub model : String

-- How `process_post_call` ends.
pub data Processed : Type 0 where
  analysed : AnalysisResult → Processed
  raised : String → Processed

-- What the worker is given.
pub record Llm : Type 0 where
  pub process_post_call : PostCallContext → Processed
  pub fromisoformat : Json → Option ℕ
  -- the comparison of two characters by `re` under IGNORECASE
  pub alike : Char → Char → Bool
  pub text_length : String → ℕ
  -- settings.LLM_AVG_TOKENS_PER_CALL
  pub avg_tokens : ℕ
  -- f"deferred:{reason}"
  pub deferred : String → String
  -- the default of `enqueue_step`
  pub max_attempts : ℕ

-- len(v), for a value that is true
abbrev pub len_of : Llm → Json → Result ℕ
len_of w (str s) = ok (w.text_length s)
len_of w (arr xs) = ok (items_length xs)
len_of w (obj d) = ok (fields_length d)
len_of w _ = err type_error

-- max(avg, min(length // 4 + 500, 6000))
unfoldable pub estimate_of : ℕ → ℕ → ℕ
estimate_of avg length = max avg (min (length / 4 + 500) 6000)

unfoldable pub estimate_tokens : Llm → Json → Result ℕ
unfolding estimate_of truthy
estimate_tokens w transcript =
    if truthy transcript
    then (do length ← len_of w transcript; ok (estimate_of w.avg_tokens length))
    else ok w.avg_tokens

-- datetime.fromisoformat(payload["ended_at"]) if payload.get("ended_at") else now
unfoldable pub ended_at : Llm → Context → Fields → Result ℕ
unfolding get_or_null truthy
ended_at w c payload =
    let v = get_or_null "ended_at" payload in
    if truthy v
    then elim (w.fromisoformat v) [ none ↦ err value_error | some t ↦ ok t ]
    else ok c.now

abbrev pub transcript_of : Fields → Json
unfolding get_or_null
transcript_of payload = or_json (get_or_null "transcript_text" payload) (str "")

abbrev pub post_call_context : ProcessingTask → ℕ → PostCallContext
unfolding get_or_null
post_call_context t ended = record {
  interaction_id = t.interaction_id;
  session_id = get_or_empty_text "session_id" t.payload;
  lead_id = get_or_empty_text "lead_id" t.payload;
  campaign_id = t.campaign_id;
  customer_id = t.customer_id;
  agent_id = get_or_empty_text "agent_id" t.payload;
  call_sid = get_or_empty_text "call_sid" t.payload;
  transcript_text = transcript_of t.payload;
  conversation_data = or_json (get_or_null "conversation_data" t.payload) (obj end);
  additional_data = or_json (get_or_null "additional_data" t.payload) (obj end);
  ended_at = ended;
  exotel_account_id = get_or_null "exotel_account_id" t.payload;
}

-- _merge_metadata
abbrev pub merge_metadata : AnalysisResult → Fields
merge_metadata a = dict (
    ("call_stage", a.call_stage)
    ∷ ("entities", or_json a.entities (obj end))
    ∷ ("summary", a.summary)
    ∷ ("analysis_status", str "completed")
    ∷ ("model", str a.model)
    ∷ [])

abbrev pub downstream_payload : AnalysisResult → ProcessingTask → Fields
downstream_payload a t = merge t.payload (
    dict (
      (
        "analysis_result",
        obj (
            dict (
              ("call_stage", a.call_stage)
              ∷ ("entities", or_json a.entities (obj end))
              ∷ ("summary", a.summary)
              ∷ [])),
      )
      ∷ []))

abbrev pub downstream_lane : TaskLane → TaskLane
downstream_lane TaskLane.hot = TaskLane.hot
downstream_lane _ = TaskLane.cold

abbrev pub downstream_step : Llm → AnalysisResult → ProcessingTask → TaskStep → NewStep
downstream_step w a t step = record {
  interaction_id = t.interaction_id;
  customer_id = t.customer_id;
  campaign_id = t.campaign_id;
  correlation_id = some t.correlation_id;
  step = step;
  lane = downstream_lane t.lane;
  payload = downstream_payload a t;
  estimated_tokens = 0;
  next_run_at = none;
  max_attempts = w.max_attempts;
}

-- The loop over (SIGNAL_JOBS, LEAD_STAGE).
unfoldable pub fan_out : Llm → Context → AnalysisResult → ProcessingTask → Db → Result Db
unfolding enqueue_step
fan_out w c a t db = do
  (_, db') ← enqueue_step c (downstream_step w a t TaskStep.signal_jobs) db
  (_, db'') ← enqueue_step c (downstream_step w a t TaskStep.lead_stage) db'
  ok db''

-- What the fan-out leaves where it does not raise.
unfoldable pub add_follow_ups : Llm → Context → AnalysisResult → ProcessingTask → Db → Db
unfolding add_step
add_follow_ups w c a t db =
    let (_, db') = add_step c (downstream_step w a t TaskStep.signal_jobs) db in
    (add_step c (downstream_step w a t TaskStep.lead_stage) db').1
