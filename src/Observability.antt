-- ===== src/Observability.antt =====
-- src/observability/logging.py: the context that every log line of a request or task carries, and the
-- dict that a line is made of. The order of a dict's keys is not kept.
pub mod Values
pub mod Setup
pub mod Lines
mod Tests
use post_call_processing_pip.Prelude.{
  ℕ, String, Bool, true, false, ◌||◌, List, [], ◌∷◌, Option, none, some, any, str_eq, if◌then◌else◌,
}
use post_call_processing_pip.Json.{Json, Fields, str, int, end, field, dict, put, merge}
use post_call_processing_pip.Models.{ProcessingTask, TaskStep, TaskLane}
use post_call_processing_pip.Context.{or_text}
use post_call_processing_pip.Observability.Values.{Value, Texts, make_serialisable}
use post_call_processing_pip.Strings.{begins_with}
use post_call_processing_pip.Dispatcher.{lane_text}

-- The two context variables.
pub record LogContext : Type 0 where
  pub correlation_id : Option String
  pub interaction_context : Fields

-- The id that is bound, with `uuid4().hex` for the case that none is given.
abbrev pub bind_correlation_id : Option String → String → LogContext → String × LogContext
bind_correlation_id correlation_id uuid_hex x =
    let cid = or_text correlation_id uuid_hex in (cid, record x { correlation_id = some cid })

abbrev pub get_correlation_id : LogContext → Option String
get_correlation_id x = x.correlation_id

abbrev pub bind_interaction_context : Fields → LogContext → LogContext
bind_interaction_context fields x = record x {
  interaction_context = merge x.interaction_context fields;
}

abbrev pub clear_context : LogContext → LogContext
clear_context x = record { correlation_id = none; interaction_context = end }

-- What the formatter reads of a record: the texts that it makes itself, and the other attributes.
pub record LogRecord : Type 0 where
  pub timestamp : String
  pub levelname : String
  pub name : String
  pub message : String
  pub attributes : List (String × Value)
  pub exc_info : Option String

abbrev pub standard_log_attrs : List String
standard_log_attrs =
    "name" ∷ "msg" ∷ "args" ∷ "levelname" ∷ "levelno" ∷ "pathname" ∷ "filename" ∷ "module"
    ∷ "exc_info" ∷ "exc_text" ∷ "stack_info" ∷ "lineno" ∷ "funcName" ∷ "created" ∷ "msecs"
    ∷ "relativeCreated" ∷ "thread" ∷ "threadName" ∷ "processName" ∷ "process" ∷ "message"
    ∷ "asctime" ∷ "taskName" ∷ []

-- key in _STANDARD_LOG_ATTRS or key.startswith("_")
unfoldable pub is_skipped : String → Bool
unfolding begins_with
is_skipped key = any (str_eq key) standard_log_attrs || begins_with "_" key

-- The loop over the attributes.
unfoldable pub add_extras : Texts → List (String × Value) → Fields → Fields
unfolding is_skipped make_serialisable
add_extras p [] payload = payload
add_extras p ((key, value) ∷ extras) payload =
    add_extras p extras
      (if is_skipped key then payload else put key (make_serialisable p value) payload)

abbrev pub add_correlation_id : Option String → Fields → Fields
add_correlation_id none payload = payload
add_correlation_id (some cid) payload =
    if str_eq cid "" then payload else put "correlation_id" (str cid) payload

abbrev pub add_exc_info : Option String → Fields → Fields
add_exc_info none payload = payload
add_exc_info (some text) payload = put "exc_info" (str text) payload

abbrev pub plain_payload : LogRecord → Fields
plain_payload r = dict (
    ("timestamp", str r.timestamp)
    ∷ ("level", str r.levelname)
    ∷ ("logger", str r.name)
    ∷ ("event", str r.message)
    ∷ [])

-- StructuredJsonFormatter.format, up to `json.dumps`
unfoldable pub format : Texts → LogContext → LogRecord → Fields
unfolding add_extras
format p x r = add_exc_info r.exc_info (
    add_extras p r.attributes
      (merge (add_correlation_id x.correlation_id (plain_payload r)) x.interaction_context))

abbrev pub step_text : TaskStep → String
step_text TaskStep.recording_poll = "recording_poll"
step_text TaskStep.llm_analysis = "llm_analysis"
step_text TaskStep.signal_jobs = "signal_jobs"
step_text TaskStep.lead_stage = "lead_stage"
step_text TaskStep.crm_push = "crm_push"

-- `id_text` is `str` of an id. The three calls with which `_process_one` starts.
abbrev pub task_context : (ℕ → String) → ProcessingTask → String → LogContext → LogContext
task_context id_text t uuid_hex x =
    bind_interaction_context
      (dict (
        ("interaction_id", str (id_text t.interaction_id))
        ∷ ("customer_id", str (id_text t.customer_id))
        ∷ ("campaign_id", str (id_text t.campaign_id))
        ∷ ("step", str (step_text t.step))
        ∷ ("lane", str (lane_text t.lane))
        ∷ []))
      (bind_correlation_id (some t.correlation_id) uuid_hex (clear_context x)).1
