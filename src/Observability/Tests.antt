-- ===== src/Observability/Tests.antt =====
-- A line of a worker that runs after another task, and one that tries to set the event itself.
use post_call_processing_pip.Prelude.Integers.{pos}
use post_call_processing_pip.Prelude.{ℕ, String, [], ◌∷◌, ◌≡◌, refl, none, some}
use post_call_processing_pip.Json.{str, end, field, get}
use post_call_processing_pip.Models.{ProcessingTask, TaskStep, TaskLane, TaskStatus}
use post_call_processing_pip.Observability.{
  LogContext, LogRecord, format, is_skipped, add_extras, task_context,
}
use post_call_processing_pip.Observability.Values.{Value, Texts, make_serialisable}
use post_call_processing_pip.Observability.Lines.{TakenOver, format-task_context}

abbrev task : ProcessingTask
task = record {
  id = 1;
  interaction_id = 7;
  customer_id = 3;
  campaign_id = 2;
  correlation_id = "req-1";
  step = TaskStep.signal_jobs;
  lane = TaskLane.hot;
  status = TaskStatus.in_progress;
  attempts = 1;
  max_attempts = 6;
  next_run_at = 0;
  last_error = none;
  payload = end;
  estimated_tokens = 0;
  actual_tokens = none;
  locked_by = none;
  locked_until = none;
  completed_at = none;
}

-- What the task before left behind.
abbrev stale : LogContext
stale = record {
  correlation_id = some "req-0";
  interaction_context = field "session_id" (str "s-0") end;
}

abbrev fresh : LogContext
fresh = record { correlation_id = none; interaction_context = end }

abbrev line : LogRecord
line = record {
  timestamp = "2026-01-01T00:00:00.000Z";
  levelname = "INFO";
  name = "worker";
  message = "signal_jobs_done";
  attributes = ("lineno", Value.number (pos 12)) ∷ ("call_stage", Value.text "demo_booked") ∷ [];
  exc_info = none;
}

abbrev texts : Texts
texts = record { str = λ v. "key"; repr = λ v. "object" }

abbrev id_text : ℕ → String
id_text n = "id"

format-task_context_example :
    let made = format texts (task_context id_text task "0123abcd" stale) line in
    (get "correlation_id" made ≡ some (str "req-1"))
    × (get "interaction_id" made ≡ some (str "id"))
    × (get "step" made ≡ some (str "signal_jobs"))
    × (get "event" made ≡ some (str "signal_jobs_done"))
    × TakenOver texts made line.attributes
    × (made ≡ format texts (task_context id_text task "0123abcd" fresh) line)
format-task_context_example =
    format-task_context texts id_text task "0123abcd" stale line refl fresh (refl, (refl, tt))
      (refl, (refl, tt)) (refl, (refl, tt)) (refl, (refl, tt)) ((refl, tt), (tt, tt))

-- An attribute named "event" hides the message.
hidden_event :
    get "event"
      (format texts fresh (record line { attributes = ("event", Value.text "other") ∷ [] }))
    ≡ some (str "other")
unfolding format is_skipped add_extras get make_serialisable
hidden_event = refl
