-- ===== src/Workers.antt =====
-- src/tasks/workers and src/services/recording_poller.py: one attempt at one step of the workflow. A
-- worker gets a claimed row, calls a service and ends the attempt through the dispatcher. What the
-- service answers is an argument.
pub mod Downstream
pub mod Recording
pub mod Attempts
pub mod Polls
pub mod Probes
pub mod PostCall
pub mod Llm
pub mod RateLimit
pub mod FanOut
pub mod Analysis
pub mod Processor
mod Tests
use post_call_processing_pip.Prelude.{
  ℕ, String, List, [], ◌∷◌, Option, none, some, if◌then◌else◌, Bool, true, false,
}
use post_call_processing_pip.Json.{
  Json, Fields, null, bool, num, str, instant, arr, obj, dict, end, get, get_or_null, truthy,
}
use post_call_processing_pip.Models.{ProcessingTask, AuditStatus}
use post_call_processing_pip.Context.{Context}
use post_call_processing_pip.Db.{Db, Result, ok, err, attribute_error}
use post_call_processing_pip.Dispatcher.{task_event, default_backoff_schedule}
use post_call_processing_pip.Dispatcher.Outcomes.{mark_for_retry}

-- v or default
abbrev pub or_json : Json → Json → Json
unfolding truthy
or_json v default = if truthy v then v else default

-- payload.get("analysis_result") or {}
abbrev pub analysis_result : Fields → Json
unfolding get_or_null truthy
analysis_result payload = or_json (get_or_null "analysis_result" payload) (obj end)

-- v.get(k), which only a dict has
unfoldable pub get_of : String → Json → Result Json
unfolding get_or_null
get_of k (obj d) = ok (get_or_null k d)
get_of k _ = err attribute_error

-- payload.get(k, ""), whose text the program takes
abbrev pub get_or_empty_text : String → Fields → Json
unfolding get
get_or_empty_text k payload = elim (get k payload) [ none ↦ str "" | some v ↦ v ]

-- The two calls that end every failed attempt: the event, then the retry on the default schedule.
unfoldable pub fail_attempt :
    Context
    → String
    → Option ℕ
    → Fields
    → Fields
    → ProcessingTask
    → Db
    → Result (ProcessingTask × Db)
unfolding mark_for_retry
fail_attempt c error hint event_detail retry_detail t db =
    mark_for_retry c error hint default_backoff_schedule retry_detail t
      (task_event c t AuditStatus.failed event_detail db)
