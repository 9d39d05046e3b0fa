-- ===== src/Workers/Llm.antt =====
-- src/tasks/workers/llm_worker.py: one attempt at the analysis, from the budget's answer to the row's
-- end.
use post_call_processing_pip.Prelude.{
  ℕ, String, List, [], ◌∷◌, Option, none, some, if◌then◌else◌, Bool, true, false,
}
use post_call_processing_pip.Prelude.Integers.{pos, minus}
use post_call_processing_pip.Json.{Json, Fields, bool, num, str, dict, int}
use post_call_processing_pip.Models.{
  ProcessingTask, AnalysisStatus, AuditStatus, CustomerLlmBudget, Interaction,
}
use post_call_processing_pip.Context.{Context}
use post_call_processing_pip.Db.{Db, Result, ok, ◌>>=◌, update_interaction}
use post_call_processing_pip.Audit.{record_event, record_consumption}
use post_call_processing_pip.Dispatcher.{task_event, default_backoff_schedule}
use post_call_processing_pip.Dispatcher.Outcomes.{mark_completed, mark_for_retry}
use post_call_processing_pip.Redis.{SortedSets}
use post_call_processing_pip.Budget.{BudgetReservation, grants}
use post_call_processing_pip.Budget.Cache.{BudgetManager, Reading}
use post_call_processing_pip.Budget
use post_call_processing_pip.Workers.{fail_attempt}
use post_call_processing_pip.Workers.RateLimit.{is_rate_limit_error}
use post_call_processing_pip.Workers.PostCall.{
  AnalysisResult, Llm, Processed, analysed, ended_at, estimate_tokens, fan_out, add_follow_ups,
  merge_metadata, post_call_context, raised, transcript_of,
}

abbrev pub completed_detail : AnalysisResult → ℕ → Fields
completed_detail a estimated = dict (
    ("call_stage", a.call_stage)
    ∷ ("latency_ms", num a.latency_ms)
    ∷ ("estimated_tokens", int estimated)
    ∷ ("drift", num (minus a.tokens_used estimated))
    ∷ [])

abbrev pub analysed_row : AnalysisResult → Interaction → Interaction
analysed_row a i = record i {
  analysis_status = AnalysisStatus.completed;
  interaction_metadata = merge_metadata a;
}

-- What follows the reconciliation and the ledger row.
unfoldable pub settle_analysis :
    Llm → Context → AnalysisResult → ℕ → ProcessingTask → Db → Result (ProcessingTask × Db)
unfolding mark_completed fan_out
settle_analysis w c a estimated t db =
    let (t', db') =
      mark_completed c (completed_detail a estimated) (some a.tokens_used) t
        (update_interaction t.interaction_id (analysed_row a) db) in
    (do db'' ← fan_out w c a t' db'; ok (t', db''))

-- What the settlement leaves where it does not raise.
unfoldable pub settled_analysis :
    Llm → Context → AnalysisResult → ℕ → ProcessingTask → Db → ProcessingTask × Db
unfolding mark_completed add_follow_ups
settled_analysis w c a estimated t db =
    let (t', db') =
      mark_completed c (completed_detail a estimated) (some a.tokens_used) t
        (update_interaction t.interaction_id (analysed_row a) db) in
    (t', add_follow_ups w c a t' db')

-- The hint after a provider's own rate limit.
abbrev pub provider_hint : Bool → Option ℕ
provider_hint true = some 5000
provider_hint false = none

abbrev pub rate_limited_field : Bool → String × Json
rate_limited_field b = ("rate_limited", bool b)

unfoldable pub analysis_failed :
    Llm → Context → String → ProcessingTask → Db → Result (ProcessingTask × Db)
unfolding fail_attempt
analysis_failed w c message t db =
    fail_attempt c message (provider_hint (is_rate_limit_error w.alike message))
      (dict
        (("error", str message) ∷ rate_limited_field (is_rate_limit_error w.alike message) ∷ []))
      (dict (rate_limited_field (is_rate_limit_error w.alike message) ∷ [])) t db

unfoldable pub deferred_event : Context → BudgetReservation → ℕ → ProcessingTask → Db → Db
unfolding record_event
deferred_event c b estimated t = task_event c t AuditStatus.rate_limit_deferred (
    dict (
      ("reason", str b.reason)
      ∷ ("retry_after_ms", int b.retry_after_ms)
      ∷ ("estimated_tokens", int estimated)
      ∷ []))

-- The branch of a reservation that was denied.
unfoldable pub defer :
    Llm → Context → BudgetReservation → ℕ → ProcessingTask → Db → Result (ProcessingTask × Db)
unfolding mark_for_retry deferred_event
defer w c b estimated t db =
    mark_for_retry c (w.deferred b.reason) (some b.retry_after_ms) default_backoff_schedule
      (dict (("deferred_reason", str b.reason) ∷ [])) t (deferred_event c b estimated t db)

-- An attempt's end: the result if there is one, the row and the tables, the manager and the store.
pub record Ended (Store : Type 0) : Type 0 where
  pub result : Option AnalysisResult
  pub task : ProcessingTask
  pub db : Db
  pub manager : BudgetManager
  pub store : Store

abbrev pub ended_with :
    {Store : Type 0}
    → Option AnalysisResult
    → BudgetManager
    → Store
    → ProcessingTask × Db
    → Ended Store
ended_with result manager store (task, db) = record {
  result = result;
  task = task;
  db = db;
  manager = manager;
  store = store;
}

module _ (R : SortedSets) where
  open R use {Store}

  -- What follows the processor's answer, under a granted reservation.
  unfoldable pub finish :
      Llm
      → Context
      → BudgetReservation
      → BudgetManager
      → ℕ
      → Processed
      → ProcessingTask
      → Db
      → Store
      → Result (Ended Store)
  unfolding analysis_failed settle_analysis record_consumption Budget.reconcile Budget.release
  finish w c b m estimated (raised message) t db st = do
    r ← analysis_failed w c message t db
    ok (ended_with none m (Budget.release R b st) r)
  finish w c b m estimated (analysed a) t db st = do
    st' ← Budget.reconcile R b a.tokens_used st
    db' ←
        record_consumption c t.customer_id t.interaction_id a.tokens_used t.campaign_id a.model
          (some t.correlation_id) db
    r ← settle_analysis w c a estimated t db'
    ok (ended_with (some a) m st' r)

  unfoldable pub run_reserved :
      Llm
      → Context
      → BudgetReservation
      → BudgetManager
      → ℕ
      → ProcessingTask
      → Db
      → Store
      → Result (Ended Store)
  unfolding finish defer ended_at
  run_reserved w c b m estimated t db st =
      if grants b
      then (do
        ended ← ended_at w c t.payload
        finish w c b m estimated (w.process_post_call (post_call_context t ended)) t db st)
      else (do r ← defer w c b estimated t db; ok (ended_with none m st r))

  unfoldable pub execute_llm_analysis :
      Llm
      → Context
      → List CustomerLlmBudget
      → Reading
      → BudgetManager
      → ProcessingTask
      → Db
      → Store
      → Result (Ended Store)
  unfolding run_reserved estimate_tokens Budget.check_and_reserve
  execute_llm_analysis w c rows reading m t db st = do
    estimated ← estimate_tokens w (transcript_of t.payload)
    (b, m', st') ← Budget.check_and_reserve R t.customer_id (pos estimated) rows reading m st
    run_reserved w c b m' estimated t db st'
