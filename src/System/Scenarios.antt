-- ===== src/System/Scenarios.antt =====
-- An analysis that is handed over to the workers after it.
use Prim.Native.Char.{code}
use post_call_processing_pip.Models.Sample.{sample_interaction}
use post_call_processing_pip.Prelude.{◌==◌, ◌≡◌, refl, [], ◌∷◌, none, some, arith}
use post_call_processing_pip.Prelude.Integers.{pos}
use post_call_processing_pip.Json.{str, obj, end}
use post_call_processing_pip.Models.{ProcessingTask, TaskStep, TaskLane, TaskStatus}
use post_call_processing_pip.Context.{Context}
use post_call_processing_pip.Db.{Db, ok, find_step}
use post_call_processing_pip.Redis.Model.{Store, sorted_sets, empty}
use post_call_processing_pip.Limiter.{RateLimitDecision}
use post_call_processing_pip.Budget.{BudgetReservation}
use post_call_processing_pip.Budget.Cache.{BudgetManager}
use post_call_processing_pip.Workers.Downstream.{Sent, update_lead_stage}
use post_call_processing_pip.Workers.PostCall.{Llm, AnalysisResult, Processed, ended_at}
use post_call_processing_pip.Workers.Llm.{Ended, run_reserved}
use post_call_processing_pip.System.Handover.{Signals, Stages, analysis_handed_over}

abbrev context : Context
context = record {
  now = 1000000000;
  correlation_id = none;
  uuid_hex = "0123abcd";
  draw_num = 7;
  draw_den = 1;
}

abbrev task : ProcessingTask
task = record {
  id = 4;
  interaction_id = 7;
  customer_id = 3;
  campaign_id = 2;
  correlation_id = "req-1";
  step = TaskStep.llm_analysis;
  lane = TaskLane.hot;
  status = TaskStatus.in_progress;
  attempts = 1;
  max_attempts = 6;
  next_run_at = 0;
  last_error = none;
  payload = end;
  estimated_tokens = 0;
  actual_tokens = none;
  locked_by = some "celery:llm_analysis";
  locked_until = some 1030000000;
  completed_at = none;
}

abbrev tables : Db
tables = record {
  tasks = task ∷ [];
  audit = [];
  ledger = [];
  interactions = sample_interaction 7 ∷ [];
  next_id = 5;
}

abbrev analysis : AnalysisResult
analysis = record {
  call_stage = str "demo_booked";
  entities = obj end;
  summary = str "wants a demo";
  tokens_used = pos 1320;
  latency_ms = pos 800;
  model = "gpt-4o";
}

abbrev llm : Llm
llm = record {
  process_post_call = λ ctx. Processed.analysed analysis;
  fromisoformat = λ v. none;
  alike = λ c d. code c == code d;
  text_length = λ s. 0;
  avg_tokens = 1500;
  deferred = λ reason. reason;
  max_attempts = 6;
}

abbrev reservation : BudgetReservation
reservation = record {
  decision = RateLimitDecision.allow;
  retry_after_ms = 0;
  customer_reservation = none;
  global_reservation = none;
  reason = "ok";
}

abbrev manager : BudgetManager
manager = record { global_tpm = 9000; global_rpm = 500; cache_ttl = 30; cache = [] }

ends_now : ended_at llm context task.payload ≡ ok context.now
unfolding ended_at
ends_now = refl

-- The signal service is down.
analysis_handed_over_example :
    (e : Ended Store) × (signal : ProcessingTask) × (lead : ProcessingTask) × (run_reserved
        sorted_sets llm context reservation manager 1500 task tables empty
      ≡ ok e)
    × (find_step 7 TaskStep.signal_jobs e.db ≡ some signal)
    × (find_step 7 TaskStep.lead_stage e.db ≡ some lead)
    × Signals (λ call. Sent.raised "down") context analysis signal tables
    × Stages update_lead_stage context "booked" lead tables
analysis_handed_over_example =
    analysis_handed_over sorted_sets llm context reservation manager 1500 context.now task tables
      empty analysis 1320 "demo_booked" (λ call. Sent.raised "down") update_lead_stage context
      tables refl (omega arith) (omega arith) (omega arith) (omega arith) refl refl refl refl refl
      ends_now refl refl
