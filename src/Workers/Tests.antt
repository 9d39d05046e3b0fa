-- ===== src/Workers/Tests.antt =====
-- The workers at a concrete task.
use Prim.Native.Char.{Char, code}
use post_call_processing_pip.Models.Sample.{sample_interaction}
use post_call_processing_pip.Prelude.{
  ◌==◌, String, [], ◌∷◌, none, some, Bool, true, ◌≡◌, refl, ◌⊎◌, arith, ◌↔◌,
}
use post_call_processing_pip.Prelude.Integers.{ℤ, pos}
use post_call_processing_pip.Json.{get, num, Fields, dict, str, obj, end, get_or_null, truthy}
use post_call_processing_pip.Models.{ProcessingTask, TaskStep, TaskLane, TaskStatus}
use post_call_processing_pip.Context.{Context}
use post_call_processing_pip.Db.{Db, ok}
use post_call_processing_pip.Limiter.{RateLimitDecision}
use post_call_processing_pip.Budget.{BudgetReservation}
use post_call_processing_pip.Budget.Cache.{BudgetManager}
use post_call_processing_pip.Workers.{analysis_result, or_json}
use post_call_processing_pip.Workers.Downstream.{
  Sent, update_lead_stage, lead_stage_call, execute_lead_stage, map_call_stage_to_lead_stage, Http,
  Posted,
}
use post_call_processing_pip.Workers.Attempts.{Failed, Succeeded, execute_lead_stage_total}
use post_call_processing_pip.Workers.Recording.{
  Provider, Fetched, ProbeResult, execute_recording_poll, recording_backoff_seconds,
}
use post_call_processing_pip.Workers.Probes.{Probed}
use post_call_processing_pip.Workers.Polls.{Polled, execute_recording_poll_total}
use post_call_processing_pip.Workers.Processor.{
  Outcome, settle_answer, call_llm, parse_response, total_tokens,
}
use post_call_processing_pip.Workers.RateLimit.{is_rate_limit_error}
use post_call_processing_pip.Workers.RateLimit.Pattern.{Mentions, is_rate_limit_error_iff}
use post_call_processing_pip.Workers.PostCall.{raised, analysed, Llm, AnalysisResult, Processed}

abbrev context : Context
context = record {
  now = 1000000000;
  correlation_id = none;
  uuid_hex = "0123abcd";
  draw_num = 7;
  draw_den = 1;
}

abbrev analysis : Fields
analysis = dict (("call_stage", str "demo_booked") ∷ ("summary", str "wants a demo") ∷ [])

abbrev task : ProcessingTask
task = record {
  id = 1;
  interaction_id = 7;
  customer_id = 3;
  campaign_id = 2;
  correlation_id = "req-1";
  step = TaskStep.llm_analysis;
  lane = TaskLane.hot;
  status = TaskStatus.in_progress;
  attempts = 1;
  max_attempts = 6;
  next_run_at = 0;
  last_error = none;
  payload = dict (
      ("call_sid", str "CA1")
      ∷ ("analysis_result", obj analysis)
      ∷ ("crm_webhook_url", str "https://crm.test/hook")
      ∷ []);
  estimated_tokens = 1500;
  actual_tokens = none;
  locked_by = some "celery";
  locked_until = some 1030000000;
  completed_at = none;
}

abbrev tables : Db
tables = record {
  tasks = task ∷ [];
  audit = [];
  ledger = [];
  interactions = sample_interaction 7 ∷ [];
  next_id = 2;
}

has_analysis : analysis_result task.payload ≡ obj analysis
unfolding get_or_null truthy
has_analysis = refl

is_booked : map_call_stage_to_lead_stage (get_or_null "call_stage" analysis) ≡ ok "booked"
unfolding map_call_stage_to_lead_stage get_or_null
is_booked = refl

execute_lead_stage_total_example :
    (r : Bool × (ProcessingTask × Db)) × (execute_lead_stage update_lead_stage context task tables
      ≡ ok r)
    × (((update_lead_stage (lead_stage_call task "booked") ≡ Sent.delivered)
          × Succeeded context task tables r)
        ⊎ ((error : String) × (update_lead_stage (lead_stage_call task "booked")
              ≡ Sent.raised error)
            × Failed context error task tables r))
execute_lead_stage_total_example =
    execute_lead_stage_total context task tables analysis (omega arith) (omega arith) has_analysis
      update_lead_stage "booked" is_booked

abbrev crm : Http
crm = record {
  post = λ url body. Posted.responded 503;
  hostname = λ url. some "crm.test";
  status_error = λ status. "CRM responded 503";
  id_text = λ id. "id";
}

abbrev provider : Provider
provider = record {
  get_recording = λ call account. Fetched.responded 404 none;
  upload = λ url interaction. (some "recordings/7.mp3", "");
  unexpected_status = λ status. "unexpected status";
  upload_failed = λ error. error;
}

execute_recording_poll_total_example :
    (r : ProbeResult × (ProcessingTask × Db)) × (execute_recording_poll recording_backoff_seconds
        (λ n error. error)
        provider
        context
        task
        tables
      ≡ ok r)
    × Probed provider 7
        (or_json (get_or_null "call_sid" task.payload) (str ""))
        (or_json (get_or_null "exotel_account_id" task.payload) (str ""))
        r.0
    × Polled context task tables r.0 r.1
execute_recording_poll_total_example =
    execute_recording_poll_total 5 (15 ∷ 30 ∷ 60 ∷ 120 ∷ 240 ∷ []) (λ n error. error) context
      (omega arith) (omega arith) provider task tables

abbrev result : AnalysisResult
result = record {
  call_stage = str "demo_booked";
  entities = obj end;
  summary = str "wants a demo";
  tokens_used = pos 1320;
  latency_ms = pos 800;
  model = "gpt-4o";
}

abbrev llm : Llm
llm = record {
  process_post_call = λ ctx. Processed.analysed result;
  fromisoformat = λ v. none;
  alike = λ c d. code c == code d;
  text_length = λ s. 0;
  avg_tokens = 1500;
  deferred = λ reason. reason;
  max_attempts = 6;
}

abbrev granted : BudgetReservation
granted = record {
  decision = RateLimitDecision.allow;
  retry_after_ms = 0;
  customer_reservation = none;
  global_reservation = none;
  reason = "ok";
}

abbrev manager : BudgetManager
manager = record { global_tpm = 9000; global_rpm = 500; cache_ttl = 30000; cache = [] }

abbrev tokens_of : Processed → ℤ
tokens_of (analysed a) = a.tokens_used
tokens_of (raised message) = pos 0

-- The repository's own answer, taken apart.
mock_returned :
    settle_answer
      (record { llm_provider = "openai"; llm_model = "gpt-4o"; no_get = λ v. "" })
      (pos 800)
      (call_llm "")
    ≡ Outcome.returned (record {
      call_stage = str "unknown";
      entities = obj end;
      summary = str "Mock analysis result";
      raw_response = dict (
          ("call_stage", str "unknown")
          ∷ ("entities", obj end)
          ∷ ("summary", str "Mock analysis result")
          ∷ ("usage", obj (dict (("total_tokens", num (pos 1500)) ∷ [])))
          ∷ []);
      tokens_used = num (pos 1500);
      latency_ms = pos 800;
      provider = "openai";
      model = "gpt-4o";
    })
unfolding parse_response total_tokens get
mock_returned = refl

abbrev same_char : Char → Char → Bool
same_char c d = code c == code d

too_many : is_rate_limit_error same_char "status 429" ≡ true
unfolding is_rate_limit_error
too_many = refl

is_rate_limit_error_iff_example :
    (is_rate_limit_error same_char "rate-limit" ≡ true) ↔ Mentions same_char "rate-limit"
is_rate_limit_error_iff_example = is_rate_limit_error_iff same_char "rate-limit"
