-- ===== src/System/Tests.antt =====
-- The program with a row of the signal jobs waiting, and the message that names it in flight.
use Prim.Native.Char.{code}
use post_call_processing_pip.Models.Sample.{sample_interaction}
use post_call_processing_pip.Prelude.{
  ◌==◌, refl, ◌≡◌, List, length, [], ◌∷◌, none, some, arith, false,
}
use post_call_processing_pip.Json.{end, str, null}
use post_call_processing_pip.Models.{ProcessingTask, LlmTokenLedger, TaskStep, TaskLane, TaskStatus}
use post_call_processing_pip.Db.{Db, find_task}
use post_call_processing_pip.Redis.Model.{sorted_sets, empty}
use post_call_processing_pip.Workers.Downstream.{Posted, trigger_signal_jobs, update_lead_stage}
use post_call_processing_pip.Workers.Recording.{Fetched}
use post_call_processing_pip.Workers.PostCall.{Processed}
use post_call_processing_pip.Dispatcher.{claim_due_tasks}
use post_call_processing_pip.Dispatcher.Outcomes.{expire_stale_leases}
use post_call_processing_pip.Harness.{Message, process_one, messages_of}
use post_call_processing_pip.System.{executor, CeleryTask, Services, Machine, Step, Run, after_run}
use post_call_processing_pip.System.Effects.{Appended}
use post_call_processing_pip.System.Charging.{ChargedOnce}
use post_call_processing_pip.Budget
use post_call_processing_pip.Budget.Cache
use post_call_processing_pip.Limiter
use post_call_processing_pip.Workers.Llm.{execute_llm_analysis}
use post_call_processing_pip.Prelude.Integers.{pos}
use post_call_processing_pip.System.Evolution.{StillThere}
use post_call_processing_pip.System.Invariant.{
  Run-completed, Run-ChargedOnce, Run-Appended, InOrder, Run-InOrder, Run-StillThere,
}

abbrev services : Services sorted_sets
services = record {
  context = record {
    now = 1000000000;
    correlation_id = none;
    uuid_hex = "0123abcd";
    draw_num = 7;
    draw_den = 1;
  };
  provider = record {
    get_recording = λ call account. Fetched.responded 404 none;
    upload = λ url interaction. (some "recordings/7.mp3", "");
    unexpected_status = λ status. "unexpected status";
    upload_failed = λ error. error;
  };
  exhausted = λ n error. error;
  trigger = trigger_signal_jobs;
  update = update_lead_stage;
  http = record {
    post = λ url body. Posted.responded 503;
    hostname = λ url. none;
    status_error = λ status. "CRM responded 503";
    id_text = λ id. "id";
  };
  llm = record {
    process_post_call = λ ctx. Processed.raised "down";
    fromisoformat = λ v. none;
    alike = λ c d. code c == code d;
    text_length = λ s. 0;
    avg_tokens = 1500;
    deferred = λ reason. reason;
    max_attempts = 6;
  };
  budgets = [];
  reading = record {
    monotonic = 10;
    monotonic_stored = 11;
    customer_ms = 5000;
    customer_uuid = 1;
    global_ms = 5001;
    global_uuid = 2;
  };
  manager = record { global_tpm = 9000; global_rpm = 500; cache_ttl = 30; cache = [] };
  store = empty;
}

abbrev waiting : ProcessingTask
waiting = record {
  id = 1;
  interaction_id = 7;
  customer_id = 3;
  campaign_id = 2;
  correlation_id = "req-1";
  step = TaskStep.signal_jobs;
  lane = TaskLane.hot;
  status = TaskStatus.pending;
  attempts = 0;
  max_attempts = 6;
  next_run_at = 0;
  last_error = none;
  payload = end;
  estimated_tokens = 0;
  actual_tokens = none;
  locked_by = none;
  locked_until = none;
  completed_at = none;
}

abbrev tables : Db
tables = record {
  tasks = waiting ∷ record waiting { id = 2; step = TaskStep.lead_stage } ∷ [];
  audit = [];
  ledger = [];
  interactions = [];
  next_id = 3;
}

abbrev message : Message
message = record { task_name = "dispatch.signal_jobs"; task_id = 1 }

abbrev start : Machine sorted_sets
start = record { db = tables; queue = message ∷ [] }

start-InOrder : InOrder sorted_sets start
start-InOrder = record {
  sound = record {
    unique_steps = (refl, (refl, tt));
    unique_ids = (refl, (refl, tt));
    below = (omega arith, (omega arith, tt));
  };
  routed = ((CeleryTask.dispatch_signal_jobs, waiting, refl, refl, refl), tt);
}

-- The message arrives twice, a worker takes it, a poller claims what is due, and the sweep comes long
-- after.
abbrev taken : Machine sorted_sets
taken = after_run sorted_sets services CeleryTask.dispatch_signal_jobs message (message ∷ []) tables

abbrev later : Machine sorted_sets
later = record {
  db =
      (expire_stale_leases 9000000000
        (claim_due_tasks services.context "poller" (TaskLane.hot ∷ []) 10 300 (λ i. false)
          taken.db).1).1;
  queue = taken.queue;
}

start-later : Run sorted_sets start later
start-later = Run.next (Step.repeats [] [] message) (
    Run.next (Step.works [] (message ∷ []) message services CeleryTask.dispatch_signal_jobs refl) (
      Run.next (Step.claims services.context "poller" (TaskLane.hot ∷ []) 10 300 (λ i. false))
        (Run.next (Step.sweeps 9000000000) Run.done)))

-- An interaction with its analysis completed and charged, another with its analysis waiting.
abbrev charged_row : LlmTokenLedger
charged_row = record {
  customer_id = 3;
  campaign_id = 2;
  interaction_id = 7;
  request_kind = "post_call_analysis";
  tokens_used = pos 1200;
  model = "gpt-4o";
  correlation_id = some "req-1";
}

abbrev analysed_task : ProcessingTask
analysed_task = record waiting {
  step = TaskStep.llm_analysis;
  status = TaskStatus.completed;
  attempts = 1;
  actual_tokens = some (pos 1200);
}

abbrev waiting_task : ProcessingTask
waiting_task = record waiting { id = 2; interaction_id = 8; step = TaskStep.llm_analysis }

abbrev analyses : Db
analyses = record tables {
  tasks = analysed_task ∷ waiting_task ∷ [];
  ledger = charged_row ∷ [];
  interactions = sample_interaction 7 ∷ sample_interaction 8 ∷ [];
}

abbrev again : Message
again = record { task_name = "dispatch.llm_analysis_hot"; task_id = 1 }

abbrev analyse_it : Message
analyse_it = record { task_name = "dispatch.llm_analysis_hot"; task_id = 2 }

abbrev answering : Services sorted_sets
answering = record services {
  llm = record services.llm {
    process_post_call = λ ctx. Processed.analysed (record {
      call_stage = str "callback";
      entities = null;
      summary = str "";
      tokens_used = pos 900;
      latency_ms = pos 800;
      model = "gpt-4o";
    });
  };
}

abbrev ready : Machine sorted_sets
ready = record { db = analyses; queue = again ∷ analyse_it ∷ [] }

ready-InOrder : InOrder sorted_sets ready
ready-InOrder = record {
  sound = record {
    unique_steps = (refl, (refl, tt));
    unique_ids = (refl, (refl, tt));
    below = (omega arith, (omega arith, tt));
  };
  routed = (
    (CeleryTask.dispatch_llm_analysis_hot, analysed_task, refl, refl, refl),
    ((CeleryTask.dispatch_llm_analysis_hot, waiting_task, refl, refl, refl), tt),
  );
}

ready-ChargedOnce : ChargedOnce ready.db
ready-ChargedOnce = record {
  once = (tt, tt);
  settled = ((analysed_task, refl, refl, refl, refl), tt);
}

-- The message for the analysis that waits arrives twice, and the other one after it.
abbrev half_way : Machine sorted_sets
half_way =
    after_run sorted_sets answering CeleryTask.dispatch_llm_analysis_hot analyse_it
      (again ∷ analyse_it ∷ []) analyses

abbrev sent_on : List Message
unfolding process_one executor
sent_on = messages_of (
    process_one (executor sorted_sets answering CeleryTask.dispatch_llm_analysis_hot)
      answering.context 2 analyses)

abbrev answered : Machine sorted_sets
answered =
    after_run sorted_sets answering CeleryTask.dispatch_llm_analysis_hot analyse_it
      (again ∷ sent_on) half_way.db

ready-answered : Run sorted_sets ready answered
unfolding sent_on
ready-answered = Run.next (Step.repeats (again ∷ []) [] analyse_it) (
    Run.next
      (Step.works [] (again ∷ analyse_it ∷ []) analyse_it answering
        CeleryTask.dispatch_llm_analysis_hot refl)
      (Run.next
        (Step.works (again ∷ []) sent_on analyse_it answering CeleryTask.dispatch_llm_analysis_hot
          refl)
        Run.done))

Run-InOrder_example : InOrder sorted_sets later
Run-InOrder_example = Run-InOrder sorted_sets {x = start} {y = later} start-later start-InOrder

Run-StillThere_example :
    StillThere 2 (record waiting { id = 2; step = TaskStep.lead_stage }) later.db
Run-StillThere_example =
    Run-StillThere sorted_sets {x = start} {y = later} 2
      (record waiting { id = 2; step = TaskStep.lead_stage }) start-later start-InOrder refl

Run-completed_example : find_task 1 answered.db ≡ some analysed_task
Run-completed_example =
    Run-completed sorted_sets {x = ready} {y = answered} 1 analysed_task ready-answered
      ready-InOrder refl refl

Run-ChargedOnce_example : ChargedOnce answered.db
Run-ChargedOnce_example =
    Run-ChargedOnce sorted_sets {x = ready} {y = answered} ready-answered ready-InOrder
      ready-ChargedOnce

Run-Appended_example :
    Appended analyses.audit answered.db.audit × Appended analyses.ledger answered.db.ledger
Run-Appended_example =
    Run-Appended sorted_sets {x = ready} {y = answered} ready-answered ready-InOrder

-- The run charges the analysis that waits, and charges it once.
answered-charges : length answered.db.ledger ≡ 2
unfolding process_one executor execute_llm_analysis sent_on Budget.reserve_tiers
    Limiter.check_and_reserve Limiter.check_quota Limiter.decide Limiter.over_quota
    Cache.load_budget Limiter.tokens Limiter.evict Limiter.evict_expired Limiter.evict_members
    Budget.reserve_global Limiter.reserve Limiter.reconcile
answered-charges = refl
