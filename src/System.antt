-- ===== src/System.antt =====
-- The running program: src/api/endpoints.py and the Celery tasks of src/tasks/celery_tasks.py over one
-- set of tables and the messages in flight. The tables are those of the committed transactions, which
-- run one after the other.
pub mod Keys
pub mod Evolution
pub mod Effects
pub mod Executors
pub mod Calls
pub mod Analyses
pub mod Routing
pub mod Deliveries
pub mod Polling
pub mod Changes
pub mod Charging
pub mod Requests
pub mod Invariant
pub mod Handover
mod Tests
mod Scenarios
use post_call_processing_pip.Prelude.{ℕ, String, Option, List, [], ◌∷◌, ◌++◌, ◌≡◌, Bool}
use post_call_processing_pip.Json.{Json}
use post_call_processing_pip.Models.{ProcessingTask, TaskStep, CustomerLlmBudget, TaskLane}
use post_call_processing_pip.Context.{Context}
use post_call_processing_pip.Db.{Db, Result, ok, ◌>>=◌}
use post_call_processing_pip.Redis.{SortedSets}
use post_call_processing_pip.Budget.Cache.{BudgetManager, Reading}
use post_call_processing_pip.Workers.Downstream.{
  Sent, SignalCall, LeadStageCall, Http, execute_signal_jobs, execute_lead_stage, execute_crm_push,
}
use post_call_processing_pip.Workers.Recording.{
  Provider, execute_recording_poll, recording_backoff_seconds,
}
use post_call_processing_pip.Workers.PostCall.{Llm}
use post_call_processing_pip.Workers.Llm.{execute_llm_analysis}
use post_call_processing_pip.Dispatcher.{claim_due_tasks}
use post_call_processing_pip.Dispatcher.Outcomes.{expire_stale_leases}
use post_call_processing_pip.Harness.{Message, process_one, tables_after, messages_of}
use post_call_processing_pip.Endpoint.{InteractionEndRequest, Served, end_interaction}

-- The tasks that are registered with Celery.
pub data CeleryTask : Type 0 where
  dispatch_recording_poll dispatch_llm_analysis_hot dispatch_llm_analysis_cold : CeleryTask
  dispatch_signal_jobs dispatch_lead_stage dispatch_crm_push : CeleryTask

-- The name in the decorator.
abbrev pub task_name : CeleryTask → String
task_name CeleryTask.dispatch_recording_poll = "dispatch.recording_poll"
task_name CeleryTask.dispatch_llm_analysis_hot = "dispatch.llm_analysis_hot"
task_name CeleryTask.dispatch_llm_analysis_cold = "dispatch.llm_analysis_cold"
task_name CeleryTask.dispatch_signal_jobs = "dispatch.signal_jobs"
task_name CeleryTask.dispatch_lead_stage = "dispatch.lead_stage"
task_name CeleryTask.dispatch_crm_push = "dispatch.crm_push"

module _ (R : SortedSets) where
  open R use {Store}

  -- What one run of a worker reaches outside the tables, the rate limiter's store among it.
  pub record Services : Type 0 where
    pub context : Context
    pub provider : Provider
    pub exhausted : ℕ → String → String
    pub trigger : SignalCall → Sent
    pub update : LeadStageCall → Sent
    pub http : Http
    pub llm : Llm
    pub budgets : List CustomerLlmBudget
    pub reading : Reading
    pub manager : BudgetManager
    pub store : Store

  -- What the two tasks of the analysis run, for the effect on the tables.
  unfoldable pub analyse : Services → ProcessingTask → Db → Result Db
  unfolding execute_llm_analysis
  analyse s t db = do
    r ← execute_llm_analysis R s.llm s.context s.budgets s.reading s.manager t db s.store
    ok r.db

  -- The executor that a Celery task gives to `_process_one`.
  unfoldable pub executor : Services → CeleryTask → ProcessingTask → Db → Result Db
  unfolding analyse execute_recording_poll execute_signal_jobs execute_lead_stage execute_crm_push
  executor s CeleryTask.dispatch_recording_poll t db = do
    r ← execute_recording_poll recording_backoff_seconds s.exhausted s.provider s.context t db
    ok r.1.1
  executor s CeleryTask.dispatch_llm_analysis_hot t db = analyse s t db
  executor s CeleryTask.dispatch_llm_analysis_cold t db = analyse s t db
  executor s CeleryTask.dispatch_signal_jobs t db = do
    r ← execute_signal_jobs s.trigger s.context t db
    ok r.1.1
  executor s CeleryTask.dispatch_lead_stage t db = do
    r ← execute_lead_stage s.update s.context t db
    ok r.1.1
  executor s CeleryTask.dispatch_crm_push t db = do
    r ← execute_crm_push s.http s.context t db
    ok r.1.1

  pub record Machine : Type 0 where
    pub db : Db
    pub queue : List Message

  abbrev pub after_run : Services → CeleryTask → Message → List Message → Db → Machine
  unfolding process_one executor
  after_run s k m waiting db =
      let run = process_one (executor s k) s.context m.task_id db in
      record { db = tables_after db run; queue = waiting ++ messages_of run }

  -- A call ends; a worker takes any of the waiting messages that is for it; a message is lost; a
  -- message is delivered once more; a poller claims rows that are due; stale leases are swept. The
  -- last two are functions of the dispatcher's package that nothing in the repository calls.
  pub data Step : Machine → Machine → Type 0 where
    ends :
        {db : Db} {queue : List Message} (lower : String → String) (text : Json → String)
        (id_json : ℕ → Json) (c : Context) (session_id id : ℕ) (r : InteractionEndRequest)
        (s : Served)
        → end_interaction lower text id_json c session_id id r db ≡ ok s
        → Step (record { db = db; queue = queue }) (record { db = s.db; queue = queue ++ s.sent })
    works :
        {db : Db} (before after : List Message) (m : Message) (s : Services) (k : CeleryTask)
        → m.task_name ≡ task_name k
        → Step
            (record { db = db; queue = before ++ m ∷ after })
            (after_run s k m (before ++ after) db)
    loses :
        {db : Db} (before after : List Message) (m : Message)
        → Step
            (record { db = db; queue = before ++ m ∷ after })
            (record { db = db; queue = before ++ after })
    repeats :
        {db : Db} (before after : List Message) (m : Message)
        → Step
            (record { db = db; queue = before ++ m ∷ after })
            (record { db = db; queue = m ∷ before ++ m ∷ after })
    claims :
        {db : Db} {queue : List Message} (c : Context) (worker : String) (lanes : List TaskLane)
        (limit lease_seconds : ℕ) (row_locked : ℕ → Bool)
        → Step
            (record { db = db; queue = queue })
            (record {
              db = (claim_due_tasks c worker lanes limit lease_seconds row_locked db).1;
              queue = queue;
            })
    sweeps :
        {db : Db} {queue : List Message} (now : ℕ)
        → Step
            (record { db = db; queue = queue })
            (record { db = (expire_stale_leases now db).1; queue = queue })

  pub data Run : Machine → Machine → Type 0 where
    done : {x : Machine} → Run x x
    next : {x y z : Machine} → Step x y → Run y z → Run x z
