-- ===== src/Harness.antt =====
-- src/tasks/celery_tasks.py: `_process_one`, the harness around every worker, with the tables of all
-- committed rows before and after it.
mod Tests
pub mod Dispatch
use post_call_processing_pip.Prelude.{
  ℕ, String, Bool, true, false, ◌&&◌, List, [], ◌∷◌, Option, none, some, ◌==◌, if◌then◌else◌,
  select,
}
use post_call_processing_pip.Models.{ProcessingTask, TaskStep, TaskStatus}
use post_call_processing_pip.Context.{Context}
use post_call_processing_pip.Db.{Db, Error, Result, ok, err, find_task}
use post_call_processing_pip.Dispatcher.{mark_in_progress, default_lease_seconds}

-- A message to a worker process: the name of the Celery task, and the id of the row.
pub record Message : Type 0 where
  pub task_name : String
  pub task_id : ℕ

-- _DOWNSTREAM_DISPATCH
abbrev pub downstream_dispatch : TaskStep → Option String
downstream_dispatch TaskStep.signal_jobs = some "dispatch.signal_jobs"
downstream_dispatch TaskStep.lead_stage = some "dispatch.lead_stage"
downstream_dispatch TaskStep.crm_push = some "dispatch.crm_push"
downstream_dispatch TaskStep.recording_poll = some "dispatch.recording_poll"
downstream_dispatch TaskStep.llm_analysis = none

abbrev is_pending : TaskStatus → Bool
is_pending TaskStatus.pending = true
is_pending _ = false

abbrev pub is_completed : TaskStatus → Bool
is_completed TaskStatus.completed = true
is_completed _ = false

-- f"celery:{task.step}"
abbrev pub worker_name : TaskStep → String
worker_name TaskStep.recording_poll = "celery:recording_poll"
worker_name TaskStep.llm_analysis = "celery:llm_analysis"
worker_name TaskStep.signal_jobs = "celery:signal_jobs"
worker_name TaskStep.lead_stage = "celery:lead_stage"
worker_name TaskStep.crm_push = "celery:crm_push"

-- WHERE interaction_id = i AND status = 'pending'
unfoldable pub is_downstream : ℕ → ProcessingTask → Bool
is_downstream i t = t.interaction_id == i && is_pending t.status

-- One pass of the loop over the downstream rows, for the task that the step maps to.
abbrev pub send : ProcessingTask → Option String → List Message → List Message
send t none rest = rest
send t (some name) rest = record { task_name = name; task_id = t.id } ∷ rest

abbrev pub messages : List ProcessingTask → List Message
messages [] = []
messages (t ∷ ts) = send t (downstream_dispatch t.step) (messages ts)

-- What the harness did: nothing, for a row that is missing or completed; a transaction that was rolled
-- back, with the exception; or a committed one, with the messages sent after it.
pub data Run : Type 0 where
  missing skipped : Run
  rolled_back : Error → Run
  committed : Db → List Message → Run

-- The tables that others see after it.
abbrev pub tables_after : Db → Run → Db
tables_after db missing = db
tables_after db skipped = db
tables_after db (rolled_back e) = db
tables_after db (committed db' sent) = db'

abbrev pub messages_of : Run → List Message
messages_of (committed db sent) = sent
messages_of _ = []

unfoldable pub after_commit : ℕ → Result Db → Run
unfolding is_downstream
after_commit i (err e) = Run.rolled_back e
after_commit i (ok db) = Run.committed db (messages (select (is_downstream i) db.tasks))

-- The worker, run on a row that is found and not completed.
unfoldable pub run_task : (ProcessingTask → Db → Result Db) → Context → ProcessingTask → Db → Run
unfolding after_commit mark_in_progress
run_task executor c t db =
    let (claimed, db') = mark_in_progress c (worker_name t.step) default_lease_seconds t db in
    after_commit t.interaction_id (executor claimed db')

unfoldable pub process_one : (ProcessingTask → Db → Result Db) → Context → ℕ → Db → Run
unfolding run_task
process_one executor c task_id db = elim (find_task task_id db) [
  | none ↦ Run.missing
  | some t ↦ if is_completed t.status then Run.skipped else run_task executor c t db
]
