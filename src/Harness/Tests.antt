-- ===== src/Harness/Tests.antt =====
-- The harness around a worker that does nothing, at two rows of one interaction.
use post_call_processing_pip.Prelude.{[], ◌∷◌, All, none}
use post_call_processing_pip.Json.{end}
use post_call_processing_pip.Models.{ProcessingTask, TaskStep, TaskLane, TaskStatus}
use post_call_processing_pip.Context.{Context}
use post_call_processing_pip.Db.{Db, ok}
use post_call_processing_pip.Harness.{process_one, tables_after, messages_of}
use post_call_processing_pip.Harness.Dispatch.{Sendable, process_one-Sendable}

abbrev context : Context
context = record {
  now = 1000000000;
  correlation_id = none;
  uuid_hex = "0123abcd";
  draw_num = 7;
  draw_den = 1;
}

abbrev waiting : ProcessingTask
waiting = record {
  id = 1;
  interaction_id = 7;
  customer_id = 3;
  campaign_id = 2;
  correlation_id = "req-1";
  step = TaskStep.llm_analysis;
  lane = TaskLane.hot;
  status = TaskStatus.pending;
  attempts = 0;
  max_attempts = 6;
  next_run_at = 0;
  last_error = none;
  payload = end;
  estimated_tokens = 1500;
  actual_tokens = none;
  locked_by = none;
  locked_until = none;
  completed_at = none;
}

abbrev tables : Db
tables = record {
  tasks = waiting ∷ record waiting { id = 2; step = TaskStep.signal_jobs } ∷ [];
  audit = [];
  ledger = [];
  interactions = [];
  next_id = 3;
}

process_one-Sendable_example :
    let run = process_one (λ t db. ok db) context 1 tables in
    All (Sendable (tables_after tables run).tasks) (messages_of run)
process_one-Sendable_example = process_one-Sendable (λ t db. ok db) context 1 tables
