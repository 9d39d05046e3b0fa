-- ===== src/Models.antt =====
-- src/models: the enumerations and rows of the tables that the workflow reads and writes.
-- Ids are numbers (UUIDs are opaque), instants are microseconds, and a text column that only ever
-- holds the values of an enumeration has that enumeration as its type. Columns that the database
-- fills by itself and nothing reads (created_at, updated_at, occurred_at, serial ids) are left out.
pub mod Transcript
pub mod Sample
use post_call_processing_pip.Prelude.{ℕ, String, ◌≡◌, ◌↔◌, Bool, true, false, Option, arith}
use post_call_processing_pip.Prelude.Integers.{ℤ}
use post_call_processing_pip.Json.{Fields}

pub data TaskStep : Type 0 where
  recording_poll llm_analysis signal_jobs lead_stage crm_push : TaskStep

pub data TaskLane : Type 0 where
  hot cold skip : TaskLane

pub data TaskStatus : Type 0 where
  pending scheduled in_progress completed failed dead_letter : TaskStatus

abbrev pub same_step : TaskStep → TaskStep → Bool
same_step TaskStep.recording_poll TaskStep.recording_poll = true
same_step TaskStep.llm_analysis TaskStep.llm_analysis = true
same_step TaskStep.signal_jobs TaskStep.signal_jobs = true
same_step TaskStep.lead_stage TaskStep.lead_stage = true
same_step TaskStep.crm_push TaskStep.crm_push = true
same_step _ _ = false

pub same_step_iff : (s t : TaskStep) → (same_step s t ≡ true) ↔ (s ≡ t)
same_step_iff s t = ground arith

abbrev pub same_lane : TaskLane → TaskLane → Bool
same_lane TaskLane.hot TaskLane.hot = true
same_lane TaskLane.cold TaskLane.cold = true
same_lane TaskLane.skip TaskLane.skip = true
same_lane _ _ = false

pub same_lane_iff : (l m : TaskLane) → (same_lane l m ≡ true) ↔ (l ≡ m)
same_lane_iff l m = ground arith

-- processing_tasks
pub record ProcessingTask : Type 0 where
  pub id : ℕ
  pub interaction_id : ℕ
  pub customer_id : ℕ
  pub campaign_id : ℕ
  pub correlation_id : String
  pub step : TaskStep
  pub lane : TaskLane
  pub status : TaskStatus
  pub attempts : ℕ
  pub max_attempts : ℕ
  pub next_run_at : ℕ
  pub last_error : Option String
  pub payload : Fields
  pub estimated_tokens : ℕ
  pub actual_tokens : Option ℤ
  pub locked_by : Option String
  pub locked_until : Option ℕ
  pub completed_at : Option ℕ

-- The `status` texts that the program passes to `record_event`.
pub data AuditStatus : Type 0 where
  enqueued in_progress completed retry_scheduled dead_letter : AuditStatus
  rate_limit_deferred failed probe_not_ready : AuditStatus

-- interaction_audit_log
pub record InteractionAuditLog : Type 0 where
  pub interaction_id : ℕ
  pub customer_id : ℕ
  pub correlation_id : String
  pub step : TaskStep
  pub status : AuditStatus
  pub attempt : ℕ
  pub detail : Fields

-- llm_token_ledger
pub record LlmTokenLedger : Type 0 where
  pub customer_id : ℕ
  pub campaign_id : ℕ
  pub interaction_id : ℕ
  pub request_kind : String
  pub tokens_used : ℤ
  pub model : String
  pub correlation_id : Option String

pub data InteractionStatus : Type 0 where
  initiated ringing in_progress ended failed processing : InteractionStatus

pub data AnalysisStatus : Type 0 where
  pending completed skipped : AnalysisStatus

pub data RecordingStatus : Type 0 where
  pending available no_recording failed : RecordingStatus

-- interactions: the columns that the program reads or writes
pub record Interaction : Type 0 where
  pub id : ℕ
  pub lead_id : ℕ
  pub campaign_id : ℕ
  pub customer_id : ℕ
  pub agent_id : ℕ
  pub status : InteractionStatus
  pub call_sid : Option String
  pub ended_at : Option ℕ
  pub duration_seconds : Option ℤ
  pub conversation_data : Fields
  pub interaction_metadata : Fields
  pub recording_url : Option String
  pub recording_s3_key : Option String
  pub analysis_status : AnalysisStatus
  pub recording_status : RecordingStatus
  pub processing_lane : Option TaskLane
  pub correlation_id : Option String

-- customer_llm_budgets
pub record CustomerLlmBudget : Type 0 where
  pub customer_id : ℕ
  pub reserved_tpm : ℕ
  pub reserved_rpm : ℕ
  pub burst_tpm : ℕ
  pub priority : ℕ
