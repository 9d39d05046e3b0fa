-- ===== src/Models/Sample.antt =====
-- An interaction for the runs at fixed inputs.
use post_call_processing_pip.Prelude.{ℕ, none}
use post_call_processing_pip.Json.{end}
use post_call_processing_pip.Models.{
  Interaction, InteractionStatus, AnalysisStatus, RecordingStatus,
}

abbrev pub sample_interaction : ℕ → Interaction
sample_interaction id = record {
  id = id;
  lead_id = 5;
  campaign_id = 2;
  customer_id = 3;
  agent_id = 4;
  status = InteractionStatus.in_progress;
  call_sid = none;
  ended_at = none;
  duration_seconds = none;
  conversation_data = end;
  interaction_metadata = end;
  recording_url = none;
  recording_s3_key = none;
  analysis_status = AnalysisStatus.pending;
  recording_status = RecordingStatus.pending;
  processing_lane = none;
  correlation_id = none;
}
