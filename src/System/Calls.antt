-- ===== src/System/Calls.antt =====
-- src/services/recording_poller.py: how an attempt at a recording changes the tables.
use mathlib.Core.Path.{subst}
use post_call_processing_pip.Prelude.{
  ℕ, ◌≡◌, List, [], ◌∷◌, none, String, Bool-cases, inl, inr, leb, Bool, if◌then◌else◌,
}
use post_call_processing_pip.Json.{get_or_null, dict, str}
use post_call_processing_pip.Models.{ProcessingTask, RecordingStatus}
use post_call_processing_pip.Audit.{record_event}
use post_call_processing_pip.Context.{Context}
use post_call_processing_pip.Db.{Db, ok}
use post_call_processing_pip.Db.Rows.{bind_ok}
use post_call_processing_pip.Dispatcher.Outcomes.{mark_for_retry}
use post_call_processing_pip.Workers.{or_json}
use post_call_processing_pip.Workers.Recording.{
  Provider, ProbeResult, RecordingProbeStatus, execute_recording_poll, settle_poll, poll_again,
  poll_available, poll_no_call, poll_exhausted, probe_event, probe_detail, error_text,
  set_interaction_recording, status_text, try_fetch_recording,
}
use post_call_processing_pip.System.Keys.{Keyed}
use post_call_processing_pip.System.Evolution.{Evolves}
use post_call_processing_pip.System.Executors.{
  task_event-Evolves, mark_completed-Evolves, mark_dead_letter-Evolves, mark_for_retry-Evolves,
}

module _ (c : Context) (t : ProcessingTask) (db : Db) (k : Keyed t db.tasks) where
  module _ (schedule : List ℕ) (exhausted : ℕ → String → String) where
    poll_again-Evolves :
        (result : ProbeResult) (r : ProcessingTask × Db)
        → poll_again schedule exhausted c result t db ≡ ok r
        → Evolves t.id [] db r.1
    unfolding poll_again poll_exhausted record_event
    poll_again-Evolves result r e = elim (Bool-cases (leb t.max_attempts t.attempts)) [
      | inl spent ↦
          let same : poll_exhausted schedule exhausted c result t db ≡ r =
            cc (rw (spent, poll_again) at e) in
          rw (← same) (
            Evolves.andthen (Evolves.elsewhere _) (
              mark_dead_letter-Evolves c t
                (set_interaction_recording t.interaction_id RecordingStatus.failed none none db) k
                (exhausted t.attempts (error_text result))
                (dict (("final_probe_status", str (status_text result.status)) ∷ []))))
      | inr left ↦
          let retried : mark_for_retry c (error_text result) none schedule (probe_detail result) t
                (probe_event c result t db)
              ≡ ok r =
            subst
              (λ (b : Bool).
                (if b
                  then ok (poll_exhausted schedule exhausted c result t db)
                  else mark_for_retry c (error_text result) none schedule (probe_detail result) t
                      (probe_event c result t db))
                ≡ ok r)
              left e in
          Evolves.andthen (task_event-Evolves c t _ _ db) (
            mark_for_retry-Evolves c t (probe_event c result t db) k (error_text result) none
              schedule (probe_detail result) r retried)
    ]

    settle_poll-Evolves :
        (status : RecordingProbeStatus) (result : ProbeResult) (r : ProcessingTask × Db)
        → settle_poll schedule exhausted c status result t db ≡ ok r
        → Evolves t.id [] db r.1
    unfolding settle_poll poll_available poll_no_call
    settle_poll-Evolves RecordingProbeStatus.available result r e =
        let same : poll_available schedule exhausted c result t db ≡ r = cc e in
        rw (← same) (
          Evolves.andthen (Evolves.elsewhere _) (
            mark_completed-Evolves c t
              (set_interaction_recording t.interaction_id RecordingStatus.available result.s3_key
                result.recording_url db)
              k _ none))
    settle_poll-Evolves RecordingProbeStatus.no_call result r e =
        let same : poll_no_call schedule exhausted c result t db ≡ r = cc e in
        rw (← same) (
          Evolves.andthen (Evolves.elsewhere _) (
            mark_completed-Evolves c t
              (set_interaction_recording t.interaction_id RecordingStatus.no_recording none none db)
              k _ none))
    settle_poll-Evolves RecordingProbeStatus.not_ready result r e = poll_again-Evolves result r e
    settle_poll-Evolves RecordingProbeStatus.provider_error result r e =
        poll_again-Evolves result r e

    pub execute_recording_poll-Evolves :
        (p : Provider) (r : ProbeResult × (ProcessingTask × Db))
        → execute_recording_poll schedule exhausted p c t db ≡ ok r
        → Evolves t.id [] db r.1.1
    unfolding execute_recording_poll
    execute_recording_poll-Evolves p r e =
        let result =
          try_fetch_recording p t.interaction_id
            (or_json (get_or_null "call_sid" t.payload) (str ""))
            (or_json (get_or_null "exotel_account_id" t.payload) (str "")) in
        let (ended, how, e') =
          bind_ok (settle_poll schedule exhausted c result.status result t db) _ r e in
        let same : (result, ended) ≡ r = cc e' in
        rw (← same) (settle_poll-Evolves result.status result ended how)
