-- ===== src/System/Executors.antt =====
-- src/tasks/workers and src/services/recording_poller.py: each worker leaves the keys of the rows as
-- they were, and the analysis enqueues besides.
use post_call_processing_pip.Prelude.{
  ℕ, ap, ◌≡◌, refl, ◌∙◌, List, [], ◌∷◌, ◌⊎◌, Option, none, String, Bool-cases, inl, inr, leb, true,
  false, Bool,
}
use post_call_processing_pip.Prelude.Integers.{ℤ}
use post_call_processing_pip.Json.{dict, str, int, end, Json, Fields, truthy, get_or_null}
use post_call_processing_pip.Models.{ProcessingTask, AuditStatus}
use post_call_processing_pip.Audit.{record_event}
use post_call_processing_pip.Context.{Context}
use post_call_processing_pip.Db.{Db, save, Result, ok, ◌>>=◌}
use post_call_processing_pip.Db.Rows.{bind_ok}
use post_call_processing_pip.Dispatcher.{
  mark_in_progress, claim_row, task_event, default_backoff_schedule,
}
use post_call_processing_pip.Dispatcher.Outcomes.{
  mark_completed, mark_dead_letter, mark_for_retry, retry_at, reschedule, completed_row,
  dead_letter_row, scheduled_row,
}
use post_call_processing_pip.Workers.{fail_attempt, get_of, analysis_result}
use post_call_processing_pip.Workers.Downstream.{
  Sent, SignalCall, LeadStageCall, Http, execute_signal_jobs, signal_call, execute_lead_stage,
  push_lead_stage, lead_stage_call, execute_crm_push, crm_attempt, push_crm, crm_failed,
  map_call_stage_to_lead_stage, crm_body, Posted, signal_detail, stages, url_host,
}
use post_call_processing_pip.Workers.Attempts.{Sent-cases}
use post_call_processing_pip.System.Keys.{Key, key, Keyed, keys-replace_same, keys-replace_twice}
use post_call_processing_pip.System.Evolution.{Evolves}

-- A row with the key of one that may be written may be written.
Keyed-same :
    (t t' : ProcessingTask) (rs : List ProcessingTask) → key t' ≡ key t → Keyed t rs → Keyed t' rs
Keyed-same t t' rs e k = keys-replace_same t t' rs e ∙ k

-- An event adds to the audit trail alone.
pub task_event-Evolves :
    {i : ℕ} (c : Context) (t : ProcessingTask) (status : AuditStatus) (detail : Fields) (db : Db)
    → Evolves i [] db (task_event c t status detail db)
unfolding record_event
task_event-Evolves c t status detail db = Evolves.noted _

module _ (c : Context) (t : ProcessingTask) (db : Db) (k : Keyed t db.tasks) where
  -- The flush of a changed row, with its event.
  flush-Evolves :
      (t' : ProcessingTask) (status : AuditStatus) (detail : Fields)
      → key t' ≡ key t
      → Evolves t.id [] db (task_event c t' status detail (save t' db))
  flush-Evolves t' status detail e =
      Evolves.andthen (Evolves.written t' (ap (λ (x : Key). x.id) e) (Keyed-same t t' db.tasks e k))
        (task_event-Evolves c t' status detail (save t' db))

  -- The claimed row may be written again.
  pub mark_in_progress-Evolves :
      (worker : String) (lease_seconds : ℕ)
      → let (claimed, db') = mark_in_progress c worker lease_seconds t db in
        Evolves t.id [] db db' × Keyed claimed db'.tasks
  unfolding mark_in_progress record_event
  mark_in_progress-Evolves worker lease_seconds = (
    flush-Evolves (claim_row c worker lease_seconds t) _ _ refl,
    keys-replace_twice (claim_row c worker lease_seconds t) db.tasks,
  )

  pub mark_completed-Evolves :
      (detail : Fields) (actual_tokens : Option ℤ)
      → Evolves t.id [] db (mark_completed c detail actual_tokens t db).1
  unfolding mark_completed record_event
  mark_completed-Evolves detail actual_tokens =
      flush-Evolves (completed_row c actual_tokens t) _ _ refl

  pub mark_dead_letter-Evolves :
      (error : String) (detail : Fields)
      → Evolves t.id [] db (mark_dead_letter c error detail t db).1
  unfolding mark_dead_letter record_event
  mark_dead_letter-Evolves error detail = flush-Evolves (dead_letter_row error t) _ _ refl

  reschedule-Evolves :
      (error : String) (hint : Option ℕ) (detail : Fields) (run_at : ℕ)
      → Evolves t.id [] db (reschedule c error hint detail t db run_at).1
  unfolding record_event
  reschedule-Evolves error hint detail run_at =
      flush-Evolves (scheduled_row error run_at t) _ _ refl

  pub mark_for_retry-Evolves :
      (error : String) (hint : Option ℕ) (schedule : List ℕ) (detail : Fields)
      (r : ProcessingTask × Db)
      → mark_for_retry c error hint schedule detail t db ≡ ok r
      → Evolves t.id [] db r.1
  unfolding mark_for_retry
  mark_for_retry-Evolves error hint schedule detail r e =
      elim (Bool-cases (leb t.max_attempts t.attempts)) [
        | inl spent ↦
            let same : mark_dead_letter c error detail t db ≡ r = cc (rw spent at e) in
            rw (← same) (mark_dead_letter-Evolves error detail)
        | inr left ↦
            let (run_at, _, e') =
              bind_ok (retry_at c hint schedule t.attempts) _ r (rw left at e) in
            let same : reschedule c error hint detail t db run_at ≡ r = cc e' in
            rw (← same) (reschedule-Evolves error hint detail run_at)
      ]

Posted-cases :
    (p : Posted)
    → ((status : ℕ) × (p ≡ Posted.responded status))
      ⊎ ((error : String) × (p ≡ Posted.no_response error))
Posted-cases (Posted.responded status) = inl (status, refl)
Posted-cases (Posted.no_response error) = inr (error, refl)

module _ (c : Context) (t : ProcessingTask) (db : Db) (k : Keyed t db.tasks) where
  pub fail_attempt-Evolves :
      (error : String) (hint : Option ℕ) (event_detail retry_detail : Fields)
      (r : ProcessingTask × Db)
      → fail_attempt c error hint event_detail retry_detail t db ≡ ok r
      → Evolves t.id [] db r.1
  unfolding fail_attempt record_event
  fail_attempt-Evolves error hint event_detail retry_detail r e =
      Evolves.andthen (task_event-Evolves c t AuditStatus.failed event_detail db) (
        mark_for_retry-Evolves c t (task_event c t AuditStatus.failed event_detail db) k error hint
          default_backoff_schedule retry_detail r e)

  -- The two ways that an attempt ends in the three workers that call a service.
  fails-Evolves :
      (error : String) (hint : Option ℕ) (event_detail retry_detail : Fields)
      (r : Bool × (ProcessingTask × Db))
      → (fail_attempt c error hint event_detail retry_detail t db >>= (λ x. ok (false, x))) ≡ ok r
      → Evolves t.id [] db r.1.1
  fails-Evolves error hint event_detail retry_detail r e =
      let (x, ended, e') =
        bind_ok (fail_attempt c error hint event_detail retry_detail t db) _ r e in
      let same : (false, x) ≡ r = cc e' in
      rw (← same) (fail_attempt-Evolves error hint event_detail retry_detail x ended)

  succeeds-Evolves :
      (detail : Fields) (r : Bool × (ProcessingTask × Db))
      → Path
          (Result (Bool × (ProcessingTask × Db)))
          (ok (true, mark_completed c detail none t db))
          (ok r)
      → Evolves t.id [] db r.1.1
  succeeds-Evolves detail r e =
      let same : (true, mark_completed c detail none t db) ≡ r = cc e in
      rw (← same) (mark_completed-Evolves c t db k detail none)

  pub execute_signal_jobs-Evolves :
      (trigger : SignalCall → Sent) (r : Bool × (ProcessingTask × Db))
      → execute_signal_jobs trigger c t db ≡ ok r
      → Evolves t.id [] db r.1.1
  unfolding execute_signal_jobs
  execute_signal_jobs-Evolves trigger r e = elim (Sent-cases (trigger (signal_call t))) [
    | inl sent ↦
        let (call_stage, _, e') =
          bind_ok (get_of "call_stage" (analysis_result t.payload)) _ r
            (rw (sent, execute_signal_jobs) at e) in
        succeeds-Evolves (signal_detail call_stage t) r e'
    | inr (error, failed) ↦
        fails-Evolves error none (dict (("error", str error) ∷ []))
          (dict (("target", str "signal_jobs") ∷ [])) r (rw (failed, execute_signal_jobs) at e)
  ]

  push_lead_stage-Evolves :
      (update : LeadStageCall → Sent) (call_stage : Json) (lead_stage : String)
      (r : Bool × (ProcessingTask × Db))
      → push_lead_stage update c call_stage lead_stage t db ≡ ok r
      → Evolves t.id [] db r.1.1
  unfolding push_lead_stage
  push_lead_stage-Evolves update call_stage lead_stage r e =
      elim (Sent-cases (update (lead_stage_call t lead_stage))) [
        | inl sent ↦
            succeeds-Evolves (dict (stages call_stage lead_stage)) r
              (rw (sent, push_lead_stage) at e)
        | inr (error, failed) ↦
            fails-Evolves error none (dict (("error", str error) ∷ stages call_stage lead_stage))
              end r (rw (failed, push_lead_stage) at e)
      ]

  pub execute_lead_stage-Evolves :
      (update : LeadStageCall → Sent) (r : Bool × (ProcessingTask × Db))
      → execute_lead_stage update c t db ≡ ok r
      → Evolves t.id [] db r.1.1
  unfolding execute_lead_stage
  execute_lead_stage-Evolves update r e =
      let (call_stage, _, e1) = bind_ok (get_of "call_stage" (analysis_result t.payload)) _ r e in
      let (lead_stage, _, e2) = bind_ok (map_call_stage_to_lead_stage call_stage) _ r e1 in
      push_lead_stage-Evolves update call_stage lead_stage r e2

  crm_failed-Evolves :
      (h : Http) (crm_url : Json) (error : String) (r : Bool × (ProcessingTask × Db))
      → crm_failed h c crm_url error t db ≡ ok r
      → Evolves t.id [] db r.1.1
  unfolding crm_failed
  crm_failed-Evolves h crm_url error r e =
      fails-Evolves error none (dict (("error", str error) ∷ url_host h crm_url ∷ []))
        (dict (url_host h crm_url ∷ [])) r e

  push_crm-Evolves :
      (h : Http) (crm_url : Json) (body : Fields) (r : Bool × (ProcessingTask × Db))
      → push_crm h c crm_url body t db ≡ ok r
      → Evolves t.id [] db r.1.1
  unfolding push_crm mark_completed
  push_crm-Evolves h crm_url body r e = elim (Posted-cases (h.post crm_url body)) [
    | inl (status, answered) ↦ elim (Bool-cases (leb 400 status)) [
      | inl bad ↦
          crm_failed-Evolves h crm_url (h.status_error status) r (rw (answered, push_crm, bad) at e)
      | inr good ↦
          succeeds-Evolves (dict (url_host h crm_url ∷ ("response_code", int status) ∷ [])) r
            (rw (answered, push_crm, good) at e)
    ]
    | inr (error, failed) ↦ crm_failed-Evolves h crm_url error r (rw (failed, push_crm) at e)
  ]

  crm_attempt-Evolves :
      (h : Http) (crm_url : Json) (r : Bool × (ProcessingTask × Db))
      → crm_attempt h c crm_url t db ≡ ok r
      → Evolves t.id [] db r.1.1
  unfolding crm_attempt
  crm_attempt-Evolves h crm_url r e =
      let (call_stage, _, e1) = bind_ok (get_of "call_stage" (analysis_result t.payload)) _ r e in
      let (summary, _, e2) = bind_ok (get_of "summary" (analysis_result t.payload)) _ r e1 in
      let (entities, _, e3) = bind_ok (get_of "entities" (analysis_result t.payload)) _ r e2 in
      push_crm-Evolves h crm_url (crm_body h t call_stage summary entities) r e3

  pub execute_crm_push-Evolves :
      (h : Http) (r : Bool × (ProcessingTask × Db))
      → execute_crm_push h c t db ≡ ok r
      → Evolves t.id [] db r.1.1
  unfolding execute_crm_push
  execute_crm_push-Evolves h r e =
      elim (Bool-cases (truthy (get_or_null "crm_webhook_url" t.payload))) [
        | inl has_crm ↦
            crm_attempt-Evolves h (get_or_null "crm_webhook_url" t.payload) r
              (rw (has_crm, execute_crm_push) at e)
        | inr no_crm ↦
            succeeds-Evolves (dict (("reason", str "no_crm_configured") ∷ [])) r
              (rw (no_crm, execute_crm_push) at e)
      ]
