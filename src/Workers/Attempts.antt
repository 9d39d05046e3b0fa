-- ===== src/Workers/Attempts.antt =====
-- src/tasks/workers: how an attempt of each downstream worker ends.
use post_call_processing_pip.Prelude.{
  ℕ, String, [], ◌∷◌, Option, none, some, Bool, true, false, ◌≡◌, refl, ◌⊎◌, inl, inr, ◌<◌, ◌≤◌,
  ◌*◌,
}
use post_call_processing_pip.Json.{Json, Fields, str, obj, dict, end, get_or_null}
use post_call_processing_pip.Models.{ProcessingTask, TaskStatus, AuditStatus}
use post_call_processing_pip.Context.{Context}
use post_call_processing_pip.Db.{Db, ok, ◌>>=◌}
use post_call_processing_pip.Dispatcher.{task_event}
use post_call_processing_pip.Dispatcher.Outcomes.{mark_completed}
use post_call_processing_pip.Dispatcher.Attempts.{
  Flushed, task_event-Flushed, Retried, mark_for_retry_total,
}
use post_call_processing_pip.Workers.{analysis_result, get_of, fail_attempt}
use post_call_processing_pip.Workers.Downstream.{
  delivered, raised, responded, no_response, Sent, SignalCall, signal_call, execute_signal_jobs,
  LeadStageCall, lead_stage_call, map_call_stage_to_lead_stage, stages, push_lead_stage,
  execute_lead_stage, Http, Posted, signal_detail,
}
use post_call_processing_pip.Prelude.Integers.{ℤ}

-- `t'` is `t` completed at the time of `c`, and flushed with one audit row.
pub record Completed (c : Context) (t t' : ProcessingTask) (db db' : Db) : Type 0 where
  pub is_completed : t'.status ≡ TaskStatus.completed
  pub stamped : t'.completed_at ≡ some c.now
  pub unlocked : t'.locked_by ≡ none
  pub no_lease : t'.locked_until ≡ none
  pub no_error : t'.last_error ≡ none
  pub same_id : t'.id ≡ t.id
  pub same_payload : t'.payload ≡ t.payload
  pub same_attempts : t'.attempts ≡ t.attempts
  pub flushed : Flushed t' AuditStatus.completed db db'

pub mark_completed-Completed :
    (c : Context) (detail : Fields) (actual : Option ℤ) (t : ProcessingTask) (db : Db)
    → let (t', db') = mark_completed c detail actual t db in Completed c t t' db db'
unfolding mark_completed
mark_completed-Completed c detail actual t db = record {
  is_completed = refl;
  stamped = refl;
  unlocked = refl;
  no_lease = refl;
  no_error = refl;
  same_id = refl;
  same_payload = refl;
  same_attempts = refl;
  flushed = task_event-Flushed c _ _ _ db;
}

-- An attempt returned `false`: its failure was recorded, and then the task was retried or given up.
pub record Failed (c : Context) (error : String) (t : ProcessingTask) (db : Db)
    (r : Bool × (ProcessingTask × Db)) : Type 0 where
  pub reported : r.0 ≡ false
  pub event_detail : Fields
  pub retried : Retried c error t (task_event c t AuditStatus.failed event_detail db) r.1

-- An attempt returned `true` and completed the task.
pub record Succeeded (c : Context) (t : ProcessingTask) (db : Db) (r : Bool × (ProcessingTask × Db))
    : Type 0 where
  pub reported : r.0 ≡ true
  pub completed : Completed c t r.1.0 db r.1.1

pub fail_attempt_total :
    (c : Context) (error : String) (hint : Option ℕ) (event_detail retry_detail : Fields)
    (t : ProcessingTask) (db : Db)
    → 0 < c.draw_den
    → c.draw_num ≤ 20 * c.draw_den
    → (r : ProcessingTask × Db) × (fail_attempt c error hint event_detail retry_detail t db ≡ ok r)
      × Retried c error t (task_event c t AuditStatus.failed event_detail db) r
unfolding fail_attempt
fail_attempt_total c error hint event_detail retry_detail t db d r =
    mark_for_retry_total c error hint 5 (15 ∷ 60 ∷ 180 ∷ 300 ∷ 600 ∷ []) retry_detail t
      (task_event c t AuditStatus.failed event_detail db) d r

fail_attempt-Failed :
    (c : Context) (error : String) (hint : Option ℕ) (event_detail retry_detail : Fields)
    (t : ProcessingTask) (db : Db)
    → 0 < c.draw_den
    → c.draw_num ≤ 20 * c.draw_den
    → (r : Bool × (ProcessingTask × Db)) × ((fail_attempt c error hint event_detail retry_detail t
            db
          >>= λ ended. ok (false, ended))
        ≡ ok r)
      × Failed c error t db r
fail_attempt-Failed c error hint event_detail retry_detail t db d h =
    let (ended, e, retried) = fail_attempt_total c error hint event_detail retry_detail t db d h in
    (
      (false, ended),
      rw e,
      record { reported = refl; event_detail = event_detail; retried = retried },
    )

pub Sent-cases : (s : Sent) → (s ≡ Sent.delivered) ⊎ ((error : String) × (s ≡ Sent.raised error))
Sent-cases delivered = inl refl
Sent-cases (raised error) = inr (error, refl)

complete :
    (c : Context) (detail : Fields) (t : ProcessingTask) (db : Db)
    → Succeeded c t db (true, mark_completed c detail none t db)
complete c detail t db = record {
  reported = refl;
  completed = mark_completed-Completed c detail none t db;
}

-- A POST fails when there is no response, or one with an error status; this is the failure's text.
pub data Refused (h : Http) : Posted → String → Type 0 where
  no_answer : (error : String) → Refused h (Posted.no_response error) error
  bad_status :
      (status : ℕ) → 400 ≤ status → Refused h (Posted.responded status) (h.status_error status)

pub data Accepted : Posted → Type 0 where
  good_status : (status : ℕ) → status < 400 → Accepted (Posted.responded status)

module _ (c : Context) (t : ProcessingTask) (db : Db) (a : Fields) (den_pos : 0 < c.draw_den)
    (draw_le : c.draw_num ≤ 20 * c.draw_den) (is_dict : analysis_result t.payload ≡ obj a) where
  -- With a draw of `random.uniform(-10, 10)` and an analysis result that is a dict, an attempt at
  -- the signal jobs always ends: the trigger gets the analysis of the payload, the task is
  -- completed if it returns, and if it raises the failure is recorded and the task retried or given
  -- up with the exception's text.
  pub execute_signal_jobs_total :
      (trigger : SignalCall → Sent)
      → (r : Bool × (ProcessingTask × Db)) × (execute_signal_jobs trigger c t db ≡ ok r)
        × (((trigger (signal_call t) ≡ Sent.delivered) × Succeeded c t db r)
            ⊎ ((error : String) × (trigger (signal_call t) ≡ Sent.raised error)
                × Failed c error t db r))
  unfolding execute_signal_jobs get_of
  execute_signal_jobs_total trigger = elim (Sent-cases (trigger (signal_call t))) [
    | inl sent ↦ (
      (true, mark_completed c (signal_detail (get_or_null "call_stage" a) t) none t db),
      rw (execute_signal_jobs, sent, is_dict),
      inl (sent, complete c _ t db),
    )
    | inr (error, failed) ↦
        let (r, e, f) =
          fail_attempt-Failed c error none (dict (("error", str error) ∷ []))
            (dict (("target", str "signal_jobs") ∷ [])) t db den_pos draw_le in
        (r, rw (execute_signal_jobs, failed) e, inr (error, failed, f))
  ]

  -- With a draw of `random.uniform(-10, 10)`, an analysis result that is a dict and a call stage
  -- that maps to a lead stage, an attempt always ends: the update gets that stage, the task is
  -- completed if it returns, and retried or given up with the exception's text if it raises.
  pub execute_lead_stage_total :
      (update : LeadStageCall → Sent) (lead_stage : String)
      → map_call_stage_to_lead_stage (get_or_null "call_stage" a) ≡ ok lead_stage
      → (r : Bool × (ProcessingTask × Db)) × (execute_lead_stage update c t db ≡ ok r)
        × (((update (lead_stage_call t lead_stage) ≡ Sent.delivered) × Succeeded c t db r)
            ⊎ ((error : String) × (update (lead_stage_call t lead_stage) ≡ Sent.raised error)
                × Failed c error t db r))
  unfolding execute_lead_stage push_lead_stage get_of
  execute_lead_stage_total update lead_stage mapped =
      elim (Sent-cases (update (lead_stage_call t lead_stage))) [
        | inl sent ↦ (
          (
            true,
            mark_completed c (dict (stages (get_or_null "call_stage" a) lead_stage)) none t db,
          ),
          rw (execute_lead_stage, is_dict, mapped, push_lead_stage, sent),
          inl (sent, complete c _ t db),
        )
        | inr (error, failed) ↦
            let (r, e, f) =
              fail_attempt-Failed c error none
                (dict (("error", str error) ∷ stages (get_or_null "call_stage" a) lead_stage)) end t
                db den_pos draw_le in
            (
              r,
              rw (execute_lead_stage, is_dict, mapped, push_lead_stage, failed) e,
              inr (error, failed, f),
            )
      ]
