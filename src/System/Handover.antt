-- ===== src/System/Handover.antt =====
-- src/tasks/workers/llm_worker.py with signal_worker.py and lead_stage_worker.py: what the workers after
-- the analysis get of it.
use post_call_processing_pip.Prelude.{
  ℕ, String, ◌≡◌, refl, ◌∙◌, ◌⊎◌, inl, inr, ◌<◌, ◌≤◌, ◌*◌, Bool, [], ◌∷◌, none, some, true, ap, sym,
}
use post_call_processing_pip.Prelude.Integers.{ℤ, pos}
use post_call_processing_pip.Json.{Fields, str, dict, obj, end, get_or_null, truthy}
use post_call_processing_pip.Models.{ProcessingTask, TaskStep}
use post_call_processing_pip.Context.{Context}
use post_call_processing_pip.Db.{has_interaction, Db, ok, find_step, replace}
use post_call_processing_pip.Redis.{SortedSets}
use post_call_processing_pip.Budget.{BudgetReservation, grants}
use post_call_processing_pip.Budget.Cache.{BudgetManager}
use post_call_processing_pip.Dispatcher.Outcomes.{completed_row}
use post_call_processing_pip.Dispatcher.Enqueue.{Enqueued}
use post_call_processing_pip.Workers.{analysis_result, or_json}
use post_call_processing_pip.Workers.Downstream.{
  Sent, SignalCall, LeadStageCall, signal_call, lead_stage_call, execute_signal_jobs,
  execute_lead_stage, map_call_stage_to_lead_stage, lead_stage_of, call_stage_to_lead_stage,
}
use post_call_processing_pip.Workers.Attempts.{
  Succeeded, Failed, execute_signal_jobs_total, execute_lead_stage_total,
}
use post_call_processing_pip.Workers.PostCall.{
  Llm, AnalysisResult, Processed, downstream_step, downstream_payload, ended_at, post_call_context,
}
use post_call_processing_pip.Workers.Llm.{Ended, run_reserved}
use post_call_processing_pip.Workers.Analysis.{Attempted, run_reserved_total}
use post_call_processing_pip.System.Keys.{Keyed, Absent-keys, keys-replace_same}

-- What the payload of a follow-up step holds of the analysis.
abbrev pub handed_over : AnalysisResult → Fields
handed_over a = dict (
    ("call_stage", a.call_stage)
    ∷ ("entities", or_json a.entities (obj end))
    ∷ ("summary", a.summary)
    ∷ [])

downstream_payload-analysis :
    (a : AnalysisResult) (t u : ProcessingTask)
    → u.payload ≡ downstream_payload a t
    → analysis_result u.payload ≡ obj (handed_over a)
unfolding get_or_null truthy
downstream_payload-analysis a t u e = rw e

call_stage-mapped :
    (a : AnalysisResult) (s : String)
    → a.call_stage ≡ str s
    → map_call_stage_to_lead_stage (get_or_null "call_stage" (handed_over a))
      ≡ ok (lead_stage_of s call_stage_to_lead_stage)
unfolding map_call_stage_to_lead_stage get_or_null
call_stage-mapped a s e = rw e

-- The completion of a row leaves an interaction without another step so.
still-Absent :
    (c : Context) (tokens : ℤ) (t : ProcessingTask) (db before : Db) (i : ℕ) (s : TaskStep)
    → Keyed t db.tasks
    → before.tasks ≡ replace (completed_row c (some tokens) t) db.tasks
    → find_step i s db ≡ none
    → find_step i s before ≡ none
still-Absent c tokens t db before i s k e h =
    let done_ = completed_row c (some tokens) t in
    rw e (
      Absent-keys i s db.tasks (replace done_ db.tasks)
        (keys-replace_same t done_ db.tasks refl ∙ k) h)

new_payload :
    (w : Llm) (a : AnalysisResult) (t u : ProcessingTask) (s : TaskStep) (before : Db)
    → find_step t.interaction_id s before ≡ none
    → Enqueued (downstream_step w a t s) before u
    → u.payload ≡ downstream_payload a t
new_payload w a t u s before missing (inl old) = absurd (cc (missing, old))
new_payload w a t u s before missing (inr (new, customer, payload, _, _)) = payload

analysed_inj : (a a' : AnalysisResult) → Processed.analysed a ≡ Processed.analysed a' → a ≡ a'
analysed_inj a a' e = cc e

-- An attempt at the signal jobs triggers them with the analysis.
abbrev pub Signals : (SignalCall → Sent) → Context → AnalysisResult → ProcessingTask → Db → Type 0
Signals trigger c a u db =
    (out : Bool × (ProcessingTask × Db)) × (execute_signal_jobs trigger c u db ≡ ok out)
    × ((signal_call u).analysis ≡ obj (handed_over a))
    × (((trigger (signal_call u) ≡ Sent.delivered) × Succeeded c u db out)
        ⊎ ((error : String) × (trigger (signal_call u) ≡ Sent.raised error)
            × Failed c error u db out))

-- An attempt at the lead stage asks for `stage`.
abbrev pub Stages : (LeadStageCall → Sent) → Context → String → ProcessingTask → Db → Type 0
Stages update c stage u db =
    (out : Bool × (ProcessingTask × Db)) × (execute_lead_stage update c u db ≡ ok out)
    × (((update (lead_stage_call u stage) ≡ Sent.delivered) × Succeeded c u db out)
        ⊎ ((error : String) × (update (lead_stage_call u stage) ≡ Sent.raised error)
            × Failed c error u db out))

module _ (R : SortedSets) where
  module _ (w : Llm) (c : Context) (b : BudgetReservation) (m : BudgetManager) (estimated ended : ℕ)
      (t : ProcessingTask) (db : Db) (st : R.Store) (a : AnalysisResult) (n : ℕ) (s : String)
      (trigger : SignalCall → Sent) (update : LeadStageCall → Sent) (c' : Context) (db' : Db)
      (stage : a.call_stage ≡ str s) (d : 0 < c'.draw_den)
      (l : c'.draw_num ≤ 20 * c'.draw_den) where
    signal-Signals :
        (u : ProcessingTask) → u.payload ≡ downstream_payload a t → Signals trigger c' a u db'
    signal-Signals u e =
        let has = downstream_payload-analysis a t u e in
        let (out, run, how) = execute_signal_jobs_total c' u db' (handed_over a) d l has trigger in
        (out, run, has, how)

    lead-Stages :
        (u : ProcessingTask)
        → u.payload ≡ downstream_payload a t
        → Stages update c' (lead_stage_of s call_stage_to_lead_stage) u db'
    lead-Stages u e =
        execute_lead_stage_total c' u db' (handed_over a) d l (downstream_payload-analysis a t u e)
          update (lead_stage_of s call_stage_to_lead_stage) (call_stage-mapped a s stage)

    -- With draws of `random.uniform(-10, 10)`, the interaction in the table and the row written back under
    -- its own key: a granted attempt at the analysis of an interaction without follow-up rows, with no
    -- end time or one that parses, whose call returns an analysis with a call stage that is a text and
    -- a number of tokens that is not negative, ends with a row for either follow-up step; and an
    -- attempt at such a row, whenever it is made and in whatever tables, ends too. The one triggers
    -- the signal jobs with the call stage, the entities and the summary of the analysis, the other asks
    -- for the lead stage that the call stage maps to; each completes its row if the service returns, and
    -- has it retried or given up if it raises.
    pub analysis_handed_over :
        0 < c.draw_den
        → c.draw_num ≤ 20 * c.draw_den
        → has_interaction t.interaction_id db ≡ true
        → Keyed t db.tasks
        → find_step t.interaction_id TaskStep.signal_jobs db ≡ none
        → find_step t.interaction_id TaskStep.lead_stage db ≡ none
        → grants b ≡ true
        → ended_at w c t.payload ≡ ok ended
        → w.process_post_call (post_call_context t ended) ≡ Processed.analysed a
        → a.tokens_used ≡ pos n
        → (e : Ended R.Store) × (signal : ProcessingTask) × (lead : ProcessingTask) × (run_reserved
              R w c b m estimated t db st
            ≡ ok e)
          × (find_step t.interaction_id TaskStep.signal_jobs e.db ≡ some signal)
          × (find_step t.interaction_id TaskStep.lead_stage e.db ≡ some lead)
          × Signals trigger c' a signal db'
          × Stages update c' (lead_stage_of s call_stage_to_lead_stage) lead db'
    analysis_handed_over d1 l1 there k no_signal no_lead granted parsed answer tokens =
        let counts : (a' : AnalysisResult)
            → w.process_post_call (post_call_context t ended) ≡ Processed.analysed a'
            → (n' : ℕ) × (a'.tokens_used ≡ pos n') =
          λ a' e. (
            n,
            ap (λ (x : AnalysisResult). x.tokens_used) (analysed_inj a' a (sym e ∙ answer))
                ∙ tokens,
          ) in
        let (e, run, how) =
          run_reserved_total R w c b m estimated ended t db st d1 l1 there parsed counts in
        elim how [
          | Attempted.put_off denied _ _ _ ↦ absurd (cc (denied, granted))
          | Attempted.call_failed _ message raised' _ _ _ _ ↦ absurd (cc (raised', answer))
          | Attempted.carried_out _ a' answer' _ _ _ _ _ _ _ _ before tasks signal lead from from'
                has has' ↦
              let same : a' ≡ a = analysed_inj a' a (sym answer' ∙ answer) in
              let absent =
                still-Absent c a'.tokens_used t db before t.interaction_id TaskStep.signal_jobs k
                  tasks no_signal in
              let absent' =
                still-Absent c a'.tokens_used t db before t.interaction_id TaskStep.lead_stage k
                  tasks no_lead in
              let payload = new_payload w a' t signal TaskStep.signal_jobs before absent from in
              let payload' = new_payload w a' t lead TaskStep.lead_stage before absent' from' in
              let same_payload = ap (λ (x : AnalysisResult). downstream_payload x t) same in
              (
                e,
                signal,
                lead,
                run,
                has,
                has',
                signal-Signals signal (payload ∙ same_payload),
                lead-Stages lead (payload' ∙ same_payload),
              )
        ]
