-- ===== src/Workers/FanOut.antt =====
-- src/tasks/workers/llm_worker.py: the rows of the follow-up steps after an analysis.
use post_call_processing_pip.Prelude.{ap, true, some, ◌≡◌, refl, ◌∙◌}
use post_call_processing_pip.Models.{ProcessingTask, TaskStep}
use post_call_processing_pip.Context.{Context}
use post_call_processing_pip.Db.{Db, find_step, ok, has_interaction}
use post_call_processing_pip.Db.Rows.{bind_ok, ok_injective}
use post_call_processing_pip.Dispatcher.{enqueue_step, add_step}
use post_call_processing_pip.Dispatcher.Enqueue.{
  Enqueued, add_step-Enqueued, add_step_other, add_step-elsewhere, enqueue_step-add_step,
  enqueue_step_ok, has_interaction-add_step,
}
use post_call_processing_pip.Workers.PostCall.{
  Llm, AnalysisResult, fan_out, add_follow_ups, downstream_step,
}

-- The fan-out leaves a row for both follow-up steps, each the one that was there before or a pending
-- one with the analysis in its payload.
pub add_follow_ups_total :
    (w : Llm) (c : Context) (a : AnalysisResult) (t : ProcessingTask) (db : Db)
    → let db' = add_follow_ups w c a t db in
      (signal : ProcessingTask) × (lead : ProcessingTask) × (find_step t.interaction_id
          TaskStep.signal_jobs db'
        ≡ some signal)
      × (find_step t.interaction_id TaskStep.lead_stage db' ≡ some lead)
      × Enqueued (downstream_step w a t TaskStep.signal_jobs) db signal
      × Enqueued (downstream_step w a t TaskStep.lead_stage) db lead
unfolding add_follow_ups
add_follow_ups_total w c a t db =
    let signal = downstream_step w a t TaskStep.signal_jobs in
    let lead = downstream_step w a t TaskStep.lead_stage in
    let (s, db1) = add_step c signal db in
    let (found, from) = add_step-Enqueued c signal db in
    let (found', from') = add_step-Enqueued c lead db1 in
    (
      s,
      (add_step c lead db1).0,
      add_step_other c lead db1 t.interaction_id TaskStep.signal_jobs refl ∙ found,
      found',
      from,
      rw (← add_step_other c signal db t.interaction_id TaskStep.lead_stage refl) from',
    )

-- The fan-out only enqueues.
pub add_follow_ups-elsewhere :
    (w : Llm) (c : Context) (a : AnalysisResult) (t : ProcessingTask) (db : Db)
    → ((add_follow_ups w c a t db).ledger ≡ db.ledger)
      × ((add_follow_ups w c a t db).interactions ≡ db.interactions)
unfolding add_follow_ups
add_follow_ups-elsewhere w c a t db =
    let signal = downstream_step w a t TaskStep.signal_jobs in
    let first = add_step-elsewhere c signal db in
    let second =
      add_step-elsewhere c (downstream_step w a t TaskStep.lead_stage) (add_step c signal db).1 in
    (second.0 ∙ first.0, second.1 ∙ first.1)

-- With the interaction in the table no insert of the fan-out is refused.
pub fan_out-add_follow_ups :
    (w : Llm) (c : Context) (a : AnalysisResult) (t : ProcessingTask) (db : Db)
    → has_interaction t.interaction_id db ≡ true
    → fan_out w c a t db ≡ ok (add_follow_ups w c a t db)
unfolding fan_out add_follow_ups
fan_out-add_follow_ups w c a t db h =
    let signal = downstream_step w a t TaskStep.signal_jobs in
    let lead = downstream_step w a t TaskStep.lead_stage in
    rw
      (
        enqueue_step-add_step c signal db h,
        enqueue_step-add_step c lead (add_step c signal db).1
            (has_interaction-add_step c signal db t.interaction_id h),
      )
      refl

pub fan_out_ok :
    (w : Llm) (c : Context) (a : AnalysisResult) (t : ProcessingTask) (db db' : Db)
    → fan_out w c a t db ≡ ok db'
    → add_follow_ups w c a t db ≡ db'
unfolding fan_out add_follow_ups
fan_out_ok w c a t db db' e =
    let signal = downstream_step w a t TaskStep.signal_jobs in
    let lead = downstream_step w a t TaskStep.lead_stage in
    let ((s, db1), first, e1) = bind_ok (enqueue_step c signal db) _ db' e in
    let ((l, db2), second, e2) = bind_ok (enqueue_step c lead db1) _ db' e1 in
    ap (λ (x : ProcessingTask × Db). (add_step c lead x.1).1)
      (enqueue_step_ok c signal db (s, db1) first)
    ∙ ap (λ (x : ProcessingTask × Db). x.1) (enqueue_step_ok c lead db1 (l, db2) second)
    ∙ ok_injective db2 db' e2
