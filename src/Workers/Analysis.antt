-- ===== src/Workers/Analysis.antt =====
-- src/tasks/workers/llm_worker.py: how an attempt at the analysis ends, and what it leaves.
use post_call_processing_pip.Prelude.{
  List, ℕ, String, [], ◌∷◌, Option, none, some, true, false, ◌≡◌, refl, inl, inr, ◌<◌, ◌≤◌, ◌*◌,
  arith, Bool-cases, length, ◌++◌,
}
use post_call_processing_pip.Prelude.Integers.{pos}
use post_call_processing_pip.Json.{Fields, dict, str}
use post_call_processing_pip.Models.{
  LlmTokenLedger, ProcessingTask, TaskStep, TaskStatus, AuditStatus,
}
use post_call_processing_pip.Context.{Context}
use post_call_processing_pip.Dispatcher.Outcomes.{mark_completed, completed_row}
use post_call_processing_pip.Db.{Db, ok, replace, find_step, update_interaction, update_rows}
use post_call_processing_pip.Audit.{record_consumption}
use post_call_processing_pip.Redis.{SortedSets}
use post_call_processing_pip.Limiter
use post_call_processing_pip.Budget.{BudgetReservation, grants}
use post_call_processing_pip.Budget.Cache.{BudgetManager}
use post_call_processing_pip.Budget
use post_call_processing_pip.Dispatcher.{task_event}
use post_call_processing_pip.Dispatcher.Attempts.{Retried, mark_for_retry_total}
use post_call_processing_pip.Dispatcher.Enqueue.{Enqueued}
use post_call_processing_pip.Db.{has_interaction}
use post_call_processing_pip.Models.{Interaction}
use post_call_processing_pip.Prelude.{any, ◌∙◌, ◌==◌, inl, inr, Bool-cases}
use post_call_processing_pip.Workers.Llm.{settle_analysis}
use post_call_processing_pip.Workers.FanOut.{
  fan_out-add_follow_ups, add_follow_ups_total, add_follow_ups-elsewhere,
}
use post_call_processing_pip.Workers.Attempts.{fail_attempt_total}
use post_call_processing_pip.Workers.RateLimit.{is_rate_limit_error}
use post_call_processing_pip.Workers.PostCall.{
  raised, analysed, Llm, AnalysisResult, Processed, estimate_of, downstream_step, ended_at,
  post_call_context,
}
use post_call_processing_pip.Workers.Llm.{
  Ended, defer, deferred_event, analysis_failed, finish, run_reserved, settled_analysis,
  provider_hint, rate_limited_field, ended_with, completed_detail, analysed_row,
}

-- While the configured average is at most 6000, an estimate lies between the average and 6000, and a
-- longer transcript is never estimated lower.
estimate_of_bounds :
    (avg length length' : ℕ)
    → avg ≤ 6000
    → length ≤ length'
    → (avg ≤ estimate_of avg length)
      × (estimate_of avg length ≤ 6000)
      × (estimate_of avg length ≤ estimate_of avg length')
unfolding estimate_of
estimate_of_bounds avg length length' h le = (omega arith, omega arith, omega arith)

-- The three ways in which an attempt with the reservation `b` ends.
pub data Attempted (R : SortedSets) (w : Llm) (c : Context) (b : BudgetReservation) (estimated : ℕ)
    (ended : ℕ) (t : ProcessingTask) (db : Db) (st : R.Store) (e : Ended R.Store) : Type 0 where
  -- no call was made, and nothing more was reserved
  put_off :
      grants b ≡ false
      → e.result ≡ none
      → e.store ≡ st
      → Retried c (w.deferred b.reason) t (deferred_event c b estimated t db) (e.task, e.db)
      → Attempted R w c b estimated ended t db st e
  -- the call failed: the reservation is released, and the failure recorded before the retry
  call_failed :
      grants b ≡ true
      → (message : String)
      → w.process_post_call (post_call_context t ended) ≡ Processed.raised message
      → e.result ≡ none
      → e.store ≡ Budget.release R b st
      → (detail : Fields)
      → Retried c message t (task_event c t AuditStatus.failed detail db) (e.task, e.db)
      → Attempted R w c b estimated ended t db st e
  -- the call returned: the reservation now counts the actual tokens, the ledger has a row of them, the
  -- interaction has the analysis, and both follow-up steps have a row, enqueued over the tables with
  -- the completed task
  carried_out :
      grants b ≡ true
      → (a : AnalysisResult)
      → w.process_post_call (post_call_context t ended) ≡ Processed.analysed a
      → e.result ≡ some a
      → Budget.reconcile R b a.tokens_used st ≡ ok e.store
      → e.task.status ≡ TaskStatus.completed
      → e.task.actual_tokens ≡ some a.tokens_used
      → (l : LlmTokenLedger) → e.db.ledger ≡ db.ledger ++ l ∷ []
      → (l.interaction_id ≡ t.interaction_id) × (l.tokens_used ≡ a.tokens_used)
      → e.db.interactions ≡ update_rows t.interaction_id (analysed_row a) db.interactions
      → (before : Db) → before.tasks ≡ replace (completed_row c (some a.tokens_used) t) db.tasks
      → (signal : ProcessingTask) → (lead : ProcessingTask)
      → Enqueued (downstream_step w a t TaskStep.signal_jobs) before signal
      → Enqueued (downstream_step w a t TaskStep.lead_stage) before lead
      → find_step t.interaction_id TaskStep.signal_jobs e.db ≡ some signal
      → find_step t.interaction_id TaskStep.lead_stage e.db ≡ some lead
      → Attempted R w c b estimated ended t db st e

defer_total :
    (w : Llm) (c : Context) (b : BudgetReservation) (estimated : ℕ) (t : ProcessingTask) (db : Db)
    → 0 < c.draw_den
    → c.draw_num ≤ 20 * c.draw_den
    → (r : ProcessingTask × Db) × (defer w c b estimated t db ≡ ok r)
      × Retried c (w.deferred b.reason) t (deferred_event c b estimated t db) r
unfolding defer
defer_total w c b estimated t db d l =
    mark_for_retry_total c (w.deferred b.reason) (some b.retry_after_ms) 5
      (15 ∷ 60 ∷ 180 ∷ 300 ∷ 600 ∷ []) (dict (("deferred_reason", str b.reason) ∷ [])) t
      (deferred_event c b estimated t db) d l

failed_detail : Llm → String → Fields
failed_detail w message =
    dict (("error", str message) ∷ rate_limited_field (is_rate_limit_error w.alike message) ∷ [])

analysis_failed_total :
    (w : Llm) (c : Context) (message : String) (t : ProcessingTask) (db : Db)
    → 0 < c.draw_den
    → c.draw_num ≤ 20 * c.draw_den
    → (r : ProcessingTask × Db) × (analysis_failed w c message t db ≡ ok r)
      × Retried c message t (task_event c t AuditStatus.failed (failed_detail w message) db) r
unfolding analysis_failed failed_detail
analysis_failed_total w c message t db d l =
    fail_attempt_total c message (provider_hint (is_rate_limit_error w.alike message))
      (failed_detail w message)
      (dict (rate_limited_field (is_rate_limit_error w.alike message) ∷ [])) t db d l

-- The tables when the task is completed, before the fan-out.
abbrev tables_completed : Llm → Context → AnalysisResult → ℕ → ProcessingTask → Db → Db
unfolding mark_completed
tables_completed w c a estimated t db =
    (mark_completed c (completed_detail a estimated) (some a.tokens_used) t
      (update_interaction t.interaction_id (analysed_row a) db)).1

consumption_pos :
    (c : Context) (a : AnalysisResult) (n : ℕ) (t : ProcessingTask) (db : Db)
    → a.tokens_used ≡ pos n
    → (l : LlmTokenLedger) × (record_consumption c t.customer_id t.interaction_id a.tokens_used
          t.campaign_id a.model
          (some t.correlation_id)
          db
        ≡ ok (record db { ledger = db.ledger ++ l ∷ [] }))
      × (l.interaction_id ≡ t.interaction_id)
      × (l.tokens_used ≡ a.tokens_used)
unfolding record_consumption
consumption_pos c a n t db tokens = rw tokens (_, refl, refl, refl)

analysed-has :
    (a : AnalysisResult) (i j : ℕ) (rs : List Interaction)
    → any (λ r. r.id == j) (update_rows i (analysed_row a) rs) ≡ any (λ r. r.id == j) rs
analysed-has a i j [] = refl
analysed-has a i j (r ∷ rs) = elim (Bool-cases (r.id == i)) [
  | inl same ↦ rw same (rw (analysed-has a i j rs) refl)
  | inr other ↦ rw other (rw (analysed-has a i j rs) refl)
]

-- With the interaction in the table the settlement does not raise.
settle_analysis-settled_analysis :
    (w : Llm) (c : Context) (a : AnalysisResult) (estimated : ℕ) (t : ProcessingTask) (db : Db)
    → has_interaction t.interaction_id db ≡ true
    → settle_analysis w c a estimated t db ≡ ok (settled_analysis w c a estimated t db)
unfolding settle_analysis settled_analysis mark_completed
settle_analysis-settled_analysis w c a estimated t db h =
    rw
      (fan_out-add_follow_ups w c a (completed_row c (some a.tokens_used) t)
        (tables_completed w c a estimated t db)
        (analysed-has a t.interaction_id t.interaction_id db.interactions ∙ h))
      refl

module _ (R : SortedSets) where
  open R use {Store}

  reconcile_part_pos :
      (o : Option Limiter.Reservation) (n : ℕ) (st : Store)
      → (st' : Store) × (Budget.reconcile_part R o (pos n) st ≡ ok st')
  unfolding Budget.reconcile_part Limiter.reconcile
  reconcile_part_pos none n st = (st, refl)
  reconcile_part_pos (some r) n st = (_, refl)

  reconcile_pos :
      (b : BudgetReservation) (n : ℕ) (st : Store)
      → grants b ≡ true
      → (st' : Store) × (Budget.reconcile R b (pos n) st ≡ ok st')
  unfolding Budget.reconcile
  reconcile_pos b n st granted =
      let (st1, e1) = reconcile_part_pos b.customer_reservation n st in
      let (st2, e2) = reconcile_part_pos b.global_reservation n st1 in
      (st2, rw (Budget.reconcile, granted, e1) e2)

  finish_total :
      (w : Llm) (c : Context) (b : BudgetReservation) (m : BudgetManager) (estimated ended : ℕ)
      (processed : Processed) (t : ProcessingTask) (db : Db) (st : Store)
      → 0 < c.draw_den
      → c.draw_num ≤ 20 * c.draw_den
      → has_interaction t.interaction_id db ≡ true
      → grants b ≡ true
      → w.process_post_call (post_call_context t ended) ≡ processed
      → ((a : AnalysisResult)
          → processed ≡ Processed.analysed a
          → (n : ℕ) × (a.tokens_used ≡ pos n))
      → (e : Ended Store) × (finish R w c b m estimated processed t db st ≡ ok e)
        × Attempted R w c b estimated ended t db st e
  unfolding finish settled_analysis mark_completed
  finish_total w c b m estimated ended (raised message) t db st d l there granted answer counts =
      let (r, e, retried) = analysis_failed_total w c message t db d l in
      (
        ended_with none m (Budget.release R b st) r,
        rw (finish, e),
        Attempted.call_failed granted message answer refl refl (failed_detail w message) retried,
      )
  finish_total w c b m estimated ended (analysed a) t db st d l there granted answer counts =
      let (n, tokens) = counts a refl in
      let (st', reconciled) = reconcile_pos b n st granted in
      let actual : Budget.reconcile R b a.tokens_used st ≡ ok st' = rw tokens reconciled in
      let (l, consumed, of_it, counted) = consumption_pos c a n t db tokens in
      let charged = record db { ledger = db.ledger ++ l ∷ [] } in
      let done_ = completed_row c (some a.tokens_used) t in
      let before = tables_completed w c a estimated t charged in
      let (signal, lead, has_signal, has_lead, from, from') =
        add_follow_ups_total w c a done_ before in
      let (same_ledger, same_interactions) = add_follow_ups-elsewhere w c a done_ before in
      (
        ended_with (some a) m st' (settled_analysis w c a estimated t charged),
        rw (finish, actual, consumed)
            (rw (settle_analysis-settled_analysis w c a estimated t charged there) refl),
        Attempted.carried_out granted a answer refl actual refl refl l same_ledger (of_it, counted)
            same_interactions before refl signal lead from from' has_signal has_lead,
      )

  pub run_reserved_total :
      (w : Llm) (c : Context) (b : BudgetReservation) (m : BudgetManager) (estimated ended : ℕ)
      (t : ProcessingTask) (db : Db) (st : Store)
      → 0 < c.draw_den
      → c.draw_num ≤ 20 * c.draw_den
      → has_interaction t.interaction_id db ≡ true
      → ended_at w c t.payload ≡ ok ended
      → ((a : AnalysisResult)
          → w.process_post_call (post_call_context t ended) ≡ Processed.analysed a
          → (n : ℕ) × (a.tokens_used ≡ pos n))
      → (e : Ended Store) × (run_reserved R w c b m estimated t db st ≡ ok e)
        × Attempted R w c b estimated ended t db st e
  unfolding run_reserved
  run_reserved_total w c b m estimated ended t db st d l there parsed counts =
      elim (Bool-cases (grants b)) [
        | inl granted ↦
            let (e, run, how) =
              finish_total w c b m estimated ended _ t db st d l there granted refl counts in
            (e, rw (run_reserved, granted, parsed) run, how)
        | inr denied ↦
            let (r, deferral, retried) = defer_total w c b estimated t db d l in
            (
              ended_with none m st r,
              rw (run_reserved, denied, deferral),
              Attempted.put_off denied refl refl retried,
            )
      ]
