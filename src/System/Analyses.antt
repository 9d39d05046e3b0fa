-- ===== src/System/Analyses.antt =====
-- src/tasks/workers/llm_worker.py: how an attempt at an analysis changes the tables, and what it charges.
use post_call_processing_pip.Prelude.{
  ℕ, suc, ◌++◌, arith, ◌≡◌, refl, List, [], ◌∷◌, none, some, String, Bool-cases, inl, inr,
}
use post_call_processing_pip.Prelude.Integers.{ℤ, pos, is_negative}
use post_call_processing_pip.Json.{dict, str}
use post_call_processing_pip.Models.{
  LlmTokenLedger, TaskStatus, ProcessingTask, TaskStep, CustomerLlmBudget,
}
use post_call_processing_pip.Audit.{record_event, record_consumption}
use post_call_processing_pip.Context.{Context}
use post_call_processing_pip.Db.{Db, find_task, ok, update_interaction}
use post_call_processing_pip.Db.Rows.{bind_ok, ok_injective}
use post_call_processing_pip.Dispatcher.{default_backoff_schedule}
use post_call_processing_pip.Dispatcher.Outcomes.{mark_completed}
use post_call_processing_pip.Redis.{SortedSets}
use post_call_processing_pip.Budget.{BudgetReservation, grants}
use post_call_processing_pip.Budget.Cache.{BudgetManager, Reading}
use post_call_processing_pip.Budget
use post_call_processing_pip.Workers.RateLimit.{is_rate_limit_error}
use post_call_processing_pip.Workers.PostCall.{
  Llm, AnalysisResult, Processed, fan_out, add_follow_ups, estimate_tokens, transcript_of,
  downstream_step, ended_at, post_call_context,
}
use post_call_processing_pip.Workers.FanOut.{fan_out_ok}
use post_call_processing_pip.Workers.Llm.{
  settle_analysis, Ended, execute_llm_analysis, run_reserved, finish, defer, settled_analysis,
  analysis_failed, completed_detail, analysed_row, deferred_event, provider_hint,
  rate_limited_field, ended_with,
}
use post_call_processing_pip.System.Keys.{Key, Keyed, key}
use post_call_processing_pip.System.Effects.{Evolves-other, find-replace_self}
use post_call_processing_pip.System.Evolution.{Evolves}
use post_call_processing_pip.System.Executors.{
  task_event-Evolves, mark_completed-Evolves, mark_for_retry-Evolves, fail_attempt-Evolves,
}

-- The row of that key is completed.
abbrev pub Finished : Key → Db → Type 0
Finished k db =
    (t : ProcessingTask) × (find_task k.id db ≡ some t)
    × (key t ≡ k)
    × (t.status ≡ TaskStatus.completed)

-- What an attempt at the row of the key `k` charges, by the worker for the step `s`: nothing, or for an
-- analysis one row of the ledger, and then it is the last attempt.
pub data Charges (s : TaskStep) (k : Key) (ls : List LlmTokenLedger) (db : Db) : Type 0 where
  uncharged : ls ≡ [] → Charges s k ls db
  once :
      (l : LlmTokenLedger)
      → ls ≡ l ∷ []
      → l.interaction_id ≡ k.interaction_id
      → s ≡ TaskStep.llm_analysis
      → Finished k db
      → Charges s k ls db

-- What an attempt at `t` makes of the tables.
abbrev pub Attempted : TaskStep → ProcessingTask → Db → Db → Type 0
Attempted s t db db' =
    (ls : List LlmTokenLedger) × Evolves t.id ls db db' × Charges s (key t) ls db'

pub uncharged-Attempted :
    (s : TaskStep) (t : ProcessingTask) {db db' : Db}
    → Evolves t.id [] db db'
    → Attempted s t db db'
uncharged-Attempted s t e = ([], e, Charges.uncharged refl)

add_follow_ups-Evolves :
    {i : ℕ} (c : Context) (t : ProcessingTask) (db : Db) (w : Llm) (a : AnalysisResult)
    → Evolves i [] db (add_follow_ups w c a t db)
unfolding add_follow_ups
add_follow_ups-Evolves c t db w a =
    Evolves.andthen (Evolves.enqueued c (downstream_step w a t TaskStep.signal_jobs))
      (Evolves.enqueued c (downstream_step w a t TaskStep.lead_stage))

module _ (w : Llm) (c : Context) (t : ProcessingTask) (db : Db) (k : Keyed t db.tasks) where
  settled_analysis-Evolves :
      (a : AnalysisResult) (estimated : ℕ)
      → Evolves t.id [] db (settled_analysis w c a estimated t db).1
  unfolding settled_analysis
  settled_analysis-Evolves a estimated =
      let analysed = update_interaction t.interaction_id (analysed_row a) db in
      let (t', db') =
        mark_completed c (completed_detail a estimated) (some a.tokens_used) t analysed in
      Evolves.andthen (Evolves.elsewhere _) (
        Evolves.andthen
          (mark_completed-Evolves c t analysed k (completed_detail a estimated)
            (some a.tokens_used))
          (add_follow_ups-Evolves c t' db' w a))

  analysis_failed-Evolves :
      (message : String) (r : ProcessingTask × Db)
      → analysis_failed w c message t db ≡ ok r
      → Evolves t.id [] db r.1
  unfolding analysis_failed
  analysis_failed-Evolves message r e =
      fail_attempt-Evolves c t db k message (provider_hint (is_rate_limit_error w.alike message))
        (dict
          (("error", str message) ∷ rate_limited_field (is_rate_limit_error w.alike message) ∷ []))
        (dict (rate_limited_field (is_rate_limit_error w.alike message) ∷ [])) r e

  defer-Evolves :
      (b : BudgetReservation) (estimated : ℕ) (r : ProcessingTask × Db)
      → defer w c b estimated t db ≡ ok r
      → Evolves t.id [] db r.1
  unfolding defer deferred_event record_event
  defer-Evolves b estimated r e = Evolves.andthen (task_event-Evolves c t _ _ db) (
      mark_for_retry-Evolves c t (deferred_event c b estimated t db) k (w.deferred b.reason)
        (some b.retry_after_ms) default_backoff_schedule
        (dict (("deferred_reason", str b.reason) ∷ [])) r e)

  -- With the row in the table, it is completed there in the end.
  settled_analysis-Finished :
      (a : AnalysisResult) (estimated : ℕ) (u : ProcessingTask)
      → find_task t.id db ≡ some u
      → Finished (key t) (settled_analysis w c a estimated t db).1
  unfolding settled_analysis mark_completed
  settled_analysis-Finished a estimated u there =
      let analysed = update_interaction t.interaction_id (analysed_row a) db in
      let (t', db') =
        mark_completed c (completed_detail a estimated) (some a.tokens_used) t analysed in
      let written = find-replace_self t' u db.tasks there in
      (
        t',
        Evolves-other t.id t' (λ e. absurd (omega (arith, e)))
            (add_follow_ups-Evolves {i = suc t.id} c t' db' w a) written,
        refl,
        refl,
      )

-- Where the settlement does not raise, that is what it leaves.
settle_analysis_ok :
    (w : Llm) (c : Context) (t : ProcessingTask) (a : AnalysisResult) (estimated : ℕ) (db : Db)
    (r : ProcessingTask × Db)
    → settle_analysis w c a estimated t db ≡ ok r
    → settled_analysis w c a estimated t db ≡ r
unfolding settle_analysis settled_analysis
settle_analysis_ok w c t a estimated db r e =
    let analysed = update_interaction t.interaction_id (analysed_row a) db in
    let (t', db1) =
      mark_completed c (completed_detail a estimated) (some a.tokens_used) t analysed in
    let (db2, how, e') = bind_ok (fan_out w c a t' db1) _ r e in
    rw (fan_out_ok w c a t' db1 db2 how) (ok_injective _ r e')

-- The ledger row of an attempt.
charge :
    (c : Context) (t : ProcessingTask) (tokens : ℤ) (model : String) (db db' : Db)
    → record_consumption c t.customer_id t.interaction_id tokens t.campaign_id model
        (some t.correlation_id)
        db
      ≡ ok db'
    → (l : LlmTokenLedger) × (l.interaction_id ≡ t.interaction_id)
      × (record db { ledger = db.ledger ++ l ∷ [] } ≡ db')
unfolding record_consumption
charge c t tokens model db db' e = elim (Bool-cases (is_negative tokens)) [
  | inl negative ↦ absurd (cc (rw (negative, record_consumption) at e))
  | inr fine ↦ (_, refl, ok_injective _ db' (rw (fine, record_consumption) at e))
]

module _ (R : SortedSets) (w : Llm) (c : Context) (t : ProcessingTask) (db : Db)
    (k : Keyed t db.tasks) (u : ProcessingTask) (there : find_task t.id db ≡ some u) where
  -- The settlement, after the row for the ledger.
  settled-Attempted :
      (l : LlmTokenLedger) (a : AnalysisResult) (estimated : ℕ)
      → l.interaction_id ≡ t.interaction_id
      → Attempted TaskStep.llm_analysis t db
          (settled_analysis w c a estimated t (record db { ledger = db.ledger ++ l ∷ [] })).1
  settled-Attempted l a estimated of_it =
      let charged = record db { ledger = db.ledger ++ l ∷ [] } in
      (
        l ∷ [],
        Evolves.andthen (Evolves.charged l) (settled_analysis-Evolves w c t charged k a estimated),
        Charges.once l refl of_it refl
            (settled_analysis-Finished w c t charged k a estimated u there),
      )

  finish-Attempted :
      (b : BudgetReservation) (m : BudgetManager) (estimated : ℕ) (p : Processed) (st : R.Store)
      (r : Ended R.Store)
      → finish R w c b m estimated p t db st ≡ ok r
      → Attempted TaskStep.llm_analysis t db r.db
  unfolding finish
  finish-Attempted b m estimated (Processed.raised message) st r e =
      let (x, how, e') = bind_ok (analysis_failed w c message t db) _ r e in
      let same : ended_with none m (Budget.release R b st) x ≡ r = cc e' in
      rw (← same) (
        uncharged-Attempted TaskStep.llm_analysis t
          (analysis_failed-Evolves w c t db k message x how))
  finish-Attempted b m estimated (Processed.analysed a) st r e =
      let (st', _, e1) = bind_ok (Budget.reconcile R b a.tokens_used st) _ r e in
      let (db', written, e2) =
        bind_ok
          (record_consumption c t.customer_id t.interaction_id a.tokens_used t.campaign_id a.model
            (some t.correlation_id) db)
          _ r e1 in
      let (l, of_it, put) = charge c t a.tokens_used a.model db db' written in
      let (out, settled, e3) = bind_ok (settle_analysis w c a estimated t db') _ r e2 in
      let same : ended_with (some a) m st' out ≡ r = cc e3 in
      let left = settle_analysis_ok w c t a estimated db' out settled in
      rw (← same, ← left, ← put) (settled-Attempted l a estimated of_it)

  run_reserved-Attempted :
      (b : BudgetReservation) (m : BudgetManager) (estimated : ℕ) (st : R.Store) (r : Ended R.Store)
      → run_reserved R w c b m estimated t db st ≡ ok r
      → Attempted TaskStep.llm_analysis t db r.db
  unfolding run_reserved
  run_reserved-Attempted b m estimated st r e = elim (Bool-cases (grants b)) [
    | inl granted ↦
        let (ended, _, e') =
          bind_ok (ended_at w c t.payload) _ r (rw (granted, run_reserved) at e) in
        finish-Attempted b m estimated (w.process_post_call (post_call_context t ended)) st r e'
    | inr denied ↦
        let (x, how, e') =
          bind_ok (defer w c b estimated t db) _ r (rw (denied, run_reserved) at e) in
        let same : ended_with none m st x ≡ r = cc e' in
        rw (← same)
          (uncharged-Attempted TaskStep.llm_analysis t (defer-Evolves w c t db k b estimated x how))
  ]

  pub execute_llm_analysis-Attempted :
      (rows : List CustomerLlmBudget) (reading : Reading) (m : BudgetManager) (st : R.Store)
      (r : Ended R.Store)
      → execute_llm_analysis R w c rows reading m t db st ≡ ok r
      → Attempted TaskStep.llm_analysis t db r.db
  unfolding execute_llm_analysis
  execute_llm_analysis-Attempted rows reading m st r e =
      let (estimated, _, e1) = bind_ok (estimate_tokens w (transcript_of t.payload)) _ r e in
      let ((b, m', st'), _, e2) =
        bind_ok (Budget.check_and_reserve R t.customer_id (pos estimated) rows reading m st) _ r
          e1 in
      run_reserved-Attempted b m' estimated st' r e2
