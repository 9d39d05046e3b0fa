-- ===== src/Dialler/Update.antt =====
-- src/api/dialler.py with src/scheduler/budget_manager.py: what a budget that was set does.
use post_call_processing_pip.Prelude.{
  ℕ, ap, ◌∙◌, ◌≡◌, ◌≢◌, refl, true, List, [], ◌∷◌, none, some, arith,
}
use post_call_processing_pip.Models.{CustomerLlmBudget}
use post_call_processing_pip.Budget.Cache.{
  BudgetManager, Reading, budget_row, row_snapshot, load_budget, invalidate_cache,
}
use post_call_processing_pip.Budget.Reads.{load_budget-invalidate_cache}
use post_call_processing_pip.Dialler.{
  reply, http_exception, CustomerBudgetUpdate, values, is_valid, upsert, upsert_customer_budget,
}

-- The customer's row is the one that was asked for.
upsert_own :
    (key : ℕ) (b : CustomerBudgetUpdate) (rows : List CustomerLlmBudget)
    → budget_row key (upsert key b rows) ≡ some (values key b)
unfolding upsert
upsert_own key b [] = ground arith
upsert_own key b (row ∷ rows) = ground (arith, upsert_own key b rows)

-- No other customer's row is touched.
upsert_other :
    (key other : ℕ) (b : CustomerBudgetUpdate) (rows : List CustomerLlmBudget)
    → key ≢ other
    → budget_row other (upsert key b rows) ≡ budget_row other rows
unfolding upsert
upsert_other key other b [] ne = ground arith
upsert_other key other b (row ∷ rows) ne = ground (arith, upsert_other key other b rows ne)

-- load_budget of another customer reads that customer's row only.
load_budget_rows :
    (key : ℕ) (rows rows' : List CustomerLlmBudget) (t : Reading) (m : BudgetManager)
    → budget_row key rows' ≡ budget_row key rows
    → load_budget key rows' t m ≡ load_budget key rows t m
unfolding load_budget
load_budget_rows key rows rows' t m e = ground arith

-- What a budget within its bounds leaves behind. In either case the customer's row holds the new values
-- and no other row is changed. With a controller the reply is a success, and the customer's next
-- load answers with the new values while every other customer is answered as before; without one the
-- reply is the status 503, though the row is committed.
pub upsert_customer_budget_total :
    (key other : ℕ) (b : CustomerBudgetUpdate) (rows : List CustomerLlmBudget) (t : Reading)
    (m : BudgetManager)
    → key ≢ other
    → is_valid b ≡ true
    → let (answer, controller, rows') = upsert_customer_budget key b (some m) rows in
      let (answer', controller', rows'') = upsert_customer_budget key b none rows in
      (budget_row key rows' ≡ some (values key b))
      × (budget_row other rows' ≡ budget_row other rows)
      × (rows'' ≡ rows')
      × (answer' ≡ http_exception 503)
      × (answer ≡ reply key)
      × (m' : BudgetManager) × (controller ≡ some m')
      × ((load_budget key rows' t m').0 ≡ row_snapshot key (some (values key b)))
      × ((load_budget other rows' t m').0 ≡ (load_budget other rows t m).0)
unfolding upsert_customer_budget
upsert_customer_budget_total key other b rows t m ne valid =
    let own = upsert_own key b rows in
    let others = upsert_other key other b rows ne in
    let loads = load_budget-invalidate_cache key other (upsert key b rows) t m ne in
    rw valid (
      own,
      others,
      refl,
      refl,
      refl,
      invalidate_cache (some key) m,
      refl,
      (rw own at loads.0),
      loads.1 ∙ ap (λ r. r.0) (load_budget_rows other rows (upsert key b rows) t m others),
    )
