-- ===== src/Dialler/Tests.antt =====
-- A budget that is raised at run time.
use post_call_processing_pip.Prelude.{◌≡◌, refl, [], ◌∷◌, List, none, some}
use post_call_processing_pip.Prelude.Integers.{pos}
use post_call_processing_pip.Models.{CustomerLlmBudget}
use post_call_processing_pip.Budget.Cache.{
  BudgetManager, Reading, budget_row, row_snapshot, load_budget,
}
use post_call_processing_pip.Dialler.{
  reply, http_exception, CustomerBudgetUpdate, values, upsert_customer_budget,
}
use post_call_processing_pip.Dialler.Update.{upsert_customer_budget_total}

abbrev update : CustomerBudgetUpdate
update = record {
  reserved_tpm = pos 9000;
  reserved_rpm = pos 30;
  burst_tpm = pos 0;
  priority = pos 10;
}

abbrev rows : List CustomerLlmBudget
rows =
    record { customer_id = 2; reserved_tpm = 1; reserved_rpm = 1; burst_tpm = 1; priority = 1 }
    ∷ record { customer_id = 3; reserved_tpm = 5; reserved_rpm = 5; burst_tpm = 5; priority = 5 }
    ∷ []

abbrev reading : Reading
reading = record {
  monotonic = 10;
  monotonic_stored = 11;
  customer_ms = 5000;
  customer_uuid = 1;
  global_ms = 5001;
  global_uuid = 2;
}

-- The old values, still young.
abbrev manager : BudgetManager
manager = record {
  global_tpm = 1000;
  global_rpm = 50;
  cache_ttl = 30;
  cache =
      record {
        key = 3;
        loaded_at = 5;
        snapshot = record {
          customer_id = 3;
          reserved_tpm = 5;
          reserved_rpm = 5;
          burst_tpm = 5;
          priority = 5;
        };
      }
      ∷ [];
}

upsert_customer_budget_total_example :
    let (answer, controller, rows') = upsert_customer_budget 3 update (some manager) rows in
    let (answer', controller', rows'') = upsert_customer_budget 3 update none rows in
    (budget_row 3 rows' ≡ some (values 3 update))
    × (budget_row 2 rows' ≡ budget_row 2 rows)
    × (rows'' ≡ rows')
    × (answer' ≡ http_exception 503)
    × (answer ≡ reply 3)
    × (m' : BudgetManager) × (controller ≡ some m')
    × ((load_budget 3 rows' reading m').0 ≡ row_snapshot 3 (some (values 3 update)))
    × ((load_budget 2 rows' reading m').0 ≡ (load_budget 2 rows reading manager).0)
upsert_customer_budget_total_example =
    upsert_customer_budget_total 3 2 update rows reading manager (λ e. cc) refl
