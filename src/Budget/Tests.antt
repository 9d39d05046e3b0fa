-- ===== src/Budget/Tests.antt =====
-- The budget manager at a concrete store and table.
use post_call_processing_pip.Prelude.{ℕ, ◌≡◌, refl, [], ◌∷◌, length, none, some, true, arith}
use post_call_processing_pip.Prelude.Integers.{pos}
use post_call_processing_pip.Db.{Result, ok, err}
use post_call_processing_pip.Models.{CustomerLlmBudget}
use post_call_processing_pip.Redis.{global, cust, rpm}
use post_call_processing_pip.Redis.Model.{Store, sorted_sets, empty}
use post_call_processing_pip.Limiter
use post_call_processing_pip.Budget
use post_call_processing_pip.Limiter.{
  tokens, check_quota, evict, evict_expired, evict_members, decide, over_quota, reserve, is_expired,
}
use post_call_processing_pip.Budget.{
  BudgetReservation, CustomerUsage, Utilization, reserve_tiers, reserve_global, check_and_reserve,
  utilization, grants,
}
use post_call_processing_pip.Budget.Cache.{
  BudgetManager, BudgetSnapshot, Reading, load_budget, read_budget, row_snapshot,
}
use post_call_processing_pip.Budget.Tiers.{FreshIds, Outcome, check_and_reserve-Outcome}
use post_call_processing_pip.Budget.Counts.{Counts}
use post_call_processing_pip.Budget.Settlement.{reservation_settled}
use post_call_processing_pip.Budget.Reads.{OneMore, utilization_counts}

abbrev row : CustomerLlmBudget
row = record {
  customer_id = 3;
  reserved_tpm = 2000;
  reserved_rpm = 10;
  burst_tpm = 1000;
  priority = 1;
}

abbrev manager : BudgetManager
manager = record { global_tpm = 9000; global_rpm = 500; cache_ttl = 30000; cache = [] }

abbrev reading : Reading
reading = record {
  monotonic = 500;
  monotonic_stored = 501;
  customer_ms = 90000;
  customer_uuid = 11;
  global_ms = 90001;
  global_uuid = 12;
}

abbrev later : Reading
later = record reading { monotonic = 20000; monotonic_stored = 20001 }

abbrev snapshot : BudgetSnapshot
snapshot = row_snapshot 3 (some row)

fresh_ids : (customer_id : ℕ) → FreshIds sorted_sets customer_id reading empty
fresh_ids customer_id = record {
  cust_tpm = refl;
  cust_rpm = refl;
  global_tpm = refl;
  global_rpm = refl;
}

check_and_reserve-Outcome_example :
    let (budget, m') = load_budget 3 (row ∷ []) reading manager in
    (res : BudgetReservation × Store) × (check_and_reserve sorted_sets 3
        (pos 1500)
        (row ∷ [])
        reading
        manager
        empty
      ≡ ok (res.0, m', res.1))
    × Outcome sorted_sets budget m' 1500 reading empty res
check_and_reserve-Outcome_example =
    check_and_reserve-Outcome sorted_sets 3 1500 (row ∷ []) reading manager empty (fresh_ids _)

abbrev manager_after : BudgetManager
manager_after = (read_budget 3 (row ∷ []) reading manager).1

refused :
    check_and_reserve sorted_sets 3 (pos 3001) (row ∷ []) reading manager empty
    ≡ ok (Budget.denial 60000 "customer_budget_exhausted", manager_after, empty)
unfolding check_and_reserve load_budget reserve_tiers Limiter.check_and_reserve check_quota evict
    evict_expired evict_members decide over_quota tokens
refused = refl

loaded : load_budget 3 (row ∷ []) reading manager ≡ (snapshot, manager_after)
unfolding load_budget
loaded = refl

abbrev granting : Result (BudgetReservation × BudgetManager × Store)
granting = check_and_reserve sorted_sets 3 (pos 1500) (row ∷ []) reading manager empty

abbrev granted : BudgetReservation × BudgetManager × Store
unfolding check_and_reserve load_budget reserve_tiers reserve_global Limiter.check_and_reserve
    check_quota evict evict_expired evict_members decide over_quota tokens Limiter.reserve
granted = elim granting [ ok res ↦ res | err e ↦ (Budget.denial 0 "", manager, empty) ]

granting-granted : granting ≡ ok granted
unfolding granted
granting-granted = refl

granted-grants : grants granted.0 ≡ true
unfolding granted
granted-grants = refl

reservation_settled_example :
    let (r, m', st') = granted in
    let budget = (load_budget 3 (row ∷ []) reading manager).0 in
    (Counts sorted_sets (cust budget.customer_id) 90000 0 0 empty (Budget.release sorted_sets r st')
      × Counts sorted_sets global 90001 0 0 empty (Budget.release sorted_sets r st'))
    × ((st'' : Store) × (Budget.reconcile sorted_sets r (pos 1200) st' ≡ ok st'')
        × Counts sorted_sets (cust budget.customer_id) 90000 1200 1 empty st''
        × Counts sorted_sets global 90001 1200 1 empty st'')
reservation_settled_example =
    reservation_settled sorted_sets 3 1500 1200 (row ∷ []) reading manager granted.1 empty granted.0
      granted.2 (fresh_ids _) granting-granted granted-grants

utilization_counts_example :
    ((u : Utilization) × (st' : Store) × (utilization sorted_sets none
          (row ∷ [])
          reading
          manager
          empty
        ≡ ok (u, manager, st'))
      × OneMore sorted_sets global reading.global_ms empty st'
      × (u.global_rpm ≡ length (st' (rpm global))))
    × ((u : Utilization) × (used : CustomerUsage) × (st' : Store) × (utilization sorted_sets
            (some 3)
            (row ∷ [])
            reading
            manager
            empty
          ≡ ok (u, manager_after, st'))
        × OneMore sorted_sets global reading.global_ms empty st'
        × (u.global_rpm ≡ length (st' (rpm global)))
        × (u.customer ≡ some used)
        × OneMore sorted_sets (cust 3) reading.customer_ms empty st'
        × (used.customer_rpm ≡ length (st' (rpm (cust 3)))))
unfolding tokens
utilization_counts_example =
    utilization_counts sorted_sets 3 (row ∷ []) reading manager manager_after snapshot empty loaded
      refl refl (omega arith) (omega arith) refl refl (omega arith) (omega arith)
