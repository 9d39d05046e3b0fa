-- ===== src/Budget.antt =====
-- src/scheduler/budget_manager.py: a customer's bucket and the global bucket checked together, over
-- the limiter and an in-process cache of customer_llm_budgets rows.
pub mod Cache
pub mod Counts
pub mod Tiers
pub mod Isolation
pub mod Settlement
pub mod Reads
mod Tests
use post_call_processing_pip.Prelude.{
  ℕ, ◌+◌, ◌*◌, ◌/◌, max, String, Bool, true, false, not, List, [], ◌∷◌, Option, none, some, ltb,
  ◌==◌, if◌then◌else◌, find, select,
}
use post_call_processing_pip.Prelude.Integers.{ℤ, pos}
use post_call_processing_pip.Models.{CustomerLlmBudget}
use post_call_processing_pip.Db.{Result, ok, err, ◌>>=◌}
use post_call_processing_pip.Redis.{Bucket, global, cust, SortedSets}
use post_call_processing_pip.Limiter.{RateLimitDecision, Reservation, allowed, is_allow}
use post_call_processing_pip.Limiter
use post_call_processing_pip.Budget.Cache.{
  BudgetManager, BudgetSnapshot, CacheEntry, Reading, budget_row, cached, cust_rpm_limit,
  cust_tpm_limit, default_burst_tpm, default_priority, default_reserved_rpm, default_reserved_tpm,
  drop_key, fresh_entry, invalidate_cache, load_budget, read_budget, row_snapshot,
}

pub record BudgetReservation : Type 0 where
  pub decision : RateLimitDecision
  pub retry_after_ms : ℕ
  pub customer_reservation : Option Reservation
  pub global_reservation : Option Reservation
  pub reason : String

-- BudgetReservation.allowed
abbrev pub grants : BudgetReservation → Bool
grants b = is_allow b.decision

pub record CustomerUsage : Type 0 where
  pub customer_tpm : ℕ
  pub customer_rpm : ℕ
  pub customer_reserved_tpm : ℕ
  pub customer_burst_tpm : ℕ

-- The dict of `utilization`; the quotient `global_utilization` is kept as its two numbers.
pub record Utilization : Type 0 where
  pub global_tpm : ℕ
  pub global_rpm : ℕ
  pub global_tpm_limit : ℕ
  pub global_rpm_limit : ℕ
  pub utilization_num : ℕ
  pub utilization_den : ℕ
  pub customer : Option CustomerUsage

abbrev pub global_usage : Reservation → BudgetManager → Option CustomerUsage → Utilization
global_usage r m customer = record {
  global_tpm = r.current_tpm;
  global_rpm = r.current_rpm;
  global_tpm_limit = m.global_tpm;
  global_rpm_limit = m.global_rpm;
  utilization_num = r.current_tpm;
  utilization_den = max m.global_tpm 1;
  customer = customer;
}

abbrev pub customer_usage : Reservation → BudgetSnapshot → CustomerUsage
customer_usage r b = record {
  customer_tpm = r.current_tpm;
  customer_rpm = r.current_rpm;
  customer_reserved_tpm = b.reserved_tpm;
  customer_burst_tpm = b.burst_tpm;
}

abbrev pub denial : ℕ → String → BudgetReservation
denial retry_after_ms reason = record {
  decision = RateLimitDecision.deny;
  retry_after_ms = retry_after_ms;
  customer_reservation = none;
  global_reservation = none;
  reason = reason;
}

abbrev pub approval : Reservation → Reservation → BudgetReservation
approval cust_res global_res = record {
  decision = RateLimitDecision.allow;
  retry_after_ms = 0;
  customer_reservation = some cust_res;
  global_reservation = some global_res;
  reason = "ok";
}

module _ (R : SortedSets) where
  open R use {Store}

  -- The global tier, after the customer tier has granted `cust_res`.
  unfoldable pub reserve_global :
      ℕ → ℕ → ℤ → Reading → Reservation → Store → Result (BudgetReservation × Store)
  reserve_global global_tpm global_rpm estimated t cust_res st = do
    (global_res, st') ←
        Limiter.check_and_reserve R global global_tpm global_rpm estimated t.global_ms t.global_uuid
          st
    ok (
        if allowed global_res then (approval cust_res global_res, st') else (
          denial global_res.retry_after_ms "global_headroom_exhausted",
          Limiter.release R cust_res st',
        ))

  unfoldable pub reserve_tiers :
      BudgetSnapshot → BudgetManager → ℤ → Reading → Store → Result (BudgetReservation × Store)
  reserve_tiers budget m estimated t st = do
    (cust_res, st') ←
        Limiter.check_and_reserve R (cust budget.customer_id) (cust_tpm_limit budget)
          (cust_rpm_limit budget m) estimated t.customer_ms t.customer_uuid st
    (if allowed cust_res
        then reserve_global m.global_tpm m.global_rpm estimated t cust_res st'
        else ok (denial cust_res.retry_after_ms "customer_budget_exhausted", st'))

  -- BudgetManager.check_and_reserve: the reservation, the manager with its cache, and the store.
  unfoldable pub check_and_reserve :
      ℕ
      → ℤ
      → List CustomerLlmBudget
      → Reading
      → BudgetManager
      → Store
      → Result (BudgetReservation × BudgetManager × Store)
  check_and_reserve customer_id estimated rows t m st =
      let (budget, m') = load_budget customer_id rows t m in
      (do (reservation, st') ← reserve_tiers budget m' estimated t st; ok (reservation, m', st'))

  -- `reconcile` and `release` of the manager, on the two parts of a granted reservation
  unfoldable pub reconcile_part : Option Reservation → ℤ → Store → Result Store
  reconcile_part none actual st = ok st
  reconcile_part (some r) actual st = Limiter.reconcile R r actual st

  unfoldable pub reconcile : BudgetReservation → ℤ → Store → Result Store
  unfolding reconcile_part
  reconcile b actual st =
      if grants b
      then (do
        st' ← reconcile_part b.customer_reservation actual st
        reconcile_part b.global_reservation actual st')
      else ok st

  release_part : Option Reservation → Store → Store
  release_part none st = st
  release_part (some r) st = Limiter.release R r st

  unfoldable pub release : BudgetReservation → Store → Store
  unfolding release_part
  release b st =
      if grants b
      then release_part b.global_reservation (release_part b.customer_reservation st)
      else st

  -- BudgetManager.utilization
  unfoldable pub utilization :
      Option ℕ
      → List CustomerLlmBudget
      → Reading
      → BudgetManager
      → Store
      → Result (Utilization × BudgetManager × Store)
  utilization none rows t m st = do
    (r, st') ←
        Limiter.check_and_reserve R global m.global_tpm (m.global_rpm * 1000) (pos 0) t.global_ms
          t.global_uuid st
    ok (global_usage r m none, m, st')
  utilization (some customer_id) rows t m st = do
    (r, st') ←
        Limiter.check_and_reserve R global m.global_tpm (m.global_rpm * 1000) (pos 0) t.global_ms
          t.global_uuid st
    (let (budget, m') = load_budget customer_id rows t m in
        (do
          (r', st'') ←
              Limiter.check_and_reserve R (cust budget.customer_id) (cust_tpm_limit budget)
                (max budget.reserved_rpm 1 * 1000) (pos 0) t.customer_ms t.customer_uuid st'
          ok (global_usage r m (some (customer_usage r' budget)), m', st'')))
