-- ===== src/Budget/Settlement.antt =====
-- src/scheduler/budget_manager.py, `release` and `reconcile`: a reservation in both buckets given back, or
-- settled at the actual tokens.
use post_call_processing_pip.Prelude.{
  ℕ, String, ◌≡◌, ◌∙◌, inl, inr, List, true, false, Bool-cases, sym, ap,
}
use post_call_processing_pip.Prelude.Integers.{pos}
use post_call_processing_pip.Models.{CustomerLlmBudget}
use post_call_processing_pip.Db.{Result, ok}
use post_call_processing_pip.Db.Rows.{bind_ok, ok_injective}
use post_call_processing_pip.Redis.{global, cust, SortedSets}
use post_call_processing_pip.Limiter
use post_call_processing_pip.Limiter.{Reservation, allowed}
use post_call_processing_pip.Limiter.Isolation.{
  SameBucket, check_and_reserve-SameBucket, release-SameBucket, reconcile-SameBucket,
}
use post_call_processing_pip.Budget.{
  BudgetReservation, reserve_global, reserve_tiers, check_and_reserve, approval, denial, grants,
  release, reconcile,
}
use post_call_processing_pip.Budget.Cache.{
  BudgetSnapshot, BudgetManager, Reading, load_budget, cust_tpm_limit, cust_rpm_limit,
}
use post_call_processing_pip.Budget.Counts.{
  Counts, same-Counts, same_before-Counts, release_after, reconcile_after,
}
use post_call_processing_pip.Budget.Tiers.{FreshIds}

module _ (R : SortedSets) where
  open R use {Store}

  -- A grant is one of the customer's bucket and one of the global bucket.
  pub record Held (budget : BudgetSnapshot) (m : BudgetManager) (n : ℕ) (t : Reading) (st : Store)
      (r : BudgetReservation) (st' : Store) : Type 0 where
    pub own : Reservation
    pub shared : Reservation
    pub between : Store
    pub first :
        Limiter.check_and_reserve R
          (cust budget.customer_id)
          (cust_tpm_limit budget)
          (cust_rpm_limit budget m)
          (pos n)
          t.customer_ms
          t.customer_uuid
          st
        ≡ ok (own, between)
    pub second :
        Limiter.check_and_reserve R global m.global_tpm m.global_rpm
          (pos n)
          t.global_ms
          t.global_uuid
          between
        ≡ ok (shared, st')
    pub own_allowed : allowed own ≡ true
    pub shared_allowed : allowed shared ≡ true
    pub parts : r ≡ approval own shared

  denial-not-grants :
      (retry_after_ms : ℕ) (reason : String) (st : Store) (r : BudgetReservation) (st' : Store)
      → Path
          (Result (BudgetReservation × Store))
          (ok (denial retry_after_ms reason, st))
          (ok (r, st'))
      → ¬ (grants r ≡ true)
  denial-not-grants retry_after_ms reason st r st' e g =
      let same : (denial retry_after_ms reason, st) ≡ (r, st') =
        ok_injective (denial retry_after_ms reason, st) (r, st') e in
      let denied : grants (denial retry_after_ms reason) ≡ grants r =
        ap (λ (x : BudgetReservation × Store). grants x.0) same in
      let no_grant : false ≡ true = denied ∙ g in cc no_grant

  module _ (budget : BudgetSnapshot) (m : BudgetManager) (n : ℕ) (t : Reading) (st : Store)
      (r : BudgetReservation) (st' : Store) where
    global-Held :
        (own : Reservation) (between : Store)
        → Limiter.check_and_reserve R
            (cust budget.customer_id)
            (cust_tpm_limit budget)
            (cust_rpm_limit budget m)
            (pos n)
            t.customer_ms
            t.customer_uuid
            st
          ≡ ok (own, between)
        → allowed own ≡ true
        → reserve_global R m.global_tpm m.global_rpm (pos n) t own between ≡ ok (r, st')
        → grants r ≡ true
        → Held budget m n t st r st'
    unfolding reserve_global
    global-Held own between first a h g =
        let ((shared, last), second, h') =
          bind_ok
            (Limiter.check_and_reserve R global m.global_tpm m.global_rpm (pos n) t.global_ms
              t.global_uuid between)
            _ (r, st') h in
        elim (Bool-cases (allowed shared)) [
          | inl yes' ↦
              let same : (approval own shared, last) ≡ (r, st') =
                ok_injective _ _ (rw yes' at h') in
              record {
                own = own;
                shared = shared;
                between = between;
                first = first;
                second = second ∙ ap (λ (x : BudgetReservation × Store). ok (shared, x.1)) same;
                own_allowed = a;
                shared_allowed = yes';
                parts = sym (ap (λ (x : BudgetReservation × Store). x.0) same);
              }
          | inr no' ↦ absurd (
              denial-not-grants shared.retry_after_ms "global_headroom_exhausted"
                (Limiter.release R own last) r st' (rw no' at h') g)
        ]

    reserve_tiers-Held :
        reserve_tiers R budget m (pos n) t st ≡ ok (r, st')
        → grants r ≡ true
        → Held budget m n t st r st'
    unfolding reserve_tiers
    reserve_tiers-Held h g =
        let ((own, between), first, h') =
          bind_ok
            (Limiter.check_and_reserve R (cust budget.customer_id) (cust_tpm_limit budget)
              (cust_rpm_limit budget m) (pos n) t.customer_ms t.customer_uuid st)
            _ (r, st') h in
        elim (Bool-cases (allowed own)) [
          | inl yes' ↦ global-Held own between first yes' (rw yes' at h') g
          | inr no' ↦ absurd (
              denial-not-grants own.retry_after_ms "customer_budget_exhausted" between r st'
                (rw no' at h') g)
        ]

    module _ (fresh : FreshIds R budget.customer_id t st) (h : Held budget m n t st r st') where
      open h use {own, shared, between}

      own_bucket : (own.bucket ≡ cust budget.customer_id) × SameBucket R global st between
      own_bucket =
          check_and_reserve-SameBucket R (cust budget.customer_id) global _ _ n t.customer_ms
            t.customer_uuid st (own, between) (λ e. cc) h.first

      shared_bucket : (shared.bucket ≡ global) × SameBucket R (cust budget.customer_id) between st'
      shared_bucket =
          check_and_reserve-SameBucket R global (cust budget.customer_id) _ _ n t.global_ms
            t.global_uuid between (shared, st') (λ e. cc) h.second

      release-Counts :
          Counts R (cust budget.customer_id) t.customer_ms 0 0 st (release R r st')
          × Counts R global t.global_ms 0 0 st (release R r st')
      unfolding release
      release-Counts =
          let b = cust budget.customer_id in
          let (own_is, kept) = own_bucket in
          let (shared_is, kept') = shared_bucket in
          let given_back = Limiter.release R own st' in
          let mine =
            release_after R b _ _ n _ _ st own between st' fresh.cust_tpm fresh.cust_rpm h.first
              h.own_allowed own_is kept' in
          let ours =
            release_after R global _ _ n _ _ between shared st' given_back
              (rw kept.0 fresh.global_tpm) (rw kept.1 fresh.global_rpm) h.second h.shared_allowed
              shared_is (release-SameBucket R own global st' (rw own_is (λ e. cc))) in
          rw h.parts (
            same-Counts R b _ 0 0 st given_back _
                (release-SameBucket R shared b given_back (rw shared_is (λ e. cc))) mine,
            same_before-Counts R global _ 0 0 st between _ kept ours,
          )

      reconcile-Counts :
          (actual : ℕ)
          → (st'' : Store) × (reconcile R r (pos actual) st' ≡ ok st'')
            × Counts R (cust budget.customer_id) t.customer_ms actual 1 st st''
            × Counts R global t.global_ms actual 1 st st''
      unfolding reconcile
      reconcile-Counts actual =
          let b = cust budget.customer_id in
          let (own_is, kept) = own_bucket in
          let (shared_is, kept') = shared_bucket in
          let (settled, e, mine) =
            reconcile_after R b _ _ n actual _ _ st own between st' fresh.cust_tpm fresh.cust_rpm
              h.first h.own_allowed own_is kept' in
          let (last, e', ours) =
            reconcile_after R global _ _ n actual _ _ between shared st' settled
              (rw kept.0 fresh.global_tpm) (rw kept.1 fresh.global_rpm) h.second h.shared_allowed
              shared_is
              (reconcile-SameBucket R own global actual st' settled (rw own_is (λ p. cc)) e) in
          (
            last,
            rw (h.parts, e, e'),
            same-Counts R b _ actual 1 st settled last
                (reconcile-SameBucket R shared b actual settled last (rw shared_is (λ p. cc)) e')
                mine,
            same_before-Counts R global _ actual 1 st between last kept ours,
          )

  -- A reservation of `n` tokens that the manager granted, with ids new to the buckets, can be settled
  -- in two ways, and either settles it in both buckets: a release leaves as many tokens and as many
  -- requests as their windows held before it; a reconciliation with a number that is not negative
  -- never raises, and leaves the actual tokens and one request more than that.
  pub reservation_settled :
      (customer_id n actual : ℕ) (rows : List CustomerLlmBudget) (t : Reading)
      (m m' : BudgetManager) (st : Store) (r : BudgetReservation) (st' : Store)
      → let budget = (load_budget customer_id rows t m).0 in
        FreshIds R budget.customer_id t st
        → check_and_reserve R customer_id (pos n) rows t m st ≡ ok (r, m', st')
        → grants r ≡ true
        → (Counts R (cust budget.customer_id) t.customer_ms 0 0 st (release R r st')
            × Counts R global t.global_ms 0 0 st (release R r st'))
          × ((st'' : Store) × (reconcile R r (pos actual) st' ≡ ok st'')
              × Counts R (cust budget.customer_id) t.customer_ms actual 1 st st''
              × Counts R global t.global_ms actual 1 st st'')
  unfolding check_and_reserve
  reservation_settled customer_id n actual rows t m m' st r st' fresh h g =
      let (budget, m1) = load_budget customer_id rows t m in
      let ((r1, last), reserved, h') =
        bind_ok (reserve_tiers R budget m1 (pos n) t st) _ (r, m', st') h in
      let same : (r1, m1, last) ≡ (r, m', st') = ok_injective _ _ h' in
      let reserved' : reserve_tiers R budget m1 (pos n) t st ≡ ok (r, st') =
        reserved ∙ ap (λ (x : BudgetReservation × BudgetManager × Store). ok (x.0, x.2)) same in
      let held = reserve_tiers-Held budget m1 n t st r st' reserved' g in
      (
        release-Counts budget m1 n t st r st' fresh held,
        reconcile-Counts budget m1 n t st r st' fresh held actual,
      )
