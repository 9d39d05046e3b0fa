-- ===== src/Budget/Tiers.antt =====
-- src/scheduler/budget_manager.py, `check_and_reserve`: both tiers or neither.
use post_call_processing_pip.Prelude.{
  ℕ, ◌+◌, ◌≤◌, ◌≡◌, refl, ◌⊎◌, inl, inr, true, false, List, arith, length, ◌<◌,
}
use post_call_processing_pip.Prelude.Integers.{pos}
use post_call_processing_pip.Models.{CustomerLlmBudget}
use post_call_processing_pip.Db.{ok}
use post_call_processing_pip.Redis.{tpm, rpm, global, cust, SortedSets}
use post_call_processing_pip.Limiter
use post_call_processing_pip.Limiter.{Reservation, tokens, allowed, release}
use post_call_processing_pip.Limiter.Window.{live}
use post_call_processing_pip.Limiter.Totals.{Fresh}
use post_call_processing_pip.Limiter.Quota.{check_and_reserve_total as limiter_total, Granted}
use post_call_processing_pip.Limiter.Isolation.{
  SameBucket, check_and_reserve-SameBucket, release-SameBucket,
}
use post_call_processing_pip.Budget.{
  BudgetReservation, grants, reserve_global, reserve_tiers, check_and_reserve, approval, denial,
}
use post_call_processing_pip.Budget.Cache.{
  BudgetSnapshot, BudgetManager, Reading, load_budget, cust_tpm_limit, cust_rpm_limit,
}
use post_call_processing_pip.Budget.Counts.{
  Counts, Granted-Counts, Denied-Counts, same-Counts, same_before-Counts, release_after,
}

module _ (R : SortedSets) where
  open R use {Store, zrange}

  -- The three ways in which a call on both tiers ends.
  pub data Outcome (budget : BudgetSnapshot) (m : BudgetManager) (n : ℕ) (t : Reading) (st : Store)
      (res : BudgetReservation × Store) : Type 0 where
    -- the customer's own limits leave no room, and the global bucket was not asked
    customer_denied :
        grants res.0 ≡ false
        → res.0.reason ≡ "customer_budget_exhausted"
        → (cust_tpm_limit budget
            < tokens (live t.customer_ms (zrange st (tpm (cust budget.customer_id)))) + n)
          ⊎ (cust_rpm_limit budget m
              < length (live t.customer_ms (zrange st (rpm (cust budget.customer_id)))) + 1)
        → Counts R (cust budget.customer_id) t.customer_ms 0 0 st res.1
        → SameBucket R global st res.1
        → Outcome budget m n t st res
    -- the global limits leave no room, and nothing is held against the customer
    global_denied :
        grants res.0 ≡ false
        → res.0.reason ≡ "global_headroom_exhausted"
        → (m.global_tpm < tokens (live t.global_ms (zrange st (tpm global))) + n)
          ⊎ (m.global_rpm < length (live t.global_ms (zrange st (rpm global))) + 1)
        → Counts R (cust budget.customer_id) t.customer_ms 0 0 st res.1
        → Counts R global t.global_ms 0 0 st res.1
        → Outcome budget m n t st res
    -- both limits hold, with the request counted in both buckets
    both_reserved :
        grants res.0 ≡ true
        → tokens (zrange res.1 (tpm (cust budget.customer_id))) ≤ cust_tpm_limit budget
        → length (zrange res.1 (rpm (cust budget.customer_id))) ≤ cust_rpm_limit budget m
        → tokens (zrange res.1 (tpm global)) ≤ m.global_tpm
        → length (zrange res.1 (rpm global)) ≤ m.global_rpm
        → Counts R (cust budget.customer_id) t.customer_ms n 1 st res.1
        → Counts R global t.global_ms n 1 st res.1
        → Outcome budget m n t st res

  -- The uuids drawn for the call are new to the sets that it adds to.
  pub record FreshIds (customer_id : ℕ) (t : Reading) (st : Store) : Type 0 where
    pub cust_tpm :
        Fresh
          (record { ts = t.customer_ms; uuid = t.customer_uuid })
          (zrange st (tpm (cust customer_id)))
    pub cust_rpm :
        Fresh
          (record { ts = t.customer_ms; uuid = t.customer_uuid })
          (zrange st (rpm (cust customer_id)))
    pub global_tpm :
        Fresh (record { ts = t.global_ms; uuid = t.global_uuid }) (zrange st (tpm global))
    pub global_rpm :
        Fresh (record { ts = t.global_ms; uuid = t.global_uuid }) (zrange st (rpm global))

  module _ (budget : BudgetSnapshot) (m : BudgetManager) (n : ℕ) (t : Reading) (st : Store)
      (fresh : FreshIds budget.customer_id t st) where
    global_tier :
        (r : Reservation) (st' : Store)
        → Limiter.check_and_reserve R
            (cust budget.customer_id)
            (cust_tpm_limit budget)
            (cust_rpm_limit budget m)
            (pos n)
            t.customer_ms
            t.customer_uuid
            st
          ≡ ok (r, st')
        → Granted R
            (cust budget.customer_id)
            (cust_tpm_limit budget)
            (cust_rpm_limit budget m)
            n
            t.customer_ms
            st
            r
            st'
        → (res : BudgetReservation × Store) × (reserve_global R m.global_tpm m.global_rpm
              (pos n)
              t
              r
              st'
            ≡ ok res)
          × Outcome budget m n t st res
    unfolding reserve_global
    global_tier r st' h g =
        let b = cust budget.customer_id in
        let (own, same) =
          check_and_reserve-SameBucket R b global _ _ n t.customer_ms t.customer_uuid st (r, st')
            (λ e. cc) h in
        let ((r2, st2), h2, outcome) =
          limiter_total R global m.global_tpm m.global_rpm n t.global_ms t.global_uuid st'
            (rw same.0 fresh.global_tpm) (rw same.1 fresh.global_rpm) in
        let (_, same2) =
          check_and_reserve-SameBucket R global b _ _ n t.global_ms t.global_uuid st' (r2, st2)
            (λ e. cc) h2 in
        elim outcome [
          | inl g2 ↦
              let mine =
                same-Counts R b _ n 1 st st' st2 same2 (Granted-Counts R b _ _ n _ st r st' g) in
              let shared =
                same_before-Counts R global _ n 1 st st' st2 same
                  (Granted-Counts R global _ _ n _ st' r2 st2 g2) in
              (
                (approval r r2, st2),
                rw (h2, g2.is_allowed),
                both_reserved refl (omega (arith, mine.tokens_count, g.fits_tokens))
                    (omega (arith, mine.requests_count, g.fits_requests))
                    (omega (arith, g2.tokens_after, g2.fits_tokens))
                    (omega (arith, g2.requests_after, g2.fits_requests)) mine shared,
              )
          | inr d2 ↦
              let shared =
                same_before-Counts R global _ 0 0 st st' st2 same
                  (Denied-Counts R global _ _ n _ st' r2 st2 d2) in
              (
                (denial r2.retry_after_ms "global_headroom_exhausted", release R r st2),
                rw (h2, d2.is_denied),
                global_denied refl refl (rw (← same.0, ← same.1) d2.over)
                    (release_after R b _ _ n _ _ st r st' st2 fresh.cust_tpm fresh.cust_rpm h
                      g.is_allowed own same2)
                    (same-Counts R global _ 0 0 st st2 _
                      (release-SameBucket R r global st2 (rw own (λ e. cc))) shared),
              )
        ]

    -- Asked for `n` tokens with ids that are new to the buckets, the two tiers always answer: the
    -- customer's limits leave no room, and the global bucket is untouched; or the global limits
    -- leave none, and nothing is held against the customer; or both have room, and both buckets
    -- count the request and stay within their limits.
    reserve_tiers_total :
        (res : BudgetReservation × Store) × (reserve_tiers R budget m (pos n) t st ≡ ok res)
        × Outcome budget m n t st res
    unfolding reserve_tiers
    reserve_tiers_total =
        let b = cust budget.customer_id in
        let ((r, st'), h, outcome) =
          limiter_total R b (cust_tpm_limit budget) (cust_rpm_limit budget m) n t.customer_ms
            t.customer_uuid st fresh.cust_tpm fresh.cust_rpm in
        elim outcome [
          | inl g ↦ let (res, e, o) = global_tier r st' h g in (res, rw (h, g.is_allowed) e, o)
          | inr d ↦
              let (_, same) =
                check_and_reserve-SameBucket R b global _ _ n t.customer_ms t.customer_uuid st
                  (r, st') (λ e. cc) h in
              (
                (denial r.retry_after_ms "customer_budget_exhausted", st'),
                rw (h, d.is_denied),
                customer_denied refl refl d.over (Denied-Counts R b _ _ n _ st r st' d) same,
              )
        ]

  -- Asked for `n` tokens of a customer, with ids that are new to the buckets, the manager always
  -- answers, on the budget that its cache or the table gives: a denial by the customer's limits
  -- leaves the global bucket untouched; a denial by the global limits leaves nothing held against
  -- the customer; and a grant counts the request in both buckets, each within its limits.
  pub check_and_reserve-Outcome :
      (customer_id n : ℕ) (rows : List CustomerLlmBudget) (t : Reading) (m : BudgetManager)
      (st : Store)
      → FreshIds (load_budget customer_id rows t m).0.customer_id t st
      → let (budget, m') = load_budget customer_id rows t m in
        (res : BudgetReservation × Store) × (check_and_reserve R customer_id (pos n) rows t m st
          ≡ ok (res.0, m', res.1))
        × Outcome budget m' n t st res
  unfolding check_and_reserve
  check_and_reserve-Outcome customer_id n rows t m st fresh =
      let (budget, m') = load_budget customer_id rows t m in
      let (res, e, o) = reserve_tiers_total budget m' n t st fresh in (res, rw e, o)
