-- ===== src/Budget/Reads.antt =====
-- src/scheduler/budget_manager.py: the cached reads of customer_llm_budgets, and `utilization`.
use post_call_processing_pip.Prelude.{
  ℕ, ◌+◌, ◌*◌, ◌≤◌, ◌<◌, ◌≡◌, ◌≢◌, inl, inr, List, [], ◌∷◌, arith, length, ◌==◌, none, some,
  if◌then◌else◌,
}
use post_call_processing_pip.Models.{CustomerLlmBudget}
use post_call_processing_pip.Db.{ok}
use post_call_processing_pip.Redis.{tpm, rpm, global, cust, Bucket, SortedSets}
use post_call_processing_pip.Limiter.{Reservation, check_and_reserve, tokens}
use post_call_processing_pip.Limiter.Isolation.{SameBucket, check_and_reserve-SameBucket}
use post_call_processing_pip.Limiter.Window.{live}
use post_call_processing_pip.Limiter.Totals.{Fresh}
use post_call_processing_pip.Limiter.Quota.{check_and_reserve_total}
use post_call_processing_pip.Budget.{
  Utilization, CustomerUsage, utilization, global_usage, customer_usage,
}
use post_call_processing_pip.Prelude.{max, refl}
use post_call_processing_pip.Prelude.Integers.{pos}
use post_call_processing_pip.Budget.Cache.{
  BudgetManager, BudgetSnapshot, CacheEntry, Reading, cust_tpm_limit, cached, drop_key,
  row_snapshot, budget_row, fresh_entry, load_budget, invalidate_cache,
}

cached-drop_key :
    (key other : ℕ) (es : List CacheEntry)
    → cached other (drop_key key es) ≡ (if key == other then none else cached other es)
cached-drop_key key other [] = ground arith
cached-drop_key key other (e ∷ es) = ground (arith, cached-drop_key key other es)

-- Once a customer's entry is invalidated the next load answers with the row as it is then, or with
-- the defaults where there is none. Every other customer is answered as before.
pub load_budget-invalidate_cache :
    (key other : ℕ) (rows : List CustomerLlmBudget) (t : Reading) (m : BudgetManager)
    → key ≢ other
    → ((load_budget key rows t (invalidate_cache (some key) m)).0
        ≡ row_snapshot key (budget_row key rows))
      × ((load_budget other rows t (invalidate_cache (some key) m)).0
          ≡ (load_budget other rows t m).0)
unfolding load_budget invalidate_cache
load_budget-invalidate_cache key other rows t m ne = (
  ground (arith, cached-drop_key key key m.cache),
  ground (arith, cached-drop_key key other m.cache),
)

-- An answer that was read from the table is repeated, whatever becomes of the row, until it is as old
-- as the time to live.
load_budget_twice :
    (key : ℕ) (rows rows' : List CustomerLlmBudget) (t t' : Reading) (m : BudgetManager)
    → fresh_entry key t m ≡ none
    → t'.monotonic < t.monotonic_stored + m.cache_ttl
    → let (snapshot, m') = load_budget key rows t m in load_budget key rows' t' m' ≡ (snapshot, m')
unfolding load_budget
load_budget_twice key rows rows' t t' m miss young = rw (miss, load_budget) (ground arith)

-- From `st` to `st'` one request was added to those of the bucket's window, and no token.
abbrev pub OneMore : (R : SortedSets) (b : Bucket) (ts : ℕ) (st st' : R.Store) → Type 0
OneMore R b ts st st' =
    (length (R.zrange st' (rpm b)) ≡ length (live ts (R.zrange st (rpm b))) + 1)
    × (tokens (R.zrange st' (tpm b)) ≡ tokens (live ts (R.zrange st (tpm b))))

module _ (R : SortedSets) where
  open R use {Store, zrange}

  bucket_read :
      (b : Bucket) (tpm_limit rpm_limit ts uuid : ℕ) (st : Store)
      → Fresh (record { ts = ts; uuid = uuid }) (zrange st (tpm b))
      → Fresh (record { ts = ts; uuid = uuid }) (zrange st (rpm b))
      → tokens (live ts (zrange st (tpm b))) ≤ tpm_limit
      → length (live ts (zrange st (rpm b))) < rpm_limit
      → (r : Reservation) × (st' : Store) × (check_and_reserve R b tpm_limit rpm_limit
            (pos 0)
            ts
            uuid
            st
          ≡ ok (r, st'))
        × OneMore R b ts st st'
        × (r.current_rpm ≡ length (zrange st' (rpm b)))
  bucket_read b tpm_limit rpm_limit ts uuid st ft fr fits below =
      let ((r, st'), h, outcome) =
        check_and_reserve_total R b tpm_limit rpm_limit 0 ts uuid st ft fr in
      elim outcome [
        | inl g ↦
            (r, st', h, (g.requests_after, omega (arith, g.tokens_after)), g.requests_reported)
        | inr d ↦ absurd (omega (arith, d.over))
      ]

  OneMore-before :
      (b : Bucket) (ts : ℕ) (st st' st'' : Store)
      → SameBucket R b st st'
      → OneMore R b ts st' st''
      → OneMore R b ts st st''
  OneMore-before b ts st st' st'' (same, same') (one, none_added) =
      (rw same' at one, rw same at none_added)

  -- To read the utilisation is itself a request. While a bucket's tokens are within its limit and its
  -- requests below a thousand times its limit, each read leaves one request more in the global bucket
  -- than its window held, and reports it, though it adds no token; and a read for a customer, whose
  -- limits are those that are loaded, does the same to the customer's bucket.
  pub utilization_counts :
      (customer_id : ℕ) (rows : List CustomerLlmBudget) (t : Reading) (m m' : BudgetManager)
      (budget : BudgetSnapshot) (st : Store)
      → load_budget customer_id rows t m ≡ (budget, m')
      → Fresh (record { ts = t.global_ms; uuid = t.global_uuid }) (zrange st (tpm global))
      → Fresh (record { ts = t.global_ms; uuid = t.global_uuid }) (zrange st (rpm global))
      → tokens (live t.global_ms (zrange st (tpm global))) ≤ m.global_tpm
      → length (live t.global_ms (zrange st (rpm global))) < m.global_rpm * 1000
      → Fresh
          (record { ts = t.customer_ms; uuid = t.customer_uuid })
          (zrange st (tpm (cust budget.customer_id)))
      → Fresh
          (record { ts = t.customer_ms; uuid = t.customer_uuid })
          (zrange st (rpm (cust budget.customer_id)))
      → tokens (live t.customer_ms (zrange st (tpm (cust budget.customer_id))))
        ≤ cust_tpm_limit budget
      → length (live t.customer_ms (zrange st (rpm (cust budget.customer_id))))
        < max budget.reserved_rpm 1 * 1000
      → ((u : Utilization) × (st' : Store) × (utilization R none rows t m st ≡ ok (u, m, st'))
          × OneMore R global t.global_ms st st'
          × (u.global_rpm ≡ length (zrange st' (rpm global))))
        × ((u : Utilization) × (used : CustomerUsage) × (st' : Store) × (utilization R
                (some customer_id)
                rows
                t
                m
                st
              ≡ ok (u, m', st'))
            × OneMore R global t.global_ms st st'
            × (u.global_rpm ≡ length (zrange st' (rpm global)))
            × (u.customer ≡ some used)
            × OneMore R (cust budget.customer_id) t.customer_ms st st'
            × (used.customer_rpm ≡ length (zrange st' (rpm (cust budget.customer_id)))))
  unfolding utilization
  utilization_counts customer_id rows t m m' budget st loaded ft fr fits below cft cfr cfits
        cbelow =
      let b = cust budget.customer_id in
      let (r, st1, h, one, reported) =
        bucket_read global m.global_tpm (m.global_rpm * 1000) t.global_ms t.global_uuid st ft fr
          fits below in
      let (_, (same, same')) =
        check_and_reserve-SameBucket R global b _ _ 0 t.global_ms t.global_uuid st (r, st1)
          (λ e. cc) h in
      let (r', st2, h', own, reported') =
        bucket_read b (cust_tpm_limit budget) (max budget.reserved_rpm 1 * 1000) t.customer_ms
          t.customer_uuid st1 (rw same cft) (rw same' cfr) (rw same cfits) (rw same' cbelow) in
      let (_, (kept, kept')) =
        check_and_reserve-SameBucket R b global _ _ 0 t.customer_ms t.customer_uuid st1 (r', st2)
          (λ e. cc) h' in
      (
        (global_usage r m none, st1, rw h, one, reported),
        (
          global_usage r m (some (customer_usage r' budget)),
          customer_usage r' budget,
          st2,
          rw (h, loaded, h'),
          (rw kept' one.0, rw kept one.1),
          rw kept' reported,
          refl,
          OneMore-before b t.customer_ms st st1 st2 (same, same') own,
          reported',
        ),
      )
