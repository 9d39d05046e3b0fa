-- ===== src/Budget/Cache.antt =====
-- src/scheduler/budget_manager.py: the rows of customer_llm_budgets and the in-process cache of them.
use post_call_processing_pip.Prelude.{
  ℕ, ◌+◌, ◌/◌, max, not, List, [], ◌∷◌, Option, none, some, ltb, ◌==◌, if◌then◌else◌, find, select,
}
use post_call_processing_pip.Models.{CustomerLlmBudget}

abbrev pub default_reserved_tpm : ℕ
default_reserved_tpm = 0

abbrev pub default_reserved_rpm : ℕ
default_reserved_rpm = 0

abbrev pub default_burst_tpm : ℕ
default_burst_tpm = 5000

abbrev pub default_priority : ℕ
default_priority = 9

pub record BudgetSnapshot : Type 0 where
  pub customer_id : ℕ
  pub reserved_tpm : ℕ
  pub reserved_rpm : ℕ
  pub burst_tpm : ℕ
  pub priority : ℕ

pub record CacheEntry : Type 0 where
  pub key : ℕ
  pub loaded_at : ℕ
  pub snapshot : BudgetSnapshot

pub record BudgetManager : Type 0 where
  pub global_tpm : ℕ
  pub global_rpm : ℕ
  pub cache_ttl : ℕ
  pub cache : List CacheEntry

-- What a call reads from outside: the monotonic clock (for the age of a cached entry, and again to
-- stamp a new one), the wall clock in milliseconds and a uuid for each of the two reservations.
pub record Reading : Type 0 where
  pub monotonic : ℕ
  pub monotonic_stored : ℕ
  pub customer_ms : ℕ
  pub customer_uuid : ℕ
  pub global_ms : ℕ
  pub global_uuid : ℕ

abbrev pub cached : ℕ → List CacheEntry → Option CacheEntry
cached key = find (λ e. e.key == key)

abbrev pub drop_key : ℕ → List CacheEntry → List CacheEntry
drop_key key = select (λ e. not (e.key == key))

abbrev pub row_snapshot : ℕ → Option CustomerLlmBudget → BudgetSnapshot
row_snapshot key none = record {
  customer_id = key;
  reserved_tpm = default_reserved_tpm;
  reserved_rpm = default_reserved_rpm;
  burst_tpm = default_burst_tpm;
  priority = default_priority;
}
row_snapshot key (some row) = record {
  customer_id = row.customer_id;
  reserved_tpm = row.reserved_tpm;
  reserved_rpm = row.reserved_rpm;
  burst_tpm = row.burst_tpm;
  priority = row.priority;
}

-- SELECT ... WHERE customer_id = key, the table's primary key
abbrev pub budget_row : ℕ → List CustomerLlmBudget → Option CustomerLlmBudget
budget_row key = find (λ row. row.customer_id == key)

-- The part of `_load_budget` that follows a miss.
abbrev pub read_budget :
    ℕ → List CustomerLlmBudget → Reading → BudgetManager → BudgetSnapshot × BudgetManager
read_budget key rows t m =
    let snapshot = row_snapshot key (budget_row key rows) in
    (
      snapshot,
      record m {
        cache =
            record { key = key; loaded_at = t.monotonic_stored; snapshot = snapshot }
            ∷ drop_key key m.cache;
      },
    )

-- A cached entry that is younger than the time to live.
abbrev pub fresh_entry : ℕ → Reading → BudgetManager → Option CacheEntry
fresh_entry key t m = elim (cached key m.cache) [
  | none ↦ none
  | some e ↦ if ltb t.monotonic (e.loaded_at + m.cache_ttl) then some e else none
]

unfoldable pub load_budget :
    ℕ → List CustomerLlmBudget → Reading → BudgetManager → BudgetSnapshot × BudgetManager
load_budget key rows t m = elim (fresh_entry key t m) [
  | some e ↦ (e.snapshot, m)
  | none ↦ read_budget key rows t m
]

unfoldable pub invalidate_cache : Option ℕ → BudgetManager → BudgetManager
invalidate_cache none m = record m { cache = [] }
invalidate_cache (some key) m = record m { cache = drop_key key m.cache }

abbrev pub cust_tpm_limit : BudgetSnapshot → ℕ
cust_tpm_limit b = b.reserved_tpm + b.burst_tpm

abbrev pub cust_rpm_limit : BudgetSnapshot → BudgetManager → ℕ
cust_rpm_limit b m = max b.reserved_rpm 1 + max (m.global_rpm / 5) 1
