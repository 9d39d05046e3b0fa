-- ===== src/Budget/Isolation.antt =====
-- src/scheduler/budget_manager.py, `check_and_reserve`: the buckets that a call leaves alone.
use post_call_processing_pip.Prelude.{All, ◌≡◌, List}
use post_call_processing_pip.Budget.Cache.{CacheEntry}

-- Each entry has the limits of the customer that is its key.
abbrev pub KeyedCache : List CacheEntry → Type 0
KeyedCache = All (λ e. e.snapshot.customer_id ≡ e.key)
