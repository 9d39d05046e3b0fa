-- ===== src/Limiter/Tests.antt =====
-- The limiter at a concrete store.
use post_call_processing_pip.Prelude.{◌≡◌, ◌⊎◌, refl, length}
use post_call_processing_pip.Prelude.Integers.{pos}
use post_call_processing_pip.Db.{ok}
use post_call_processing_pip.Redis.{Member, global, tpm, rpm}
use post_call_processing_pip.Redis.Model.{Store, sorted_sets, empty}
use post_call_processing_pip.Limiter.{
  Reservation, RateLimitDecision, check_and_reserve, check_quota, evict, evict_expired,
  evict_members, decide, over_quota, reserve, reconcile, release, tokens, is_expired, eval_script,
}
use mathlib.Core.List.Perm
use post_call_processing_pip.Prelude.{List, [], ◌∷◌, ◌≤◌, arith}
use post_call_processing_pip.Redis.{Entry, set_score, remove}
use post_call_processing_pip.Limiter.{allowed}
use post_call_processing_pip.Limiter.Grants.{ask}
use post_call_processing_pip.Limiter.Refinement.{Refines, operations-Refines}
use post_call_processing_pip.Limiter.Runs.{Run, Step, Within, Run-Within}
use post_call_processing_pip.Limiter.Quota.{Granted, Denied, check_and_reserve_total}

abbrev old : Member
old = record { ts = 100; uuid = 1 }

abbrev recent : Member
recent = record { ts = 50000; uuid = 2 }

-- One call of an hour ago and one that is still in the window at 90000.
abbrev store : Store
store k =
    sorted_sets.zadd (tpm global) 700 recent
      (sorted_sets.zadd (rpm global) 1 recent
        (sorted_sets.zadd (tpm global) 400 old (sorted_sets.zadd (rpm global) 1 old empty)))
      k

abbrev granted : Reservation
granted = record {
  decision = RateLimitDecision.allow;
  retry_after_ms = 0;
  current_tpm = 1000;
  current_rpm = 2;
  member_id = record { ts = 90000; uuid = 3 };
  bucket = global;
}

abbrev store_after : Store
store_after = (eval_script sorted_sets global 1000 10 300 (record { ts = 90000; uuid = 3 }) store).1

granted_here :
    check_and_reserve sorted_sets global 1000 10 (pos 300) 90000 3 store ≡ ok (granted, store_after)
unfolding check_and_reserve check_quota evict evict_expired evict_members decide over_quota reserve
    tokens is_expired
granted_here = refl

check_and_reserve_total_example :
    (res : Reservation × Store) × (check_and_reserve sorted_sets global 1000 10
        (pos 400)
        90000
        3
        store
      ≡ ok res)
    × (Granted sorted_sets global 1000 10 400 90000 store res.0 res.1
        ⊎ Denied sorted_sets global 1000 10 400 90000 store res.0 res.1)
check_and_reserve_total_example =
    check_and_reserve_total sorted_sets global 1000 10 400 90000 3 store refl refl

abbrev store_reconciled : Store
store_reconciled = sorted_sets.zadd_xx (tpm global) 250 (granted.member_id) store_after

reconciled_here : reconcile sorted_sets granted (pos 250) store_after ≡ ok store_reconciled
unfolding reconcile
reconciled_here = refl

abbrev grants : List Entry
grants = record { member = old; score = 400 } ∷ record { member = recent; score = 700 } ∷ []

abbrev held : Reservation
held = record {
  decision = RateLimitDecision.allow;
  retry_after_ms = 0;
  current_tpm = 1100;
  current_rpm = 2;
  member_id = recent;
  bucket = global;
}

store-Refines : Refines sorted_sets global grants store
store-Refines = record { tokens_set = Perm.refl _; requests_set = Perm.swap _ _ [] }

operations-Refines_example :
    let (grant, l') = ask 1000 10 300 (record { ts = 90000; uuid = 3 }) grants in
    ((r : Reservation) × (st' : Store) × (check_and_reserve sorted_sets global 1000 10
          (pos 300)
          90000
          3
          store
        ≡ ok (r, st'))
      × (allowed r ≡ grant)
      × Refines sorted_sets global l' st')
    × ((st' : Store) × (reconcile sorted_sets held (pos 650) store ≡ ok st')
        × Refines sorted_sets global (set_score recent 650 grants) st')
    × Refines sorted_sets global (remove recent grants) (release sorted_sets held store)
operations-Refines_example =
    operations-Refines sorted_sets global 1000 10 300 90000 3 650 grants store held store-Refines
      refl refl refl

store_tokens : tokens (sorted_sets.zrange store (tpm global)) ≤ 1100
unfolding tokens
store_tokens = omega arith

store_requests : length (sorted_sets.zrange store (rpm global)) ≤ 10
store_requests = omega arith

Run-Within_example : Within sorted_sets global 1100 10 (release sorted_sets granted store_after)
Run-Within_example =
    Run-Within sorted_sets global 1100 10 {st = store}
      {st' = release sorted_sets granted store_after}
      (Run.next (Step.asks 1000 10 300 90000 3 (omega arith) (omega arith) refl refl granted_here)
        (Run.next (Step.releases granted refl) Run.done))
      (record { tokens_within = store_tokens; requests_within = store_requests })
