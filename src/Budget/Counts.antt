-- ===== src/Budget/Counts.antt =====
-- src/scheduler/budget_manager.py: what a bucket counts after one tier's call, and after the calls that
-- follow it.
use post_call_processing_pip.Prelude.{
  ℕ, ◌+◌, ◌≡◌, ◌∙◌, true, arith, length, ap, sym, inl, inr, false,
}
use post_call_processing_pip.Prelude.Integers.{pos}
use mathlib.Core.Path.{subst}
use post_call_processing_pip.Db.{ok}
use post_call_processing_pip.Db.Rows.{ok_injective}
use post_call_processing_pip.Redis.{Bucket, tpm, rpm, SortedSets}
use post_call_processing_pip.Limiter
use post_call_processing_pip.Limiter.{Reservation, tokens, allowed, release}
use post_call_processing_pip.Limiter.Window.{live}
use post_call_processing_pip.Limiter.Totals.{Fresh}
use post_call_processing_pip.Limiter.Quota.{
  check_and_reserve_total as limiter_total, Granted, Denied,
}
use post_call_processing_pip.Limiter.Settle.{release-check_and_reserve, reconcile-check_and_reserve}
use post_call_processing_pip.Limiter.Isolation.{release_local, reconcile_local, SameBucket}

module _ (R : SortedSets) where
  open R use {Store, zrange}

  -- The bucket counts what its window held at `now`, with `n` tokens and `k` requests more.
  pub record Counts (b : Bucket) (now n k : ℕ) (st st' : Store) : Type 0 where
    pub tokens_count : tokens (zrange st' (tpm b)) ≡ tokens (live now (zrange st (tpm b))) + n
    pub requests_count : length (zrange st' (rpm b)) ≡ length (live now (zrange st (rpm b))) + k

  pub Granted-Counts :
      (b : Bucket) (tl rl n ts : ℕ) (st : Store) (r : Reservation) (st' : Store)
      → Granted R b tl rl n ts st r st'
      → Counts b ts n 1 st st'
  Granted-Counts b tl rl n ts st r st' g = record {
    tokens_count = g.tokens_after;
    requests_count = g.requests_after;
  }

  pub Denied-Counts :
      (b : Bucket) (tl rl n ts : ℕ) (st : Store) (r : Reservation) (st' : Store)
      → Denied R b tl rl n ts st r st'
      → Counts b ts 0 0 st st'
  Denied-Counts b tl rl n ts st r st' d = record {
    tokens_count = omega (arith, ap tokens d.tokens_kept);
    requests_count = omega (arith, ap length d.requests_kept);
  }

  pub same-Counts :
      (b : Bucket) (now n k : ℕ) (st st' st'' : Store)
      → SameBucket R b st' st''
      → Counts b now n k st st'
      → Counts b now n k st st''
  same-Counts b now n k st st' st'' same c = record {
    tokens_count = ap tokens same.0 ∙ c.tokens_count;
    requests_count = ap length same.1 ∙ c.requests_count;
  }

  pub same_before-Counts :
      (b : Bucket) (now n k : ℕ) (st st' st'' : Store)
      → SameBucket R b st st'
      → Counts b now n k st' st''
      → Counts b now n k st st''
  same_before-Counts b now n k st st' st'' same c = record {
    tokens_count = rw (← same.0) c.tokens_count;
    requests_count = rw (← same.1) c.requests_count;
  }

  -- What a release leaves, when only other buckets changed since the reservation.
  pub release_after :
      (b : Bucket) (tl rl n ts uuid : ℕ) (st : Store) (r : Reservation) (st' st2 : Store)
      → Fresh (record { ts = ts; uuid = uuid }) (zrange st (tpm b))
      → Fresh (record { ts = ts; uuid = uuid }) (zrange st (rpm b))
      → Limiter.check_and_reserve R b tl rl (pos n) ts uuid st ≡ ok (r, st')
      → allowed r ≡ true
      → r.bucket ≡ b
      → SameBucket R b st' st2
      → Counts b ts 0 0 st (release R r st2)
  release_after b tl rl n ts uuid st r st' st2 ft fr h a e same =
      let undone = release-check_and_reserve R b tl rl n ts uuid st r st' ft fr h a in
      let (lt, lr) = release_local R r b st' st2 e same.0 same.1 in
      record {
        tokens_count = omega (arith, ap tokens lt, undone.0);
        requests_count = omega (arith, ap length lr, undone.2);
      }

  -- A call that granted, with what it leaves.
  granted_call :
      (b : Bucket) (tl rl n ts uuid : ℕ) (st : Store) (r : Reservation) (st' : Store)
      → Fresh (record { ts = ts; uuid = uuid }) (zrange st (tpm b))
      → Fresh (record { ts = ts; uuid = uuid }) (zrange st (rpm b))
      → Limiter.check_and_reserve R b tl rl (pos n) ts uuid st ≡ ok (r, st')
      → allowed r ≡ true
      → Granted R b tl rl n ts st r st'
  granted_call b tl rl n ts uuid st r st' ft fr h a =
      let (res, h', outcome) = limiter_total R b tl rl n ts uuid st ft fr in
      let same : res ≡ (r, st') = ok_injective res (r, st') (sym h' ∙ h) in
      elim outcome [
        | inl g ↦ subst (λ (x : Reservation × Store). Granted R b tl rl n ts st x.0 x.1) same g
        | inr d ↦
            let denied =
              subst (λ (x : Reservation × Store). allowed x.0 ≡ false) same d.is_denied in
            absurd (cc)
      ]

  -- The same of a reconciliation.
  pub reconcile_after :
      (b : Bucket) (tl rl n actual ts uuid : ℕ) (st : Store) (r : Reservation) (st' st2 : Store)
      → Fresh (record { ts = ts; uuid = uuid }) (zrange st (tpm b))
      → Fresh (record { ts = ts; uuid = uuid }) (zrange st (rpm b))
      → Limiter.check_and_reserve R b tl rl (pos n) ts uuid st ≡ ok (r, st')
      → allowed r ≡ true
      → r.bucket ≡ b
      → SameBucket R b st' st2
      → (st3 : Store) × (Limiter.reconcile R r (pos actual) st2 ≡ ok st3)
        × Counts b ts actual 1 st st3
  reconcile_after b tl rl n actual ts uuid st r st' st2 ft fr h a e same =
      let (s, settled, tokens_, requests) =
        reconcile-check_and_reserve R b tl rl n ts uuid st r st' ft fr h a actual in
      let (st3, settled', tokens', requests') =
        reconcile_local R r b actual st' st2 s e a same settled in
      let g = granted_call b tl rl n ts uuid st r st' ft fr h a in
      (
        st3,
        settled',
        record {
          tokens_count = omega (arith, tokens', tokens_);
          requests_count = omega (arith, ap length requests', ap length requests, g.requests_after);
        },
      )
