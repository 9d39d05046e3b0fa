-- ===== src/Limiter/Quota.antt =====
-- src/scheduler/rate_limiter.py: what a reservation promises, and what undoing or reconciling it does.
use mathlib.Core.List.{Perm}
use post_call_processing_pip.Prelude.{
  ℕ, ◌+◌, ◌≤◌, ◌<◌, ◌≡◌, refl, ◌∙◌, ◌≢◌, ◌⊎◌, inl, inr, true, false, List, [], ◌∷◌, arith, length,
  Bool-cases, ap,
}
use post_call_processing_pip.Prelude.Integers.{pos}
use post_call_processing_pip.Db.{ok}
use post_call_processing_pip.Redis.{Member, Entry, Bucket, Key, tpm, rpm, SortedSets, remove}
use post_call_processing_pip.Limiter.{
  Reservation, tokens, allowed, evict, reserve, decide, check_quota, check_and_reserve, over_quota,
  to_reservation, deny_reply, allow_reply,
}
use post_call_processing_pip.Limiter.Window.{live, zrange-evict_tpm, zrange-evict_rpm}
use post_call_processing_pip.Limiter.Totals.{Fresh, remove-Fresh, tokens-perm, length-perm}

pub Fresh-live : (m : Member) (now : ℕ) (l : List Entry) → Fresh m l → Fresh m (live now l)
Fresh-live m now [] h = refl
Fresh-live m now (e ∷ es) h = ground (arith, Fresh-live m now es)

module _ (R : SortedSets) where
  open R use {
    Store, zrange, zadd, zrange-zadd, zrange-zadd_ne, zrange-zadd_xx, zrange-zadd_xx_ne,
    zrange-zrem, zrange-zrem_ne, zrange-pexpire,
  }

  pub zrange-reserve_ne :
      (b : Bucket) (k : Key) (m : Member) (n : ℕ) (st : Store)
      → tpm b ≢ k
      → rpm b ≢ k
      → zrange (reserve R b m n st) k ≡ zrange st k
  unfolding reserve
  zrange-reserve_ne b k m n st ht hr =
      zrange-pexpire _ k _ _
      ∙ zrange-pexpire _ k _ _
      ∙ zrange-zadd_ne (rpm b) k 1 m _ hr
      ∙ zrange-zadd_ne (tpm b) k n m st ht

  zrange-reserve_tpm :
      (b : Bucket) (m : Member) (n : ℕ) (st : Store)
      → Perm
          (zrange (reserve R b m n st) (tpm b))
          (record { member = m; score = n } ∷ remove m (zrange st (tpm b)))
  unfolding reserve
  zrange-reserve_tpm b m n st =
      rw
        (
          zrange-pexpire,
          zrange-pexpire,
          zrange-zadd_ne (rpm b) (tpm b) 1 m (zadd (tpm b) n m st) (λ e. cc),
        )
        (zrange-zadd (tpm b) n m st)

  zrange-reserve_rpm :
      (b : Bucket) (m : Member) (n : ℕ) (st : Store)
      → Perm
          (zrange (reserve R b m n st) (rpm b))
          (record { member = m; score = 1 } ∷ remove m (zrange st (rpm b)))
  unfolding reserve
  zrange-reserve_rpm b m n st =
      rw (zrange-pexpire, zrange-pexpire, ← zrange-zadd_ne (tpm b) (rpm b) n m st (λ e. cc))
        (zrange-zadd (rpm b) 1 m (zadd (tpm b) n m st))

  -- The two sets of `b` hold the entries `ts` and `rs`, up to order.
  pub record Holds (b : Bucket) (ts rs : List Entry) (st : Store) : Type 0 where
    pub tokens_set : Perm (zrange st (tpm b)) ts
    pub requests_set : Perm (zrange st (rpm b)) rs

  pub reserve-Holds :
      (b : Bucket) (m : Member) (n : ℕ) (st : Store)
      → Fresh m (zrange st (tpm b))
      → Fresh m (zrange st (rpm b))
      → Holds b
          (record { member = m; score = n } ∷ zrange st (tpm b))
          (record { member = m; score = 1 } ∷ zrange st (rpm b))
          (reserve R b m n st)
  reserve-Holds b m n st ft fr = record {
    tokens_set = rw (remove-Fresh m _ ft) at (zrange-reserve_tpm b m n st);
    requests_set = rw (remove-Fresh m _ fr) at (zrange-reserve_rpm b m n st);
  }

  -- The call that reserves `n` tokens in `b` at `ts` returned `r` and the store `st'`: what the window
  -- holds and the request together fit both limits, `r` allows it, and the sets hold just that.
  pub record Granted (b : Bucket) (tpm_limit rpm_limit n ts : ℕ) (st : Store) (r : Reservation)
      (st' : Store) : Type 0 where
    pub is_allowed : allowed r ≡ true
    pub fits_tokens : tokens (live ts (zrange st (tpm b))) + n ≤ tpm_limit
    pub fits_requests : length (live ts (zrange st (rpm b))) + 1 ≤ rpm_limit
    pub tokens_after : tokens (zrange st' (tpm b)) ≡ tokens (live ts (zrange st (tpm b))) + n
    pub requests_after : length (zrange st' (rpm b)) ≡ length (live ts (zrange st (rpm b))) + 1
    pub tokens_reported : r.current_tpm ≡ tokens (zrange st' (tpm b))
    pub requests_reported : r.current_rpm ≡ length (zrange st' (rpm b))

  -- The call returned `r` and `st'`: one of the limits would be passed, `r` denies the request, and
  -- the sets hold what the window held before.
  pub record Denied (b : Bucket) (tpm_limit rpm_limit n ts : ℕ) (st : Store) (r : Reservation)
      (st' : Store) : Type 0 where
    pub is_denied : allowed r ≡ false
    pub over :
        (tpm_limit < tokens (live ts (zrange st (tpm b))) + n)
        ⊎ (rpm_limit < length (live ts (zrange st (rpm b))) + 1)
    pub tokens_kept : zrange st' (tpm b) ≡ live ts (zrange st (tpm b))
    pub requests_kept : zrange st' (rpm b) ≡ live ts (zrange st (rpm b))

  denied :
      (b : Bucket) (tpm_limit rpm_limit n : ℕ) (m : Member) (st : Store)
      → over_quota R b tpm_limit rpm_limit n (evict R b m.ts st) ≡ true
      → Denied b tpm_limit rpm_limit n m.ts st
          (to_reservation R b m (deny_reply R b m.ts (evict R b m.ts st)))
          (evict R b m.ts st)
  unfolding over_quota
  denied b tpm_limit rpm_limit n m st over =
      let et = zrange-evict_tpm R b m.ts st in
      let er = zrange-evict_rpm R b m.ts st in
      record {
        is_denied = refl;
        over = ground (arith, ap tokens et, ap length er);
        tokens_kept = et;
        requests_kept = er;
      }

  granted :
      (b : Bucket) (tpm_limit rpm_limit n : ℕ) (m : Member) (st : Store)
      → Fresh m (zrange st (tpm b))
      → Fresh m (zrange st (rpm b))
      → over_quota R b tpm_limit rpm_limit n (evict R b m.ts st) ≡ false
      → Granted b tpm_limit rpm_limit n m.ts st
          (to_reservation R b m (allow_reply R b n (evict R b m.ts st)))
          (reserve R b m n (evict R b m.ts st))
  unfolding over_quota tokens
  granted b tpm_limit rpm_limit n m st ft fr fits =
      let et = zrange-evict_tpm R b m.ts st in
      let er = zrange-evict_rpm R b m.ts st in
      let h =
        reserve-Holds b m n (evict R b m.ts st) (rw et (Fresh-live m m.ts _ ft))
          (rw er (Fresh-live m m.ts _ fr)) in
      let t = tokens-perm h.tokens_set in
      let r = length-perm h.requests_set in
      record {
        is_allowed = refl;
        fits_tokens = ground (arith, ap tokens et);
        fits_requests = ground (arith, ap length er);
        tokens_after = omega (arith, t, ap tokens et);
        requests_after = omega (arith, r, ap length er);
        tokens_reported = omega (arith, t);
        requests_reported = omega (arith, r);
      }

  -- A reservation of a fresh member always returns: it is granted exactly when what is in the window
  -- leaves room for it under both limits, and denied otherwise.
  pub check_and_reserve_total :
      (b : Bucket) (tpm_limit rpm_limit n ts uuid : ℕ) (st : Store)
      → Fresh (record { ts = ts; uuid = uuid }) (zrange st (tpm b))
      → Fresh (record { ts = ts; uuid = uuid }) (zrange st (rpm b))
      → (res : Reservation × Store) × (check_and_reserve R b tpm_limit rpm_limit (pos n) ts uuid st
          ≡ ok res)
        × (Granted b tpm_limit rpm_limit n ts st res.0 res.1
            ⊎ Denied b tpm_limit rpm_limit n ts st res.0 res.1)
  unfolding check_and_reserve check_quota decide
  check_and_reserve_total b tpm_limit rpm_limit n ts uuid st ft fr =
      let e = evict R b ts st in
      let m : Member = record { ts = ts; uuid = uuid } in
      elim (Bool-cases (over_quota R b tpm_limit rpm_limit n e)) [
        | inl over ↦ (
          (to_reservation R b m (deny_reply R b ts e), e),
          rw (over, decide),
          inr (denied b tpm_limit rpm_limit n m st over),
        )
        | inr fits ↦ (
          (to_reservation R b m (allow_reply R b n e), reserve R b m n e),
          rw (fits, decide),
          inl (granted b tpm_limit rpm_limit n m st ft fr fits),
        )
      ]
