-- ===== src/Limiter/Runs.antt =====
-- src/scheduler/rate_limiter.py: any number of operations, one after the other, on one store.
use post_call_processing_pip.Prelude.{
  ℕ, ◌≤◌, ◌≡◌, ◌≢◌, inl, inr, false, ◌&&◌, List, [], ◌∷◌, arith, length, any, ltb, Bool-cases, ap,
}
use post_call_processing_pip.Prelude.Integers.{pos}
use post_call_processing_pip.Db.{ok}
use post_call_processing_pip.Redis.{
  Member, Entry, Bucket, tpm, rpm, SortedSets, same_member, remove, set_score,
}
use post_call_processing_pip.Limiter.{
  Reservation, tokens, allowed, check_and_reserve, reconcile, release,
}
use post_call_processing_pip.Limiter.Window.{live}
use post_call_processing_pip.Limiter.Totals.{Fresh, tokens-perm}
use post_call_processing_pip.Limiter.Quota.{check_and_reserve_total}
use post_call_processing_pip.Limiter.Settle.{zrange-release_tpm, zrange-release_rpm}
use post_call_processing_pip.Limiter.Isolation.{
  SameBucket, check_and_reserve-SameBucket, release-SameBucket, reconcile_ne,
}
use post_call_processing_pip.Limiter.Refinement.{length-remove-le}

tokens-live-le : (now : ℕ) (l : List Entry) → tokens (live now l) ≤ tokens l
unfolding tokens
tokens-live-le now [] = omega arith
tokens-live-le now (e ∷ es) = ground (arith, tokens-live-le now es)

length-live-le : (now : ℕ) (l : List Entry) → length (live now l) ≤ length l
length-live-le now [] = omega arith
length-live-le now (e ∷ es) = ground (arith, length-live-le now es)

tokens-remove-le : (m : Member) (l : List Entry) → tokens (remove m l) ≤ tokens l
unfolding tokens
tokens-remove-le m [] = omega arith
tokens-remove-le m (e ∷ es) = ground (arith, tokens-remove-le m es)

-- No entry of the member holds fewer tokens.
abbrev pub HoldsAtLeast : Member → ℕ → List Entry → Type 0
HoldsAtLeast m a l = any (λ e. same_member e.member m && ltb e.score a) l ≡ false

tokens-set_score-le :
    (m : Member) (a : ℕ) (l : List Entry) → HoldsAtLeast m a l → tokens (set_score m a l) ≤ tokens l
unfolding tokens
tokens-set_score-le m a [] h = omega arith
tokens-set_score-le m a (e ∷ es) h = ground (arith, tokens-set_score-le m a es)

module _ (R : SortedSets) (b : Bucket) (tpm_limit rpm_limit : ℕ) where
  open R use {Store, zrange, zadd_xx, zrange-zadd_xx, zrange-zadd_xx_ne}

  -- One operation on the store. A request on the bucket `b` is made under limits that are at most the
  -- two given ones and with a new member, and a reconciliation there does not raise what is held; on
  -- other buckets anything may happen.
  pub data Step : Store → Store → Type 0 where
    asks :
        {st : Store} {res : Reservation × Store} (t q n ts uuid : ℕ)
        → t ≤ tpm_limit
        → q ≤ rpm_limit
        → Fresh (record { ts = ts; uuid = uuid }) (zrange st (tpm b))
        → Fresh (record { ts = ts; uuid = uuid }) (zrange st (rpm b))
        → check_and_reserve R b t q (pos n) ts uuid st ≡ ok res
        → Step st res.1
    reconciles :
        {st st' : Store} (r : Reservation) (actual : ℕ)
        → r.bucket ≡ b
        → HoldsAtLeast r.member_id actual (zrange st (tpm b))
        → reconcile R r (pos actual) st ≡ ok st'
        → Step st st'
    releases : {st : Store} (r : Reservation) → r.bucket ≡ b → Step st (release R r st)
    asks_elsewhere :
        {st : Store} {res : Reservation × Store} (b' : Bucket) (t q n ts uuid : ℕ)
        → b' ≢ b
        → check_and_reserve R b' t q (pos n) ts uuid st ≡ ok res
        → Step st res.1
    reconciles_elsewhere :
        {st st' : Store} (r : Reservation) (actual : ℕ)
        → r.bucket ≢ b
        → reconcile R r (pos actual) st ≡ ok st'
        → Step st st'
    releases_elsewhere : {st : Store} (r : Reservation) → r.bucket ≢ b → Step st (release R r st)

  pub data Run : Store → Store → Type 0 where
    done : {st : Store} → Run st st
    next : {st st' st'' : Store} → Step st st' → Run st' st'' → Run st st''

  -- What the bucket counts is within both limits.
  pub record Within (st : Store) : Type 0 where
    pub tokens_within : tokens (zrange st (tpm b)) ≤ tpm_limit
    pub requests_within : length (zrange st (rpm b)) ≤ rpm_limit

  SameBucket-Within : (st st' : Store) → SameBucket R b st st' → Within st → Within st'
  SameBucket-Within st st' (et, er) w = record {
    tokens_within = rw et w.tokens_within;
    requests_within = rw er w.requests_within;
  }

  asks-Within :
      (t q n ts uuid : ℕ) (st : Store) (res : Reservation × Store)
      → t ≤ tpm_limit
      → q ≤ rpm_limit
      → Fresh (record { ts = ts; uuid = uuid }) (zrange st (tpm b))
      → Fresh (record { ts = ts; uuid = uuid }) (zrange st (rpm b))
      → check_and_reserve R b t q (pos n) ts uuid st ≡ ok res
      → Within st
      → Within res.1
  asks-Within t q n ts uuid st res ht hq ft fr e w =
      let (res', e', how) = check_and_reserve_total R b t q n ts uuid st ft fr in
      let same : res' ≡ res = cc (e, e') in
      rw (← same) (elim how [
        | inl g ↦ record {
          tokens_within = omega (arith, g.tokens_after, g.fits_tokens);
          requests_within = omega (arith, g.requests_after, g.fits_requests);
        }
        | inr d ↦ record {
          tokens_within = omega (
            arith,
            ap tokens d.tokens_kept,
            tokens-live-le ts (zrange st (tpm b)),
            w.tokens_within,
          );
          requests_within = omega (
            arith,
            ap length d.requests_kept,
            length-live-le ts (zrange st (rpm b)),
            w.requests_within,
          );
        }
      ])

  reconciles-Within :
      (r : Reservation) (actual : ℕ) (st st' : Store)
      → r.bucket ≡ b
      → HoldsAtLeast r.member_id actual (zrange st (tpm b))
      → reconcile R r (pos actual) st ≡ ok st'
      → Within st
      → Within st'
  unfolding reconcile
  reconciles-Within r actual st st' eb h e w = elim (Bool-cases (allowed r)) [
    | inl granted ↦
        let settled : zadd_xx (tpm b) actual r.member_id st ≡ st' = cc (rw (granted, eb) at e) in
        rw (← settled) (record {
          tokens_within = omega (
            arith,
            tokens-perm (zrange-zadd_xx (tpm b) actual r.member_id st),
            tokens-set_score-le r.member_id actual (zrange st (tpm b)) h,
            w.tokens_within,
          );
          requests_within =
              rw (zrange-zadd_xx_ne (tpm b) (rpm b) actual r.member_id st (λ e. cc))
                w.requests_within;
        })
    | inr denied ↦ let untouched : st ≡ st' = cc (rw denied at e) in rw (← untouched) w
  ]

  releases-Within :
      (r : Reservation) (st : Store) → r.bucket ≡ b → Within st → Within (release R r st)
  unfolding release
  releases-Within r st eb w = elim (Bool-cases (allowed r)) [
    | inl granted ↦
        rw (granted, eb)
          (record {
            tokens_within = omega (
              arith,
              ap tokens (zrange-release_tpm R b r.member_id st),
              tokens-remove-le r.member_id (zrange st (tpm b)),
              w.tokens_within,
            );
            requests_within = omega (
              arith,
              ap length (zrange-release_rpm R b r.member_id st),
              length-remove-le r.member_id (zrange st (rpm b)),
              w.requests_within,
            );
          })
    | inr denied ↦ rw denied w
  ]

  reconciles_elsewhere-Within :
      (r : Reservation) (actual : ℕ) (st st' : Store)
      → r.bucket ≢ b
      → reconcile R r (pos actual) st ≡ ok st'
      → Within st
      → Within st'
  reconciles_elsewhere-Within r actual st st' ne e = SameBucket-Within st st' (
    reconcile_ne R (tpm b) r actual st st' (λ same. ne (cc same)) e,
    reconcile_ne R (rpm b) r actual st st' (λ same. cc same) e,
  )

  Step-Within : {st st' : Store} → Step st st' → Within st → Within st'
  Step-Within (asks {st} {res} t q n ts uuid ht hq ft fr e) w =
      asks-Within t q n ts uuid st res ht hq ft fr e w
  Step-Within (reconciles {st} {st'} r actual eb h e) w = reconciles-Within r actual st st' eb h e w
  Step-Within (releases {st} r eb) w = releases-Within r st eb w
  Step-Within (asks_elsewhere {st} {res} b' t q n ts uuid ne e) w =
      SameBucket-Within st res.1 (check_and_reserve-SameBucket R b' b t q n ts uuid st res ne e).1 w
  Step-Within (reconciles_elsewhere {st} {st'} r actual ne e) w =
      reconciles_elsewhere-Within r actual st st' ne e w
  Step-Within (releases_elsewhere {st} r ne) w =
      SameBucket-Within st _ (release-SameBucket R r b st ne) w

  -- However many requests, reconciliations and releases follow each other, at whatever times, a bucket
  -- that counted no more than the limits never counts more, as long as its requests are made under
  -- those limits with new members and no reconciliation raises what is held.
  pub Run-Within : {st st' : Store} → Run st st' → Within st → Within st'
  Run-Within done w = w
  Run-Within (next s run) w = Run-Within run (Step-Within s w)
