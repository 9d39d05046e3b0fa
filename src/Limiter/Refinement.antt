-- ===== src/Limiter/Refinement.antt =====
-- src/scheduler/rate_limiter.py: the limiter over its two sorted sets does what the list of grants does.
use mathlib.Core.List.{Perm}
use mathlib.Core.List.Perm
use post_call_processing_pip.Prelude.{
  ℕ, ◌≤◌, ◌+◌, ◌≡◌, refl, ◌∙◌, inl, inr, true, false, ◌&&◌, List, [], ◌∷◌, arith, length, leb,
  Bool-cases, ap, sym, not,
}
use post_call_processing_pip.Prelude.Integers.{pos}
use post_call_processing_pip.Db.{ok}
use post_call_processing_pip.Redis.{Member, Entry, Bucket, tpm, rpm, SortedSets, remove, set_score}
use post_call_processing_pip.Limiter.{
  Reservation, tokens, allowed, evict, reserve, decide, check_quota, check_and_reserve, reconcile,
  release, over_quota, to_reservation, deny_reply, allow_reply,
}
use post_call_processing_pip.Limiter.Window.{live, zrange-evict_tpm, zrange-evict_rpm}
use post_call_processing_pip.Limiter.Totals.{
  Fresh, remove-Fresh, tokens-perm, length-perm, length-remove-perm,
}
use post_call_processing_pip.Limiter.Quota.{reserve-Holds, Fresh-live}
use post_call_processing_pip.Limiter.Settle.{zrange-release_tpm, zrange-release_rpm}
use post_call_processing_pip.Limiter.Grants.{
  ask, as_requests, live-perm, remove-perm, set_score-perm, live-as_requests, remove-as_requests,
  set_score-as_requests, length-as_requests, Fresh-as_requests,
}

pub length-remove-le : (m : Member) (l : List Entry) → length (remove m l) ≤ length l
length-remove-le m [] = omega arith
length-remove-le m (e ∷ es) = ground (arith, length-remove-le m es)

Fresh-of_length : (m : Member) (l : List Entry) → length (remove m l) ≡ length l → Fresh m l
Fresh-of_length m [] h = refl
Fresh-of_length m (e ∷ es) h = ground (arith, Fresh-of_length m es, length-remove-le m es)

Fresh-perm : (m : Member) {l l' : List Entry} → Perm l l' → Fresh m l' → Fresh m l
Fresh-perm m {l} {l'} p f =
    Fresh-of_length m l
      (length-remove-perm p m ∙ ap length (remove-Fresh m l' f) ∙ sym (length-perm p))

module _ (R : SortedSets) (b : Bucket) where
  open R use {
    Store, zrange, zadd_xx, zrem, zrange-zadd_xx, zrange-zadd_xx_ne, zrange-zrem, zrange-zrem_ne,
  }

  -- The bucket's sets hold the grants `l`, in any order.
  pub record Refines (l : List Entry) (st : Store) : Type 0 where
    pub tokens_set : Perm (zrange st (tpm b)) l
    pub requests_set : Perm (zrange st (rpm b)) (as_requests l)

  evict-Refines :
      (now : ℕ) (l : List Entry) (st : Store)
      → Refines l st
      → Refines (live now l) (evict R b now st)
  evict-Refines now l st h = record {
    tokens_set = rw (zrange-evict_tpm R b now st) (live-perm h.tokens_set now);
    requests_set =
        rw (zrange-evict_rpm R b now st, ← live-as_requests now l) (live-perm h.requests_set now);
  }

  -- A request does not fit exactly when the script finds a limit passed.
  over_quota-Refines :
      (tpm_limit rpm_limit n : ℕ) (l : List Entry) (st : Store)
      → Refines l st
      → over_quota R b tpm_limit rpm_limit n st
        ≡ not (leb (tokens l + n) tpm_limit && leb (length l + 1) rpm_limit)
  unfolding over_quota
  over_quota-Refines tpm_limit rpm_limit n l st h =
      ground (arith, tokens-perm h.tokens_set, length-perm h.requests_set, length-as_requests l)

  reserve-Refines :
      (n : ℕ) (m : Member) (l : List Entry) (st : Store)
      → Refines l st
      → Fresh m l
      → Refines (record { member = m; score = n } ∷ l) (reserve R b m n st)
  reserve-Refines n m l st h f =
      let held =
        reserve-Holds R b m n st (Fresh-perm m h.tokens_set f)
          (Fresh-perm m h.requests_set (Fresh-as_requests m l f)) in
      record {
        tokens_set = Perm.trans held.tokens_set (Perm.cons _ h.tokens_set);
        requests_set = Perm.trans held.requests_set (Perm.cons _ h.requests_set);
      }

  check_and_reserve-Refines :
      (tpm_limit rpm_limit n ts uuid : ℕ) (l : List Entry) (st : Store)
      → let m : Member = record { ts = ts; uuid = uuid } in
        Fresh m l
        → Refines l st
        → let (grant, l') = ask tpm_limit rpm_limit n m l in
          (r : Reservation) × (st' : Store) × (check_and_reserve R b tpm_limit rpm_limit
              (pos n)
              ts
              uuid
              st
            ≡ ok (r, st'))
          × (allowed r ≡ grant)
          × Refines l' st'
  unfolding check_and_reserve check_quota decide
  check_and_reserve-Refines tpm_limit rpm_limit n ts uuid l st f h =
      let m : Member = record { ts = ts; uuid = uuid } in
      let e = evict R b ts st in
      let w = live ts l in
      let kept = evict-Refines ts l st h in
      let same = over_quota-Refines tpm_limit rpm_limit n w e kept in
      elim (Bool-cases (leb (tokens w + n) tpm_limit && leb (length w + 1) rpm_limit)) [
        | inl fits ↦
            let under : over_quota R b tpm_limit rpm_limit n e ≡ false = rw fits at same in
            rw fits (
              to_reservation R b m (allow_reply R b n e),
              reserve R b m n e,
              rw (under, decide),
              refl,
              reserve-Refines n m w e kept (Fresh-live m ts l f),
            )
        | inr full ↦
            let over : over_quota R b tpm_limit rpm_limit n e ≡ true = rw full at same in
            rw full (to_reservation R b m (deny_reply R b ts e), e, rw (over, decide), refl, kept)
      ]

  reconcile-Refines :
      (r : Reservation) (actual : ℕ) (l : List Entry) (st : Store)
      → r.bucket ≡ b
      → allowed r ≡ true
      → Refines l st
      → (st' : Store) × (reconcile R r (pos actual) st ≡ ok st')
        × Refines (set_score r.member_id actual l) st'
  unfolding reconcile
  reconcile-Refines r actual l st e granted h = (
    zadd_xx (tpm b) actual r.member_id st,
    rw (granted, e),
    record {
      tokens_set =
          Perm.trans (zrange-zadd_xx (tpm b) actual r.member_id st)
            (set_score-perm h.tokens_set r.member_id actual);
      requests_set =
          rw
            (
              zrange-zadd_xx_ne (tpm b) (rpm b) actual r.member_id st (λ e. cc),
              set_score-as_requests r.member_id actual l,
            )
            h.requests_set;
    },
  )

  release-Refines :
      (r : Reservation) (l : List Entry) (st : Store)
      → r.bucket ≡ b
      → allowed r ≡ true
      → Refines l st
      → Refines (remove r.member_id l) (release R r st)
  unfolding release
  release-Refines r l st e granted h =
      rw (granted, e)
        (record {
          tokens_set =
              rw (zrange-release_tpm R b r.member_id st) (remove-perm h.tokens_set r.member_id);
          requests_set =
              rw (zrange-release_rpm R b r.member_id st, ← remove-as_requests r.member_id l)
                (remove-perm h.requests_set r.member_id);
        })

  -- While the bucket's sets hold the grants of the specification, in any order, so they do after each
  -- operation: a request with a new member is answered, granted just when the specification grants it,
  -- and leaves what the specification leaves; a granted reservation is reconciled by giving its
  -- grant the actual tokens, and released by taking its grant out.
  pub operations-Refines :
      (tpm_limit rpm_limit n ts uuid actual : ℕ) (l : List Entry) (st : Store) (held : Reservation)
      → Refines l st
      → Fresh (record { ts = ts; uuid = uuid }) l
      → held.bucket ≡ b
      → allowed held ≡ true
      → let (grant, l') = ask tpm_limit rpm_limit n (record { ts = ts; uuid = uuid }) l in
        ((r : Reservation) × (st' : Store) × (check_and_reserve R b tpm_limit rpm_limit
              (pos n)
              ts
              uuid
              st
            ≡ ok (r, st'))
          × (allowed r ≡ grant)
          × Refines l' st')
        × ((st' : Store) × (reconcile R held (pos actual) st ≡ ok st')
            × Refines (set_score held.member_id actual l) st')
        × Refines (remove held.member_id l) (release R held st)
  operations-Refines tpm_limit rpm_limit n ts uuid actual l st held h f e granted = (
    check_and_reserve-Refines tpm_limit rpm_limit n ts uuid l st f h,
    reconcile-Refines held actual l st e granted h,
    release-Refines held l st e granted h,
  )
