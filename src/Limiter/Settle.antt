-- ===== src/Limiter/Settle.antt =====
-- src/scheduler/rate_limiter.py: what settles a reservation (`release`, `reconcile`).
use post_call_processing_pip.Prelude.{
  ℕ, ◌+◌, ◌≡◌, refl, ◌∙◌, inl, inr, true, List, ◌∷◌, arith, length, Bool-cases, ap,
}
use post_call_processing_pip.Prelude.Integers.{pos}
use post_call_processing_pip.Db.{ok}
use post_call_processing_pip.Redis.{Member, Entry, Bucket, tpm, rpm, SortedSets, remove, set_score}
use post_call_processing_pip.Limiter.{
  Reservation, tokens, allowed, evict, reserve, decide, check_quota, check_and_reserve, reconcile,
  release, over_quota, allow_reply, to_reservation, eval_script,
}
use post_call_processing_pip.Limiter.Window.{live, zrange-evict_tpm, zrange-evict_rpm}
use post_call_processing_pip.Limiter.Totals.{
  Fresh, remove-Fresh, set_score-Fresh, tokens-perm, tokens-set_score-perm, tokens-remove-perm,
  length-remove-perm,
}
use post_call_processing_pip.Limiter.Quota.{reserve-Holds, Fresh-live}

-- Removing a member that was just put in front of a set that lacks it.
remove_front :
    (m : Member) (s : ℕ) (l : List Entry)
    → Fresh m l
    → remove m (record { member = m; score = s } ∷ l) ≡ l
remove_front m s l f = ground (arith, remove-Fresh m l f)

rescore_front :
    (m : Member) (s s' : ℕ) (l : List Entry)
    → Fresh m l
    → set_score m s' (record { member = m; score = s } ∷ l) ≡ record { member = m; score = s' } ∷ l
rescore_front m s s' l f = ground (arith, set_score-Fresh m s' l f)

module _ (R : SortedSets) where
  open R use {Store, zrange, zrange-zadd_xx, zrange-zadd_xx_ne, zrange-zrem, zrange-zrem_ne}

  -- A granted call reserved in the evicted sets.
  pub check_and_reserve_granted :
      (b : Bucket) (tpm_limit rpm_limit n ts uuid : ℕ) (st : Store) (r : Reservation) (st' : Store)
      → check_and_reserve R b tpm_limit rpm_limit (pos n) ts uuid st ≡ ok (r, st')
      → allowed r ≡ true
      → let m : Member = record { ts = ts; uuid = uuid } in
        let e = evict R b ts st in
        (r ≡ to_reservation R b m (allow_reply R b n e)) × (st' ≡ reserve R b m n e)
  unfolding check_and_reserve check_quota decide
  check_and_reserve_granted b tpm_limit rpm_limit n ts uuid st r st' h a =
      elim (Bool-cases (over_quota R b tpm_limit rpm_limit n (evict R b ts st))) [
        | inl over ↦ let e = rw (over, decide) at h in ground arith
        | inr fits ↦ let e = rw (fits, decide) at h in ground arith
      ]

  -- A request for a number of tokens is answered, fresh member or not.
  pub check_and_reserve_ok :
      (b : Bucket) (tpm_limit rpm_limit n ts uuid : ℕ) (st : Store)
      → (res : Reservation × Store) × (check_and_reserve R b tpm_limit rpm_limit (pos n) ts uuid st
          ≡ ok res)
  unfolding check_and_reserve
  check_and_reserve_ok b tpm_limit rpm_limit n ts uuid st =
      (eval_script R b tpm_limit rpm_limit n (record { ts = ts; uuid = uuid }) st, refl)

  -- Both sets after the two ZREM of `release`.
  pub zrange-release_tpm :
      (b : Bucket) (m : Member) (st : Store)
      → zrange (R.zrem (rpm b) m (R.zrem (tpm b) m st)) (tpm b) ≡ remove m (zrange st (tpm b))
  zrange-release_tpm b m st =
      zrange-zrem_ne (rpm b) (tpm b) m (R.zrem (tpm b) m st) (λ e. cc) ∙ zrange-zrem (tpm b) m st

  pub zrange-release_rpm :
      (b : Bucket) (m : Member) (st : Store)
      → zrange (R.zrem (rpm b) m (R.zrem (tpm b) m st)) (rpm b) ≡ remove m (zrange st (rpm b))
  zrange-release_rpm b m st =
      zrange-zrem (rpm b) m (R.zrem (tpm b) m st)
      ∙ ap (remove m) (zrange-zrem_ne (tpm b) (rpm b) m st (λ e. cc))

  module _ (b : Bucket) (tpm_limit rpm_limit n ts uuid : ℕ) (st : Store) (r : Reservation)
      (st' : Store) (fresh_tpm : Fresh (record { ts = ts; uuid = uuid }) (zrange st (tpm b)))
      (fresh_rpm : Fresh (record { ts = ts; uuid = uuid }) (zrange st (rpm b)))
      (reserved : check_and_reserve R b tpm_limit rpm_limit (pos n) ts uuid st ≡ ok (r, st'))
      (granted : allowed r ≡ true) where
    -- To release a granted reservation of a fresh member at once leaves in the bucket's sets as
    -- many tokens and as many requests as the window held before it.
    pub release-check_and_reserve :
        (tokens (zrange (release R r st') (tpm b)) ≡ tokens (live ts (zrange st (tpm b))))
        × (length (zrange (release R r st') (tpm b)) ≡ length (live ts (zrange st (tpm b))))
        × (length (zrange (release R r st') (rpm b)) ≡ length (live ts (zrange st (rpm b))))
    unfolding release
    release-check_and_reserve =
        let m : Member = record { ts = ts; uuid = uuid } in
        let (er, es) =
          check_and_reserve_granted b tpm_limit rpm_limit n ts uuid st r st' reserved granted in
        let et = zrange-evict_tpm R b ts st in
        let eq = zrange-evict_rpm R b ts st in
        let ft : Fresh m (zrange (evict R b ts st) (tpm b)) = rw et (Fresh-live m ts _ fresh_tpm) in
        let fr : Fresh m (zrange (evict R b ts st) (rpm b)) = rw eq (Fresh-live m ts _ fresh_rpm) in
        let h = reserve-Holds R b m n (evict R b ts st) ft fr in
        rw (er, es)
          (
            rw (zrange-release_tpm, tokens-remove-perm h.tokens_set m, remove_front m n _ ft, et),
            rw (zrange-release_tpm, length-remove-perm h.tokens_set m, remove_front m n _ ft, et),
            rw (zrange-release_rpm, length-remove-perm h.requests_set m, remove_front m 1 _ fr, eq),
          )

    -- To reconcile a granted reservation of a fresh member at once makes the bucket count the
    -- actual tokens in place of the estimate, and leaves its requests alone.
    pub reconcile-check_and_reserve :
        (actual : ℕ)
        → (st'' : Store) × (reconcile R r (pos actual) st' ≡ ok st'')
          × (tokens (zrange st'' (tpm b)) ≡ tokens (live ts (zrange st (tpm b))) + actual)
          × (zrange st'' (rpm b) ≡ zrange st' (rpm b))
    unfolding reconcile tokens
    reconcile-check_and_reserve actual =
        let m : Member = record { ts = ts; uuid = uuid } in
        let (er, es) =
          check_and_reserve_granted b tpm_limit rpm_limit n ts uuid st r st' reserved granted in
        let et = zrange-evict_tpm R b ts st in
        let ft : Fresh m (zrange (evict R b ts st) (tpm b)) = rw et (Fresh-live m ts _ fresh_tpm) in
        let fr : Fresh m (zrange (evict R b ts st) (rpm b)) =
          rw (zrange-evict_rpm R b ts st) (Fresh-live m ts _ fresh_rpm) in
        let h = reserve-Holds R b m n (evict R b ts st) ft fr in
        let settled : tokens (zrange (R.zadd_xx (tpm b) actual m st') (tpm b))
            ≡ tokens (live ts (zrange st (tpm b))) + actual =
          rw es (
            omega (
              arith,
              tokens-perm (zrange-zadd_xx (tpm b) actual m (reserve R b m n (evict R b ts st))),
              tokens-set_score-perm h.tokens_set m actual,
              ap tokens (rescore_front m n actual _ ft),
              ap tokens et,
            )) in
        (
          R.zadd_xx (tpm b) actual m st',
          rw er,
          settled,
          zrange-zadd_xx_ne (tpm b) (rpm b) actual m st' (λ e. cc),
        )
