-- ===== src/Limiter/Isolation.antt =====
-- src/scheduler/rate_limiter.py: which sets a call touches, and which it leaves alone.
use post_call_processing_pip.Prelude.{ℕ, ◌≡◌, ◌∙◌, ◌≢◌, inl, inr, true, arith, Bool-cases, ap, sym}
use post_call_processing_pip.Prelude.Integers.{pos}
use post_call_processing_pip.Db.{ok}
use post_call_processing_pip.Db.Rows.{ok_injective}
use post_call_processing_pip.Limiter.Totals.{tokens-perm}
use post_call_processing_pip.Redis.{Member, Bucket, Key, tpm, rpm, SortedSets, remove, set_score}
use post_call_processing_pip.Limiter.{
  tokens, Reservation, allowed, evict, decide, check_quota, check_and_reserve, reconcile, release,
  over_quota,
}
use post_call_processing_pip.Limiter.Window.{zrange-evict_ne}
use post_call_processing_pip.Limiter.Quota.{zrange-reserve_ne}
use post_call_processing_pip.Limiter.Settle.{zrange-release_tpm, zrange-release_rpm}

module _ (R : SortedSets) where
  open R use {Store, zrange, zrange-zadd_xx, zrange-zadd_xx_ne, zrange-zrem_ne}

  module _ (k : Key) where
    pub check_and_reserve_ne :
        (b : Bucket) (tpm_limit rpm_limit n ts uuid : ℕ) (st : Store) (res : Reservation × Store)
        → tpm b ≢ k
        → rpm b ≢ k
        → check_and_reserve R b tpm_limit rpm_limit (pos n) ts uuid st ≡ ok res
        → (res.0.bucket ≡ b) × (zrange res.1 k ≡ zrange st k)
    unfolding check_and_reserve check_quota decide
    check_and_reserve_ne b tpm_limit rpm_limit n ts uuid st res ht hr h =
        let m : Member = record { ts = ts; uuid = uuid } in
        let kept = zrange-evict_ne R b k ts st ht hr in
        let reserved = zrange-reserve_ne R b k m n (evict R b ts st) ht hr in
        elim (Bool-cases (over_quota R b tpm_limit rpm_limit n (evict R b ts st))) [
          | inl over ↦ let e = rw (over, decide) at h in ground (arith, kept)
          | inr fits ↦ let e = rw (fits, decide) at h in ground (arith, kept, reserved)
        ]

    pub release_ne :
        (r : Reservation) (st : Store)
        → tpm r.bucket ≢ k
        → rpm r.bucket ≢ k
        → zrange (release R r st) k ≡ zrange st k
    unfolding release
    release_ne r st ht hr = elim (Bool-cases (allowed r)) [
      | inl yes' ↦ rw yes' (
          zrange-zrem_ne (rpm r.bucket) k r.member_id _ hr
          ∙ zrange-zrem_ne (tpm r.bucket) k r.member_id st ht)
      | inr no' ↦ rw no'
    ]

    pub reconcile_ne :
        (r : Reservation) (actual : ℕ) (st st' : Store)
        → tpm r.bucket ≢ k
        → reconcile R r (pos actual) st ≡ ok st'
        → zrange st' k ≡ zrange st k
    unfolding reconcile
    reconcile_ne r actual st st' ht h = elim (Bool-cases (allowed r)) [
      | inl yes' ↦
          let e = rw yes' at h in
          ground (arith, zrange-zadd_xx_ne (tpm r.bucket) k actual r.member_id st ht)
      | inr no' ↦ let e = rw no' at h in ground arith
    ]

    calls_isolated_at :
        (b : Bucket) (tpm_limit rpm_limit n ts uuid actual : ℕ) (st : Store)
        (res : Reservation × Store) (st'' : Store)
        → tpm b ≢ k
        → rpm b ≢ k
        → check_and_reserve R b tpm_limit rpm_limit (pos n) ts uuid st ≡ ok res
        → reconcile R res.0 (pos actual) res.1 ≡ ok st''
        → (zrange res.1 k ≡ zrange st k)
          × (zrange st'' k ≡ zrange st k)
          × (zrange (release R res.0 res.1) k ≡ zrange st k)
    calls_isolated_at b tpm_limit rpm_limit n ts uuid actual st res st'' ht hr h h' =
        let (same, kept) = check_and_reserve_ne b tpm_limit rpm_limit n ts uuid st res ht hr h in
        (
          kept,
          reconcile_ne res.0 actual res.1 st'' (rw same ht) h' ∙ kept,
          release_ne res.0 res.1 (rw same ht) (rw same hr) ∙ kept,
        )

  -- What a release leaves in a bucket depends on that bucket alone.
  pub release_local :
      (r : Reservation) (b : Bucket) (st st' : Store)
      → r.bucket ≡ b
      → zrange st' (tpm b) ≡ zrange st (tpm b)
      → zrange st' (rpm b) ≡ zrange st (rpm b)
      → (zrange (release R r st') (tpm b) ≡ zrange (release R r st) (tpm b))
        × (zrange (release R r st') (rpm b) ≡ zrange (release R r st) (rpm b))
  unfolding release
  release_local r b st st' e et er = elim (Bool-cases (allowed r)) [
    | inl granted ↦
        rw (granted, e)
          (
            zrange-release_tpm R b r.member_id st'
                ∙ ap (remove r.member_id) et
                ∙ sym (zrange-release_tpm R b r.member_id st),
            zrange-release_rpm R b r.member_id st'
                ∙ ap (remove r.member_id) er
                ∙ sym (zrange-release_rpm R b r.member_id st),
          )
    | inr denied ↦ rw denied (et, er)
  ]

  abbrev pub SameBucket : Bucket → Store → Store → Type 0
  SameBucket b st st' =
      (zrange st' (tpm b) ≡ zrange st (tpm b)) × (zrange st' (rpm b) ≡ zrange st (rpm b))

  pub check_and_reserve-SameBucket :
      (b b' : Bucket) (tpm_limit rpm_limit n ts uuid : ℕ) (st : Store) (res : Reservation × Store)
      → b ≢ b'
      → check_and_reserve R b tpm_limit rpm_limit (pos n) ts uuid st ≡ ok res
      → (res.0.bucket ≡ b) × SameBucket b' st res.1
  check_and_reserve-SameBucket b b' tpm_limit rpm_limit n ts uuid st res ne h =
      let t =
        check_and_reserve_ne (tpm b') b tpm_limit rpm_limit n ts uuid st res
          (λ e. ne (ground arith)) (λ e. cc) h in
      let r =
        check_and_reserve_ne (rpm b') b tpm_limit rpm_limit n ts uuid st res (λ e. cc)
          (λ e. ne (ground arith)) h in
      (t.0, (t.1, r.1))

  pub release-SameBucket :
      (r : Reservation) (b' : Bucket) (st : Store)
      → r.bucket ≢ b'
      → SameBucket b' st (release R r st)
  release-SameBucket r b' st ne = (
    release_ne (tpm b') r st (λ e. ne (ground arith)) (λ e. cc),
    release_ne (rpm b') r st (λ e. cc) (λ e. ne (ground arith)),
  )

  pub reconcile-SameBucket :
      (r : Reservation) (b' : Bucket) (actual : ℕ) (st st' : Store)
      → r.bucket ≢ b'
      → reconcile R r (pos actual) st ≡ ok st'
      → SameBucket b' st st'
  reconcile-SameBucket r b' actual st st' ne h = (
    reconcile_ne (tpm b') r actual st st' (λ e. ne (ground arith)) h,
    reconcile_ne (rpm b') r actual st st' (λ e. cc) h,
  )

  -- A granted reservation is reconciled to the same counts in two stores that agree on its bucket.
  pub reconcile_local :
      (r : Reservation) (b : Bucket) (actual : ℕ) (st st' s : Store)
      → r.bucket ≡ b
      → allowed r ≡ true
      → SameBucket b st st'
      → reconcile R r (pos actual) st ≡ ok s
      → (s' : Store) × (reconcile R r (pos actual) st' ≡ ok s')
        × (tokens (zrange s' (tpm b)) ≡ tokens (zrange s (tpm b)))
        × (zrange s' (rpm b) ≡ zrange s (rpm b))
  unfolding reconcile tokens
  reconcile_local r b actual st st' s e a same h =
      let done_ : R.zadd_xx (tpm b) actual r.member_id st ≡ s = ok_injective _ s (rw (a, e) at h) in
      let mine = zrange-zadd_xx (tpm b) actual r.member_id st in
      let other = zrange-zadd_xx (tpm b) actual r.member_id st' in
      (
        R.zadd_xx (tpm b) actual r.member_id st',
        rw (a, e),
        omega (
          arith,
          tokens-perm mine,
          tokens-perm other,
          ap (λ l. tokens (set_score r.member_id actual l)) same.0,
          ap (λ (x : Store). tokens (zrange x (tpm b))) done_,
        ),
        zrange-zadd_xx_ne (tpm b) (rpm b) actual r.member_id st' (λ p. cc)
            ∙ same.1
            ∙ sym (zrange-zadd_xx_ne (tpm b) (rpm b) actual r.member_id st (λ p. cc))
            ∙ ap (λ (x : Store). zrange x (rpm b)) done_,
      )

  -- A call on one bucket, whatever its outcome, changes nothing in another bucket: neither the
  -- reservation, nor its reconciliation with an actual count, nor its release.
  calls_isolated :
      (b b' : Bucket) (tpm_limit rpm_limit n ts uuid actual : ℕ) (st : Store)
      (res : Reservation × Store) (st'' : Store)
      → b ≢ b'
      → check_and_reserve R b tpm_limit rpm_limit (pos n) ts uuid st ≡ ok res
      → reconcile R res.0 (pos actual) res.1 ≡ ok st''
      → SameBucket b' st res.1 × SameBucket b' st st'' × SameBucket b' st (release R res.0 res.1)
  calls_isolated b b' tpm_limit rpm_limit n ts uuid actual st res st'' ne h h' =
      let ht =
        calls_isolated_at (tpm b') b tpm_limit rpm_limit n ts uuid actual st res st''
          (λ e. ne (ground arith)) (λ e. cc) h h' in
      let hr =
        calls_isolated_at (rpm b') b tpm_limit rpm_limit n ts uuid actual st res st'' (λ e. cc)
          (λ e. ne (ground arith)) h h' in
      ((ht.0, hr.0), (ht.1, hr.1), (ht.2, hr.2))
