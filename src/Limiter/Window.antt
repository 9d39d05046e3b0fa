-- ===== src/Limiter/Window.antt =====
-- src/scheduler/lua/check_quota.lua: after `evict_expired` a set holds the entries of the window.
use post_call_processing_pip.Prelude.{
  ℕ, ◌≡◌, refl, sym, ◌∙◌, ◌≢◌, ◌⊎◌, inl, inr, Bool, true, false, not, List, [], ◌∷◌, arith, select,
  any, All, Bool-cases, if◌then◌else◌, All-mono, ap,
}
use post_call_processing_pip.Redis.{Entry, Bucket, Key, tpm, rpm, SortedSets, same_member, remove}
use post_call_processing_pip.Limiter.{is_expired, evict_members, evict_expired, evict}

-- The entries that the window still covers at `now`.
abbrev pub live : ℕ → List Entry → List Entry
live now = select λ e. not (is_expired now e)

-- What is left of `l` when the expired ones among `es` are removed in turn.
abbrev purge : ℕ → List Entry → List Entry → List Entry
purge now [] l = l
purge now (e ∷ es) l = purge now es (if is_expired now e then remove e.member l else l)

module _ (now : ℕ) where
  live-remove :
      (e : Entry) (l : List Entry)
      → is_expired now e ≡ true
      → live now (remove e.member l) ≡ live now l
  unfolding is_expired
  live-remove e [] h = refl
  live-remove e (x ∷ xs) h = ground (arith, live-remove e xs h)

  live-purge : (es l : List Entry) → live now (purge now es l) ≡ live now l
  live-purge [] l = refl
  live-purge (e ∷ es) l = elim (Bool-cases (is_expired now e)) [
    | inl old ↦ rw old (live-purge es (remove e.member l) ∙ live-remove e l old)
    | inr fresh ↦ rw fresh (live-purge es l)
  ]

  abbrev listed : List Entry → Entry → Bool
  listed es x = any (λ e. same_member x.member e.member) es

  abbrev Covered : List Entry → Entry → Type 0
  Covered es x = (is_expired now x ≡ false) ⊎ (listed es x ≡ true)

  Covered-remove_expired :
      (e : Entry) (es l : List Entry)
      → All (Covered (e ∷ es)) l
      → All (Covered es) (remove e.member l)
  Covered-remove_expired e es [] h = tt
  Covered-remove_expired e es (x ∷ xs) h = elim (Bool-cases (same_member x.member e.member)) [
    | inl same ↦ rw same (Covered-remove_expired e es xs h.1)
    | inr other ↦ rw other (ground (arith, h.0), Covered-remove_expired e es xs h.1)
  ]

  kept-Covered :
      (e : Entry) (es : List Entry)
      → is_expired now e ≡ false
      → (x : Entry) → Covered (e ∷ es) x
      → Covered es x
  unfolding is_expired
  kept-Covered e es h x c = ground arith

  Covered-step :
      (e : Entry) (es l : List Entry)
      → All (Covered (e ∷ es)) l
      → All (Covered es) (if is_expired now e then remove e.member l else l)
  Covered-step e es l h = elim (Bool-cases (is_expired now e)) [
    | inl old ↦ rw old (Covered-remove_expired e es l h)
    | inr fresh ↦ rw fresh (All-mono _ _ l (kept-Covered e es fresh) h)
  ]

  purge-live :
      (es l : List Entry)
      → All (Covered es) l
      → All (λ x. is_expired now x ≡ false) (purge now es l)
  purge-live [] l h = All-mono _ _ l (λ x c. ground arith) h
  purge-live (e ∷ es) l h = purge-live es _ (Covered-step e es l h)

  live-All : (l : List Entry) → All (λ x. is_expired now x ≡ false) l → live now l ≡ l
  live-All [] h = refl
  live-All (x ∷ xs) h = ground (arith, live-All xs h.1)

  self-Covered : (l : List Entry) → All (Covered l) l
  self-Covered [] = tt
  self-Covered (x ∷ xs) = (ground arith, All-mono _ _ xs (λ y c. ground arith) (self-Covered xs))

  purge_self : (l : List Entry) → purge now l l ≡ live now l
  purge_self l = sym (live-All _ (purge-live l l (self-Covered l))) ∙ live-purge l l

module _ (R : SortedSets) where
  open R use {Store, zrange, zrem, zrange-zrem, zrange-zrem_ne}

  zrange-evict_members :
      (k : Key) (now : ℕ) (es : List Entry) (st : Store)
      → zrange (evict_members R k now es st) k ≡ purge now es (zrange st k)
  unfolding evict_members
  zrange-evict_members k now [] st = refl
  zrange-evict_members k now (e ∷ es) st = elim (Bool-cases (is_expired now e)) [
    | inl old ↦
        rw old (zrange-evict_members k now es _ ∙ ap (purge now es) (zrange-zrem k e.member st))
    | inr fresh ↦ rw fresh (zrange-evict_members k now es st)
  ]

  zrange-evict_members_ne :
      (k j : Key) (now : ℕ) (es : List Entry) (st : Store)
      → k ≢ j
      → zrange (evict_members R k now es st) j ≡ zrange st j
  unfolding evict_members
  zrange-evict_members_ne k j now [] st h = refl
  zrange-evict_members_ne k j now (e ∷ es) st h = elim (Bool-cases (is_expired now e)) [
    | inl old ↦ rw old (zrange-evict_members_ne k j now es _ h ∙ zrange-zrem_ne k j e.member st h)
    | inr fresh ↦ rw fresh (zrange-evict_members_ne k j now es st h)
  ]

  zrange-evict_expired :
      (k : Key) (now : ℕ) (st : Store)
      → zrange (evict_expired R k now st) k ≡ live now (zrange st k)
  unfolding evict_expired
  zrange-evict_expired k now st =
      zrange-evict_members k now (zrange st k) st ∙ purge_self now (zrange st k)

  zrange-evict_expired_ne :
      (k j : Key) (now : ℕ) (st : Store) → k ≢ j → zrange (evict_expired R k now st) j ≡ zrange st j
  unfolding evict_expired
  zrange-evict_expired_ne k j now st h = zrange-evict_members_ne k j now (zrange st k) st h

  -- Both sets of the bucket are cut to the window, in their order.
  pub zrange-evict_tpm :
      (b : Bucket) (now : ℕ) (st : Store)
      → zrange (evict R b now st) (tpm b) ≡ live now (zrange st (tpm b))
  unfolding evict
  zrange-evict_tpm b now st =
      zrange-evict_expired_ne (rpm b) (tpm b) now (evict_expired R (tpm b) now st) (λ e. cc)
      ∙ zrange-evict_expired (tpm b) now st

  pub zrange-evict_rpm :
      (b : Bucket) (now : ℕ) (st : Store)
      → zrange (evict R b now st) (rpm b) ≡ live now (zrange st (rpm b))
  unfolding evict
  zrange-evict_rpm b now st =
      zrange-evict_expired (rpm b) now (evict_expired R (tpm b) now st)
      ∙ ap (live now) (zrange-evict_expired_ne (tpm b) (rpm b) now st (λ e. cc))

  -- No set of another bucket is touched.
  pub zrange-evict_ne :
      (b : Bucket) (k : Key) (now : ℕ) (st : Store)
      → tpm b ≢ k
      → rpm b ≢ k
      → zrange (evict R b now st) k ≡ zrange st k
  unfolding evict
  zrange-evict_ne b k now st ht hr =
      zrange-evict_expired_ne (rpm b) k now (evict_expired R (tpm b) now st) hr
      ∙ zrange-evict_expired_ne (tpm b) k now st ht
