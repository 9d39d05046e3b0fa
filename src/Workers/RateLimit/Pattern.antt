-- ===== src/Workers/RateLimit/Pattern.antt =====
-- src/tasks/workers/llm_worker.py, `_is_rate_limit_error`: the search beside what its pattern describes.
use Prim.Native.Char.{Char, code}
use Prim.Native.String.{String, ◌++◌}
use text.Mathlib.TextLemmas.{cons-append, nil-append, append_assoc}
use post_call_processing_pip.Prelude.{
  Bool, true, false, ◌||◌, ◌&&◌, not, ◌==◌, Option, none, some, ◌≡◌, refl, ◌∙◌, ap, sym, ◌↔◌, ◌⊎◌,
  inl, inr, ◌≢◌, arith, Bool-cases, Option-cases,
}
use post_call_processing_pip.Workers.RateLimit.{
  after_literal, stands, maybe_one_then_limit, after_rate, hint_here, is_rate_limit_error,
}

or-cases : (a b : Bool) → (a || b) ≡ true → (a ≡ true) ⊎ (b ≡ true)
or-cases true b h = inl refl
or-cases false b h = inr h

and-both : (a b : Bool) → (a && b) ≡ true → (a ≡ true) × (b ≡ true)
and-both true b h = (refl, h)
and-both false b h = absurd (cc h)

or-true : (a : Bool) → (a || true) ≡ true
or-true true = refl
or-true false = refl

module _ (alike : Char → Char → Bool) where
  some_inj : {s v : String} → Path (Option String) (some s) (some v) → s ≡ v
  some_inj h = cc

  -- The text `m` spells the word `p`, a character for a character.
  pub data Spells : String → String → Type 0 where
    done : Spells String.[] String.[]
    next :
        {p m : String} (c d : Char)
        → alike c d ≡ true
        → Spells p m
        → Spells (String.◌∷◌ c p) (String.◌∷◌ d m)

  -- What the pattern describes.
  pub data Hint : String → Type 0 where
    joined : (r l : String) → Spells "rate" r → Spells "limit" l → Hint (r ++ l)
    apart :
        (r l : String) (c : Char)
        → Spells "rate" r
        → code c ≢ 10
        → Spells "limit" l
        → Hint (r ++ String.◌∷◌ c l)
    number : (m : String) → Spells "429" m → Hint m

  after_literal-Spells : (p m v : String) → Spells p m → after_literal alike p (m ++ v) ≡ some v
  unfolding after_literal
  after_literal-Spells _ _ v Spells.done = ap some (nil-append v)
  after_literal-Spells _ _ v (Spells.next {p} {m} c d h rest) =
      rw cons-append (rw h (after_literal-Spells p m v rest))

  Spells-after_literal :
      (p s v : String) → after_literal alike p s ≡ some v → (m : String) × Spells p m × (s ≡ m ++ v)
  unfolding after_literal
  Spells-after_literal String.[] s v h = (String.[], Spells.done, some_inj h ∙ sym (nil-append v))
  Spells-after_literal (String.◌∷◌ c p) String.[] v h = absurd (cc h)
  Spells-after_literal (String.◌∷◌ c p) (String.◌∷◌ d s) v h = elim (Bool-cases (alike c d)) [
    | inl same ↦
        let (m, spells, e) = Spells-after_literal p s v (rw same at h) in
        (String.◌∷◌ d m, Spells.next c d same spells, ap (String.◌∷◌ d) e ∙ sym (cons-append d m v))
    | inr other ↦ absurd (cc (rw other at h))
  ]

  stands-some : (o : Option String) → stands o ≡ true → (v : String) × (o ≡ some v)
  stands-some none h = absurd (cc h)
  stands-some (some v) h = (v, refl)

  stands-after_literal :
      (p s : String)
      → stands (after_literal alike p s) ≡ true
      → (m v : String) × Spells p m × (s ≡ m ++ v)
  stands-after_literal p s h =
      let (v, e) = stands-some _ h in
      let (m, spells, e') = Spells-after_literal p s v e in (m, v, spells, e')

  -- The text begins with something that the pattern describes.
  abbrev Begins : String → Type 0
  Begins s = (m v : String) × Hint m × (s ≡ m ++ v)

  follows : (r s l v : String) → s ≡ l ++ v → r ++ s ≡ (r ++ l) ++ v
  follows r s l v e = ap (λ x. r ++ x) e ∙ sym (append_assoc r l v)

  maybe_one_then_limit-Begins :
      (r rest : String)
      → Spells "rate" r
      → maybe_one_then_limit alike rest ≡ true
      → Begins (r ++ rest)
  unfolding maybe_one_then_limit
  maybe_one_then_limit-Begins r String.[] rate h = absurd (cc h)
  maybe_one_then_limit-Begins r (String.◌∷◌ c s) rate h =
      elim (or-cases (not (code c == 10) && stands (after_literal alike "limit" s))
        (stands (after_literal alike "limit" (String.◌∷◌ c s))) h) [
          | inl one ↦
              let (no_newline, limit) =
                and-both (not (code c == 10)) (stands (after_literal alike "limit" s)) one in
              let (l, v, spells, e) = stands-after_literal "limit" s limit in
              (
                r ++ String.◌∷◌ c l,
                v,
                Hint.apart r l c rate (λ e'. absurd (ground (arith, no_newline, e'))) spells,
                follows r (String.◌∷◌ c s) (String.◌∷◌ c l) v
                    (ap (String.◌∷◌ c) e ∙ sym (cons-append c l v)),
              )
          | inr limit ↦
              let (l, v, spells, e) = stands-after_literal "limit" (String.◌∷◌ c s) limit in
              (r ++ l, v, Hint.joined r l rate spells, follows r (String.◌∷◌ c s) l v e)
        ]

  hint_here-Begins : (s : String) → hint_here alike s ≡ true → Begins s
  unfolding hint_here
  hint_here-Begins s h =
      elim (or-cases (after_rate alike (after_literal alike "rate" s))
        (stands (after_literal alike "429" s)) h) [
          | inl rated ↦ elim (Option-cases (after_literal alike "rate" s)) [
            | inl other ↦ absurd (cc (rw other at rated))
            | inr (rest, e) ↦
                let (r, spells, e') = Spells-after_literal "rate" s rest e in
                rw e' (maybe_one_then_limit-Begins r rest spells (rw e at rated))
          ]
          | inr numbered ↦
              let (m, v, spells, e) = stands-after_literal "429" s numbered in
              (m, v, Hint.number m spells, e)
        ]

  limit-maybe :
      (s : String)
      → stands (after_literal alike "limit" s) ≡ true
      → maybe_one_then_limit alike s ≡ true
  unfolding maybe_one_then_limit after_literal
  limit-maybe String.[] h = absurd (cc h)
  limit-maybe (String.◌∷◌ c s) h = rw h (or-true _)

  apart-maybe :
      (c : Char) (s : String)
      → code c ≢ 10
      → stands (after_literal alike "limit" s) ≡ true
      → maybe_one_then_limit alike (String.◌∷◌ c s) ≡ true
  unfolding maybe_one_then_limit
  apart-maybe c s line h =
      let line' : (code c == 10) ≡ false = ground (arith, line) in rw (line', h) refl

  Hint-hint_here : (m v : String) → Hint m → hint_here alike (m ++ v) ≡ true
  unfolding hint_here
  Hint-hint_here _ v (Hint.joined r l rate limit) =
      let limit' = ap stands (after_literal-Spells "limit" l v limit) in
      rw
        (
          append_assoc r l v,
          after_literal-Spells "rate" r (l ++ v) rate,
          limit-maybe (l ++ v) limit',
        )
        refl
  Hint-hint_here _ v (Hint.apart r l c rate line limit) =
      let limit' = ap stands (after_literal-Spells "limit" l v limit) in
      rw (append_assoc r (String.◌∷◌ c l) v, cons-append c l v)
        (rw (after_literal-Spells "rate" r (String.◌∷◌ c (l ++ v)) rate)
          (rw (apart-maybe c (l ++ v) line limit') refl))
  Hint-hint_here m v (Hint.number _ spells) = rw (after_literal-Spells "429" m v spells) (or-true _)

  hint_here-found : (s : String) → hint_here alike s ≡ true → is_rate_limit_error alike s ≡ true
  unfolding is_rate_limit_error
  hint_here-found String.[] h = h
  hint_here-found (String.◌∷◌ c s) h = rw h refl

  -- The pattern describes a part of the text.
  abbrev pub Mentions : String → Type 0
  Mentions s = (u m v : String) × Hint m × (s ≡ u ++ (m ++ v))

  found-Mentions : (s : String) → is_rate_limit_error alike s ≡ true → Mentions s
  unfolding is_rate_limit_error
  found-Mentions String.[] h =
      let (m, v, hint, e) = hint_here-Begins String.[] h in
      (String.[], m, v, hint, e ∙ sym (nil-append (m ++ v)))
  found-Mentions (String.◌∷◌ c s) h =
      elim (or-cases (hint_here alike (String.◌∷◌ c s)) (is_rate_limit_error alike s) h) [
        | inl here ↦
            let (m, v, hint, e) = hint_here-Begins (String.◌∷◌ c s) here in
            (String.[], m, v, hint, e ∙ sym (nil-append (m ++ v)))
        | inr later ↦
            let (u, m, v, hint, e) = found-Mentions s later in
            (String.◌∷◌ c u, m, v, hint, ap (String.◌∷◌ c) e ∙ sym (cons-append c u (m ++ v)))
      ]

  Mentions-found :
      (u s : String) → hint_here alike s ≡ true → is_rate_limit_error alike (u ++ s) ≡ true
  unfolding is_rate_limit_error
  Mentions-found String.[] s h = rw nil-append (hint_here-found s h)
  Mentions-found (String.◌∷◌ c u) s h = rw cons-append (rw (Mentions-found u s h) (or-true _))

  -- An error is taken for a rate limit exactly if somewhere in its text stand, one character for one and
  -- whatever characters count as alike, either "429", or "rate" and "limit" with nothing or one
  -- character that is no line break between them.
  pub is_rate_limit_error_iff : (s : String) → (is_rate_limit_error alike s ≡ true) ↔ Mentions s
  is_rate_limit_error_iff s = (
    found-Mentions s,
    λ (u, m, v, hint, e). rw e (Mentions-found u (m ++ v) (Hint-hint_here m v hint)),
  )
