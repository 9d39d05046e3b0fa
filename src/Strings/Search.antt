-- ===== src/Strings/Search.antt =====
-- What a search finds: the first place where the part stands in the text.
use Prim.Native.Char.{Char}
use Prim.Native.String.{String, ◌∷◌, ◌++◌, count}
use text.Mathlib.TextEquality.{Char-path}
use text.Mathlib.TextLemmas.{nil-append, length-nil, length-cons, cons-append}
use post_call_processing_pip.Prelude.{
  ℕ, suc, ◌≤◌, ◌≡◌, refl, ap, ◌∙◌, sym, ◌≢◌, ◌↔◌, true, Option, none, some, arith, Bool-cases,
  Option-cases, inl, inr,
}
use post_call_processing_pip.Strings.{begins_with, index_of, next, contains, prefix}

-- The part `p` stands in `s` after the characters `u`.
abbrev pub StandsAfter : String → String → String → Type 0
StandsAfter u p s = (v : String) × (s ≡ u ++ (p ++ v))

begins_with-StandsAfter : (p s : String) → begins_with p s ≡ true → StandsAfter String.[] p s
unfolding begins_with
begins_with-StandsAfter String.[] s h = (s, sym (nil-append _ ∙ nil-append s))
begins_with-StandsAfter (String.◌∷◌ c p) String.[] h = cc
begins_with-StandsAfter (String.◌∷◌ c p) (String.◌∷◌ d s) h =
    let (v, e) = begins_with-StandsAfter p s (ground arith) in
    let e' : s ≡ p ++ v = e ∙ nil-append (p ++ v) in
    (
      v,
      ap (◌∷◌ d) e'
          ∙ ap (λ x. x ∷ (p ++ v)) (Char-path d c (ground arith))
          ∙ sym (cons-append c p v)
          ∙ sym (nil-append ((c ∷ p) ++ v)),
    )

pub begins_with-append : (p v : String) → begins_with p (p ++ v) ≡ true
unfolding begins_with
begins_with-append String.[] v = refl
begins_with-append (String.◌∷◌ c p) v = rw cons-append (ground (arith, begins_with-append p v))

some_inj : {i j : ℕ} → some i ≡ some j → i ≡ j
some_inj h = cc

index_of_begins : (p s : String) → begins_with p s ≡ true → index_of p s ≡ some 0
unfolding index_of
index_of_begins p String.[] h = rw h
index_of_begins p (String.◌∷◌ c s) h = rw h

next-none : (o : Option ℕ) → next o ≡ none → o ≡ none
next-none o h = ground arith

-- A part that stands somewhere is found.
pub index_of-append : (p u v : String) → index_of p (u ++ (p ++ v)) ≢ none
unfolding index_of
index_of-append p String.[] v h =
    let e = index_of_begins p (p ++ v) (begins_with-append p v) in cc (rw nil-append at h, e)
index_of-append p (String.◌∷◌ c u) v h = elim (Bool-cases (begins_with p (c ∷ (u ++ (p ++ v))))) [
  | inl here ↦ cc (index_of_begins p _ here, rw cons-append at h)
  | inr later ↦ index_of-append p u v (next-none _ (rw later at (rw cons-append at h)))
]

abbrev pub Found : String → String → ℕ → Type 0
Found p s i = (u : String) × StandsAfter u p s × (count u ≡ i)

Found-zero : (p s : String) → begins_with p s ≡ true → Found p s 0
Found-zero p s h = (String.[], begins_with-StandsAfter p s h, length-nil)

Found-suc : (p s : String) (c : Char) (i : ℕ) → Found p s i → Found p (c ∷ s) (suc i)
Found-suc p s c i (u, (v, e), n) =
    (c ∷ u, (v, ap (◌∷◌ c) e ∙ sym (cons-append c u (p ++ v))), length-cons c u ∙ ap suc n)

-- The position that a search returns is the length of what stands before the part.
pub index_of-some : (p s : String) (i : ℕ) → index_of p s ≡ some i → Found p s i
unfolding index_of
index_of-some p String.[] i h = elim (Bool-cases (begins_with p String.[])) [
  | inl here ↦ rw (some_inj (sym (rw here at h))) (Found-zero p String.[] here)
  | inr no_more ↦ cc (rw no_more at h)
]
index_of-some p (String.◌∷◌ c s) i h = elim (Bool-cases (begins_with p (c ∷ s))) [
  | inl here ↦ rw (some_inj (sym (rw here at h))) (Found-zero p (c ∷ s) here)
  | inr later ↦ elim (Option-cases (index_of p s)) [
    | inl none_left ↦ cc (rw none_left at (rw later at h))
    | inr (j, e) ↦
        rw (some_inj (sym (rw e at (rw later at h)))) (Found-suc p s c j (index_of-some p s j e))
  ]
]

-- A text contains a part exactly if the part stands somewhere in it.
pub contains_iff : (p s : String) → (contains p s ≡ true) ↔ ((u : String) × StandsAfter u p s)
unfolding contains
contains_iff p s = elim (Option-cases (index_of p s)) [
  | inl missing ↦ (
    (λ h. cc (rw missing at h)),
    λ (u, (v, e)). absurd (index_of-append p u v (rw (← e) missing)),
  )
  | inr (i, e) ↦ ((λ h. let (u, stands, n) = index_of-some p s i e in (u, stands)), λ h. rw e)
]

-- No occurrence begins before the position that a search returns.
pub index_of-least : (p u v : String) (i : ℕ) → index_of p (u ++ (p ++ v)) ≡ some i → i ≤ count u
unfolding index_of
index_of-least p String.[] v i h =
    let e = index_of_begins p (p ++ v) (begins_with-append p v) in
    let e' : i ≡ 0 = some_inj (sym (rw nil-append at h) ∙ e) in omega arith
index_of-least p (String.◌∷◌ c u) v i h = elim (Bool-cases (begins_with p (c ∷ (u ++ (p ++ v))))) [
  | inl here ↦
      let e : i ≡ 0 = some_inj (sym (rw cons-append at h) ∙ index_of_begins p _ here) in omega arith
  | inr later ↦ elim (Option-cases (index_of p (u ++ (p ++ v)))) [
    | inl none_left ↦ absurd (index_of-append p u v none_left)
    | inr (j, e) ↦
        let e' : suc j ≡ i = some_inj (rw e at (rw later at (rw cons-append at h))) in
        omega (arith, index_of-least p u v j e, length-cons c u)
  ]
]

-- `prefix` cuts a text off after the characters that it counts.
pub prefix-append : (u v : String) → prefix (count u) (u ++ v) ≡ u
unfolding prefix
prefix-append String.[] v = refl
prefix-append (String.◌∷◌ c u) v = rw (length-cons, cons-append) (ap (◌∷◌ c) (prefix-append u v))
