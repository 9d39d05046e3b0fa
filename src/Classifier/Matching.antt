-- ===== src/Classifier/Matching.antt =====
-- src/classifier/pre_classifier.py, `_matches_with_negation_check`: which keywords a line matches.
use Prim.Native.String.{count}
use post_call_processing_pip.Prelude.{
  ◌&&◌, ℕ, String, ◌≡◌, refl, sym, ap, ◌∙◌, ◌↔◌, inl, inr, ◌≤◌, ◌-◌, Bool, true, false, not, List,
  [], ◌∷◌, ◌++◌, none, some, arith, All, Any, any, Bool-cases, Option-cases,
}
use post_call_processing_pip.Strings.{index_of, contains, window, skip}
use post_call_processing_pip.Strings.Search.{
  StandsAfter, contains_iff, index_of-some, index_of-append, index_of-least, prefix-append,
}
use post_call_processing_pip.Classifier.{
  negation_prefixes, negated, keyword_counts, matches_with_negation_check, matched, is_empty,
}

-- The part stands in the text after `u`, and nowhere earlier.
abbrev pub FirstAfter : String → String → String → Type 0
FirstAfter u p s = StandsAfter u p s × ((u' : String) → StandsAfter u' p s → count u ≤ count u')

-- None of the negations stands in the last 30 characters of `u`.
abbrev pub Unnegated : String → Type 0
Unnegated u =
    All (λ neg. (w : String) → ¬ StandsAfter w neg (skip (count u - 30) u)) negation_prefixes

-- The keyword stands in the line, and its first occurrence has no negation shortly before it.
abbrev pub Says : String → String → Type 0
Says line kw = (u : String) × FirstAfter u kw line × Unnegated u

negated_iff :
    (before : String) (negs : List String)
    → (any (λ neg. contains neg before) negs ≡ false)
      ↔ All (λ neg. (w : String) → ¬ StandsAfter w neg before) negs
negated_iff before [] = ((λ h. tt), λ h. refl)
negated_iff before (neg ∷ negs) = elim (Bool-cases (contains neg before)) [
  | inl here ↦ (
    (λ h. cc (rw here at h)),
    λ h. let (u, stands) = (contains_iff neg before).0 here in absurd (h.0 u stands),
  )
  | inr absent ↦ (
    (λ h. (
      (λ w stands. cc ((contains_iff neg before).1 (w, stands), absent)),
      (negated_iff before negs).0 (rw absent at h),
    )),
    λ h. rw absent ((negated_iff before negs).1 h.1),
  )
]

-- Where the first occurrence stands, the window is the end of what stands before it.
window_at :
    (u kw line : String) → StandsAfter u kw line → window (count u) line ≡ skip (count u - 30) u
unfolding window
window_at u kw line (v, e) = rw e (rw prefix-append)

-- A search returns the length of the text before the first occurrence.
index_of-FirstAfter :
    (u kw line : String) → FirstAfter u kw line → index_of kw line ≡ some (count u)
index_of-FirstAfter u kw line ((v, e), least) = elim (Option-cases (index_of kw line)) [
  | inl missing ↦ absurd (index_of-append kw u v (rw (← e) missing))
  | inr (i, found) ↦
      let (u', stands, n) = index_of-some kw line i found in
      let i_le : i ≤ count u = index_of-least kw u v i (rw (← e) found) in
      found ∙ ap some (omega (arith, least u' stands))
]

FirstAfter-of_found :
    (kw line : String) (i : ℕ)
    → index_of kw line ≡ some i
    → (u : String) × FirstAfter u kw line × (count u ≡ i)
FirstAfter-of_found kw line i found =
    let (u, stands, n) = index_of-some kw line i found in
    (u, (stands, λ u' (v, e). omega (arith, n, index_of-least kw u' v i (rw (← e) found))), n)

keyword_counts_at :
    (line kw : String) (i : ℕ)
    → index_of kw line ≡ some i
    → keyword_counts line kw ≡ not (negated (window i line))
unfolding keyword_counts
keyword_counts_at line kw i found = rw (keyword_counts, found)

negated-Unnegated : (u : String) → (negated (skip (count u - 30) u) ≡ false) ↔ Unnegated u
unfolding negated
negated-Unnegated u = negated_iff (skip (count u - 30) u) negation_prefixes

not-true : (b : Bool) → not b ≡ true → b ≡ false
not-true b h = ground arith

not-false : (b : Bool) → b ≡ false → not b ≡ true
not-false b h = ground arith

-- The test, at the place that `u` ends at.
keyword_counts-FirstAfter :
    (u kw line : String)
    → FirstAfter u kw line
    → keyword_counts line kw ≡ not (negated (skip (count u - 30) u))
keyword_counts-FirstAfter u kw line first =
    keyword_counts_at line kw (count u) (index_of-FirstAfter u kw line first)
    ∙ ap (λ w. not (negated w)) (window_at u kw line first.0)

keyword_counts_missing :
    (line kw : String) → index_of kw line ≡ none → keyword_counts line kw ≡ false
unfolding keyword_counts
keyword_counts_missing line kw missing = rw (keyword_counts, missing)

-- A keyword is matched in a line exactly if it stands there and its first occurrence has no negation
-- in the 30 characters before it.
pub keyword_counts_iff : (line kw : String) → (keyword_counts line kw ≡ true) ↔ Says line kw
keyword_counts_iff line kw = (
  (λ h. elim (Option-cases (index_of kw line)) [
    | inl missing ↦ cc (keyword_counts_missing line kw missing, h)
    | inr (i, found) ↦
        let (u, first, n) = FirstAfter-of_found kw line i found in
        let clean = not-true _ (sym (keyword_counts-FirstAfter u kw line first) ∙ h) in
        (u, first, (negated-Unnegated u).0 clean)
  ]),
  λ (u, first, clean).
      keyword_counts-FirstAfter u kw line first ∙ not-false _ ((negated-Unnegated u).1 clean),
)

pub matches-ne-nil_iff :
    (line : String) (kws : List String)
    → (is_empty (matches_with_negation_check line kws) ≡ false) ↔ Any (Says line) kws
unfolding matches_with_negation_check
matches-ne-nil_iff line [] = ((λ h. cc), λ h. elim h [ ])
matches-ne-nil_iff line (kw ∷ kws) = elim (Bool-cases (keyword_counts line kw)) [
  | inl counts ↦ ((λ h. inl ((keyword_counts_iff line kw).0 counts)), λ h. rw counts)
  | inr not_here ↦ (
    (λ h. inr ((matches-ne-nil_iff line kws).0 (rw not_here at h))),
    λ h. elim h [
      | inl says ↦ cc ((keyword_counts_iff line kw).1 says, not_here)
      | inr more ↦ rw not_here ((matches-ne-nil_iff line kws).1 more)
    ],
  )
]

is_empty-append : (xs ys : List String) → is_empty (xs ++ ys) ≡ (is_empty xs && is_empty ys)
is_empty-append [] ys = refl
is_empty-append (x ∷ xs) ys = refl

-- The loop over the lines finds something exactly if some line says some keyword.
pub matched-ne-nil_iff :
    (kws ls : List String)
    → (is_empty (matched kws ls) ≡ false) ↔ Any (λ line. Any (Says line) kws) ls
unfolding matched
matched-ne-nil_iff kws [] = ((λ h. cc), λ h. elim h [ ])
matched-ne-nil_iff kws (line ∷ ls) =
    let here = matches-ne-nil_iff line kws in
    let there = matched-ne-nil_iff kws ls in
    let e = is_empty-append (matches_with_negation_check line kws) (matched kws ls) in
    elim (Bool-cases (is_empty (matches_with_negation_check line kws))) [
      | inl quiet ↦ (
        (λ h. inr (there.0 (ground (arith, e)))),
        λ h. elim h [
          | inl says ↦ cc (here.1 says, quiet)
          | inr more ↦ let m = there.1 more in ground (arith, e)
        ],
      )
      | inr says ↦ ((λ h. inl (here.0 says)), λ h. ground (arith, e))
    ]
