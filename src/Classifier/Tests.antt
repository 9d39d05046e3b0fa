-- ===== src/Classifier/Tests.antt =====
-- The classifier at concrete transcripts, with lines that are lowered already.
use post_call_processing_pip.Prelude.{
  inl, inr, String, ◌≡◌, refl, ◌↔◌, ◌⊎◌, ◌≤◌, ◌<◌, [], ◌∷◌, ◌++◌, true, false,
}
use post_call_processing_pip.Json.{Json, Items, nil, cons, str, obj, dict}
use post_call_processing_pip.Strings.{contains}
use post_call_processing_pip.Classifier.{
  Lane, commitment_keywords, escalation_keywords, turns, customer_lines, all_lines, classify_turns,
  keyword_counts, matches_with_negation_check,
}
use post_call_processing_pip.Strings.Search.{contains_iff}
use post_call_processing_pip.Classifier.Matching.{Says, keyword_counts_iff}
use post_call_processing_pip.Classifier.Lanes.{SomeSays, HardSkip, classify_turns-lane}

abbrev lower : String → String
lower s = s

abbrev turn : String → String → Json
turn role content = obj (dict (("role", str role) ∷ ("content", str content) ∷ []))

abbrev pitch : String → Items
pitch offer = cons (turn "agent" offer) (
    cons (turn "customer" "i was looking at it") (
      cons (turn "agent" "a demo?") (
        cons (turn "customer" "ok")
          (cons (turn "agent" "thursday?") (cons (turn "customer" "thursday works") nil)))))

-- The lane of a call whose customer agrees in the last line.
agreed : (classify_turns lower [] (pitch "hello")).lane ≡ Lane.hot
unfolding classify_turns
agreed = refl

-- Only the first occurrence counts: a negated one hides a later plain one.
first_occurrence_only :
    matches_with_negation_check "i already confirmed. but now it is really confirmed"
      ("confirmed" ∷ [])
    ≡ []
unfolding matches_with_negation_check
first_occurrence_only = refl

keyword_counts_iff_example :
    (keyword_counts "yes, confirmed" "confirmed" ≡ true) ↔ Says "yes, confirmed" "confirmed"
keyword_counts_iff_example = keyword_counts_iff "yes, confirmed" "confirmed"

classify_turns-lane_example :
    (((classify_turns lower [] (pitch "hello")).lane ≡ Lane.skip)
      ↔ ((turns (pitch "hello") < 4) ⊎ HardSkip lower (pitch "hello")))
    × (((classify_turns lower [] (pitch "hello")).lane ≡ Lane.hot) ↔ (
        (4 ≤ turns (pitch "hello"))
        × (¬ HardSkip lower (pitch "hello"))
        × (SomeSays escalation_keywords (customer_lines lower (pitch "hello"))
            ⊎ ((6 ≤ turns (pitch "hello"))
                × SomeSays (commitment_keywords ++ []) (customer_lines lower (pitch "hello"))))))
classify_turns-lane_example = classify_turns-lane lower [] (pitch "hello")

not_skipped :
    (ts : Items) → contains "wrong number" (all_lines lower ts) ≡ false → ¬ HardSkip lower ts
not_skipped ts silent h = elim h [
  | inl stands ↦ cc ((contains_iff "wrong number" (all_lines lower ts)).1 stands, silent)
  | inr other ↦ absurd other
]

hello_quiet : contains "wrong number" (all_lines lower (pitch "hello")) ≡ false
unfolding contains all_lines
hello_quiet = refl

confirmed_quiet : contains "wrong number" (all_lines lower (pitch "confirmed?")) ≡ false
unfolding contains all_lines
confirmed_quiet = refl
