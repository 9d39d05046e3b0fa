-- ===== src/Endpoint/Agreement.antt =====
-- src/models/interaction.py beside src/api/endpoints.py and src/classifier/pre_classifier.py: two readings of
-- one transcript.
use post_call_processing_pip.Prelude.{
  ℕ, String, ◌≡◌, ◌≢◌, ◌↔◌, refl, ◌∙◌, ap, sym, Bool, true, false, List, ◌∷◌, some, Bool-cases,
  Option-cases, inl, inr, if◌then◌else◌, ltb, suc, arith,
}
use post_call_processing_pip.Json.{
  Json, Items, arr, obj, str, null, bool, num, instant, nil, cons, get, items_length, get_or_found,
}
use post_call_processing_pip.Models.{Interaction}
use post_call_processing_pip.Models.Transcript.{
  transcript_text, text_of_transcript, turn_lines, turn_line, is_short_transcript,
  transcript_length, transcript,
}
use post_call_processing_pip.Db.{Result, ok, err, attribute_error, ◌>>=◌}
use post_call_processing_pip.Db.Rows.{ok_injective}
use post_call_processing_pip.Strings.{join}
use post_call_processing_pip.Classifier.{
  Reason, classify_transcript, classify_turns, extract_transcript, turns, decide_lane, find_phrase,
  all_lines, hard_skip_phrases,
}
use post_call_processing_pip.Endpoint.Loading.{turn_texts, transcript_lines}

abbrev pub all_dicts : Items → Bool
all_dicts nil = true
all_dicts (cons (obj d) ts) = all_dicts ts
all_dicts (cons _ ts) = false

-- What the property makes of a list, with the endpoint's lines.
abbrev lines_or_error : (Json → String) → Items → Result (List String)
unfolding turn_texts
lines_or_error text ts = if all_dicts ts then ok (turn_texts text ts) else err attribute_error

add_line :
    (line : String) (b : Bool) (lines : List String)
    → ((if b then ok lines else err attribute_error) >>= (λ rest. ok (line ∷ rest)))
      ≡ (if b then ok (line ∷ lines) else err attribute_error)
add_line line true lines = refl
add_line line false lines = refl

turn_lines-turn_texts :
    (text : Json → String) (ts : Items) → turn_lines text ts ≡ lines_or_error text ts
unfolding turn_lines turn_texts lines_or_error join
turn_lines-turn_texts text nil = refl
turn_lines-turn_texts text (cons (obj d) ts) =
    rw (turn_lines-turn_texts text ts)
      (add_line (turn_line text d) (all_dicts ts) (turn_texts text ts))
turn_lines-turn_texts text (cons null ts) = refl
turn_lines-turn_texts text (cons (bool b) ts) = refl
turn_lines-turn_texts text (cons (num z) ts) = refl
turn_lines-turn_texts text (cons (str s) ts) = refl
turn_lines-turn_texts text (cons (instant t) ts) = refl
turn_lines-turn_texts text (cons (arr xs) ts) = refl

items_length-turns : (ts : Items) → items_length ts ≡ turns ts
items_length-turns nil = refl
items_length-turns (cons t ts) = ap suc (items_length-turns ts)

decide_lane-not-short :
    (n k : ℕ) (commitments escalations : List String)
    → (decide_lane n commitments escalations).reason ≢ Reason.short_transcript k
unfolding decide_lane
decide_lane-not-short n k commitments escalations e = ground arith

classify_turns-reason :
    (lower : String → String) (kws : List String) (ts : Items) (k : ℕ)
    → ltb (turns ts) 4 ≡ false
    → (classify_turns lower kws ts).reason ≢ Reason.short_transcript k
unfolding classify_turns
classify_turns-reason lower kws ts k long e =
    elim (Option-cases (find_phrase (all_lines lower ts) hard_skip_phrases)) [
      | inl quiet ↦ decide_lane-not-short (turns ts) k _ _ (rw (classify_turns, long, quiet) at e)
      | inr (phrase, said) ↦ cc (rw (classify_turns, long, said) at e)
    ]

text_of_list :
    (text : Json → String) (ts : Items)
    → text_of_transcript text (arr ts)
      ≡ (if all_dicts ts then ok (join "\n" (turn_texts text ts)) else err attribute_error)
unfolding text_of_transcript lines_or_error turn_texts join
text_of_list text ts =
    rw (turn_lines-turn_texts text ts)
      (elim (Bool-cases (all_dicts ts)) [ inl dicts ↦ rw dicts | inr other ↦ rw other ])

classify_turns-short :
    (lower : String → String) (kws : List String) (ts : Items)
    → ltb (turns ts) 4 ≡ true
    → (classify_turns lower kws ts).reason ≡ Reason.short_transcript (turns ts)
unfolding classify_turns
classify_turns-short lower kws ts short = rw (classify_turns, short)

module _ (i : Interaction) (ts : Items)
    (h : get "transcript" i.conversation_data ≡ some (arr ts)) where
  transcript_eq : transcript i ≡ arr ts
  transcript_eq = get_or_found (arr nil) "transcript" i.conversation_data (arr ts) h

  extract_transcript_eq : extract_transcript i.conversation_data ≡ ts
  unfolding extract_transcript
  extract_transcript_eq = rw (h, extract_transcript)

  classify_eq :
      (lower : String → String) (kws : List String)
      → classify_transcript lower kws i.conversation_data ≡ classify_turns lower kws ts
  unfolding classify_transcript
  classify_eq lower kws = ap (classify_turns lower kws) extract_transcript_eq

  is_short_eq :
      (text : Json → String) (text_length : String → ℕ)
      → is_short_transcript text text_length i ≡ ok (ltb (turns ts) 4)
  unfolding is_short_transcript transcript_length
  is_short_eq text text_length = rw transcript_eq (rw (items_length-turns ts))

  short_iff :
      (lower : String → String) (text : Json → String) (text_length : String → ℕ)
      (kws : List String)
      → (is_short_transcript text text_length i ≡ ok true) ↔ (
          (n : ℕ) × ((classify_transcript lower kws i.conversation_data).reason
            ≡ Reason.short_transcript n))
  short_iff lower text text_length kws = elim (Bool-cases (ltb (turns ts) 4)) [
    | inl short ↦ (
      λ e. (turns ts, rw (classify_eq lower kws) (classify_turns-short lower kws ts short)),
      λ x. is_short_eq text text_length ∙ ap ok short,
    )
    | inr long ↦ (
      λ e. absurd (
          cc (ok_injective false true (ap ok (sym long) ∙ sym (is_short_eq text text_length) ∙ e))),
      λ (n, e).
          absurd (classify_turns-reason lower kws ts n long (rw (classify_eq lower kws) at e)),
    )
  ]

-- Of a transcript that is a list, an interaction's derived properties and the end-of-call request agree:
-- the transcript is short by the property exactly if the classifier's reason is that it is short; the
-- request always gets lines of it, and these joined are the property's text if every turn is a dict, and
-- otherwise the property raises an AttributeError where the request passes the turn over.
pub derived_agree :
    (lower : String → String) (text : Json → String) (text_length : String → ℕ) (kws : List String)
    (i : Interaction) (ts : Items)
    → get "transcript" i.conversation_data ≡ some (arr ts)
    → ((is_short_transcript text text_length i ≡ ok true) ↔ (
        (n : ℕ) × ((classify_transcript lower kws i.conversation_data).reason
          ≡ Reason.short_transcript n)))
      × ((lines : List String) × (transcript_lines text (transcript i) ≡ ok lines)
          × (transcript_text text i
              ≡ (if all_dicts ts then ok (join "\n" lines) else err attribute_error)))
unfolding transcript_lines
derived_agree lower text text_length kws i ts h = (
  short_iff i ts h lower text text_length kws,
  rw (transcript_eq i ts h) (turn_texts text ts, refl, text_of_list text ts),
)
