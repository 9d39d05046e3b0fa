-- ===== src/Classifier.antt =====
-- src/classifier/pre_classifier.py: the lane of a call, from its transcript. Python's `str.lower` is an
-- argument, and the text of a reason is a constructor with what the text shows.
pub mod Matching
pub mod Lanes
mod Tests
use post_call_processing_pip.Prelude.{
  ℕ, suc, String, Bool, true, false, not, ◌&&◌, List, [], ◌∷◌, ◌++◌, Option, none, some, any, ltb,
  leb, str_eq, if◌then◌else◌,
}
use post_call_processing_pip.Json.{
  Json, Items, Fields, null, bool, num, str, instant, arr, obj, nil, cons, get,
}
use post_call_processing_pip.Strings.{index_of, contains, window, join}

pub data Lane : Type 0 where
  hot cold skip : Lane

pub data Reason : Type 0 where
  short_transcript : ℕ → Reason
  hard_skip_phrase : String → Reason
  customer_escalation customer_commitment default_cold : Reason

pub record Classification : Type 0 where
  pub lane : Lane
  pub reason : Reason
  pub matched_keywords : List String
  pub turn_count : ℕ

abbrev pub commitment_keywords : List String
commitment_keywords =
    "confirmed" ∷ "confirm" ∷ "book the slot" ∷ "rebook" ∷ "tomorrow works" ∷ "thursday works"
    ∷ "friday works" ∷ "monday works" ∷ "tuesday works" ∷ "wednesday works" ∷ "saturday works"
    ∷ "sunday works" ∷ "works for me" ∷ "let me block my calendar" ∷ "block my calendar"
    ∷ "send me the" ∷ "send the invite" ∷ "send a calendar invite" ∷ "calendar invite"
    ∷ "schedule the demo" ∷ "yes, i want" ∷ "yes i want" ∷ "go ahead" ∷ "let's do" ∷ "lets do"
    ∷ "sounds good" ∷ "looking forward" ∷ []

abbrev pub escalation_keywords : List String
escalation_keywords =
    "manager" ∷ "supervisor" ∷ "senior" ∷ "escalate" ∷ "escalation" ∷ "file a complaint"
    ∷ "complaint" ∷ "unacceptable" ∷ "lawyer" ∷ "legal action" ∷ []

abbrev pub negation_prefixes : List String
negation_prefixes =
    "already" ∷ "not interested" ∷ "don't call" ∷ "do not call" ∷ "won't" ∷ "cannot" ∷ "can't"
    ∷ "stop calling" ∷ []

abbrev pub hard_skip_phrases : List String
hard_skip_phrases = "wrong number" ∷ []

abbrev pub min_hot_turns : ℕ
min_hot_turns = 6

abbrev pub min_useful_turns : ℕ
min_useful_turns = 4

-- An absent value and an empty dict both give no turns, as does a transcript that is no list.
unfoldable pub extract_transcript : Fields → Items
unfolding get
extract_transcript d = elim (get "transcript" d) [ some (arr turns) ↦ turns | _ ↦ nil ]

abbrev pub turns : Items → ℕ
turns nil = 0
turns (cons t ts) = suc (turns ts)

-- The text of a turn, lowered; a turn that is no dict, or has no text, says nothing.
abbrev pub line_of : (String → String) → Option Json → List String
line_of lower (some (str s)) = lower s ∷ []
line_of lower _ = []

abbrev pub is_customer : Option Json → Bool
is_customer (some (str s)) = str_eq s "customer"
is_customer _ = false

abbrev pub spoken : (String → String) → Json → List String
unfolding get
spoken lower (obj turn) = line_of lower (get "content" turn)
spoken lower _ = []

abbrev pub by_customer : Json → Bool
unfolding get
by_customer (obj turn) = is_customer (get "role" turn)
by_customer _ = false

-- _customer_lines
unfoldable pub customer_lines : (String → String) → Items → List String
unfolding get
customer_lines lower nil = []
customer_lines lower (cons t ts) =
    let rest = customer_lines lower ts in if by_customer t then spoken lower t ++ rest else rest

abbrev pub lines : (String → String) → Items → List String
unfolding get
lines lower nil = []
lines lower (cons t ts) = spoken lower t ++ lines lower ts

-- _all_lines
unfoldable pub all_lines : (String → String) → Items → String
unfolding get join
all_lines lower ts = join " \n" (lines lower ts)

-- any(neg in window for neg in NEGATION_PREFIXES)
unfoldable pub negated : String → Bool
unfolding contains
negated before = any (λ neg. contains neg before) negation_prefixes

-- The test of the loop body: the keyword's first place in the line has no negation in front of it.
unfoldable pub keyword_counts : String → String → Bool
unfolding index_of negated window
keyword_counts line kw = elim (index_of kw line) [
  | none ↦ false
  | some i ↦ not (negated (window i line))
]

-- _matches_with_negation_check
unfoldable pub matches_with_negation_check : String → List String → List String
unfolding keyword_counts
matches_with_negation_check line [] = []
matches_with_negation_check line (kw ∷ kws) =
    let found = matches_with_negation_check line kws in
    if keyword_counts line kw then kw ∷ found else found

-- The loop over the customer's lines, for one of the two lists that it fills.
unfoldable pub matched : List String → List String → List String
unfolding matches_with_negation_check
matched kws [] = []
matched kws (line ∷ rest) = matches_with_negation_check line kws ++ matched kws rest

unfoldable pub find_phrase : String → List String → Option String
unfolding contains
find_phrase flat [] = none
find_phrase flat (phrase ∷ phrases) =
    let later = find_phrase flat phrases in if contains phrase flat then some phrase else later

abbrev pub is_empty : List String → Bool
is_empty [] = true
is_empty (x ∷ xs) = false

abbrev pub classification : Lane → Reason → List String → ℕ → Classification
classification lane reason keywords n = record {
  lane = lane;
  reason = reason;
  matched_keywords = keywords;
  turn_count = n;
}

-- The function from the test on the escalations on.
unfoldable pub decide_lane : ℕ → List String → List String → Classification
decide_lane n commitments escalations =
    if not (is_empty escalations) && leb min_useful_turns n
    then classification Lane.hot Reason.customer_escalation escalations n
    else if not (is_empty commitments) && leb min_hot_turns n
    then classification Lane.hot Reason.customer_commitment commitments n
    else classification Lane.cold Reason.default_cold (commitments ++ escalations) n

unfoldable pub classify_turns : (String → String) → List String → Items → Classification
unfolding find_phrase all_lines matched customer_lines decide_lane
classify_turns lower customer_keywords ts =
    if ltb (turns ts) min_useful_turns
    then classification Lane.skip (Reason.short_transcript (turns ts)) [] (turns ts)
    else elim (find_phrase (all_lines lower ts) hard_skip_phrases) [
      | some phrase ↦
          classification Lane.skip (Reason.hard_skip_phrase phrase) (phrase ∷ []) (turns ts)
      | none ↦
          decide_lane (turns ts)
            (matched (commitment_keywords ++ customer_keywords) (customer_lines lower ts))
            (matched escalation_keywords (customer_lines lower ts))
    ]

unfoldable pub classify_transcript : (String → String) → List String → Fields → Classification
unfolding extract_transcript classify_turns
classify_transcript lower customer_keywords conversation_data =
    classify_turns lower customer_keywords (extract_transcript conversation_data)
