-- ===== src/Classifier/Lanes.antt =====
-- src/classifier/pre_classifier.py, `classify_transcript`: what decides the lane of a call.
use post_call_processing_pip.Prelude.{
  ℕ, String, ◌≡◌, refl, ◌≢◌, ◌↔◌, ◌⊎◌, inl, inr, ◌≤◌, ◌<◌, false, List, [], ◌∷◌, ◌++◌, none, some,
  arith, Any, Bool-cases, ltb, ap,
}
use post_call_processing_pip.Json.{Json, Items, nil, cons}
use post_call_processing_pip.Strings.{contains}
use post_call_processing_pip.Strings.Search.{StandsAfter, contains_iff}
use post_call_processing_pip.Classifier.{
  Lane, commitment_keywords, escalation_keywords, hard_skip_phrases, turns, customer_lines,
  all_lines, by_customer, matched, find_phrase, is_empty, decide_lane, classify_turns, suc,
}
use post_call_processing_pip.Classifier.Matching.{Says, matched-ne-nil_iff}

-- One of the phrases stands in the text.
abbrev pub Mentions : String → List String → Type 0
Mentions flat = Any (λ phrase. (u : String) × StandsAfter u phrase flat)

-- One of the lines says one of the keywords, with no negation shortly before it.
abbrev pub SomeSays : List String → List String → Type 0
SomeSays kws = Any (λ line. Any (Says line) kws)

find_phrase_cases :
    (flat : String) (phrases : List String)
    → ((find_phrase flat phrases ≡ none) × ¬ Mentions flat phrases)
      ⊎ ((p : String) × (find_phrase flat phrases ≡ some p) × Mentions flat phrases)
unfolding find_phrase
find_phrase_cases flat [] = inl (refl, λ h. elim h [ ])
find_phrase_cases flat (p ∷ ps) = elim (Bool-cases (contains p flat)) [
  | inl here ↦ inr (p, rw here, inl ((contains_iff p flat).0 here))
  | inr absent ↦ elim (find_phrase_cases flat ps) [
    | inl (missing, silent) ↦ inl (
      rw absent missing,
      λ h. elim h [
        | inl stands ↦ cc ((contains_iff p flat).1 stands, absent)
        | inr later ↦ silent later
      ],
    )
    | inr (q, found, later) ↦ inr (q, rw absent found, inr later)
  ]
]

decide_lane-ne-skip :
    (n : ℕ) (commitments escalations : List String)
    → (decide_lane n commitments escalations).lane ≢ Lane.skip
unfolding decide_lane
decide_lane-ne-skip n commitments escalations h = ground arith

decide_lane-hot_iff :
    (n : ℕ) (commitments escalations : List String)
    → 4 ≤ n
    → ((decide_lane n commitments escalations).lane ≡ Lane.hot)
      ↔ ((is_empty escalations ≡ false) ⊎ ((6 ≤ n) × (is_empty commitments ≡ false)))
unfolding decide_lane
decide_lane-hot_iff n commitments escalations h = elim (Bool-cases (is_empty escalations)) [
  | inl none_there ↦ ((λ e. inr (ground arith)), λ e. ground arith)
  | inr found ↦ ((λ e. inl found), λ e. ground arith)
]

-- A turn of somebody else than the customer was replaced by another such turn.
pub data AgentEdits : Items → Items → Type 0 where
  done : AgentEdits nil nil
  kept : {ts us : Items} (t : Json) → AgentEdits ts us → AgentEdits (cons t ts) (cons t us)
  edited :
      {ts us : Items} (t u : Json)
      → by_customer t ≡ false
      → by_customer u ≡ false
      → AgentEdits ts us
      → AgentEdits (cons t ts) (cons u us)

module _ (lower : String → String) where
  abbrev pub HardSkip : Items → Type 0
  HardSkip ts = Mentions (all_lines lower ts) hard_skip_phrases

  module _ (customer_keywords : List String) (ts : Items) where
    classify_short : turns ts < 4 → (classify_turns lower customer_keywords ts).lane ≡ Lane.skip
    unfolding classify_turns
    classify_short h = ground arith

    classify_hard_skip :
        (p : String)
        → find_phrase (all_lines lower ts) hard_skip_phrases ≡ some p
        → (classify_turns lower customer_keywords ts).lane ≡ Lane.skip
    unfolding classify_turns
    classify_hard_skip p e = elim (Bool-cases (ltb (turns ts) 4)) [
      | inl short ↦ rw (classify_turns, short)
      | inr long ↦ rw (classify_turns, long, e)
    ]

    pub classify_decided :
        4 ≤ turns ts
        → find_phrase (all_lines lower ts) hard_skip_phrases ≡ none
        → classify_turns lower customer_keywords ts
          ≡ decide_lane
              (turns ts)
              (matched (commitment_keywords ++ customer_keywords) (customer_lines lower ts))
              (matched escalation_keywords (customer_lines lower ts))
    unfolding classify_turns
    classify_decided long e =
        let long' : ltb (turns ts) 4 ≡ false = ground arith in rw (classify_turns, long', e)

    classify_long :
        4 ≤ turns ts
        → find_phrase (all_lines lower ts) hard_skip_phrases ≡ none
        → ¬ HardSkip ts
        → (((classify_turns lower customer_keywords ts).lane ≡ Lane.skip)
            ↔ ((turns ts < 4) ⊎ HardSkip ts))
          × (((classify_turns lower customer_keywords ts).lane ≡ Lane.hot) ↔ (
              (4 ≤ turns ts)
              × (¬ HardSkip ts)
              × (SomeSays escalation_keywords (customer_lines lower ts)
                  ⊎ ((6 ≤ turns ts)
                      × SomeSays
                          (commitment_keywords ++ customer_keywords)
                          (customer_lines lower ts)))))
    classify_long long missing silent =
        let escalated = matched-ne-nil_iff escalation_keywords (customer_lines lower ts) in
        let committed =
          matched-ne-nil_iff (commitment_keywords ++ customer_keywords) (customer_lines lower ts) in
        let hot = decide_lane-hot_iff (turns ts) _ _ long in
        rw (classify_decided long missing) (
          (
            (λ h. absurd (decide_lane-ne-skip _ _ _ h)),
            λ c. elim c [ inl short ↦ absurd (omega arith) | inr m ↦ absurd (silent m) ],
          ),
          (
            (λ h. (
              long,
              silent,
              elim (hot.0 h) [
                | inl e ↦ inl (escalated.0 e)
                | inr (six, e) ↦ inr (six, committed.0 e)
              ],
            )),
            λ (_, _, says). hot.1 (elim says [
              | inl e ↦ inl (escalated.1 e)
              | inr (six, e) ↦ inr (six, committed.1 e)
            ]),
          ),
        )

    -- The lane is skip exactly for a transcript of fewer than four turns or one that mentions a
    -- hard-skip phrase in any turn. It is hot exactly if it is not skipped, and some line of the
    -- customer says an escalation keyword, or has a commitment keyword or one of the customer's own in
    -- a call of at least six turns; a keyword counts where its first occurrence in the line has no
    -- negation in the 30 characters before it.
    pub classify_turns-lane :
        (((classify_turns lower customer_keywords ts).lane ≡ Lane.skip)
          ↔ ((turns ts < 4) ⊎ HardSkip ts))
        × (((classify_turns lower customer_keywords ts).lane ≡ Lane.hot) ↔ (
            (4 ≤ turns ts)
            × (¬ HardSkip ts)
            × (SomeSays escalation_keywords (customer_lines lower ts)
                ⊎ ((6 ≤ turns ts)
                    × SomeSays
                        (commitment_keywords ++ customer_keywords)
                        (customer_lines lower ts)))))
    classify_turns-lane = elim (find_phrase_cases (all_lines lower ts) hard_skip_phrases) [
      | inr (p, found, mentions) ↦
          let e = classify_hard_skip p found in
          (
            ((λ h. inr mentions), λ h. e),
            ((λ h. cc), λ (long, silent, says). absurd (silent mentions)),
          )
      | inl (missing, silent) ↦ elim (Bool-cases (ltb (turns ts) 4)) [
        | inl short ↦
            let e = classify_short (ground arith) in
            (
              ((λ h. inl (ground arith)), λ h. e),
              ((λ h. cc), λ (long, quiet, says). absurd (ground arith)),
            )
        | inr long ↦ classify_long (ground arith) missing silent
      ]
    ]

  customer_lines-AgentEdits :
      (ts us : Items) → AgentEdits ts us → customer_lines lower ts ≡ customer_lines lower us
  unfolding customer_lines
  customer_lines-AgentEdits _ _ done = refl
  customer_lines-AgentEdits _ _ (kept {ts} {us} t d) = rw (customer_lines-AgentEdits ts us d)
  customer_lines-AgentEdits _ _ (edited {ts} {us} t u et eu d) =
      rw (et, eu) (customer_lines-AgentEdits ts us d)

  turns-AgentEdits : (ts us : Items) → AgentEdits ts us → turns ts ≡ turns us
  turns-AgentEdits _ _ done = refl
  turns-AgentEdits _ _ (kept {ts} {us} t d) = ap suc (turns-AgentEdits ts us d)
  turns-AgentEdits _ _ (edited {ts} {us} t u et eu d) = ap suc (turns-AgentEdits ts us d)

  find_phrase-none :
      (ts : Items) → ¬ HardSkip ts → find_phrase (all_lines lower ts) hard_skip_phrases ≡ none
  find_phrase-none ts silent = elim (find_phrase_cases (all_lines lower ts) hard_skip_phrases) [
    | inl (missing, _) ↦ missing
    | inr (p, found, mentions) ↦ absurd (silent mentions)
  ]

  -- What the agent says does not matter, as long as no turn mentions a hard-skip phrase: a transcript
  -- with other texts in the turns that are not the customer's gets the same classification.
  classify_turns-AgentEdits :
      (customer_keywords : List String) (ts us : Items)
      → AgentEdits ts us
      → ¬ HardSkip ts
      → ¬ HardSkip us
      → classify_turns lower customer_keywords ts ≡ classify_turns lower customer_keywords us
  unfolding classify_turns
  classify_turns-AgentEdits customer_keywords ts us d quiet quiet' = rw (
    find_phrase-none ts quiet,
    find_phrase-none us quiet',
    turns-AgentEdits ts us d,
    customer_lines-AgentEdits ts us d,
  )
