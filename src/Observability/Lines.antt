-- ===== src/Observability/Lines.antt =====
-- src/observability/logging.py: what a log line carries.
use post_call_processing_pip.Prelude.{
  ℕ, ◌⊎◌, All-mono, List, [], ◌∷◌, All, ap, true, String, ◌≡◌, refl, ◌∙◌, false, Option, none, some,
  str_eq, eq_iff, Bool-cases, inl, inr,
}
use post_call_processing_pip.Json.{Json, Fields, str, end, field, put, without, merge, get}
use post_call_processing_pip.Models.{ProcessingTask}
use post_call_processing_pip.Observability.{
  LogContext, LogRecord, format, is_skipped, add_extras, add_correlation_id, add_exc_info,
  task_context, step_text, plain_payload,
}
use post_call_processing_pip.Observability.Values.{Texts, Value, make_serialisable}

get-without_other : (k j : String) (d : Fields) → str_eq k j ≡ false → get j (without k d) ≡ get j d
unfolding get
get-without_other k j end e = refl
get-without_other k j (field i v d) e =
    let rest = get-without_other k j d e in
    elim (Bool-cases (str_eq i k)) [
      | inl same ↦
          let other : str_eq i j ≡ false = rw ((eq_iff i k).0 same) e in rw (same, other) rest
      | inr differs ↦ elim (Bool-cases (str_eq i j)) [
        | inl here ↦ rw (differs, here)
        | inr there ↦ rw (differs, there) rest
      ]
    ]

get-put_other :
    (k j : String) (v : Json) (d : Fields) → str_eq k j ≡ false → get j (put k v d) ≡ get j d
unfolding get
get-put_other k j v d e = rw e (get-without_other k j d e)

-- No attribute of the record that the line takes over has this key.
abbrev pub Free : String → List (String × Value) → Type 0
Free k = All (λ a. str_eq a.0 k ≡ false)

get-add_extras :
    (p : Texts) (k : String) (extras : List (String × Value)) (payload : Fields)
    → Free k extras
    → get k (add_extras p extras payload) ≡ get k payload
unfolding add_extras
get-add_extras p k [] payload f = refl
get-add_extras p k ((j, v) ∷ extras) payload f = elim (Bool-cases (is_skipped j)) [
  | inl skipped ↦ rw skipped (get-add_extras p k extras payload f.1)
  | inr taken ↦ rw taken (
      get-add_extras p k extras (put j (make_serialisable p v) payload) f.1
      ∙ get-put_other j k (make_serialisable p v) payload f.0)
]

-- The keys of a dict.
abbrev pub UniqueKeys : List (String × Value) → Type 0
UniqueKeys [] = Unit {0}
UniqueKeys (a ∷ l) = Free a.0 l × UniqueKeys l

-- Each attribute but the standard and the private ones is in the line, made serialisable.
abbrev pub TakenOver : Texts → Fields → List (String × Value) → Type 0
TakenOver p line =
    All (λ a. (is_skipped a.0 ≡ true) ⊎ (get a.0 line ≡ some (make_serialisable p a.1)))

get-put_same : (k : String) (v : Json) (d : Fields) → get k (put k v d) ≡ some v
unfolding get
get-put_same k v d = rw ((eq_iff k k).1 refl)

add_extras-taken :
    (p : Texts) (k : String) (v : Value) (after : List (String × Value)) (payload : Fields)
    → is_skipped k ≡ false
    → add_extras p ((k, v) ∷ after) payload
      ≡ add_extras p after (put k (make_serialisable p v) payload)
unfolding add_extras
add_extras-taken p k v after payload taken = rw taken refl

add_extras-TakenOver :
    (p : Texts) (l : List (String × Value)) (payload : Fields)
    → UniqueKeys l
    → TakenOver p (add_extras p l payload) l
unfolding add_extras
add_extras-TakenOver p [] payload u = tt
add_extras-TakenOver p ((k, v) ∷ l) payload u = (
  elim (Bool-cases (is_skipped k)) [
    | inl skipped ↦ inl skipped
    | inr taken ↦ inr (
        ap (get k) (add_extras-taken p k v l payload taken)
        ∙ get-add_extras p k l (put k (make_serialisable p v) payload) u.0
        ∙ get-put_same k (make_serialisable p v) payload)
  ],
  add_extras-TakenOver p l _ u.1,
)

exc_info-skipped : is_skipped "exc_info" ≡ true
unfolding is_skipped
exc_info-skipped = refl

taken-other : (k : String) → is_skipped k ≡ false → str_eq "exc_info" k ≡ false
taken-other k taken = elim (Bool-cases (str_eq "exc_info" k)) [
  | inl same ↦ absurd (cc (ap is_skipped ((eq_iff "exc_info" k).0 same), exc_info-skipped, taken))
  | inr other ↦ other
]

get-add_exc_info :
    (k : String) (e : Option String) (payload : Fields)
    → str_eq "exc_info" k ≡ false
    → get k (add_exc_info e payload) ≡ get k payload
get-add_exc_info k none payload other = refl
get-add_exc_info k (some text) payload other = get-put_other "exc_info" k (str text) payload other

module _ (p : Texts) (id_text : ℕ → String) (t : ProcessingTask) (uuid_hex : String)
    (x : LogContext) (r : LogRecord) (given : str_eq t.correlation_id "" ≡ false) where
  get-format :
      (k : String) (v : Json)
      → Free k r.attributes
      → str_eq "exc_info" k ≡ false
      → get k (
          merge
            (add_correlation_id
              (task_context id_text t uuid_hex x).correlation_id
              (plain_payload r))
            (task_context id_text t uuid_hex x).interaction_context)
        ≡ some v
      → get k (format p (task_context id_text t uuid_hex x) r) ≡ some v
  unfolding format
  get-format k v f other e =
      get-add_exc_info k r.exc_info _ other ∙ get-add_extras p k r.attributes _ f ∙ e

  format-TakenOver :
      UniqueKeys r.attributes
      → TakenOver p (format p (task_context id_text t uuid_hex x) r) r.attributes
  unfolding format
  format-TakenOver u =
      All-mono _ _ r.attributes
        (λ a h. elim (Bool-cases (is_skipped a.0)) [
          | inl skipped ↦ inl skipped
          | inr taken ↦ elim h [
            | inl skipped ↦ absurd (cc (skipped, taken))
            | inr e ↦ inr (get-add_exc_info a.0 r.exc_info _ (taken-other a.0 taken) ∙ e)
          ]
        ])
        (add_extras-TakenOver p r.attributes _ u)

  -- Whatever an earlier task had bound, a line that is logged while a worker runs, for a row whose
  -- correlation id is not empty and by a call that sets none of these four keys itself, carries the
  -- correlation id, the interaction and the step of the worker's own row and its own event; each
  -- attribute of the record but the standard and the private ones is in it, made serialisable; and
  -- nothing of the earlier task is in it.
  pub format-task_context :
      (x' : LogContext)
      → Free "correlation_id" r.attributes
      → Free "interaction_id" r.attributes
      → Free "step" r.attributes
      → Free "event" r.attributes
      → UniqueKeys r.attributes
      → let line = format p (task_context id_text t uuid_hex x) r in
        (get "correlation_id" line ≡ some (str t.correlation_id))
        × (get "interaction_id" line ≡ some (str (id_text t.interaction_id)))
        × (get "step" line ≡ some (str (step_text t.step)))
        × (get "event" line ≡ some (str r.message))
        × TakenOver p line r.attributes
        × (line ≡ format p (task_context id_text t uuid_hex x') r)
  unfolding get
  format-task_context x' no_id no_interaction no_step no_event unique = (
    get-format "correlation_id" (str t.correlation_id) no_id refl (rw (given, given)),
    get-format "interaction_id" (str (id_text t.interaction_id)) no_interaction refl refl,
    get-format "step" (str (step_text t.step)) no_step refl refl,
    get-format "event" (str r.message) no_event refl (rw (given, given)),
    format-TakenOver unique,
    refl,
  )
