-- ===== src/System/Keys.antt =====
-- What never changes of a row: its id, its interaction and its step.
use post_call_processing_pip.Prelude.{
  ℕ, ◌<◌, ◌≡◌, refl, ◌∙◌, ap, true, false, List, [], ◌∷◌, Option, none, some, ◌==◌, find, All,
  arith, Bool-cases, inl, inr,
}
use mathlib.Core.Path.{ap₂, subst}
use post_call_processing_pip.Models.{ProcessingTask, TaskStep}
use post_call_processing_pip.Db.{replace, is_step}
use post_call_processing_pip.Dispatcher.Enqueue.{UniqueSteps, Absent}

pub record Key : Type 0 where
  pub id : ℕ
  pub interaction_id : ℕ
  pub step : TaskStep

abbrev pub key : ProcessingTask → Key
key t = record { id = t.id; interaction_id = t.interaction_id; step = t.step }

abbrev pub keys : List ProcessingTask → List Key
keys [] = []
keys (t ∷ ts) = key t ∷ keys ts

-- The primary key.
abbrev pub NoId : ℕ → List ProcessingTask → Type 0
NoId i rs = find (λ r. r.id == i) rs ≡ none

abbrev pub UniqueIds : List ProcessingTask → Type 0
UniqueIds [] = Unit {0}
UniqueIds (r ∷ rs) = NoId r.id rs × UniqueIds rs

abbrev pub BelowId : ℕ → List ProcessingTask → Type 0
BelowId n = All (λ t. t.id < n)

pub some_injective : (a b : ProcessingTask) → Path (Option ProcessingTask) (some a) (some b) → a ≡ b
some_injective a b e = cc e

cons_injective : (k k' : Key) (ks ks' : List Key) → k ∷ ks ≡ k' ∷ ks' → (k ≡ k') × (ks ≡ ks')
cons_injective k k' ks ks' e = (cc e, cc e)

-- Two tables with the same keys, and a row at the head of each.
module _ (r r' : ProcessingTask) (rs rs' : List ProcessingTask)
    (e : keys (r' ∷ rs') ≡ keys (r ∷ rs)) where
  same_key : key r' ≡ key r
  same_key = (cons_injective (key r') (key r) (keys rs') (keys rs) e).0

  same_rest : keys rs' ≡ keys rs
  same_rest = (cons_injective (key r') (key r) (keys rs') (keys rs) e).1

  same_id : r'.id ≡ r.id
  same_id = ap (λ (k : Key). k.id) same_key

  same_interaction : r'.interaction_id ≡ r.interaction_id
  same_interaction = ap (λ (k : Key). k.interaction_id) same_key

  same_task_step : r'.step ≡ r.step
  same_task_step = ap (λ (k : Key). k.step) same_key

-- Tables with the same keys have the same constraints.
NoId-keys : (i : ℕ) (rs rs' : List ProcessingTask) → keys rs' ≡ keys rs → NoId i rs → NoId i rs'
NoId-keys i [] [] e h = refl
NoId-keys i [] (r' ∷ rs') e h = absurd (cc e)
NoId-keys i (r ∷ rs) [] e h = refl
NoId-keys i (r ∷ rs) (r' ∷ rs') e h =
    let rest = NoId-keys i rs rs' (same_rest r r' rs rs' e) in
    let same = same_id r r' rs rs' e in
    elim (Bool-cases (r.id == i)) [
      | inl here ↦ absurd (cc (rw here at h))
      | inr there ↦ rw (same, there) (rest (rw there at h))
    ]

pub Absent-keys :
    (i : ℕ) (s : TaskStep) (rs rs' : List ProcessingTask)
    → keys rs' ≡ keys rs
    → Absent i s rs
    → Absent i s rs'
Absent-keys i s [] [] e h = refl
Absent-keys i s [] (r' ∷ rs') e h = absurd (cc e)
Absent-keys i s (r ∷ rs) [] e h = refl
Absent-keys i s (r ∷ rs) (r' ∷ rs') e h =
    let rest = Absent-keys i s rs rs' (same_rest r r' rs rs' e) in
    let same : is_step i s r' ≡ is_step i s r =
      rw (same_interaction r r' rs rs' e, same_task_step r r' rs rs' e) in
    elim (Bool-cases (is_step i s r)) [
      | inl here ↦ absurd (cc (rw here at h))
      | inr there ↦ rw (same ∙ there) (rest (rw there at h))
    ]

pub UniqueIds-keys :
    (rs rs' : List ProcessingTask) → keys rs' ≡ keys rs → UniqueIds rs → UniqueIds rs'
UniqueIds-keys rs [] e u = tt
UniqueIds-keys [] (r' ∷ rs') e u = absurd (cc e)
UniqueIds-keys (r ∷ rs) (r' ∷ rs') e u =
    let same = same_id r r' rs rs' e in
    let tail = same_rest r r' rs rs' e in
    (rw same (NoId-keys r.id rs rs' tail u.0), UniqueIds-keys rs rs' tail u.1)

pub UniqueSteps-keys :
    (rs rs' : List ProcessingTask) → keys rs' ≡ keys rs → UniqueSteps rs → UniqueSteps rs'
UniqueSteps-keys rs [] e u = tt
UniqueSteps-keys [] (r' ∷ rs') e u = absurd (cc e)
UniqueSteps-keys (r ∷ rs) (r' ∷ rs') e u =
    let tail = same_rest r r' rs rs' e in
    (
      rw (same_interaction r r' rs rs' e, same_task_step r r' rs rs' e)
          (Absent-keys r.interaction_id r.step rs rs' tail u.0),
      UniqueSteps-keys rs rs' tail u.1,
    )

pub BelowId-keys :
    (n : ℕ) (rs rs' : List ProcessingTask) → keys rs' ≡ keys rs → BelowId n rs → BelowId n rs'
BelowId-keys n rs [] e b = tt
BelowId-keys n [] (r' ∷ rs') e b = absurd (cc e)
BelowId-keys n (r ∷ rs) (r' ∷ rs') e b =
    (rw (same_id r r' rs rs' e) b.0, BelowId-keys n rs rs' (same_rest r r' rs rs' e) b.1)

-- A row that is found has a successor with the same key.
pub find_task-keys :
    (i : ℕ) (rs rs' : List ProcessingTask) (t : ProcessingTask)
    → keys rs' ≡ keys rs
    → find (λ r. r.id == i) rs ≡ some t
    → (t' : ProcessingTask) × (find (λ r. r.id == i) rs' ≡ some t') × (key t' ≡ key t)
find_task-keys i [] rs' t e h = absurd (cc h)
find_task-keys i (r ∷ rs) [] t e h = absurd (cc e)
find_task-keys i (r ∷ rs) (r' ∷ rs') t e h =
    let same = same_id r r' rs rs' e in
    elim (Bool-cases (r.id == i)) [
      | inl here ↦
          let found : r ≡ t = some_injective r t (rw here at h) in
          let here' : (r'.id == i) ≡ true = rw same here in
          rw here' (r', refl, same_key r r' rs rs' e ∙ ap key found)
      | inr there ↦
          let there' : (r'.id == i) ≡ false = rw same there in
          rw there' (find_task-keys i rs rs' t (same_rest r r' rs rs' e) (rw there at h))
    ]

-- The write of a row with the key of the one it replaces.
abbrev pub Keyed : ProcessingTask → List ProcessingTask → Type 0
Keyed t rs = keys (replace t rs) ≡ keys rs

pub keys-replace_same :
    (t t' : ProcessingTask) (rs : List ProcessingTask)
    → key t' ≡ key t
    → keys (replace t' rs) ≡ keys (replace t rs)
keys-replace_same t t' [] e = refl
keys-replace_same t t' (r ∷ rs) e =
    let same : t'.id ≡ t.id = ap (λ (k : Key). k.id) e in
    let rest = keys-replace_same t t' rs e in
    elim (Bool-cases (r.id == t.id)) [
      | inl here ↦
          let here' : (r.id == t'.id) ≡ true = rw same here in rw (here, here') (ap₂ ◌∷◌ e rest)
      | inr there ↦
          let there' : (r.id == t'.id) ≡ false = rw same there in
          rw (there, there') (ap (λ l. key r ∷ l) rest)
    ]

pub keys-replace_twice :
    (t : ProcessingTask) (rs : List ProcessingTask)
    → keys (replace t (replace t rs)) ≡ keys (replace t rs)
keys-replace_twice t [] = refl
keys-replace_twice t (r ∷ rs) =
    let rest = keys-replace_twice t rs in
    elim (Bool-cases (r.id == t.id)) [
      | inl here ↦ ground (arith, rest)
      | inr there ↦ rw (there, there, rest)
    ]

replace_absent : (t : ProcessingTask) (rs : List ProcessingTask) → NoId t.id rs → replace t rs ≡ rs
replace_absent t [] h = refl
replace_absent t (r ∷ rs) h = ground (arith, replace_absent t rs)

replace_head :
    (t : ProcessingTask) (rs : List ProcessingTask) → NoId t.id rs → replace t (t ∷ rs) ≡ t ∷ rs
replace_head t rs h =
    let self : (t.id == t.id) ≡ true = ground arith in
    rw self (ap (λ l. t ∷ l) (replace_absent t rs h))

-- The row that a lookup by the primary key finds may be written back.
pub Keyed-found :
    (i : ℕ) (rs : List ProcessingTask) (t : ProcessingTask)
    → UniqueIds rs
    → find (λ r. r.id == i) rs ≡ some t
    → (t.id ≡ i) × Keyed t rs
Keyed-found i [] t u h = absurd (cc h)
Keyed-found i (r ∷ rs) t u h = elim (Bool-cases (r.id == i)) [
  | inl here ↦
      let found : r ≡ t = some_injective r t (rw here at h) in
      subst (λ (x : ProcessingTask). (x.id ≡ i) × Keyed x (r ∷ rs)) found
        ((ground arith), ap keys (replace_head r rs u.0))
  | inr there ↦
      let (same, rest) = Keyed-found i rs t u.1 (rw there at h) in
      let other : (r.id == t.id) ≡ false = rw same there in
      (same, rw other (ap (λ l. key r ∷ l) rest))
]
