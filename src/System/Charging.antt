-- ===== src/System/Charging.antt =====
-- src/services/token_ledger.py in the running program: which rows the ledger has.
use mathlib.Core.List.{Memᴰ, append-nil}
use mathlib.Core.Path.{subst}
use post_call_processing_pip.Prelude.{
  ℕ, ◌≡◌, ◌≢◌, ◌∙◌, arith, Bool-cases, inl, inr, List, [], ◌∷◌, ◌++◌, true, false, some, ap, sym,
  Bool, find, All, All-mono, All-append, zero,
}
use post_call_processing_pip.Models.{ProcessingTask, TaskStep, LlmTokenLedger, same_step_iff}
use post_call_processing_pip.Db.{Db, find_task, is_step}
use post_call_processing_pip.Dispatcher.Enqueue.{UniqueSteps, Absent}
use post_call_processing_pip.Harness.{is_completed}
use post_call_processing_pip.System.Keys.{Key, key, some_injective}
use post_call_processing_pip.System.Evolution.{Sound}
use post_call_processing_pip.System.Effects.{Evolves-ledger}
use post_call_processing_pip.System.Analyses.{Charges}
use post_call_processing_pip.System.Changes.{Changes, Changes-completed}

find-Mem :
    (p : ProcessingTask → Bool) (rs : List ProcessingTask) (t : ProcessingTask)
    → find p rs ≡ some t
    → Memᴰ t rs
find-Mem p [] t h = absurd (cc h)
find-Mem p (r ∷ rs) t h = elim (Bool-cases (p r)) [
  | inl here ↦ Memᴰ.head (sym (some_injective r t (rw here at h)))
  | inr there ↦ Memᴰ.tail (find-Mem p rs t (rw there at h))
]

Absent-Mem :
    (i : ℕ) (s : TaskStep) (rs : List ProcessingTask) (t : ProcessingTask)
    → Absent i s rs
    → Memᴰ t rs
    → is_step i s t ≡ false
Absent-Mem i s [] t h m = elim m [ ]
Absent-Mem i s (r ∷ rs) t h m = elim (Bool-cases (is_step i s r)) [
  | inl here ↦ absurd (cc (rw here at h))
  | inr there ↦ elim m [
    | Memᴰ.head e ↦ subst (λ (x : ProcessingTask). is_step i s x ≡ false) (sym e) there
    | Memᴰ.tail m' ↦ Absent-Mem i s rs t (rw there at h) m'
  ]
]

is_step-flip :
    (t r : ProcessingTask)
    → is_step r.interaction_id r.step t ≡ false
    → is_step t.interaction_id t.step r ≡ false
is_step-flip t r h = ground (arith, h, same_step_iff t.step r.step, same_step_iff r.step t.step)

-- A row of the table is the one that its interaction and its step find.
find_step_self :
    (rs : List ProcessingTask) (t : ProcessingTask)
    → UniqueSteps rs
    → Memᴰ t rs
    → find (is_step t.interaction_id t.step) rs ≡ some t
find_step_self [] t u m = elim m [ ]
find_step_self (r ∷ rs) t u (Memᴰ.head e) =
    let self : is_step r.interaction_id r.step r ≡ true =
      ground (arith, same_step_iff r.step r.step) in
    subst (λ (x : ProcessingTask). find (is_step x.interaction_id x.step) (r ∷ rs) ≡ some x) (sym e)
      (rw self)
find_step_self (r ∷ rs) t u (Memᴰ.tail m) =
    let other = is_step-flip t r (Absent-Mem r.interaction_id r.step rs t u.0 m) in
    rw other (find_step_self rs t u.1 m)

one_step :
    (rs : List ProcessingTask) (t u : ProcessingTask)
    → UniqueSteps rs
    → Memᴰ t rs
    → Memᴰ u rs
    → t.interaction_id ≡ u.interaction_id
    → t.step ≡ u.step
    → t ≡ u
one_step rs t u unique mt mu e s =
    let same : find (is_step t.interaction_id t.step) rs
        ≡ find (is_step u.interaction_id u.step) rs =
      cc in
    some_injective t u (sym (find_step_self rs t unique mt) ∙ same ∙ find_step_self rs u unique mu)

-- The row is of an interaction whose analysis is completed.
abbrev pub Settled : Db → LlmTokenLedger → Type 0
Settled db l =
    (t : ProcessingTask) × (find_task t.id db ≡ some t)
    × (t.interaction_id ≡ l.interaction_id)
    × (t.step ≡ TaskStep.llm_analysis)
    × (is_completed t.status ≡ true)

abbrev NotCharged : ℕ → List LlmTokenLedger → Type 0
NotCharged i = All (λ l. l.interaction_id ≢ i)

-- No interaction has two rows.
abbrev pub Once : List LlmTokenLedger → Type 0
Once [] = Unit {0}
Once (l ∷ ls) = NotCharged l.interaction_id ls × Once ls

pub record ChargedOnce (db : Db) : Type 0 where
  pub once : Once db.ledger
  pub settled : All (Settled db) db.ledger

Once-append :
    (ls : List LlmTokenLedger) (l : LlmTokenLedger)
    → Once ls
    → NotCharged l.interaction_id ls
    → Once (ls ++ l ∷ [])
Once-append [] l o n = (tt, tt)
Once-append (x ∷ ls) l o n =
    (All-append _ ls (l ∷ []) o.0 ((λ e. n.0 (sym e)), tt), Once-append ls l o.1 n.1)

Settled-Changes : {db db' : Db} (l : LlmTokenLedger) → Changes db db' → Settled db l → Settled db' l
Settled-Changes l c (t, found, of_it, step, done') =
    (t, Changes-completed t.id t c found done', of_it, step, done')

-- An interaction whose analysis is still to be completed has no row.
open-NotCharged :
    (db : Db) (t : ProcessingTask)
    → Sound db
    → find_task t.id db ≡ some t
    → t.step ≡ TaskStep.llm_analysis
    → is_completed t.status ≡ false
    → (l : LlmTokenLedger) → Settled db l
    → l.interaction_id ≢ t.interaction_id
open-NotCharged db t sound there step open' l (u, found, of_it, step', done') e =
    let one =
      one_step db.tasks u t sound.unique_steps (find-Mem _ db.tasks u found)
        (find-Mem _ db.tasks t there) (of_it ∙ e) (step' ∙ sym step) in
    absurd (cc)

Charges-ChargedOnce :
    (t : ProcessingTask) (db db' : Db) (ls : List LlmTokenLedger)
    → Sound db
    → find_task t.id db ≡ some t
    → is_completed t.status ≡ false
    → db'.ledger ≡ db.ledger ++ ls
    → All (Settled db') db.ledger
    → Charges t.step (key t) ls db'
    → ChargedOnce db
    → ChargedOnce db'
Charges-ChargedOnce t db db' ls sound there open' grown kept (Charges.uncharged none_) h =
    let same : db'.ledger ≡ db.ledger =
      grown ∙ ap (λ x. db.ledger ++ x) none_ ∙ append-nil db.ledger in
    record { once = rw same h.once; settled = rw same kept }
Charges-ChargedOnce t db db' ls sound there open' grown kept
      (Charges.once l one of_it step (t', found, same_key, status)) h =
    let all : db'.ledger ≡ db.ledger ++ l ∷ [] = grown ∙ ap (λ x. db.ledger ++ x) one in
    let fresh : NotCharged l.interaction_id db.ledger =
      rw of_it (All-mono _ _ db.ledger (open-NotCharged db t sound there step open') h.settled) in
    let mine : Settled db' l = (
      t',
      ap (λ (k : Key). find_task k.id db') same_key ∙ found,
      ap (λ (k : Key). k.interaction_id) same_key ∙ sym of_it,
      ap (λ (k : Key). k.step) same_key ∙ step,
      rw status,
    ) in
    record {
      once = rw all (Once-append db.ledger l h.once fresh);
      settled = rw all (All-append _ db.ledger (l ∷ []) kept (mine, tt));
    }

pub Changes-ChargedOnce :
    {db db' : Db} → Sound db → Changes db db' → ChargedOnce db → ChargedOnce db'
Changes-ChargedOnce {db} {db'} sound c h =
    let kept = All-mono _ _ db.ledger (λ l s. Settled-Changes l c s) h.settled in
    elim c [
      | Changes.added law ↦
          let same : db'.ledger ≡ db.ledger = Evolves-ledger (law zero) ∙ append-nil db.ledger in
          record { once = rw same h.once; settled = rw same kept }
      | Changes.polled p ↦ record {
        once = rw p.same_ledger h.once;
        settled = rw p.same_ledger kept;
      }
      | Changes.attempted t there open' (ls, e, charges) ↦
          Charges-ChargedOnce t db db' ls sound there open' (Evolves-ledger e) kept charges h
    ]
