-- ===== src/System/Effects.antt =====
-- What a transaction leaves alone: the rows of other ids, and what the append-only tables held.
use post_call_processing_pip.Prelude.{
  ℕ, ◌≡◌, refl, ◌∙◌, ◌≢◌, ap, List, [], ◌∷◌, ◌++◌, some, ◌==◌, find, arith, Option-cases, inl, inr,
  sym,
}
use mathlib.Core.List.{append-nil, append_assoc}
use post_call_processing_pip.Models.{ProcessingTask, LlmTokenLedger}
use post_call_processing_pip.Audit.{record_event}
use post_call_processing_pip.Context.{Context}
use post_call_processing_pip.Db.{Db, find_task, find_step, replace}
use post_call_processing_pip.Dispatcher.{NewStep, add_step}
use post_call_processing_pip.Dispatcher.Enqueue.{add_step-elsewhere}
use post_call_processing_pip.System.Evolution.{Evolves, find_task-add_step}

pub find-replace_ne :
    (i : ℕ) (u t : ProcessingTask) (rs : List ProcessingTask)
    → u.id ≢ i
    → find (λ r. r.id == i) rs ≡ some t
    → find (λ r. r.id == i) (replace u rs) ≡ some t
find-replace_ne i u t [] ne h = h
find-replace_ne i u t (r ∷ rs) ne h = ground (arith, find-replace_ne i u t rs)

pub find-replace_self :
    (u t : ProcessingTask) (rs : List ProcessingTask)
    → find (λ r. r.id == u.id) rs ≡ some t
    → find (λ r. r.id == u.id) (replace u rs) ≡ some u
find-replace_self u t [] h = absurd (cc h)
find-replace_self u t (r ∷ rs) h = ground (arith, find-replace_self u t rs)

-- A row with another id is found as it was.
pub Evolves-other :
    {j : ℕ} {ls : List LlmTokenLedger} {db db' : Db} (i : ℕ) (t : ProcessingTask)
    → j ≢ i
    → Evolves j ls db db'
    → find_task i db ≡ some t
    → find_task i db' ≡ some t
Evolves-other i t ne Evolves.same h = h
Evolves-other i t ne (Evolves.noted x) h = h
Evolves-other i t ne (Evolves.charged l) h = h
Evolves-other i t ne (Evolves.elsewhere rows) h = h
Evolves-other i t ne (Evolves.written {db} u e k) h =
    find-replace_ne i u t db.tasks (λ p. ne (sym e ∙ p)) h
Evolves-other i t ne (Evolves.enqueued {db} c n) h = find_task-add_step c n db i t h
Evolves-other i t ne (Evolves.andthen e e') h = Evolves-other i t ne e' (Evolves-other i t ne e h)

-- The ledger is what it was, and the charged rows after it.
pub Evolves-ledger :
    {j : ℕ} {ls : List LlmTokenLedger} {db db' : Db}
    → Evolves j ls db db'
    → db'.ledger ≡ db.ledger ++ ls
Evolves-ledger (Evolves.same {db}) = sym (append-nil db.ledger)
Evolves-ledger (Evolves.noted {db} x) = sym (append-nil db.ledger)
Evolves-ledger (Evolves.charged l) = refl
Evolves-ledger (Evolves.elsewhere {db} rows) = sym (append-nil db.ledger)
Evolves-ledger (Evolves.written {db} t e k) = sym (append-nil db.ledger)
Evolves-ledger (Evolves.enqueued {db} c n) =
    (add_step-elsewhere c n db).0 ∙ sym (append-nil db.ledger)
Evolves-ledger (Evolves.andthen {ls} {ms} {db} e e') =
    Evolves-ledger e' ∙ ap (λ l. l ++ ms) (Evolves-ledger e) ∙ append_assoc db.ledger ls ms

-- `l'` is `l` with rows after it.
abbrev pub Appended {ℓ} : {A : Type ℓ} → List A → List A → Type ℓ
Appended {A} l l' = (more : List A) × (l' ≡ l ++ more)

pub Appended-refl {ℓ} : {A : Type ℓ} (l : List A) → Appended l l
Appended-refl l = ([], sym (append-nil l))

pub Appended-trans {ℓ} :
    {A : Type ℓ} (l l' l'' : List A) → Appended l l' → Appended l' l'' → Appended l l''
Appended-trans l l' l'' (more, e) (more', e') =
    (more ++ more', e' ∙ ap (λ x. x ++ more') e ∙ append_assoc l more more')

add_step-audit : (c : Context) (n : NewStep) (db : Db) → Appended db.audit (add_step c n db).1.audit
unfolding add_step record_event
add_step-audit c n db = elim (Option-cases (find_step n.interaction_id n.step db)) [
  | inl new ↦ rw (new, add_step) (_, refl)
  | inr (u, old) ↦ rw (old, add_step) (Appended-refl db.audit)
]

pub Evolves-audit :
    {j : ℕ} {ls : List LlmTokenLedger} {db db' : Db}
    → Evolves j ls db db'
    → Appended db.audit db'.audit
Evolves-audit (Evolves.same {db}) = Appended-refl db.audit
Evolves-audit (Evolves.noted x) = (x ∷ [], refl)
Evolves-audit (Evolves.charged {db} l) = Appended-refl db.audit
Evolves-audit (Evolves.elsewhere {db} rows) = Appended-refl db.audit
Evolves-audit (Evolves.written {db} t e k) = Appended-refl db.audit
Evolves-audit (Evolves.enqueued {db} c n) = add_step-audit c n db
Evolves-audit (Evolves.andthen {db} {db'} {db''} e e') =
    Appended-trans db.audit db'.audit db''.audit (Evolves-audit e) (Evolves-audit e')
