-- ===== src/System/Evolution.antt =====
-- How the operations on task rows change the table: a row is written over one with its key, or a step
-- is enqueued. So the constraints of the table hold, and no row is lost.
use post_call_processing_pip.Prelude.{
  ℕ, suc, ◌≡◌, refl, ◌∙◌, List, [], ◌∷◌, ◌++◌, some, ◌==◌, find, arith, Option-cases, Bool-cases,
  inl, inr, false, All-mono, All-append,
}
use post_call_processing_pip.Models.{
  ProcessingTask, InteractionAuditLog, LlmTokenLedger, Interaction,
}
use post_call_processing_pip.Audit.{record_event}
use post_call_processing_pip.Context.{Context}
use post_call_processing_pip.Db.{Db, find_task, find_step, save, replace}
use post_call_processing_pip.Dispatcher.{NewStep, add_step, new_task}
use post_call_processing_pip.Dispatcher.Enqueue.{UniqueSteps, add_step-UniqueSteps}
use post_call_processing_pip.System.Keys.{
  key, Keyed, keys, UniqueIds, BelowId, NoId, UniqueIds-keys, UniqueSteps-keys, BelowId-keys,
  find_task-keys,
}

-- Steps of a transaction that writes no row but the one of the id `i`, with the rows that it appends
-- to the token ledger.
pub data Evolves (i : ℕ) : List LlmTokenLedger → Db → Db → Type 0 where
  same : {db : Db} → Evolves i [] db db
  noted :
      {db : Db} (x : InteractionAuditLog)
      → Evolves i [] db (record db { audit = db.audit ++ x ∷ [] })
  charged :
      {db : Db} (l : LlmTokenLedger)
      → Evolves i (l ∷ []) db (record db { ledger = db.ledger ++ l ∷ [] })
  elsewhere :
      {db : Db} (rows : List Interaction) → Evolves i [] db (record db { interactions = rows })
  written :
      {db : Db} (t : ProcessingTask) → t.id ≡ i → Keyed t db.tasks → Evolves i [] db (save t db)
  enqueued : {db : Db} (c : Context) (n : NewStep) → Evolves i [] db (add_step c n db).1
  andthen :
      {ls ms : List LlmTokenLedger} {db db' db'' : Db}
      → Evolves i ls db db'
      → Evolves i ms db' db''
      → Evolves i (ls ++ ms) db db''

-- The constraints of the task table, and the supply of new keys.
pub record Sound (db : Db) : Type 0 where
  pub unique_steps : UniqueSteps db.tasks
  pub unique_ids : UniqueIds db.tasks
  pub below : BelowId db.next_id db.tasks

NoId-below : (n : ℕ) (rs : List ProcessingTask) → BelowId n rs → NoId n rs
NoId-below n [] b = refl
NoId-below n (r ∷ rs) b = ground (arith, NoId-below n rs b.1, b.0)

NoId-append :
    (i : ℕ) (rs : List ProcessingTask) (t : ProcessingTask)
    → NoId i rs
    → (t.id == i) ≡ false
    → NoId i (rs ++ t ∷ [])
NoId-append i [] t h e = rw e
NoId-append i (r ∷ rs) t h e = ground (arith, NoId-append i rs t)

UniqueIds-append :
    (n : ℕ) (rs : List ProcessingTask) (t : ProcessingTask)
    → BelowId n rs
    → t.id ≡ n
    → UniqueIds rs
    → UniqueIds (rs ++ t ∷ [])
UniqueIds-append n [] t b e u = (refl, tt)
UniqueIds-append n (r ∷ rs) t b e u =
    (NoId-append r.id rs t u.0 (ground (arith, b.0)), UniqueIds-append n rs t b.1 e u.1)

Sound-insert :
    (db : Db) (t : ProcessingTask)
    → t.id ≡ db.next_id
    → Sound db
    → UniqueIds (db.tasks ++ t ∷ []) × BelowId (suc db.next_id) (db.tasks ++ t ∷ [])
Sound-insert db t e s = (
  UniqueIds-append db.next_id db.tasks t s.below e s.unique_ids,
  All-append _ db.tasks (t ∷ []) (All-mono _ _ db.tasks (λ r b. omega (arith, b)) s.below)
      (omega arith, tt),
)

add_step-Sound : (c : Context) (n : NewStep) (db : Db) → Sound db → Sound (add_step c n db).1
unfolding add_step record_event
add_step-Sound c n db s =
    let steps = add_step-UniqueSteps c n db s.unique_steps in
    elim (Option-cases (find_step n.interaction_id n.step db)) [
      | inl new ↦
          let (ids, below) = Sound-insert db (new_task c n db.next_id) refl s in
          record {
            unique_steps = steps;
            unique_ids = rw (new, add_step) ids;
            below = rw (new, add_step) below;
          }
      | inr (t, old) ↦ rw (old, add_step) s
    ]

pub Sound-keys :
    (db db' : Db) → keys db'.tasks ≡ keys db.tasks → db'.next_id ≡ db.next_id → Sound db → Sound db'
Sound-keys db db' kept next s = record {
  unique_steps = UniqueSteps-keys db.tasks db'.tasks kept s.unique_steps;
  unique_ids = UniqueIds-keys db.tasks db'.tasks kept s.unique_ids;
  below = rw next (BelowId-keys db.next_id db.tasks db'.tasks kept s.below);
}

pub Evolves-Sound :
    {i : ℕ} {ls : List LlmTokenLedger} {db db' : Db} → Evolves i ls db db' → Sound db → Sound db'
Evolves-Sound Evolves.same s = s
Evolves-Sound (Evolves.noted {db} x) s = Sound-keys db _ refl refl s
Evolves-Sound (Evolves.charged {db} l) s = Sound-keys db _ refl refl s
Evolves-Sound (Evolves.elsewhere {db} rows) s = Sound-keys db _ refl refl s
Evolves-Sound (Evolves.written {db} t e k) s = Sound-keys db (save t db) k refl s
Evolves-Sound (Evolves.enqueued {db} c n) s = add_step-Sound c n db s
Evolves-Sound (Evolves.andthen e e') s = Evolves-Sound e' (Evolves-Sound e s)

find-append_found :
    (i : ℕ) (rs : List ProcessingTask) (t x : ProcessingTask)
    → find (λ r. r.id == i) rs ≡ some t
    → find (λ r. r.id == i) (rs ++ x ∷ []) ≡ some t
find-append_found i [] t x h = absurd (cc h)
find-append_found i (r ∷ rs) t x h = elim (Bool-cases (r.id == i)) [
  | inl here ↦ rw here (rw here at h)
  | inr there ↦ rw there (find-append_found i rs t x (rw there at h))
]

pub find_task-add_step :
    (c : Context) (n : NewStep) (db : Db) (i : ℕ) (t : ProcessingTask)
    → find_task i db ≡ some t
    → find_task i (add_step c n db).1 ≡ some t
unfolding add_step record_event
find_task-add_step c n db i t h = elim (Option-cases (find_step n.interaction_id n.step db)) [
  | inl new ↦ rw (new, add_step) (find-append_found i db.tasks t (new_task c n db.next_id) h)
  | inr (u, old) ↦ rw (old, add_step) h
]

-- A row that a lookup finds is found ever after, with its interaction and its step.
abbrev pub StillThere : ℕ → ProcessingTask → Db → Type 0
StillThere i t db = (t' : ProcessingTask) × (find_task i db ≡ some t') × (key t' ≡ key t)

pub Evolves-StillThere :
    {j : ℕ} {ls : List LlmTokenLedger} {db db' : Db} (i : ℕ) (t : ProcessingTask)
    → Evolves j ls db db'
    → find_task i db ≡ some t
    → StillThere i t db'
Evolves-StillThere i t Evolves.same h = (t, h, refl)
Evolves-StillThere i t (Evolves.noted x) h = (t, h, refl)
Evolves-StillThere i t (Evolves.charged l) h = (t, h, refl)
Evolves-StillThere i t (Evolves.elsewhere rows) h = (t, h, refl)
Evolves-StillThere i t (Evolves.written {db} u e k) h =
    find_task-keys i db.tasks (replace u db.tasks) t k h
Evolves-StillThere i t (Evolves.enqueued {db} c n) h = (t, find_task-add_step c n db i t h, refl)
Evolves-StillThere i t (Evolves.andthen e e') h =
    let (t', found, same') = Evolves-StillThere i t e h in
    let (t'', found', same'') = Evolves-StillThere i t' e' found in (t'', found', same'' ∙ same')
