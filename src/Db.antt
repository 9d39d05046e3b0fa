-- ===== src/Db.antt =====
-- The tables inside one open transaction. `session.add` with `flush` appends a row, an attribute
-- write with `flush` replaces the row of that id, and `update(...).where(...)` maps over a table.
-- A transaction that raises is rolled back by its owner, so no operation returns rows with an error.
pub mod Rows
use post_call_processing_pip.Prelude.{
  ℕ, suc, String, Bool, List, [], ◌∷◌, ◌++◌, Option, none, some, ◌&&◌, ◌==◌, if◌then◌else◌, find,
  any,
}
use post_call_processing_pip.Models.{
  ProcessingTask, TaskStep, InteractionAuditLog, LlmTokenLedger, Interaction, same_step,
}

pub record Db : Type 0 where
  pub tasks : List ProcessingTask
  pub audit : List InteractionAuditLog
  pub ledger : List LlmTokenLedger
  pub interactions : List Interaction
  -- the supply of primary keys, for `uuid4`
  pub next_id : ℕ

-- What a worker can raise.
pub data Error : Type 0 where
  value_error attribute_error type_error index_error runtime_error key_error integrity_error : Error
  http_error : String → Error

pub data Result {ℓ} (A : Type ℓ) : Type ℓ where
  ok : A → Result A
  err : Error → Result A

infixl 5 ◌>>=◌
abbrev pub ◌>>=◌ {ℓ κ} : {A : Type ℓ} {B : Type κ} → Result A → (A → Result B) → Result B
ok a >>= f = f a
err e >>= f = err e

abbrev pub replace : ProcessingTask → List ProcessingTask → List ProcessingTask
replace t [] = []
replace t (r ∷ rs) = (if r.id == t.id then t else r) ∷ replace t rs

-- The FOREIGN KEY of processing_tasks.interaction_id.
abbrev pub has_interaction : ℕ → Db → Bool
has_interaction i db = any (λ r. r.id == i) db.interactions

-- Flush of a changed row.
abbrev pub save : ProcessingTask → Db → Db
save t db = record db { tasks = replace t db.tasks }

-- Flush of a new row, whose key is `db.next_id`.
abbrev pub insert : ProcessingTask → Db → Db
insert t db = record db { tasks = db.tasks ++ t ∷ []; next_id = suc db.next_id }

abbrev pub is_step : ℕ → TaskStep → ProcessingTask → Bool
is_step i s t = t.interaction_id == i && same_step t.step s

-- SELECT ... WHERE interaction_id = i AND step = s, at most one row by the UNIQUE constraint.
abbrev pub find_step : ℕ → TaskStep → Db → Option ProcessingTask
find_step i s db = find (is_step i s) db.tasks

abbrev pub find_task : ℕ → Db → Option ProcessingTask
find_task i db = find (λ t. t.id == i) db.tasks

abbrev pub update_rows : ℕ → (Interaction → Interaction) → List Interaction → List Interaction
update_rows i f [] = []
update_rows i f (r ∷ rs) = (if r.id == i then f r else r) ∷ update_rows i f rs

-- UPDATE interactions ... WHERE id = i
abbrev pub update_interaction : ℕ → (Interaction → Interaction) → Db → Db
update_interaction i f db = record db { interactions = update_rows i f db.interactions }
