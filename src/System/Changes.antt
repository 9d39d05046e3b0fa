-- ===== src/System/Changes.antt =====
-- What one step of the program makes of the tables, by the worker that makes it.
use post_call_processing_pip.Prelude.{ℕ, zero, suc, ◌≡◌, ◌∙◌, arith, [], true, false, some, ap, sym}
use mathlib.Core.List.{append-nil}
use post_call_processing_pip.System.Polling.{Polled}
use post_call_processing_pip.Models.{ProcessingTask}
use post_call_processing_pip.Db.{Db, find_task}
use post_call_processing_pip.Harness.{is_completed}
use post_call_processing_pip.System.Keys.{some_injective, find_task-keys}
use post_call_processing_pip.System.Evolution.{
  Evolves, Sound, StillThere, Evolves-Sound, Evolves-StillThere, Sound-keys,
}
use post_call_processing_pip.System.Effects.{Evolves-other, Appended, Evolves-audit, Evolves-ledger}
use post_call_processing_pip.System.Analyses.{Attempted}

-- Rows are added and no row is changed, and nothing is charged; or there is an attempt at a row that
-- is not completed, by the worker for its step; or rows are claimed or given up, none of them completed.
pub data Changes (db db' : Db) : Type 0 where
  added : ((i : ℕ) → Evolves i [] db db') → Changes db db'
  attempted :
      (t : ProcessingTask)
      → find_task t.id db ≡ some t
      → is_completed t.status ≡ false
      → Attempted t.step t db db'
      → Changes db db'
  polled : Polled db db' → Changes db db'

pub Changes-Sound : {db db' : Db} → Changes db db' → Sound db → Sound db'
Changes-Sound (Changes.added law) s = Evolves-Sound (law zero) s
Changes-Sound (Changes.attempted t there open' (ls, e, c)) s = Evolves-Sound e s
Changes-Sound {db} {db'} (Changes.polled p) s = Sound-keys db db' p.same_keys p.same_next s

pub Changes-StillThere :
    {db db' : Db} (i : ℕ) (t : ProcessingTask)
    → Changes db db'
    → find_task i db ≡ some t
    → StillThere i t db'
Changes-StillThere i t (Changes.added law) h = Evolves-StillThere i t (law zero) h
Changes-StillThere i t (Changes.attempted u there open' (ls, e, c)) h = Evolves-StillThere i t e h
Changes-StillThere {db} {db'} i t (Changes.polled p) h =
    find_task-keys i db.tasks db'.tasks t p.same_keys h

pub Changes-Appended :
    {db db' : Db} → Changes db db' → Appended db.audit db'.audit × Appended db.ledger db'.ledger
Changes-Appended (Changes.added law) = (Evolves-audit (law zero), ([], Evolves-ledger (law zero)))
Changes-Appended (Changes.attempted t there open' (ls, e, c)) =
    (Evolves-audit e, (ls, Evolves-ledger e))
Changes-Appended {db} (Changes.polled p) =
    (p.audit, ([], p.same_ledger ∙ sym (append-nil db.ledger)))

-- A completed row is found as it was.
pub Changes-completed :
    {db db' : Db} (i : ℕ) (u : ProcessingTask)
    → Changes db db'
    → find_task i db ≡ some u
    → is_completed u.status ≡ true
    → find_task i db' ≡ some u
Changes-completed i u (Changes.added law) found done' =
    Evolves-other i u (λ e. absurd (omega (arith, e))) (law (suc i)) found
Changes-completed {db} i u (Changes.attempted t there open' (ls, e, c)) found done' =
    Evolves-other i u
      (λ same.
        let both : some u ≡ some t =
          sym found ∙ ap (λ (j : ℕ). find_task j db) (sym same) ∙ there in
        let one = some_injective u t both in absurd (cc))
      e found
Changes-completed i u (Changes.polled p) found done' = p.completed i u found done'
