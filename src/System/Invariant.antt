-- ===== src/System/Invariant.antt =====
-- What holds of the running program however its steps follow each other.
use mathlib.Core.Path.{subst}
use post_call_processing_pip.System.Deliveries.{Delivered, process_one-Delivered}
use post_call_processing_pip.System.Polling.{claim_due_tasks-Polled, expire_stale_leases-Polled}
use post_call_processing_pip.System.Requests.{end_interaction-Evolves}
use post_call_processing_pip.System.Changes.{
  Changes, Changes-completed, Changes-Sound, Changes-StillThere, Changes-Appended,
}
use post_call_processing_pip.System.Charging.{ChargedOnce, Changes-ChargedOnce}
use post_call_processing_pip.System.Effects.{Appended, Appended-refl, Appended-trans}
use post_call_processing_pip.Harness.{is_completed}
use post_call_processing_pip.Prelude.{
  ℕ, ap, sym, inl, inr, true, ◌≡◌, refl, ◌∙◌, List, [], ◌∷◌, ◌++◌, some, All, All-append,
}
use post_call_processing_pip.Models.{ProcessingTask, TaskStep}
use post_call_processing_pip.Db.{Db, find_task}
use post_call_processing_pip.Redis.{SortedSets}
use post_call_processing_pip.Harness.{Message, process_one}
use post_call_processing_pip.System.Evolution.{Evolves, Sound, StillThere}
use post_call_processing_pip.System.Routing.{served_step, served_step_named, Routed, All-Routed}
use post_call_processing_pip.System.Keys.{some_injective}
use post_call_processing_pip.System.Analyses.{Attempted}
use post_call_processing_pip.System.{CeleryTask, task_name, Machine, Step, Run, after_run}

All-middle :
    (P : Message → Type 0) (before after : List Message) (m : Message)
    → All P (before ++ m ∷ after)
    → All P before × P m × All P after
All-middle P [] after m h = (tt, h.0, h.1)
All-middle P (x ∷ xs) after m h = let (b, p, a) = All-middle P xs after m h.1 in ((h.0, b), p, a)

module _ (R : SortedSets) where
  -- The table's constraints hold, and every message in flight names a row of the step that the worker
  -- it goes to is for.
  pub record InOrder (x : Machine R) : Type 0 where
    pub sound : Sound x.db
    pub routed : All (Routed x.db) x.queue

  -- A delivery to the worker that the message is for.
  Delivered-Changes :
      (db db' : Db) (m : Message) (k : CeleryTask)
      → m.task_name ≡ task_name k
      → Routed db m
      → Delivered (served_step k) m.task_id db db'
      → Changes db db'
  Delivered-Changes db db' m k name routed (inl same) =
      Changes.added (λ i. subst (λ (d : Db). Evolves i [] db d) (sym same) Evolves.same)
  Delivered-Changes db db' m k name (k', u, name', found', step)
        (inr (t, found, same, open', attempted)) =
      let one : u ≡ t = some_injective u t (sym found' ∙ found) in
      let its_step : served_step k ≡ t.step =
        served_step_named k k' (sym name ∙ name')
        ∙ sym step
        ∙ ap (λ (x : ProcessingTask). x.step) one in
      Changes.attempted t (ap (λ (j : ℕ). find_task j db) same ∙ found) open'
        (subst (λ (s : TaskStep). Attempted s t db db') its_step attempted)

  Step-Changes : {x y : Machine R} → Step R x y → InOrder x → Changes x.db y.db
  unfolding after_run process_one
  Step-Changes (Step.ends {db} {queue} lower text id_json c session_id id r s e) h =
      Changes.added (end_interaction-Evolves lower text id_json c session_id id r db s e h.sound).0
  Step-Changes (Step.works {db} before after m s k name) h =
      let (_, routed, _) = All-middle (Routed db) before after m h.routed in
      Delivered-Changes db _ m k name routed (process_one-Delivered R s k m.task_id db h.sound).0
  Step-Changes (Step.loses {db} before after m) h = Changes.added (λ i. Evolves.same)
  Step-Changes (Step.repeats {db} before after m) h = Changes.added (λ i. Evolves.same)
  Step-Changes (Step.claims {db} c worker lanes limit lease_seconds row_locked) h =
      Changes.polled
        (claim_due_tasks-Polled c worker lanes limit lease_seconds row_locked db h.sound)
  Step-Changes (Step.sweeps {db} now) h = Changes.polled (expire_stale_leases-Polled now db)

  -- What waits stays routed.
  Waiting-Routed :
      {db db' : Db} (queue : List Message)
      → Changes db db'
      → All (Routed db) queue
      → All (Routed db') queue
  Waiting-Routed {db} {db'} queue c h =
      All-Routed db db' queue (λ i t found. Changes-StillThere i t c found) h

  Step-InOrder : {x y : Machine R} → Step R x y → InOrder x → InOrder y
  unfolding after_run process_one
  Step-InOrder (Step.ends {db} {queue} lower text id_json c session_id id r s e) h =
      let changes = Step-Changes (Step.ends lower text id_json c session_id id r s e) h in
      let sent = (end_interaction-Evolves lower text id_json c session_id id r db s e h.sound).1 in
      record {
        sound = Changes-Sound changes h.sound;
        routed = All-append (Routed s.db) queue s.sent (Waiting-Routed queue changes h.routed) sent;
      }
  Step-InOrder (Step.works {db} before after m s k name) h =
      let changes = Step-Changes (Step.works before after m s k name) h in
      let sent = (process_one-Delivered R s k m.task_id db h.sound).1 in
      let (b, routed, a) = All-middle (Routed db) before after m h.routed in
      let waiting = All-append (Routed db) before after b a in
      record {
        sound = Changes-Sound changes h.sound;
        routed =
            All-append _ (before ++ after) _ (Waiting-Routed (before ++ after) changes waiting)
              sent;
      }
  Step-InOrder (Step.loses {db} before after m) h =
      let (b, _, a) = All-middle (Routed db) before after m h.routed in
      record { sound = h.sound; routed = All-append (Routed db) before after b a }
  Step-InOrder (Step.repeats {db} before after m) h =
      let (_, again, _) = All-middle (Routed db) before after m h.routed in
      record { sound = h.sound; routed = (again, h.routed) }
  Step-InOrder (Step.claims {db} {queue} c worker lanes limit lease_seconds row_locked) h =
      let changes = Step-Changes (Step.claims c worker lanes limit lease_seconds row_locked) h in
      record {
        sound = Changes-Sound changes h.sound;
        routed = Waiting-Routed queue changes h.routed;
      }
  Step-InOrder (Step.sweeps {db} {queue} now) h =
      let changes = Step-Changes (Step.sweeps now) h in
      record {
        sound = Changes-Sound changes h.sound;
        routed = Waiting-Routed queue changes h.routed;
      }

  -- However calls end, workers run, pollers claim rows, leases are swept, and messages get lost, come
  -- late, or come twice, in any order: once
  -- the tables hold at most one row for each step of an interaction and every message in flight
  -- names a row of the step that its worker is for, this stays so.
  pub Run-InOrder : {x y : Machine R} → Run R x y → InOrder x → InOrder y
  Run-InOrder Run.done h = h
  Run-InOrder (Run.next s run) h = Run-InOrder run (Step-InOrder s h)

  -- From tables and messages that are in order, no row is ever lost: a row that its id finds is found
  -- after any run, with the same interaction and the same step.
  pub Run-StillThere :
      {x y : Machine R} (i : ℕ) (t : ProcessingTask)
      → Run R x y
      → InOrder x
      → find_task i x.db ≡ some t
      → StillThere i t y.db
  Run-StillThere i t (Run.done {x}) h found = (t, found, refl)
  Run-StillThere i t (Run.next s run) h found =
      let (t', found', same) = Changes-StillThere i t (Step-Changes s h) found in
      let (t'', found'', same') = Run-StillThere i t' run (Step-InOrder s h) found' in
      (t'', found'', same' ∙ same)

  -- From tables and messages that are in order, a completed row is never touched again: after any
  -- run its id finds it exactly as it was, however often messages for it are delivered and leases are
  -- swept.
  pub Run-completed :
      {x y : Machine R} (i : ℕ) (t : ProcessingTask)
      → Run R x y
      → InOrder x
      → find_task i x.db ≡ some t
      → is_completed t.status ≡ true
      → find_task i y.db ≡ some t
  Run-completed i t Run.done h found done' = found
  Run-completed i t (Run.next s run) h found done' =
      Run-completed i t run (Step-InOrder s h)
        (Changes-completed i t (Step-Changes s h) found done') done'

  -- From tables and messages that are in order, no run charges an analysis twice: if every row of the
  -- token ledger is of an interaction whose analysis is completed, and no interaction has two rows,
  -- then this stays so, however rows are claimed and swept and messages are lost, repeated and
  -- delivered late, transactions being taken one after the other.
  pub Run-ChargedOnce :
      {x y : Machine R} → Run R x y → InOrder x → ChargedOnce x.db → ChargedOnce y.db
  Run-ChargedOnce Run.done h charged = charged
  Run-ChargedOnce (Run.next s run) h charged =
      Run-ChargedOnce run (Step-InOrder s h)
        (Changes-ChargedOnce h.sound (Step-Changes s h) charged)

  -- From tables and messages that are in order, the audit trail and the token ledger are append-only:
  -- after any run each has the rows it had, in their order, and others after them.
  pub Run-Appended :
      {x y : Machine R}
      → Run R x y
      → InOrder x
      → Appended x.db.audit y.db.audit × Appended x.db.ledger y.db.ledger
  Run-Appended (Run.done {x}) h = (Appended-refl x.db.audit, Appended-refl x.db.ledger)
  Run-Appended (Run.next {x} {y} {z} s run) h =
      let (audit', ledger') = Changes-Appended (Step-Changes s h) in
      let (audit, ledger) = Run-Appended run (Step-InOrder s h) in
      (
        Appended-trans x.db.audit y.db.audit z.db.audit audit' audit,
        Appended-trans x.db.ledger y.db.ledger z.db.ledger ledger' ledger,
      )
