-- ===== src/Harness/Dispatch.antt =====
-- src/tasks/celery_tasks.py: which rows the harness sends on.
use mathlib.Core.List.{Memᴰ}
use post_call_processing_pip.Prelude.{
  ℕ, String, true, ◌≡◌, refl, ◌≢◌, List, [], ◌∷◌, Option, none, some, All, All-mono, All-select,
  arith, Bool-cases, Option-cases, inl, inr,
}
use post_call_processing_pip.Models.{ProcessingTask, TaskStep, TaskStatus}
use post_call_processing_pip.Context.{Context}
use post_call_processing_pip.Db.{Db, Result, ok, err, find_task}
use post_call_processing_pip.Harness.{
  Message, send, messages, messages_of, tables_after, is_downstream, downstream_dispatch,
  process_one, run_task, after_commit, is_completed,
}

-- The message names a row of the table, a pending one of another step than the analysis.
abbrev pub Sendable : List ProcessingTask → Message → Type 0
Sendable ts m =
    (t : ProcessingTask) × Memᴰ t ts
    × (t.id ≡ m.task_id)
    × (t.status ≡ TaskStatus.pending)
    × (t.step ≢ TaskStep.llm_analysis)

All-Mem : (ts : List ProcessingTask) → All (λ t. Memᴰ t ts) ts
All-Mem [] = tt
All-Mem (t ∷ ts) = (Memᴰ.head refl, All-mono _ _ ts (λ u m. Memᴰ.tail m) (All-Mem ts))

pending_of : (i : ℕ) (t : ProcessingTask) → is_downstream i t ≡ true → t.status ≡ TaskStatus.pending
unfolding is_downstream
pending_of i t h = ground arith

send-Sendable :
    (ts : List ProcessingTask) (t : ProcessingTask) (name : Option String) (rest : List Message)
    → downstream_dispatch t.step ≡ name
    → Memᴰ t ts
    → t.status ≡ TaskStatus.pending
    → All (Sendable ts) rest
    → All (Sendable ts) (send t name rest)
send-Sendable ts t none rest e m p h = h
send-Sendable ts t (some name) rest e m p h = ((t, m, refl, p, λ e'. ground (arith, e, e')), h)

messages-Sendable :
    (i : ℕ) (ts l : List ProcessingTask)
    → All (λ t. Memᴰ t ts × (is_downstream i t ≡ true)) l
    → All (Sendable ts) (messages l)
unfolding is_downstream
messages-Sendable i ts [] h = tt
messages-Sendable i ts (t ∷ l) h =
    send-Sendable ts t (downstream_dispatch t.step) (messages l) refl h.0.0 (pending_of i t h.0.1)
      (messages-Sendable i ts l h.1)

after_commit-Sendable :
    (i : ℕ) (db : Db) (r : Result Db)
    → All (Sendable (tables_after db (after_commit i r)).tasks) (messages_of (after_commit i r))
unfolding after_commit
after_commit-Sendable i db (err e) = tt
after_commit-Sendable i db (ok db') =
    messages-Sendable i db'.tasks _ (All-select _ (is_downstream i) db'.tasks (All-Mem db'.tasks))

-- Whatever a worker does, every message that the harness sends names a pending row of the tables that
-- it leaves committed, and no row of the analysis step: a task that is scheduled for a retry is never
-- sent on.
pub process_one-Sendable :
    (executor : ProcessingTask → Db → Result Db) (c : Context) (task_id : ℕ) (db : Db)
    → let run = process_one executor c task_id db in
      All (Sendable (tables_after db run).tasks) (messages_of run)
unfolding process_one run_task
process_one-Sendable executor c task_id db = elim (Option-cases (find_task task_id db)) [
  | inl missing ↦ rw (process_one, missing) tt
  | inr (t, found) ↦ elim (Bool-cases (is_completed t.status)) [
    | inl done ↦ rw (process_one, found, done) tt
    | inr open' ↦ rw (process_one, found, open') (after_commit-Sendable t.interaction_id db _)
  ]
]
