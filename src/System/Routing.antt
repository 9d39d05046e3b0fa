-- ===== src/System/Routing.antt =====
-- Which messages name a row of the step that their worker is for.
use mathlib.Core.List.{Memᴰ}
use mathlib.Core.Path.{subst}
use post_call_processing_pip.Prelude.{
  ℕ, ap, ◌≡◌, refl, ◌∙◌, List, [], ◌∷◌, some, find, All, All-mono, ◌==◌, arith, Bool-cases, inl,
  inr, true, false, All-select, sym, String, if◌then◌else◌, str_eq,
}
use post_call_processing_pip.Models.{ProcessingTask, TaskStep, same_step, same_step_iff}
use post_call_processing_pip.Db.{Db, Result, ok, err, find_task, find_step, is_step}
use post_call_processing_pip.Harness.{
  Message, send, messages, downstream_dispatch, is_downstream, after_commit, messages_of,
  tables_after,
}
use post_call_processing_pip.System.Keys.{Key, UniqueIds, NoId, some_injective}
use post_call_processing_pip.System.Evolution.{Sound, StillThere}
use post_call_processing_pip.System.{CeleryTask, task_name}

-- The step whose rows a Celery task is for.
abbrev pub served_step : CeleryTask → TaskStep
served_step CeleryTask.dispatch_recording_poll = TaskStep.recording_poll
served_step CeleryTask.dispatch_llm_analysis_hot = TaskStep.llm_analysis
served_step CeleryTask.dispatch_llm_analysis_cold = TaskStep.llm_analysis
served_step CeleryTask.dispatch_signal_jobs = TaskStep.signal_jobs
served_step CeleryTask.dispatch_lead_stage = TaskStep.lead_stage
served_step CeleryTask.dispatch_crm_push = TaskStep.crm_push

-- The step by the name of the task.
abbrev named_step : String → TaskStep
named_step name =
    if str_eq name "dispatch.recording_poll"
    then TaskStep.recording_poll
    else if str_eq name "dispatch.signal_jobs"
    then TaskStep.signal_jobs
    else if str_eq name "dispatch.lead_stage"
    then TaskStep.lead_stage
    else if str_eq name "dispatch.crm_push"
    then TaskStep.crm_push
    else TaskStep.llm_analysis

named_step-task_name : (k : CeleryTask) → named_step (task_name k) ≡ served_step k
named_step-task_name CeleryTask.dispatch_recording_poll = refl
named_step-task_name CeleryTask.dispatch_llm_analysis_hot = refl
named_step-task_name CeleryTask.dispatch_llm_analysis_cold = refl
named_step-task_name CeleryTask.dispatch_signal_jobs = refl
named_step-task_name CeleryTask.dispatch_lead_stage = refl
named_step-task_name CeleryTask.dispatch_crm_push = refl

-- The name of a task tells the step that it is for.
pub served_step_named :
    (k k' : CeleryTask) → task_name k ≡ task_name k' → served_step k ≡ served_step k'
served_step_named k k' e = sym (named_step-task_name k) ∙ ap named_step e ∙ named_step-task_name k'

-- The message is for a task of Celery, and names a row of the step that this task is for.
abbrev pub Routed : Db → Message → Type 0
Routed db m =
    (k : CeleryTask) × (t : ProcessingTask) × (m.task_name ≡ task_name k)
    × (find_task m.task_id db ≡ some t)
    × (t.step ≡ served_step k)

-- Once routed, a message stays so while every row is still there.
pub All-Routed :
    (db db' : Db) (queue : List Message)
    → ((i : ℕ) (t : ProcessingTask) → find_task i db ≡ some t → StillThere i t db')
    → All (Routed db) queue
    → All (Routed db') queue
All-Routed db db' queue kept h =
    All-mono _ _ queue
      (λ m (k, t, name, found, step).
        let (t', found', same) = kept m.task_id t found in
        (k, t', name, found', ap (λ (x : Key). x.step) same ∙ step))
      h

NoId-cons :
    (i : ℕ) (r : ProcessingTask) (rs : List ProcessingTask)
    → NoId i (r ∷ rs)
    → ((r.id == i) ≡ false) × NoId i rs
NoId-cons i r rs h = elim (Bool-cases (r.id == i)) [
  | inl here ↦ absurd (cc (rw here at h))
  | inr there ↦ (there, rw there at h)
]

NoId-Mem :
    (i : ℕ) (rs : List ProcessingTask) (t : ProcessingTask)
    → NoId i rs
    → Memᴰ t rs
    → (t.id == i) ≡ false
NoId-Mem i [] t h m = elim m [ ]
NoId-Mem i (r ∷ rs) t h (Memᴰ.head e) =
    subst (λ (x : ProcessingTask). (x.id == i) ≡ false) (sym e) (NoId-cons i r rs h).0
NoId-Mem i (r ∷ rs) t h (Memᴰ.tail m) = NoId-Mem i rs t (NoId-cons i r rs h).1 m

-- A row of the table is the one that its id finds.
pub find_task-Mem :
    (rs : List ProcessingTask) (t : ProcessingTask)
    → UniqueIds rs
    → Memᴰ t rs
    → find (λ r. r.id == t.id) rs ≡ some t
find_task-Mem [] t u m = elim m [ ]
find_task-Mem (r ∷ rs) t u (Memᴰ.head e) =
    let self : (r.id == r.id) ≡ true = ground arith in
    subst (λ (x : ProcessingTask). find (λ q. q.id == x.id) (r ∷ rs) ≡ some x) (sym e) (rw self)
find_task-Mem (r ∷ rs) t u (Memᴰ.tail m) =
    let other = NoId-Mem r.id rs t u.0 m in
    let other' : (r.id == t.id) ≡ false = ground arith in rw other' (find_task-Mem rs t u.1 m)

find_step-Mem :
    (i : ℕ) (s : TaskStep) (rs : List ProcessingTask) (t : ProcessingTask)
    → find (is_step i s) rs ≡ some t
    → Memᴰ t rs × (t.step ≡ s)
find_step-Mem i s [] t h = absurd (cc h)
find_step-Mem i s (r ∷ rs) t h = elim (Bool-cases (is_step i s r)) [
  | inl here ↦
      let found : r ≡ t = some_injective r t (rw here at h) in
      let step : same_step r.step s ≡ true = ground arith in
      (
        Memᴰ.head (sym found),
        subst (λ (x : ProcessingTask). x.step ≡ s) found ((same_step_iff r.step s).0 step),
      )
  | inr there ↦ let (m, step) = find_step-Mem i s rs t (rw there at h) in (Memᴰ.tail m, step)
]

-- The row that a lookup by its step finds is found by its id.
pub find_step-find_task :
    (i : ℕ) (s : TaskStep) (db : Db) (t : ProcessingTask)
    → Sound db
    → find_step i s db ≡ some t
    → (find_task t.id db ≡ some t) × (t.step ≡ s)
find_step-find_task i s db t sound h =
    let (m, step) = find_step-Mem i s db.tasks t h in
    (find_task-Mem db.tasks t sound.unique_ids m, step)

pub All-Mem : (ts : List ProcessingTask) → All (λ t. Memᴰ t ts) ts
All-Mem [] = tt
All-Mem (t ∷ ts) = (Memᴰ.head refl, All-mono _ _ ts (λ u m. Memᴰ.tail m) (All-Mem ts))

send-Routed :
    (db : Db) (t : ProcessingTask) (rest : List Message)
    → find_task t.id db ≡ some t
    → All (Routed db) rest
    → (s : TaskStep) → t.step ≡ s
    → All (Routed db) (send t (downstream_dispatch s) rest)
send-Routed db t rest h r TaskStep.recording_poll e =
    ((CeleryTask.dispatch_recording_poll, t, refl, h, e), r)
send-Routed db t rest h r TaskStep.llm_analysis e = r
send-Routed db t rest h r TaskStep.signal_jobs e =
    ((CeleryTask.dispatch_signal_jobs, t, refl, h, e), r)
send-Routed db t rest h r TaskStep.lead_stage e =
    ((CeleryTask.dispatch_lead_stage, t, refl, h, e), r)
send-Routed db t rest h r TaskStep.crm_push e = ((CeleryTask.dispatch_crm_push, t, refl, h, e), r)

messages-Routed :
    (db : Db) (l : List ProcessingTask)
    → Sound db
    → All (λ t. Memᴰ t db.tasks) l
    → All (Routed db) (messages l)
messages-Routed db [] sound h = tt
messages-Routed db (t ∷ l) sound h =
    send-Routed db t (messages l) (find_task-Mem db.tasks t sound.unique_ids h.0)
      (messages-Routed db l sound h.1) t.step refl

-- What the harness sends after a commit is routed.
pub after_commit-Routed :
    (db : Db) (i : ℕ) (r : Result Db)
    → Sound (tables_after db (after_commit i r))
    → All (Routed (tables_after db (after_commit i r))) (messages_of (after_commit i r))
unfolding after_commit
after_commit-Routed db i (err e) sound = tt
after_commit-Routed db i (ok db') sound =
    messages-Routed db' _ sound
      (All-mono _ _ _ (λ t h. h.0) (All-select _ (is_downstream i) db'.tasks (All-Mem db'.tasks)))
