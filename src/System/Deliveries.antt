-- ===== src/System/Deliveries.antt =====
-- src/tasks/celery_tasks.py: what one delivery of a message does to the tables, and what it sends.
use post_call_processing_pip.Prelude.{
  ℕ, ◌⊎◌, some, false, ◌≡◌, refl, All, Bool-cases, Option-cases, inl, inr, ap, ◌∙◌,
}
use post_call_processing_pip.Models.{ProcessingTask, TaskStep}
use post_call_processing_pip.Db.{Db, Result, ok, err, find_task}
use post_call_processing_pip.Db.Rows.{bind_ok, ok_injective}
use post_call_processing_pip.Dispatcher.{mark_in_progress, default_lease_seconds}
use post_call_processing_pip.Redis.{SortedSets}
use post_call_processing_pip.Workers.Downstream.{
  execute_signal_jobs, execute_lead_stage, execute_crm_push,
}
use post_call_processing_pip.Workers.Recording.{execute_recording_poll, recording_backoff_seconds}
use post_call_processing_pip.Workers.Llm.{execute_llm_analysis}
use post_call_processing_pip.Harness.{
  process_one, run_task, after_commit, tables_after, messages_of, is_completed, worker_name,
}
use post_call_processing_pip.System.Keys.{Keyed, Keyed-found}
use post_call_processing_pip.System.Evolution.{Evolves, Sound, Evolves-Sound}
use post_call_processing_pip.System.Executors.{
  mark_in_progress-Evolves, execute_signal_jobs-Evolves, execute_lead_stage-Evolves,
  execute_crm_push-Evolves,
}
use post_call_processing_pip.System.Calls.{execute_recording_poll-Evolves}
use post_call_processing_pip.System.Effects.{find-replace_self}
use post_call_processing_pip.System.Analyses.{
  Attempted, uncharged-Attempted, execute_llm_analysis-Attempted,
}
use post_call_processing_pip.System.Routing.{served_step, Routed, after_commit-Routed}
use post_call_processing_pip.System.{CeleryTask, Services, analyse, executor}

-- What one delivery of a message for the row of the id `i` to the worker for the step `s` does: nothing,
-- or an attempt at that row, which is not completed.
abbrev pub Delivered : TaskStep → ℕ → Db → Db → Type 0
Delivered s i db db' =
    (db' ≡ db)
    ⊎ ((t : ProcessingTask) × (find_task i db ≡ some t)
        × (t.id ≡ i)
        × (is_completed t.status ≡ false)
        × Attempted s t db db')

-- After a roll-back the tables are those of before.
after_commit-cases :
    (P : Db → Type 0) (db : Db) (i : ℕ) (r : Result Db)
    → P db
    → ((db' : Db) → r ≡ ok db' → P db')
    → P (tables_after db (after_commit i r))
unfolding after_commit
after_commit-cases P db i (err e) h law = h
after_commit-cases P db i (ok db') h law = law db' refl

module _ (R : SortedSets) where
  module _ (s : Services R) (t u : ProcessingTask) (db db' : Db) (k : Keyed t db.tasks)
      (there : find_task t.id db ≡ some u) where
    analyse-Attempted : analyse R s t db ≡ ok db' → Attempted TaskStep.llm_analysis t db db'
    unfolding analyse
    analyse-Attempted e =
        let (r, how, e') =
          bind_ok
            (execute_llm_analysis R s.llm s.context s.budgets s.reading s.manager t db s.store) _
            db' e in
        rw (← ok_injective r.db db' e') (
          execute_llm_analysis-Attempted R s.llm s.context t db k u there s.budgets s.reading
            s.manager s.store r how)

    executor-Attempted :
        (task : CeleryTask)
        → executor R s task t db ≡ ok db'
        → Attempted (served_step task) t db db'
    unfolding executor
    executor-Attempted CeleryTask.dispatch_recording_poll e =
        let (r, how, e') =
          bind_ok
            (execute_recording_poll recording_backoff_seconds s.exhausted s.provider s.context t db)
            _ db' e in
        rw (← ok_injective r.1.1 db' e') (
          uncharged-Attempted TaskStep.recording_poll t (
            execute_recording_poll-Evolves s.context t db k recording_backoff_seconds s.exhausted
              s.provider r how))
    executor-Attempted CeleryTask.dispatch_llm_analysis_hot e = analyse-Attempted e
    executor-Attempted CeleryTask.dispatch_llm_analysis_cold e = analyse-Attempted e
    executor-Attempted CeleryTask.dispatch_signal_jobs e =
        let (r, how, e') = bind_ok (execute_signal_jobs s.trigger s.context t db) _ db' e in
        rw (← ok_injective r.1.1 db' e') (
          uncharged-Attempted TaskStep.signal_jobs t
            (execute_signal_jobs-Evolves s.context t db k s.trigger r how))
    executor-Attempted CeleryTask.dispatch_lead_stage e =
        let (r, how, e') = bind_ok (execute_lead_stage s.update s.context t db) _ db' e in
        rw (← ok_injective r.1.1 db' e') (
          uncharged-Attempted TaskStep.lead_stage t
            (execute_lead_stage-Evolves s.context t db k s.update r how))
    executor-Attempted CeleryTask.dispatch_crm_push e =
        let (r, how, e') = bind_ok (execute_crm_push s.http s.context t db) _ db' e in
        rw (← ok_injective r.1.1 db' e') (
          uncharged-Attempted TaskStep.crm_push t
            (execute_crm_push-Evolves s.context t db k s.http r how))

  -- The attempt with its claim before it.
  claimed-Attempted :
      (s : Services R) (task : CeleryTask) (t : ProcessingTask) (db db'' : Db)
      → Keyed t db.tasks
      → find_task t.id db ≡ some t
      → let (claimed, db') =
          mark_in_progress s.context (worker_name t.step) default_lease_seconds t db in
        executor R s task claimed db' ≡ ok db'' → Attempted (served_step task) t db db''
  unfolding mark_in_progress
  claimed-Attempted s task t db db'' k there e =
      let (claimed, db') =
        mark_in_progress s.context (worker_name t.step) default_lease_seconds t db in
      let (claims, k') =
        mark_in_progress-Evolves s.context t db k (worker_name t.step) default_lease_seconds in
      let (ls, evolves, charges) =
        executor-Attempted s claimed claimed db' db'' k'
          (find-replace_self claimed t db.tasks there) task e in
      (ls, Evolves.andthen claims evolves, charges)

  run_task-Attempted :
      (s : Services R) (task : CeleryTask) (t : ProcessingTask) (db : Db)
      → Keyed t db.tasks
      → find_task t.id db ≡ some t
      → Attempted
          (served_step task)
          t
          db
          (tables_after db (run_task (executor R s task) s.context t db))
  unfolding run_task
  run_task-Attempted s task t db k there =
      after_commit-cases (λ db'. Attempted (served_step task) t db db') db t.interaction_id _
        (uncharged-Attempted (served_step task) t Evolves.same)
        (λ db'' e. claimed-Attempted s task t db db'' k there e)

  run_task-Routed :
      (s : Services R) (task : CeleryTask) (t : ProcessingTask) (db : Db)
      → Sound (tables_after db (run_task (executor R s task) s.context t db))
      → All
          (Routed (tables_after db (run_task (executor R s task) s.context t db)))
          (messages_of (run_task (executor R s task) s.context t db))
  unfolding run_task
  run_task-Routed s task t db sound = after_commit-Routed db t.interaction_id _ sound

  pub process_one-Delivered :
      (s : Services R) (task : CeleryTask) (task_id : ℕ) (db : Db)
      → Sound db
      → let run = process_one (executor R s task) s.context task_id db in
        Delivered (served_step task) task_id db (tables_after db run)
        × All (Routed (tables_after db run)) (messages_of run)
  unfolding process_one
  process_one-Delivered s task task_id db sound = elim (Option-cases (find_task task_id db)) [
    | inl missing ↦ rw (missing, process_one) (inl refl, tt)
    | inr (t, found) ↦ elim (Bool-cases (is_completed t.status)) [
      | inl done' ↦ rw (found, process_one, done') (inl refl, tt)
      | inr open' ↦
          let (same, k) = Keyed-found task_id db.tasks t sound.unique_ids found in
          let attempted =
            run_task-Attempted s task t db k (ap (λ (j : ℕ). find_task j db) same ∙ found) in
          rw (found, process_one, open')
            (
              inr (t, refl, same, open', attempted),
              run_task-Routed s task t db (Evolves-Sound attempted.1 sound),
            )
    ]
  ]
