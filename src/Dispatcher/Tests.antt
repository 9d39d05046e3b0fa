-- ===== src/Dispatcher/Tests.antt =====
-- The dispatcher at concrete rows.
use post_call_processing_pip.Models.Sample.{sample_interaction}
use post_call_processing_pip.Prelude.{
  ℕ, ◌+◌, ◌*◌, ◌/◌, ◌%◌, max, min, ◌≤◌, ◌<◌, ◌≡◌, ◌≢◌, ◌↔◌, refl, List, [], ◌∷◌, ◌++◌, none, some,
  true, false, not, ◌&&◌, arith, length, select, All,
}
use mathlib.Core.List.{Perm, Forall₂}
use post_call_processing_pip.Json.{end}
use post_call_processing_pip.Models.{ProcessingTask, TaskStep, TaskLane, TaskStatus}
use post_call_processing_pip.Context.{Context, seconds}
use post_call_processing_pip.Db.{Db, ok}
use post_call_processing_pip.Dispatcher.{
  NewStep, next_run_at, new_task, default_backoff_schedule, enqueue_step, add_step, claim_due_tasks,
  due_rows, is_due,
}
use post_call_processing_pip.Dispatcher.Outcomes.{retry_at, mark_for_retry, expire_stale_leases}
use post_call_processing_pip.Dispatcher.Backoff.{next_run_at_bounds, retry_at_hint}
use post_call_processing_pip.Dispatcher.Attempts.{Retried, mark_for_retry_total}
use post_call_processing_pip.Dispatcher.Exhaustion.{Failure}
use post_call_processing_pip.Dispatcher.Claims.{claim_due_tasks-disjoint}
use post_call_processing_pip.Dispatcher.Order.{NotBefore, due_rows-earliest}
use post_call_processing_pip.Dispatcher.Enqueue.{enqueue_step_again, enqueue_step-add_step}
use post_call_processing_pip.Dispatcher.Sweep.{
  Swept, expire_stale_leases-Swept, crash_rounds, crash_rounds_alive, both_lanes,
}

abbrev context : Context
context = record {
  now = 1000000000;
  correlation_id = some "req-1";
  uuid_hex = "0123abcd";
  draw_num = 13;
  draw_den = 1;
}

abbrev new_step : NewStep
new_step = record {
  interaction_id = 7;
  customer_id = 3;
  campaign_id = 2;
  correlation_id = none;
  step = TaskStep.llm_analysis;
  lane = TaskLane.hot;
  payload = end;
  estimated_tokens = 1500;
  next_run_at = none;
  max_attempts = 6;
}

abbrev hot_task : ProcessingTask
hot_task = new_task context new_step 1

abbrev poll_task : ProcessingTask
poll_task = record hot_task { id = 2; step = TaskStep.recording_poll; next_run_at = 999000000 }

abbrev crashed_task : ProcessingTask
crashed_task = record hot_task {
  id = 3;
  interaction_id = 8;
  status = TaskStatus.in_progress;
  attempts = 1;
  locked_by = some "worker-1";
  locked_until = some 990000000;
}

abbrev one_task : Db
one_task = record { tasks = hot_task ∷ []; audit = []; ledger = []; interactions = []; next_id = 4 }

abbrev three_tasks : Db
three_tasks = record one_task { tasks = hot_task ∷ poll_task ∷ crashed_task ∷ [] }

next_run_at_bounds_example :
    (run_at : ℕ) × (next_run_at context 2 default_backoff_schedule ≡ ok run_at)
    × (context.now + seconds (max 1 (60 * 9 / 10)) ≤ run_at)
    × (run_at ≤ context.now + seconds (max 1 (60 * 11 / 10)))
next_run_at_bounds_example =
    next_run_at_bounds context 2 5 (15 ∷ 60 ∷ 180 ∷ 300 ∷ 600 ∷ []) (omega arith) (omega arith)

retry_at_hint_example :
    (run_at : ℕ) × (retry_at context (some 1999) default_backoff_schedule 1 ≡ ok run_at)
    × (run_at ≤ context.now + 1999 * 1000)
    × (context.now + 1999 * 1000 < run_at + seconds 1)
    × ((run_at ≡ context.now + 1999 * 1000) ↔ (1999 % 1000 ≡ 0))
retry_at_hint_example = retry_at_hint context 1999 default_backoff_schedule 1 (omega arith)

mark_for_retry_total_example :
    (r : ProcessingTask × Db) × (mark_for_retry context "timeout" none
        (5 ∷ 15 ∷ [])
        end
        crashed_task
        three_tasks
      ≡ ok r)
    × Retried context "timeout" crashed_task three_tasks r
mark_for_retry_total_example =
    mark_for_retry_total context "timeout" none 5 (15 ∷ []) end crashed_task three_tasks
      (omega arith) (omega arith)

abbrev hinted : Failure
hinted = record {
  taken = context;
  worker = "worker-1";
  lease_seconds = 30;
  failed = record context { now = 1005000000 };
  error = "timeout";
  retry_after_ms = some 1999;
  detail = end;
}

abbrev unhinted : Failure
unhinted = record hinted { worker = "worker-2"; retry_after_ms = none }

claim_due_tasks-disjoint_example :
    let (first, db') =
      claim_due_tasks context "worker-1" both_lanes 1 30 (λ _. false) three_tasks in
    let (second, _) = claim_due_tasks context "worker-2" both_lanes 5 30 (λ _. false) db' in
    All (λ t. All (λ u. u.id ≢ t.id) second) first
claim_due_tasks-disjoint_example =
    claim_due_tasks-disjoint context context "worker-1" "worker-2" both_lanes both_lanes 1 5 30 30
      (λ _. false) (λ _. false) three_tasks

due_rows-earliest_example :
    let due = select (λ t. is_due context.now both_lanes t && not false) three_tasks.tasks in
    let chosen = due_rows context.now both_lanes 1 (λ _. false) three_tasks in
    (rest : List ProcessingTask) × Perm (chosen ++ rest) due
    × (length chosen ≡ min 1 (length (chosen ++ rest)))
    × All (λ r. All (NotBefore r.next_run_at) rest) chosen
due_rows-earliest_example = due_rows-earliest context.now both_lanes 1 (λ _. false) three_tasks

abbrev with_interaction : Db
with_interaction = record three_tasks {
  interactions = sample_interaction new_step.interaction_id ∷ [];
}

enqueue_step_again_example :
    enqueue_step context
      (record new_step { lane = TaskLane.cold })
      (add_step context new_step with_interaction).1
    ≡ ok (
      (add_step context new_step with_interaction).0,
      (add_step context new_step with_interaction).1,
    )
enqueue_step_again_example =
    enqueue_step_again context context new_step (record new_step { lane = TaskLane.cold })
      with_interaction (add_step context new_step with_interaction).0
      (add_step context new_step with_interaction).1 refl refl
      (enqueue_step-add_step context new_step with_interaction refl)

expire_stale_leases-Swept_example :
    let db' = (expire_stale_leases context.now three_tasks).1 in
    Forall₂ (Swept context.now) three_tasks.tasks db'.tasks × (db'.audit ≡ three_tasks.audit)
expire_stale_leases-Swept_example = expire_stale_leases-Swept context.now three_tasks

hot_task-due : is_due context.now both_lanes hot_task ≡ true
unfolding is_due
hot_task-due = refl

crash_rounds_alive_example :
    (t' : ProcessingTask) × ((crash_rounds "worker-1" 4 30 7 context one_task).tasks ≡ t' ∷ [])
    × (t'.attempts ≡ hot_task.attempts + 7)
    × (t'.max_attempts ≡ hot_task.max_attempts)
    × (t'.status ≢ TaskStatus.dead_letter)
crash_rounds_alive_example =
    crash_rounds_alive "worker-1" 4 30 7 context one_task hot_task refl hot_task-due
