-- ===== src/Dispatcher.antt =====
-- src/scheduler/task_dispatcher.py: the durable state machine of `processing_tasks` rows. An
-- operation takes the row object it changes and the tables, and returns both. Log lines are left out.
pub mod Outcomes
pub mod Backoff
pub mod Attempts
pub mod Claims
pub mod Order
pub mod Enqueue
pub mod Exhaustion
pub mod Sweep
mod Tests
use post_call_processing_pip.Prelude.{
  ℕ, zero, suc, ◌+◌, ◌-◌, ◌*◌, ◌/◌, ◌≤◌, min, max, String, Bool, true, false, not, ◌&&◌, List, [],
  ◌∷◌, ◌++◌, map, Option, none, some, ltb, leb, ◌==◌, if◌then◌else◌, length, get_elem?, take,
  select, any,
}
use post_call_processing_pip.Prelude.Integers.{ℤ}
use post_call_processing_pip.Json.{Json, Fields, null, str, int, instant, dict, merge}
use post_call_processing_pip.Models.{
  ProcessingTask, TaskStep, TaskLane, TaskStatus, AuditStatus, same_lane,
}
use post_call_processing_pip.Context.{Context, seconds, or_text}
use post_call_processing_pip.Db.{
  Db, Result, ok, err, index_error, ◌>>=◌, save, insert, find_step, has_interaction,
  integrity_error,
}
use post_call_processing_pip.Audit.{record_event}

abbrev pub default_backoff_schedule : List ℕ
default_backoff_schedule = 5 ∷ 15 ∷ 60 ∷ 180 ∷ 300 ∷ 600 ∷ []

abbrev pub default_lease_seconds : ℕ
default_lease_seconds = 30

abbrev pub default_retry_jitter_pct : ℕ
default_retry_jitter_pct = 10

-- int(base + base * (draw / 100)); the product with the draw is exact, not rounded to a float
abbrev pub jittered : Context → ℕ → ℕ
jittered c base =
    base * ((100 - default_retry_jitter_pct) * c.draw_den + c.draw_num) / (100 * c.draw_den)

-- schedule[min(max(attempt, 0), len(schedule) - 1)]; an empty schedule is indexed at -1
abbrev pub backoff_base : ℕ → List ℕ → Option ℕ
backoff_base attempt schedule = get_elem? schedule (min attempt (length schedule - 1))

unfoldable pub next_run_at : Context → ℕ → List ℕ → Result ℕ
next_run_at c attempt schedule = elim (backoff_base attempt schedule) [
  | none ↦ err index_error
  | some base ↦ ok (c.now + seconds (max 1 (jittered c base)))
]

-- The arguments of `enqueue_step`.
pub record NewStep : Type 0 where
  pub interaction_id : ℕ
  pub customer_id : ℕ
  pub campaign_id : ℕ
  pub correlation_id : Option String
  pub step : TaskStep
  pub lane : TaskLane
  pub payload : Fields
  pub estimated_tokens : ℕ
  pub next_run_at : Option ℕ
  pub max_attempts : ℕ

abbrev pub lane_text : TaskLane → String
lane_text TaskLane.hot = "hot"
lane_text TaskLane.cold = "cold"
lane_text TaskLane.skip = "skip"

abbrev pub or_now : Option ℕ → ℕ → ℕ
or_now none now = now
or_now (some t) now = t

abbrev pub new_task : Context → NewStep → ℕ → ProcessingTask
new_task c n id = record {
  id = id;
  interaction_id = n.interaction_id;
  customer_id = n.customer_id;
  campaign_id = n.campaign_id;
  correlation_id = or_text n.correlation_id (or_text c.correlation_id c.uuid_hex);
  step = n.step;
  lane = n.lane;
  status = TaskStatus.pending;
  attempts = 0;
  max_attempts = n.max_attempts;
  next_run_at = or_now n.next_run_at c.now;
  last_error = none;
  payload = n.payload;
  estimated_tokens = n.estimated_tokens;
  actual_tokens = none;
  locked_by = none;
  locked_until = none;
  completed_at = none;
}

-- The INSERT, once the foreign key lets it pass, and its audit row.
abbrev pub enqueue_new : Context → NewStep → Db → ProcessingTask × Db
unfolding record_event
enqueue_new c n db = (
  task,
  record_event c n.interaction_id n.customer_id (some task.correlation_id) n.step
      AuditStatus.enqueued 0
      (dict (("lane", str (lane_text n.lane)) ∷ ("estimated_tokens", int n.estimated_tokens) ∷ []))
      (insert task db),
)
  where
    task : ProcessingTask
    task = new_task c n db.next_id

-- The flush of a new row raises an IntegrityError where the table has no such interaction.
unfoldable pub enqueue_step : Context → NewStep → Db → Result (ProcessingTask × Db)
unfolding enqueue_new record_event
enqueue_step c n db = elim (find_step n.interaction_id n.step db) [
  | some existing ↦ ok (existing, db)
  | none ↦
      if has_interaction n.interaction_id db then ok (enqueue_new c n db) else err integrity_error
]

-- What `enqueue_step` returns and leaves where it does not raise.
unfoldable pub add_step : Context → NewStep → Db → ProcessingTask × Db
unfolding enqueue_new record_event
add_step c n db = elim (find_step n.interaction_id n.step db) [
  | some existing ↦ (existing, db)
  | none ↦ enqueue_new c n db
]

-- `record_event` about a task, as every operation below calls it.
abbrev pub task_event : Context → ProcessingTask → AuditStatus → Fields → Db → Db
unfolding record_event
task_event c t status detail =
    record_event c t.interaction_id t.customer_id (some t.correlation_id) t.step status t.attempts
      detail

abbrev is_claimable : TaskStatus → Bool
is_claimable TaskStatus.pending = true
is_claimable TaskStatus.scheduled = true
is_claimable _ = false

-- locked_until IS NULL OR locked_until < now
abbrev pub lease_over : ℕ → Option ℕ → Bool
lease_over now none = true
lease_over now (some until) = ltb until now

unfoldable pub is_due : ℕ → List TaskLane → ProcessingTask → Bool
is_due now lanes t =
    is_claimable t.status
    && any (same_lane t.lane) lanes
    && leb t.next_run_at now
    && lease_over now t.locked_until

-- ORDER BY next_run_at ASC; rows that tie keep the order of the table
pub insert_by_run_at : ProcessingTask → List ProcessingTask → List ProcessingTask
insert_by_run_at t [] = t ∷ []
insert_by_run_at t (r ∷ rs) =
    if leb t.next_run_at r.next_run_at then t ∷ r ∷ rs else r ∷ insert_by_run_at t rs

pub sort_by_run_at : List ProcessingTask → List ProcessingTask
unfolding insert_by_run_at
sort_by_run_at [] = []
sort_by_run_at (t ∷ ts) = insert_by_run_at t (sort_by_run_at ts)

abbrev pub claim_row : Context → String → ℕ → ProcessingTask → ProcessingTask
claim_row c worker lease_seconds t = record t {
  status = TaskStatus.in_progress;
  attempts = t.attempts + 1;
  locked_by = some worker;
  locked_until = some (c.now + seconds lease_seconds);
}

abbrev claim_detail : String → ℕ → Fields
claim_detail worker lease_seconds =
    dict (("locked_by", str worker) ∷ ("lease_seconds", int lease_seconds) ∷ [])

-- the body of the loop of `claim_due_tasks`, and all of `mark_in_progress`
unfoldable pub mark_in_progress : Context → String → ℕ → ProcessingTask → Db → ProcessingTask × Db
unfolding record_event
mark_in_progress c worker lease_seconds t db = (
  claimed,
  task_event c claimed AuditStatus.in_progress (claim_detail worker lease_seconds)
      (save claimed db),
)
  where
    claimed : ProcessingTask
    claimed = claim_row c worker lease_seconds t

unfoldable pub claim_rows :
    Context → String → ℕ → List ProcessingTask → Db → List ProcessingTask × Db
unfolding mark_in_progress
claim_rows c worker lease_seconds [] db = ([], db)
claim_rows c worker lease_seconds (t ∷ ts) db =
    let (claimed, db') = mark_in_progress c worker lease_seconds t db in
    let (rest, db'') = claim_rows c worker lease_seconds ts db' in (claimed ∷ rest, db'')

-- The rows that the SELECT returns: `row_locked` are the rows that other transactions hold
-- (SKIP LOCKED).
unfoldable pub due_rows : ℕ → List TaskLane → ℕ → (ℕ → Bool) → Db → List ProcessingTask
unfolding sort_by_run_at is_due
due_rows now lanes limit row_locked db =
    take limit (sort_by_run_at (select (λ t. is_due now lanes t && not (row_locked t.id)) db.tasks))

unfoldable pub claim_due_tasks :
    Context → String → List TaskLane → ℕ → ℕ → (ℕ → Bool) → Db → List ProcessingTask × Db
unfolding claim_rows due_rows
claim_due_tasks c worker lanes limit lease_seconds row_locked db =
    claim_rows c worker lease_seconds (due_rows c.now lanes limit row_locked db) db
