-- ===== src/Dispatcher/Outcomes.antt =====
-- src/scheduler/task_dispatcher.py: what ends an attempt (completed, retried, dead-lettered), and the
-- sweep over stale leases.
use post_call_processing_pip.Prelude.{
  ℕ, ◌+◌, ◌/◌, max, String, Bool, true, false, ◌&&◌, List, [], ◌∷◌, Option, none, some, ltb, leb,
  if◌then◌else◌, length, select,
}
use post_call_processing_pip.Prelude.Integers.{ℤ}
use post_call_processing_pip.Json.{Json, Fields, null, str, int, instant, dict, merge}
use post_call_processing_pip.Models.{ProcessingTask, TaskStatus, AuditStatus}
use post_call_processing_pip.Context.{Context, seconds}
use post_call_processing_pip.Db.{Db, Result, ok, ◌>>=◌, save}
use post_call_processing_pip.Audit.{record_event}
use post_call_processing_pip.Dispatcher.{next_run_at, task_event}

abbrev or_else : Option ℤ → Option ℤ → Option ℤ
or_else none old = old
or_else (some n) old = some n

abbrev pub completed_row : Context → Option ℤ → ProcessingTask → ProcessingTask
completed_row c actual_tokens t = record t {
  status = TaskStatus.completed;
  completed_at = some c.now;
  locked_by = none;
  locked_until = none;
  last_error = none;
  actual_tokens = or_else actual_tokens t.actual_tokens;
}

unfoldable pub mark_completed :
    Context → Fields → Option ℤ → ProcessingTask → Db → ProcessingTask × Db
unfolding record_event
mark_completed c detail actual_tokens t db =
    (done, task_event c done AuditStatus.completed detail (save done db))
  where
    done : ProcessingTask
    done = completed_row c actual_tokens t

abbrev pub dead_letter_row : String → ProcessingTask → ProcessingTask
dead_letter_row error t = record t {
  status = TaskStatus.dead_letter;
  last_error = some error;
  locked_by = none;
  locked_until = none;
}

unfoldable pub mark_dead_letter :
    Context → String → Fields → ProcessingTask → Db → ProcessingTask × Db
unfolding record_event
mark_dead_letter c error detail t db = (
  dead,
  task_event c dead AuditStatus.dead_letter (merge (dict (("error", str error) ∷ [])) detail)
      (save dead db),
)
  where
    dead : ProcessingTask
    dead = dead_letter_row error t

-- retry_after_ms is not None and retry_after_ms > 0
abbrev pub usable_hint : Option ℕ → Option ℕ
usable_hint none = none
usable_hint (some ms) = if ltb 0 ms then some ms else none

-- The hint wins over the schedule, in whole seconds and at least one.
unfoldable pub retry_at : Context → Option ℕ → List ℕ → ℕ → Result ℕ
unfolding next_run_at
retry_at c retry_after_ms schedule attempts = elim (usable_hint retry_after_ms) [
  | some ms ↦ ok (c.now + seconds (max 1 (ms / 1000)))
  | none ↦ next_run_at c attempts schedule
]

abbrev pub scheduled_row : String → ℕ → ProcessingTask → ProcessingTask
scheduled_row error run_at t = record t {
  next_run_at = run_at;
  status = TaskStatus.scheduled;
  last_error = some error;
  locked_by = none;
  locked_until = none;
}

abbrev pub hint_json : Option ℕ → Json
hint_json none = null
hint_json (some ms) = int ms

abbrev pub reschedule :
    Context → String → Option ℕ → Fields → ProcessingTask → Db → ℕ → ProcessingTask × Db
unfolding record_event
reschedule c error retry_after_ms detail t db run_at = (
  scheduled,
  task_event c scheduled AuditStatus.retry_scheduled
      (merge
        (dict (
          ("error", str error)
          ∷ ("next_run_at", instant run_at)
          ∷ ("retry_after_ms", hint_json retry_after_ms)
          ∷ []))
        detail)
      (save scheduled db),
)
  where
    scheduled : ProcessingTask
    scheduled = scheduled_row error run_at t

unfoldable pub mark_for_retry :
    Context
    → String
    → Option ℕ
    → List ℕ
    → Fields
    → ProcessingTask
    → Db
    → Result (ProcessingTask × Db)
unfolding mark_dead_letter retry_at record_event
mark_for_retry c error retry_after_ms schedule detail t db =
    if leb t.max_attempts t.attempts then ok (mark_dead_letter c error detail t db) else (do
      run_at ← retry_at c retry_after_ms schedule t.attempts
      ok (reschedule c error retry_after_ms detail t db run_at))

abbrev in_progress? : TaskStatus → Bool
in_progress? TaskStatus.in_progress = true
in_progress? _ = false

-- status = 'in_progress' AND locked_until < now; a NULL lease is not less than anything
unfoldable pub is_stale : ℕ → ProcessingTask → Bool
is_stale now t = in_progress? t.status && elim t.locked_until [ none ↦ false | some u ↦ ltb u now ]

abbrev pub reclaimed_row : ℕ → ProcessingTask → ProcessingTask
reclaimed_row now t = record t {
  status = TaskStatus.scheduled;
  locked_by = none;
  locked_until = none;
  next_run_at = now;
}

abbrev pub reclaim_rows : ℕ → List ProcessingTask → List ProcessingTask
reclaim_rows now [] = []
reclaim_rows now (t ∷ ts) =
    (if is_stale now t then reclaimed_row now t else t) ∷ reclaim_rows now ts

-- The number of rows of the UPDATE, and the tables after it.
unfoldable pub expire_stale_leases : ℕ → Db → ℕ × Db
unfolding is_stale
expire_stale_leases now db =
    (length (select (is_stale now) db.tasks), record db { tasks = reclaim_rows now db.tasks })
