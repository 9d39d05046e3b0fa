-- ===== src/Dispatcher/Exhaustion.antt =====
-- src/scheduler/task_dispatcher.py: a task whose attempts all fail, from `mark_in_progress` to
-- `mark_for_retry` each time.
use post_call_processing_pip.Prelude.{
  ℕ, ◌+◌, ◌*◌, ◌≤◌, ◌<◌, ◌≡◌, ◌⊎◌, String, List, [], ◌∷◌, Option, none,
}
use post_call_processing_pip.Json.{Fields}
use post_call_processing_pip.Models.{ProcessingTask, TaskStatus}
use post_call_processing_pip.Context.{Context}
use post_call_processing_pip.Db.{Db, Result, ok, ◌>>=◌}
use post_call_processing_pip.Dispatcher.{mark_in_progress}
use post_call_processing_pip.Dispatcher.Outcomes.{mark_for_retry}

-- One attempt that fails: who takes the task and when, and when and how it ends.
pub record Failure : Type 0 where
  pub taken : Context
  pub worker : String
  pub lease_seconds : ℕ
  pub failed : Context
  pub error : String
  pub retry_after_ms : Option ℕ
  pub detail : Fields

-- The draw of the failure is one of `random.uniform(-10, 10)`.
abbrev pub Fair : Failure → Type 0
Fair f = (0 < f.failed.draw_den) × (f.failed.draw_num ≤ 20 * f.failed.draw_den)

module _ (s : ℕ) (ss : List ℕ) where
  abbrev pub fail_once : Failure → ProcessingTask × Db → Result (ProcessingTask × Db)
  unfolding mark_in_progress mark_for_retry
  fail_once f (t, db) =
      let (claimed, db') = mark_in_progress f.taken f.worker f.lease_seconds t db in
      mark_for_retry f.failed f.error f.retry_after_ms (s ∷ ss) f.detail claimed db'

  abbrev pub fail_all : List Failure → ProcessingTask × Db → Result (ProcessingTask × Db)
  fail_all [] r = ok r
  fail_all (f ∷ fs) r = fail_once f r >>= fail_all fs

  -- `t'` is what `n` failures make of `t`.
  abbrev pub FailedTimes : ℕ → ProcessingTask → ProcessingTask → Type 0
  FailedTimes n t t' =
      (t'.id ≡ t.id)
      × (t'.payload ≡ t.payload)
      × (t'.attempts ≡ t.attempts + n)
      × (t'.max_attempts ≡ t.max_attempts)
      × (t'.locked_by ≡ none)
      × (((t.attempts + n ≡ t.max_attempts) × (t'.status ≡ TaskStatus.dead_letter))
          ⊎ ((t.attempts + n < t.max_attempts) × (t'.status ≡ TaskStatus.scheduled)))
