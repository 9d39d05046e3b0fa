-- ===== src/Workers/Polls.antt =====
-- src/services/recording_poller.py: how a poll ends, whatever the provider answers.
use mathlib.Core.List.{Forall₂}
use post_call_processing_pip.Dispatcher.Outcomes.{mark_for_retry}
use post_call_processing_pip.Prelude.{
  ◌∙◌, ℕ, String, List, [], ◌∷◌, none, some, false, ◌≡◌, refl, ◌≢◌, ◌⊎◌, inl, inr, ◌<◌, ◌≤◌, ◌*◌,
  ◌+◌, arith, Bool-cases, leb, ◌==◌,
}
use post_call_processing_pip.Json.{str}
use post_call_processing_pip.Models.{ProcessingTask, Interaction, RecordingStatus, TaskStatus}
use post_call_processing_pip.Context.{Context, seconds}
use post_call_processing_pip.Audit.{record_event}
use post_call_processing_pip.Workers.{or_json}
use post_call_processing_pip.Json.{get_or_null}
use post_call_processing_pip.Workers.Recording.{probe_event, try_fetch_recording}
use post_call_processing_pip.Workers.Probes.{Probed, try_fetch_recording-Probed, Probed-keyed}
use post_call_processing_pip.Db.{Db, ok, update_rows}
use post_call_processing_pip.Dispatcher.Attempts.{mark_for_retry_total}
use post_call_processing_pip.Workers.Recording.{
  RecordingProbeStatus, ProbeResult, Provider, poll_available, poll_no_call, poll_exhausted,
  poll_again, settle_poll, execute_recording_poll, error_text, probe_detail, try_fetch_recording,
}

-- From `r` to `r'`: the interaction of id `i` changes as `Q` says, and every other is left as it is.
abbrev Updated : ℕ → (Interaction → Interaction → Type 0) → Interaction → Interaction → Type 0
Updated i Q r r' = ((r.id ≢ i) × (r' ≡ r)) ⊎ ((r.id ≡ i) × Q r r')

-- The interaction keeps its id and what it has of a recording, and has that recording status.
abbrev Marked : RecordingStatus → Interaction → Interaction → Type 0
Marked s r r' =
    (r'.id ≡ r.id)
    × (r'.recording_status ≡ s)
    × (r'.recording_s3_key ≡ r.recording_s3_key)
    × (r'.recording_url ≡ r.recording_url)

-- The interaction keeps its id, and has the recording under that key and URL.
abbrev Kept : String → String → Interaction → Interaction → Type 0
Kept key url r r' =
    (r'.id ≡ r.id)
    × (r'.recording_status ≡ RecordingStatus.available)
    × (r'.recording_s3_key ≡ some key)
    × (r'.recording_url ≡ some url)

-- The interaction of that id, if it is in the table, gets that recording status.
abbrev pub RecordingIs : RecordingStatus → ℕ → Db → Db → Type 0
RecordingIs s i db db' = Forall₂ (Updated i (Marked s)) db.interactions db'.interactions

-- The interaction of that id, if it is in the table, gets the recording under that key and URL.
abbrev pub RecordedAt : String → String → ℕ → Db → Db → Type 0
RecordedAt key url i db db' = Forall₂ (Updated i (Kept key url)) db.interactions db'.interactions

update_rows-Updated :
    (i : ℕ) (f : Interaction → Interaction) (Q : Interaction → Interaction → Type 0)
    → ((r : Interaction) → Q r (f r))
    → (rs : List Interaction) → Forall₂ (Updated i Q) rs (update_rows i f rs)
update_rows-Updated i f Q h [] = Forall₂.nil
update_rows-Updated i f Q h (r ∷ rs) = elim (Bool-cases (r.id == i)) [
  | inl same ↦
      rw same (Forall₂.cons (inr (ground (arith, same), h r)) (update_rows-Updated i f Q h rs))
  | inr other ↦
      rw other (Forall₂.cons (inl (ground (arith, other), refl)) (update_rows-Updated i f Q h rs))
]

-- The ways in which a poll of a task ends, with the row and the tables that it leaves.
pub data Polled (c : Context) (t : ProcessingTask) (db : Db) (r : ProbeResult)
    (ended : ProcessingTask × Db) : Type 0 where
  -- the recording is there
  stored :
      (key url : String)
      → r.status ≡ RecordingProbeStatus.available
      → r.s3_key ≡ some key
      → r.recording_url ≡ some url
      → ended.0.status ≡ TaskStatus.completed
      → RecordedAt key url t.interaction_id db ended.1
      → Polled c t db r ended
  -- there is none and will be none
  without_recording :
      r.status ≡ RecordingProbeStatus.no_call
      → ended.0.status ≡ TaskStatus.completed
      → RecordingIs RecordingStatus.no_recording t.interaction_id db ended.1
      → Polled c t db r ended
  -- not yet, and the attempts are used up
  gave_up :
      (r.status ≡ RecordingProbeStatus.not_ready) ⊎ (r.status ≡ RecordingProbeStatus.provider_error)
      → t.max_attempts ≤ t.attempts
      → ended.0.status ≡ TaskStatus.dead_letter
      → RecordingIs RecordingStatus.failed t.interaction_id db ended.1
      → Polled c t db r ended
  -- not yet, and a later poll is scheduled
  polls_again :
      (r.status ≡ RecordingProbeStatus.not_ready) ⊎ (r.status ≡ RecordingProbeStatus.provider_error)
      → t.attempts < t.max_attempts
      → ended.0.status ≡ TaskStatus.scheduled
      → c.now + seconds 1 ≤ ended.0.next_run_at
      → ended.0.last_error ≡ some (error_text r)
      → ended.1.interactions ≡ db.interactions
      → Polled c t db r ended

module _ (s : ℕ) (ss : List ℕ) (exhausted : ℕ → String → String) (c : Context)
    (den_pos : 0 < c.draw_den) (draw_le : c.draw_num ≤ 20 * c.draw_den) where
  poll_again_left :
      (r : ProbeResult) (t : ProcessingTask) (db : Db)
      → leb t.max_attempts t.attempts ≡ false
      → poll_again (s ∷ ss) exhausted c r t db
        ≡ mark_for_retry c (error_text r) none (s ∷ ss) (probe_detail r) t (probe_event c r t db)
  unfolding poll_again
  poll_again_left r t db left = rw (poll_again, left)

  poll_again_total :
      (r : ProbeResult) (t : ProcessingTask) (db : Db)
      → (r.status ≡ RecordingProbeStatus.not_ready)
        ⊎ (r.status ≡ RecordingProbeStatus.provider_error)
      → (ended : ProcessingTask × Db) × (poll_again (s ∷ ss) exhausted c r t db ≡ ok ended)
        × Polled c t db r ended
  unfolding poll_again poll_exhausted record_event
  poll_again_total r t db absent = elim (Bool-cases (leb t.max_attempts t.attempts)) [
    | inl spent ↦ (
      poll_exhausted (s ∷ ss) exhausted c r t db,
      rw (poll_again, spent),
      Polled.gave_up absent (ground arith) refl
          (update_rows-Updated _ _ _ (λ i. (refl, refl, refl, refl)) db.interactions),
    )
    | inr left ↦
        let (ended, e, (released, because, how)) =
          mark_for_retry_total c (error_text r) none s ss (probe_detail r) t (probe_event c r t db)
            den_pos draw_le in
        (
          ended,
          poll_again_left r t db left ∙ e,
          elim how [
            | inl (spent, dead, flushed) ↦ absurd (ground arith)
            | inr (room, waits, ahead, flushed) ↦
                Polled.polls_again absent room waits ahead because flushed.same_interactions
          ],
        )
  ]

  settle_poll_total :
      (status : RecordingProbeStatus) (r : ProbeResult) (t : ProcessingTask) (db : Db)
      → r.status ≡ status
      → (r.status ≡ RecordingProbeStatus.available
          → (key : String) × (url : String) × (r.s3_key ≡ some key) × (r.recording_url ≡ some url))
      → (ended : ProcessingTask × Db) × (settle_poll (s ∷ ss) exhausted c status r t db ≡ ok ended)
        × Polled c t db r ended
  unfolding settle_poll poll_available poll_no_call
  settle_poll_total RecordingProbeStatus.available r t db e keyed =
      let (key, url, k, u) = keyed e in
      (
        poll_available (s ∷ ss) exhausted c r t db,
        refl,
        Polled.stored key url e k u refl
            (update_rows-Updated _ _ _ (λ i. (refl, refl, rw k refl, rw u refl)) db.interactions),
      )
  settle_poll_total RecordingProbeStatus.no_call r t db e keyed = (
    poll_no_call (s ∷ ss) exhausted c r t db,
    refl,
    Polled.without_recording e refl
        (update_rows-Updated _ _ _ (λ i. (refl, refl, refl, refl)) db.interactions),
  )
  settle_poll_total RecordingProbeStatus.not_ready r t db e keyed = poll_again_total r t db (inl e)
  settle_poll_total RecordingProbeStatus.provider_error r t db e keyed =
      poll_again_total r t db (inr e)

  -- With a draw of `random.uniform(-10, 10)` and a schedule that has an entry, a poll ends whatever
  -- the provider answers, the body of a 200 being a JSON object whose URL is a text, null or missing,
  -- and what it found is what the provider answered: without a call SID there
  -- is no call; a 404 or no URL is not ready; another status, an HTTP error or a failed upload is a
  -- provider error with its text; an upload that succeeds is available with its key and URL. Where
  -- the recording is available the task is completed and the interaction has that key and URL; where
  -- there is no call the task is completed and the interaction marked so; else, with the attempts used
  -- up, the task is dead-lettered and the interaction marked as failed, or another poll is scheduled
  -- at least a second ahead with the reason, and the interaction is left alone. No other interaction
  -- changes.
  pub execute_recording_poll_total :
      (p : Provider) (t : ProcessingTask) (db : Db)
      → (r : ProbeResult × (ProcessingTask × Db)) × (execute_recording_poll
            (s ∷ ss)
            exhausted
            p
            c
            t
            db
          ≡ ok r)
        × Probed p t.interaction_id
            (or_json (get_or_null "call_sid" t.payload) (str ""))
            (or_json (get_or_null "exotel_account_id" t.payload) (str ""))
            r.0
        × Polled c t db r.0 r.1
  unfolding execute_recording_poll
  execute_recording_poll_total p t db =
      let call_sid = or_json (get_or_null "call_sid" t.payload) (str "") in
      let account = or_json (get_or_null "exotel_account_id" t.payload) (str "") in
      let result = try_fetch_recording p t.interaction_id call_sid account in
      let probed = try_fetch_recording-Probed p t.interaction_id call_sid account in
      let (ended, e, polled) =
        settle_poll_total _ result t db refl
          (Probed-keyed p t.interaction_id call_sid account result probed) in
      ((_, ended), rw (execute_recording_poll, e), probed, polled)
