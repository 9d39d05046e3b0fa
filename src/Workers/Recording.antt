-- ===== src/Workers/Recording.antt =====
-- src/services/recording_poller.py over the probe of src/services/recording.py.
use post_call_processing_pip.Prelude.{
  ℕ, String, List, [], ◌∷◌, Option, none, some, if◌then◌else◌, leb, str_eq, ◌==◌,
}
use post_call_processing_pip.Json.{Json, Fields, null, str, dict, get_or_null, truthy}
use post_call_processing_pip.Models.{ProcessingTask, RecordingStatus, AuditStatus}
use post_call_processing_pip.Context.{Context, or_text}
use post_call_processing_pip.Audit.{record_event}
use post_call_processing_pip.Db.{Db, Result, ok, ◌>>=◌, update_interaction}
use post_call_processing_pip.Dispatcher.{task_event}
use post_call_processing_pip.Dispatcher.Outcomes.{mark_completed, mark_dead_letter, mark_for_retry}
use post_call_processing_pip.Workers.{or_json}

pub data RecordingProbeStatus : Type 0 where
  available not_ready provider_error no_call : RecordingProbeStatus

-- RecordingProbeStatus.value
abbrev pub status_text : RecordingProbeStatus → String
status_text RecordingProbeStatus.available = "available"
status_text RecordingProbeStatus.not_ready = "not_ready"
status_text RecordingProbeStatus.provider_error = "provider_error"
status_text RecordingProbeStatus.no_call = "no_call"

pub record ProbeResult : Type 0 where
  pub status : RecordingProbeStatus
  pub recording_url : Option String
  pub s3_key : Option String
  pub detail : Option String

-- How the GET of the recording ends: with a status and what its body's `recording_url` is, or with an
-- httpx.HTTPError of this text.
pub data Fetched : Type 0 where
  responded : ℕ → Option String → Fetched
  http_failed : String → Fetched

-- What the GET of a call's recording (call, account) and the upload of a recording (URL, interaction)
-- answer, the upload with the key or with the text of its exception; and the texts that the program
-- formats: f"unexpected status {n}" and f"s3_upload_failed: {exc}".
pub record Provider : Type 0 where
  pub get_recording : Json → Json → Fetched
  pub upload : String → ℕ → Option String × String
  pub unexpected_status : ℕ → String
  pub upload_failed : String → String

-- What `_fetch_exotel_recording_url` returns or raises.
pub data Url : Type 0 where
  found : Option String → Url
  no_call_sid : String → Url
  http_error : String → Url

abbrev pub url_of : Provider → Fetched → Url
url_of p (responded status url) =
    if status == 200
    then Url.found url
    else if status == 404
    then Url.found none
    else Url.http_error (p.unexpected_status status)
url_of p (http_failed error) = Url.http_error error

-- _fetch_exotel_recording_url
unfoldable pub fetch_exotel_recording_url : Provider → Json → Json → Url
unfolding truthy
fetch_exotel_recording_url p call_sid account_id =
    if truthy call_sid
    then url_of p (p.get_recording call_sid account_id)
    else Url.no_call_sid "missing call_sid"

abbrev pub probe : RecordingProbeStatus → Option String → ProbeResult
probe status detail = record {
  status = status;
  recording_url = none;
  s3_key = none;
  detail = detail;
}

abbrev pub upload_result : Provider → String → Option String × String → ProbeResult
upload_result p url (some key, error) = record {
  status = RecordingProbeStatus.available;
  recording_url = some url;
  s3_key = some key;
  detail = none;
}
upload_result p url (none, error) = record {
  status = RecordingProbeStatus.provider_error;
  recording_url = some url;
  s3_key = none;
  detail = some (p.upload_failed error);
}

-- `try_fetch_recording`, once the URL is known
abbrev pub probe_of : Provider → ℕ → Url → ProbeResult
probe_of p interaction_id (no_call_sid error) = probe RecordingProbeStatus.no_call (some error)
probe_of p interaction_id (http_error error) =
    probe RecordingProbeStatus.provider_error (some error)
probe_of p interaction_id (found none) = probe RecordingProbeStatus.not_ready none
probe_of p interaction_id (found (some url)) =
    if str_eq url ""
    then probe RecordingProbeStatus.not_ready none
    else upload_result p url (p.upload url interaction_id)

unfoldable pub try_fetch_recording : Provider → ℕ → Json → Json → ProbeResult
unfolding fetch_exotel_recording_url
try_fetch_recording p interaction_id call_sid account_id =
    probe_of p interaction_id (fetch_exotel_recording_url p call_sid account_id)

abbrev keep_or : Option String → Option String → Option String
keep_or none old = old
keep_or (some new) old = some new

-- _set_interaction_recording
abbrev pub set_interaction_recording : ℕ → RecordingStatus → Option String → Option String → Db → Db
set_interaction_recording interaction_id status s3_key recording_url =
    update_interaction interaction_id (λ i. record i {
      recording_status = status;
      recording_s3_key = keep_or s3_key i.recording_s3_key;
      recording_url = keep_or recording_url i.recording_url;
    })

abbrev pub text_or_null : Option String → Json
text_or_null none = null
text_or_null (some s) = str s

-- result.detail or result.status.value
abbrev pub error_text : ProbeResult → String
error_text r = or_text r.detail (status_text r.status)

abbrev pub probe_detail : ProbeResult → Fields
probe_detail r = dict (("probe_status", str (status_text r.status)) ∷ [])

abbrev pub probe_event : Context → ProbeResult → ProcessingTask → Db → Db
unfolding record_event
probe_event c r t =
    task_event c t AuditStatus.probe_not_ready
      (dict (("probe_status", str (status_text r.status)) ∷ ("detail", text_or_null r.detail) ∷ []))

module _ (schedule : List ℕ) (exhausted : ℕ → String → String) where
  unfoldable pub poll_available : Context → ProbeResult → ProcessingTask → Db → ProcessingTask × Db
  unfolding mark_completed
  poll_available c r t db =
      mark_completed c (dict (("recording_s3_key", text_or_null r.s3_key) ∷ [])) none t (
        set_interaction_recording t.interaction_id RecordingStatus.available r.s3_key
          r.recording_url db)

  unfoldable pub poll_no_call : Context → ProbeResult → ProcessingTask → Db → ProcessingTask × Db
  unfolding mark_completed
  poll_no_call c r t db =
      mark_completed c
        (dict (("reason", str "no_call_sid") ∷ ("provider_detail", text_or_null r.detail) ∷ []))
        none t
        (set_interaction_recording t.interaction_id RecordingStatus.no_recording none none db)

  unfoldable pub poll_exhausted : Context → ProbeResult → ProcessingTask → Db → ProcessingTask × Db
  unfolding mark_dead_letter
  poll_exhausted c r t db =
      mark_dead_letter c (exhausted t.attempts (error_text r))
        (dict (("final_probe_status", str (status_text r.status)) ∷ [])) t
        (set_interaction_recording t.interaction_id RecordingStatus.failed none none db)

  -- NOT_READY or PROVIDER_ERROR. `schedule` is RECORDING_BACKOFF_SECONDS, and `exhausted` formats
  -- f"recording_unavailable_after_{attempts}_attempts: {error_text}".
  unfoldable pub poll_again :
      Context → ProbeResult → ProcessingTask → Db → Result (ProcessingTask × Db)
  unfolding poll_exhausted mark_for_retry
  poll_again c r t db =
      if leb t.max_attempts t.attempts
      then ok (poll_exhausted c r t db)
      else mark_for_retry c (error_text r) none schedule (probe_detail r) t (probe_event c r t db)

  unfoldable pub settle_poll :
      Context
      → RecordingProbeStatus
      → ProbeResult
      → ProcessingTask
      → Db
      → Result (ProcessingTask × Db)
  unfolding poll_available poll_no_call poll_again
  settle_poll c RecordingProbeStatus.available r t db = ok (poll_available c r t db)
  settle_poll c RecordingProbeStatus.no_call r t db = ok (poll_no_call c r t db)
  settle_poll c RecordingProbeStatus.not_ready r t db = poll_again c r t db
  settle_poll c RecordingProbeStatus.provider_error r t db = poll_again c r t db

  unfoldable pub execute_recording_poll :
      Provider → Context → ProcessingTask → Db → Result (ProbeResult × (ProcessingTask × Db))
  unfolding settle_poll try_fetch_recording get_or_null truthy
  execute_recording_poll p c t db =
      let result =
        try_fetch_recording p t.interaction_id (or_json (get_or_null "call_sid" t.payload) (str ""))
          (or_json (get_or_null "exotel_account_id" t.payload) (str "")) in
      (do ended ← settle_poll c result.status result t db; ok (result, ended))

abbrev pub recording_backoff_seconds : List ℕ
recording_backoff_seconds = 5 ∷ 15 ∷ 30 ∷ 60 ∷ 120 ∷ 240 ∷ []

abbrev pub recording_max_attempts : ℕ
recording_max_attempts = 6
