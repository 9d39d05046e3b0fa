-- ===== src/Workers/Probes.antt =====
-- src/services/recording.py, `try_fetch_recording`: what a probe finds, by the provider's answers.
use post_call_processing_pip.Prelude.{
  ℕ, String, Option, none, some, true, false, ◌≡◌, refl, ◌≢◌, ◌⊎◌, inl, inr, arith, Bool-cases,
  ◌==◌, str_eq,
}
use post_call_processing_pip.Json.{Json, truthy}
use post_call_processing_pip.Workers.Recording.{
  RecordingProbeStatus, ProbeResult, Provider, Fetched, Url, probe_of, url_of, upload_result,
  fetch_exotel_recording_url, try_fetch_recording,
}

-- What the probe of a call with a SID finds, by how the GET ended and what the upload answered.
pub data Answered (p : Provider) (interaction_id : ℕ) (answer : Fetched) (r : ProbeResult)
    : Type 0 where
  -- the provider knows no recording yet
  absent :
      (body : Option String)
      → answer ≡ Fetched.responded 404 body
      → r.status ≡ RecordingProbeStatus.not_ready
      → r.detail ≡ none
      → Answered p interaction_id answer r
  -- it names no URL
  without_url :
      (answer ≡ Fetched.responded 200 none)
        ⊎ ((url : String) × (answer ≡ Fetched.responded 200 (some url)) × (str_eq url "" ≡ true))
      → r.status ≡ RecordingProbeStatus.not_ready
      → r.detail ≡ none
      → Answered p interaction_id answer r
  -- another status
  unexpected :
      (status : ℕ) (body : Option String)
      → answer ≡ Fetched.responded status body
      → status ≢ 200
      → status ≢ 404
      → r.status ≡ RecordingProbeStatus.provider_error
      → r.detail ≡ some (p.unexpected_status status)
      → Answered p interaction_id answer r
  -- no response
  failed :
      (error : String)
      → answer ≡ Fetched.http_failed error
      → r.status ≡ RecordingProbeStatus.provider_error
      → r.detail ≡ some error
      → Answered p interaction_id answer r
  -- a URL, and the upload succeeds
  uploaded :
      (url key error : String)
      → answer ≡ Fetched.responded 200 (some url)
      → str_eq url "" ≡ false
      → p.upload url interaction_id ≡ (some key, error)
      → r.status ≡ RecordingProbeStatus.available
      → r.s3_key ≡ some key
      → r.recording_url ≡ some url
      → Answered p interaction_id answer r
  -- a URL, and the upload fails
  not_uploaded :
      (url error : String)
      → answer ≡ Fetched.responded 200 (some url)
      → str_eq url "" ≡ false
      → p.upload url interaction_id ≡ (none, error)
      → r.status ≡ RecordingProbeStatus.provider_error
      → r.detail ≡ some (p.upload_failed error)
      → Answered p interaction_id answer r

-- What the probe of a call finds: none without a SID, and else what the provider answers.
abbrev pub Probed : Provider → ℕ → Json → Json → ProbeResult → Type 0
Probed p interaction_id call_sid account r =
    ((truthy call_sid ≡ false)
      × (r.status ≡ RecordingProbeStatus.no_call)
      × (r.detail ≡ some "missing call_sid"))
    ⊎ ((truthy call_sid ≡ true) × Answered p interaction_id (p.get_recording call_sid account) r)

upload_result-Answered :
    (p : Provider) (i : ℕ) (url : String) (u : Option String × String)
    → str_eq url "" ≡ false
    → p.upload url i ≡ u
    → Answered p i (Fetched.responded 200 (some url)) (upload_result p url u)
upload_result-Answered p i url (some key, error) e up =
    Answered.uploaded url key error refl e up refl refl refl
upload_result-Answered p i url (none, error) e up =
    Answered.not_uploaded url error refl e up refl refl

found-Answered :
    (p : Provider) (i : ℕ) (url : Option String)
    → Answered p i (Fetched.responded 200 url) (probe_of p i (Url.found url))
found-Answered p i none = Answered.without_url (inl refl) refl refl
found-Answered p i (some url) = elim (Bool-cases (str_eq url "")) [
  | inl empty ↦ rw empty (Answered.without_url (inr (url, refl, empty)) refl refl)
  | inr full ↦ rw full (upload_result-Answered p i url (p.upload url i) full refl)
]

probe_of-Answered :
    (p : Provider) (i : ℕ) (answer : Fetched) → Answered p i answer (probe_of p i (url_of p answer))
probe_of-Answered p i (Fetched.http_failed error) = Answered.failed error refl refl refl
probe_of-Answered p i (Fetched.responded n body) = elim (Bool-cases (n == 200)) [
  | inl fine ↦ let same : n ≡ 200 = ground (arith, fine) in rw same (found-Answered p i body)
  | inr other ↦ elim (Bool-cases (n == 404)) [
    | inl gone ↦
        let same : n ≡ 404 = ground (arith, gone) in rw same (Answered.absent body refl refl refl)
    | inr odd ↦
        rw (other, odd) (Answered.unexpected n body refl (ground arith) (ground arith) refl refl)
  ]
]

pub try_fetch_recording-Probed :
    (p : Provider) (i : ℕ) (call_sid account : Json)
    → Probed p i call_sid account (try_fetch_recording p i call_sid account)
unfolding try_fetch_recording fetch_exotel_recording_url
try_fetch_recording-Probed p i call_sid account = elim (Bool-cases (truthy call_sid)) [
  | inl sid ↦ rw sid (inr (refl, probe_of-Answered p i (p.get_recording call_sid account)))
  | inr missing ↦ rw missing (inl (refl, refl, refl))
]

-- What is available has a key and a URL.
pub Probed-keyed :
    (p : Provider) (i : ℕ) (call_sid account : Json) (r : ProbeResult)
    → Probed p i call_sid account r
    → r.status ≡ RecordingProbeStatus.available
    → (key : String) × (url : String) × (r.s3_key ≡ some key) × (r.recording_url ≡ some url)
Probed-keyed p i call_sid account r (inl (missing, e, d)) a = absurd (ground (arith, e, a))
Probed-keyed p i call_sid account r (inr (sid, h)) a = elim h [
  | Answered.absent body f e d ↦ absurd (ground (arith, e, a))
  | Answered.without_url f e d ↦ absurd (ground (arith, e, a))
  | Answered.unexpected n body f ne ne' e d ↦ absurd (ground (arith, e, a))
  | Answered.failed error f e d ↦ absurd (ground (arith, e, a))
  | Answered.uploaded url key error f full up e k u ↦ (key, url, k, u)
  | Answered.not_uploaded url error f full up e d ↦ absurd (ground (arith, e, a))
]
