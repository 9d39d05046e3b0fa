-- ===== src/Workers/Downstream.antt =====
-- src/tasks/workers/signal_worker.py, lead_stage_worker.py and crm_worker.py, with the services of
-- src/services/signal_jobs.py.
use post_call_processing_pip.Prelude.{
  ℕ, String, List, [], ◌∷◌, Option, none, if◌then◌else◌, Bool, true, false, leb, str_eq,
}
use post_call_processing_pip.Json.{
  Json, Fields, bool, str, arr, obj, cons, field, dict, end, get_or_null, truthy, int,
}
use post_call_processing_pip.Models.{ProcessingTask}
use post_call_processing_pip.Context.{Context, or_text}
use post_call_processing_pip.Db.{Db, Result, ok, err, type_error, ◌>>=◌}
use post_call_processing_pip.Dispatcher.Outcomes.{mark_completed}
use post_call_processing_pip.Workers.{
  or_json, analysis_result, get_of, get_or_empty_text, fail_attempt,
}

-- How a call of a service ends: it returns, or it raises an exception with this text.
pub data Sent : Type 0 where
  delivered : Sent
  raised : String → Sent

-- The arguments of `trigger_signal_jobs`; the program sends the texts of the values.
pub record SignalCall : Type 0 where
  pub interaction_id : ℕ
  pub session_id : Json
  pub campaign_id : ℕ
  pub analysis : Json

-- As it stands in the repository, where it only logs.
abbrev pub trigger_signal_jobs : SignalCall → Sent
trigger_signal_jobs call = Sent.delivered

abbrev pub signal_call : ProcessingTask → SignalCall
signal_call t = record {
  interaction_id = t.interaction_id;
  session_id = get_or_empty_text "session_id" t.payload;
  campaign_id = t.campaign_id;
  analysis = analysis_result t.payload;
}

abbrev pub signal_detail : Json → ProcessingTask → Fields
unfolding truthy
signal_detail call_stage t =
    dict (
      ("call_stage", call_stage) ∷ ("has_analysis", bool (truthy (analysis_result t.payload))) ∷ [])

unfoldable pub execute_signal_jobs :
    (SignalCall → Sent) → Context → ProcessingTask → Db → Result (Bool × (ProcessingTask × Db))
unfolding fail_attempt mark_completed get_of
execute_signal_jobs trigger c t db = elim (trigger (signal_call t)) [
  | raised error ↦ (do
    r ←
        fail_attempt c error none (dict (("error", str error) ∷ []))
          (dict (("target", str "signal_jobs") ∷ [])) t db
    ok (false, r))
  | delivered ↦ (do
    call_stage ← get_of "call_stage" (analysis_result t.payload)
    ok (true, mark_completed c (signal_detail call_stage t) none t db))
]

abbrev pub call_stage_to_lead_stage : List (String × String)
call_stage_to_lead_stage =
    ("rebook_confirmed", "booked")
    ∷ ("demo_booked", "booked")
    ∷ ("callback_requested", "follow_up")
    ∷ ("considering", "follow_up")
    ∷ ("escalation_needed", "escalation")
    ∷ ("not_interested", "closed_lost")
    ∷ ("already_done", "closed_won")
    ∷ ("short_call", "no_contact")
    ∷ []

-- _CALL_STAGE_TO_LEAD_STAGE.get(call_stage, "follow_up")
abbrev pub lead_stage_of : String → List (String × String) → String
lead_stage_of s [] = "follow_up"
lead_stage_of s ((k, v) ∷ l) = if str_eq k s then v else lead_stage_of s l

-- A list or a dict that is not empty cannot be looked up: it has no hash.
unfoldable pub map_call_stage_to_lead_stage : Json → Result String
map_call_stage_to_lead_stage (str s) = ok (lead_stage_of s call_stage_to_lead_stage)
map_call_stage_to_lead_stage (arr (cons x xs)) = err type_error
map_call_stage_to_lead_stage (obj (field k v d)) = err type_error
map_call_stage_to_lead_stage _ = ok "follow_up"

pub record LeadStageCall : Type 0 where
  pub lead_id : Json
  pub interaction_id : ℕ
  pub call_stage : String

-- As it stands in the repository, where it only logs.
abbrev pub update_lead_stage : LeadStageCall → Sent
update_lead_stage call = Sent.delivered

abbrev pub lead_stage_call : ProcessingTask → String → LeadStageCall
lead_stage_call t lead_stage = record {
  lead_id = get_or_empty_text "lead_id" t.payload;
  interaction_id = t.interaction_id;
  call_stage = lead_stage;
}

abbrev pub stages : Json → String → List (String × Json)
stages call_stage lead_stage = ("call_stage", call_stage) ∷ ("lead_stage", str lead_stage) ∷ []

-- The attempt, once both stages are known.
unfoldable pub push_lead_stage :
    (LeadStageCall → Sent)
    → Context
    → Json
    → String
    → ProcessingTask
    → Db
    → Result (Bool × (ProcessingTask × Db))
unfolding fail_attempt mark_completed
push_lead_stage update c call_stage lead_stage t db = elim (update (lead_stage_call t lead_stage)) [
  | raised error ↦ (do
    r ←
        fail_attempt c error none (dict (("error", str error) ∷ stages call_stage lead_stage)) end t
          db
    ok (false, r))
  | delivered ↦ ok (true, mark_completed c (dict (stages call_stage lead_stage)) none t db)
]

unfoldable pub execute_lead_stage :
    (LeadStageCall → Sent) → Context → ProcessingTask → Db → Result (Bool × (ProcessingTask × Db))
unfolding push_lead_stage get_of map_call_stage_to_lead_stage
execute_lead_stage update c t db = do
  call_stage ← get_of "call_stage" (analysis_result t.payload)
  lead_stage ← map_call_stage_to_lead_stage call_stage
  push_lead_stage update c call_stage lead_stage t db

-- How the HTTP POST ends: with a status, or with an exception of this text.
pub data Posted : Type 0 where
  responded : ℕ → Posted
  no_response : String → Posted

-- The outside of the CRM worker: the POST of a body to a URL, `urlparse(url).hostname` (none where it
-- has none or raises), and the text of an error status, f"CRM responded {status}".
pub record Http : Type 0 where
  pub post : Json → Fields → Posted
  pub hostname : Json → Option String
  pub status_error : ℕ → String
  -- str of an id
  pub id_text : ℕ → String

-- _host
abbrev pub host : Http → Json → String
unfolding truthy
host h url = if truthy url then or_text (h.hostname url) "" else ""

abbrev pub url_host : Http → Json → String × Json
url_host h url = ("crm_url_host", str (host h url))

abbrev pub crm_body : Http → ProcessingTask → Json → Json → Json → Fields
crm_body h t call_stage summary entities = dict (
    ("interaction_id", str (h.id_text t.interaction_id))
    ∷ ("customer_id", str (h.id_text t.customer_id))
    ∷ ("campaign_id", str (h.id_text t.campaign_id))
    ∷ ("call_stage", call_stage)
    ∷ ("summary", summary)
    ∷ ("entities", or_json entities (obj end))
    ∷ [])

unfoldable pub crm_failed :
    Http → Context → Json → String → ProcessingTask → Db → Result (Bool × (ProcessingTask × Db))
unfolding fail_attempt
crm_failed h c crm_url error t db = do
  r ←
      fail_attempt c error none (dict (("error", str error) ∷ url_host h crm_url ∷ []))
        (dict (url_host h crm_url ∷ [])) t db
  ok (false, r)

abbrev pub crm_pushed : Http → Context → Json → ℕ → ProcessingTask → Db → ProcessingTask × Db
unfolding mark_completed
crm_pushed h c crm_url status =
    mark_completed c (dict (url_host h crm_url ∷ ("response_code", int status) ∷ [])) none

unfoldable pub push_crm :
    Http → Context → Json → Fields → ProcessingTask → Db → Result (Bool × (ProcessingTask × Db))
unfolding crm_failed
push_crm h c crm_url body t db = elim (h.post crm_url body) [
  | no_response error ↦ crm_failed h c crm_url error t db
  | responded status ↦
      if leb 400 status
      then crm_failed h c crm_url (h.status_error status) t db
      else ok (true, crm_pushed h c crm_url status t db)
]

-- The body is built only for a customer who has a CRM.
unfoldable pub crm_attempt :
    Http → Context → Json → ProcessingTask → Db → Result (Bool × (ProcessingTask × Db))
unfolding push_crm get_of
crm_attempt h c crm_url t db = do
  call_stage ← get_of "call_stage" (analysis_result t.payload)
  summary ← get_of "summary" (analysis_result t.payload)
  entities ← get_of "entities" (analysis_result t.payload)
  push_crm h c crm_url (crm_body h t call_stage summary entities) t db

unfoldable pub execute_crm_push :
    Http → Context → ProcessingTask → Db → Result (Bool × (ProcessingTask × Db))
unfolding crm_attempt mark_completed get_or_null truthy
execute_crm_push h c t db =
    let crm_url = get_or_null "crm_webhook_url" t.payload in
    if truthy crm_url
    then crm_attempt h c crm_url t db
    else ok (true, mark_completed c (dict (("reason", str "no_crm_configured") ∷ [])) none t db)
