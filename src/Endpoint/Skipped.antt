-- ===== src/Endpoint/Skipped.antt =====
-- src/api/endpoints.py with src/tasks/workers/lead_stage_worker.py: a skipped call, to its end.
use post_call_processing_pip.Prelude.{
  true, ℕ, String, ◌≡◌, refl, ◌⊎◌, inl, inr, ◌<◌, ◌≤◌, ◌*◌, Bool, List, [], ◌∷◌, none, some,
}
use post_call_processing_pip.Json.{
  get_or, Json, Fields, arr, nil, str, dict, obj, get_or_null, truthy,
}
use post_call_processing_pip.Models.{ProcessingTask, TaskStep}
use post_call_processing_pip.Context.{Context}
use post_call_processing_pip.Db.{has_interaction, Db, ok, find_step}
use post_call_processing_pip.Dispatcher.Enqueue.{UniqueSteps}
use post_call_processing_pip.Classifier.{Lane, classify_transcript}
use post_call_processing_pip.Workers.{analysis_result}
use post_call_processing_pip.Workers.Downstream.{
  Sent, LeadStageCall, lead_stage_call, execute_lead_stage, map_call_stage_to_lead_stage,
}
use post_call_processing_pip.Workers.Attempts.{Succeeded, Failed, execute_lead_stage_total}
use post_call_processing_pip.Endpoint.{
  InteractionEndRequest, Served, end_interaction, skip_payload, Message, get_or,
}
use post_call_processing_pip.Endpoint.Loading.{load_interaction, transcript_lines, Loaded}
use post_call_processing_pip.Endpoint.Outcome.{CallEnded, end_interaction_total}

abbrev short_call : Fields
short_call = dict (("call_stage", str "short_call") ∷ [])

skip_payload-analysis :
    (t : ProcessingTask) (lead_id : Json)
    → t.payload ≡ skip_payload lead_id
    → analysis_result t.payload ≡ obj short_call
unfolding get_or_null truthy
skip_payload-analysis t lead_id e = rw e

short_call-no_contact :
    map_call_stage_to_lead_stage (get_or_null "call_stage" short_call) ≡ ok "no_contact"
unfolding map_call_stage_to_lead_stage get_or_null
short_call-no_contact = refl

-- The row of a skipped call, if there was none.
skip_row :
    (c : Context) (id : ℕ) (r : InteractionEndRequest) (i : Loaded) (lane : Lane) (payload : Fields)
    (id_json : ℕ → Json) (db : Db) (sent : List Message) (db' : Db)
    → lane ≡ Lane.skip
    → find_step id TaskStep.lead_stage db ≡ none
    → CallEnded c id r i lane payload id_json db sent db'
    → (t : ProcessingTask) × (find_step id TaskStep.lead_stage db' ≡ some t)
      × (t.payload ≡ skip_payload (id_json i.lead_id))
skip_row c id r i Lane.skip payload id_json db sent db' skipped no_lead ended = (
  ended.task,
  ended.stored,
  elim ended.enqueued [ inl (old) ↦ cc (no_lead, old) | inr (new, customer, e, _, _) ↦ e ],
)
skip_row c id r i Lane.hot payload id_json db sent db' skipped no_lead ended = absurd (cc skipped)
skip_row c id r i Lane.cold payload id_json db sent db' skipped no_lead ended = absurd (cc skipped)

-- A call that is classified as skip, of an interaction in the table without a lead-stage row, is served
-- with a lead-stage row, if its transcript can be iterated and the rows are within the UNIQUE constraint;
-- and an attempt at that row, whenever it is made and in whatever tables, with a draw of
-- `random.uniform(-10, 10)`, asks for the stage "no_contact" and ends: completed if the update returns,
-- and retried or given up if it raises.
pub end_interaction_skipped :
    (lower : String → String) (text : Json → String) (id_json : ℕ → Json) (c : Context)
    (session_id id : ℕ) (r : InteractionEndRequest) (db : Db) (lines : List String)
    (update : LeadStageCall → Sent) (c' : Context) (db' : Db)
    → has_interaction id db ≡ true
    → UniqueSteps db.tasks
    → transcript_lines text
        (get_or (arr nil) "transcript" (load_interaction id db).conversation_data)
      ≡ ok lines
    → (classify_transcript lower [] (load_interaction id db).conversation_data).lane ≡ Lane.skip
    → find_step id TaskStep.lead_stage db ≡ none
    → 0 < c'.draw_den
    → c'.draw_num ≤ 20 * c'.draw_den
    → (s : Served) × (t : ProcessingTask) × (out : Bool × (ProcessingTask × Db)) × (end_interaction
          lower text id_json c session_id id r db
        ≡ ok s)
      × (find_step id TaskStep.lead_stage s.db ≡ some t)
      × (execute_lead_stage update c' t db' ≡ ok out)
      × (((update (lead_stage_call t "no_contact") ≡ Sent.delivered) × Succeeded c' t db' out)
          ⊎ ((error : String) × (update (lead_stage_call t "no_contact") ≡ Sent.raised error)
              × Failed c' error t db' out))
end_interaction_skipped lower text id_json c session_id id r db lines update c' db' there u read
      skipped no_lead den_pos draw_le =
    let (s, run, response, unique, ended) =
      end_interaction_total lower text id_json c session_id id r db lines there u read in
    let (t, found, payload) =
      skip_row c id r (load_interaction id db) _ _ id_json db s.sent s.db skipped no_lead ended in
    let (out, attempt, how) =
      execute_lead_stage_total c' t db' short_call den_pos draw_le
        (skip_payload-analysis t (id_json (load_interaction id db).lead_id) payload) update
        "no_contact" short_call-no_contact in
    (s, t, out, run, found, attempt, how)
