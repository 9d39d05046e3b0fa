-- ===== src/System/Requests.antt =====
-- src/api/endpoints.py: what the end of a call does to the task table, and what it sends.
use mathlib.Core.Path.{subst}
use post_call_processing_pip.Prelude.{
  ap, ℕ, zero, String, ◌≡◌, refl, ◌∙◌, List, [], Option, some, All, All-append, Bool-cases, inl,
  inr,
}
use post_call_processing_pip.Json.{get_or, Json, Fields, arr, nil, get_or}
use post_call_processing_pip.Models.{ProcessingTask, TaskStep}
use post_call_processing_pip.Context.{Context}
use post_call_processing_pip.Db.{Db, ok, find_task, update_interaction}
use post_call_processing_pip.Db.Rows.{bind_ok, ok_injective}
use post_call_processing_pip.Harness.{Message}
use post_call_processing_pip.Classifier.{Lane, classify_transcript}
use post_call_processing_pip.Endpoint.{
  InteractionEndRequest, Served, end_interaction, end_call, base_payload, served, step_of,
  lane_task, call_sid_of, ended_row, lane_step, recording_step, is_text,
}
use post_call_processing_pip.Endpoint.Loading.{Loaded, load_interaction, transcript_lines}
use post_call_processing_pip.Endpoint.Outcome.{
  CallEnded, ended_call, end_call_ok, ended_call-CallEnded,
}
use post_call_processing_pip.Endpoint.Rows.{RecordingRow, add_recording}
use post_call_processing_pip.System.Evolution.{Evolves, Sound, Evolves-Sound}
use post_call_processing_pip.System.Routing.{Routed, find_step-find_task}
use post_call_processing_pip.System.{CeleryTask}

add_recording-Evolves :
    {j : ℕ} (c : Context) (id : ℕ) (i : Loaded) (call_sid : Option String) (db : Db)
    → Evolves j [] db (add_recording c id i call_sid db).1
unfolding add_recording
add_recording-Evolves c id i call_sid db = elim (Bool-cases (is_text call_sid)) [
  | inl call ↦ rw call (Evolves.enqueued c (recording_step c id i call_sid))
  | inr no_call ↦ rw no_call Evolves.same
]

ended_call-Evolves :
    {j : ℕ} (c : Context) (id : ℕ) (r : InteractionEndRequest) (i : Loaded) (lane : Lane)
    (payload : Fields) (id_json : ℕ → Json) (db : Db)
    → Evolves j [] db (ended_call c id r i lane payload id_json db).1
unfolding ended_call
ended_call-Evolves c id r i lane payload id_json db =
    let updated = update_interaction id (ended_row c r lane (call_sid_of r i)) db in
    Evolves.andthen (Evolves.elsewhere updated.interactions) (
      Evolves.andthen (add_recording-Evolves c id i (call_sid_of r i) updated)
        (Evolves.enqueued c (lane_step c id i lane payload id_json)))

lane-Routed :
    (lane : Lane) (db : Db) (t : ProcessingTask)
    → find_task t.id db ≡ some t
    → t.step ≡ step_of lane
    → Routed db (record { task_name = lane_task lane; task_id = t.id })
lane-Routed Lane.hot db t found step = (CeleryTask.dispatch_llm_analysis_hot, t, refl, found, step)
lane-Routed Lane.cold db t found step =
    (CeleryTask.dispatch_llm_analysis_cold, t, refl, found, step)
lane-Routed Lane.skip db t found step = (CeleryTask.dispatch_lead_stage, t, refl, found, step)

recording-Routed :
    (c : Context) (id : ℕ) (i : Loaded) (call_sid : Option String) (db : Db) (sent : List Message)
    (db' : Db)
    → Sound db'
    → RecordingRow c id i call_sid db sent db'
    → All (Routed db') sent
recording-Routed c id i call_sid db sent db' sound (RecordingRow.polled t call found from all) =
    let (by_id, step) = find_step-find_task id TaskStep.recording_poll db' t sound found in
    rw all ((CeleryTask.dispatch_recording_poll, t, refl, by_id, step), tt)
recording-Routed c id i call_sid db sent db' sound
      (RecordingRow.no_recording no_call same none_sent) =
    rw none_sent tt

CallEnded-Routed :
    (c : Context) (id : ℕ) (r : InteractionEndRequest) (i : Loaded) (lane : Lane) (payload : Fields)
    (id_json : ℕ → Json) (db : Db) (sent : List Message) (db' : Db)
    → Sound db'
    → CallEnded c id r i lane payload id_json db sent db'
    → All (Routed db') sent
CallEnded-Routed c id r i lane payload id_json db sent db' sound ended =
    let (by_id, step) = find_step-find_task id (step_of lane) db' ended.task sound ended.stored in
    rw ended.all_sent (
      All-append (Routed db') ended.first _
        (recording-Routed c id i (call_sid_of r i) db ended.first db' sound ended.recording)
        (lane-Routed lane db' ended.task by_id step, tt))

pub end_interaction-Evolves :
    (lower : String → String) (text : Json → String) (id_json : ℕ → Json) (c : Context)
    (session_id id : ℕ) (r : InteractionEndRequest) (db : Db) (s : Served)
    → end_interaction lower text id_json c session_id id r db ≡ ok s
    → Sound db
    → ((j : ℕ) → Evolves j [] db s.db) × All (Routed s.db) s.sent
unfolding end_interaction
end_interaction-Evolves lower text id_json c session_id id r db s e sound =
    let i = load_interaction id db in
    let lane = (classify_transcript lower [] i.conversation_data).lane in
    let (lines, read, e') =
      bind_ok (transcript_lines text (get_or (arr nil) "transcript" i.conversation_data)) _ s e in
    let payload = base_payload c session_id r i lines id_json in
    let (out, how, e'') = bind_ok (end_call c id r i lane payload id_json db) _ s e' in
    let left = end_call_ok c id r i payload id_json db lane out how in
    let ended = ended_call-CallEnded c id r i payload id_json db lane in
    let same' : served id c lane (ended_call c id r i lane payload id_json db) ≡ s =
      ap (served id c lane) left ∙ ok_injective _ s e'' in
    let evolves : (j : ℕ) → Evolves j [] db s.db =
      λ j. rw (← same') (ended_call-Evolves c id r i lane payload id_json db) in
    (
      evolves,
      CallEnded-Routed c id r i lane payload id_json db s.sent s.db
          (Evolves-Sound (evolves zero) sound)
          (subst (λ (x : Served). CallEnded c id r i lane payload id_json db x.sent x.db) same'
            ended),
    )
