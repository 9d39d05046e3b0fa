-- ===== src/Endpoint/Tests.antt =====
-- The endpoint at a short call that the table has, and at an id that it does not have.
use post_call_processing_pip.Models.Sample.{sample_interaction}
use post_call_processing_pip.Prelude.{ℕ, String, ◌≡◌, refl, [], ◌∷◌, none, some, ◌⊎◌, arith, ◌↔◌}
use post_call_processing_pip.Prelude.Integers.{pos}
use post_call_processing_pip.Json.{get_or, Json, str, end, arr, nil, get, get_or_null}
use post_call_processing_pip.Models.{Interaction, ProcessingTask, TaskStep}
use post_call_processing_pip.Context.{Context}
use post_call_processing_pip.Db.{integrity_error, err, Db, ok, find_step, err, attribute_error}
use post_call_processing_pip.Dispatcher.Enqueue.{UniqueSteps}
use post_call_processing_pip.Classifier.{classify_transcript, Lane, Reason}
use post_call_processing_pip.Workers.Downstream.{
  Sent, LeadStageCall, lead_stage_call, execute_lead_stage,
}
use post_call_processing_pip.Workers.Attempts.{Succeeded, Failed}
use post_call_processing_pip.Endpoint.Agreement.{derived_agree}
use post_call_processing_pip.Models.Transcript.{transcript, transcript_text, is_short_transcript}
use post_call_processing_pip.Endpoint.Skipped.{end_interaction_skipped}
use post_call_processing_pip.Endpoint.{
  InteractionEndRequest, Served, base_payload, end_interaction, Bool, dict, cons, obj, true, List,
}
use post_call_processing_pip.Endpoint.Loading.{load_interaction, transcript_lines}
use post_call_processing_pip.Endpoint.Outcome.{
  CallEnded, end_interaction_total, end_interaction_unknown,
}

abbrev context : Context
context = record {
  now = 1000000000;
  correlation_id = none;
  uuid_hex = "0123abcd";
  draw_num = 7;
  draw_den = 1;
}

abbrev request : InteractionEndRequest
request = record { call_sid = some "CA1"; duration_seconds = some (pos 12); additional_data = end }

abbrev interaction : Interaction
interaction = sample_interaction 7

abbrev tables : Db
tables = record {
  tasks = [];
  audit = [];
  ledger = [];
  interactions = interaction ∷ [];
  next_id = 1;
}

abbrev lower : String → String
lower s = s

abbrev text : Json → String
text v = "text"

abbrev id_json : ℕ → Json
id_json n = str "id"

no_lines :
    transcript_lines text
      (get_or (arr nil) "transcript" (load_interaction 7 tables).conversation_data)
    ≡ ok []
unfolding transcript_lines load_interaction get get_or_null
no_lines = refl

end_interaction_total_example :
    let i = load_interaction 7 tables in
    let lane = (classify_transcript lower [] i.conversation_data).lane in
    (s : Served) × (end_interaction lower text id_json context 1 7 request tables ≡ ok s)
    × (s.response ≡ record { interaction_id = 7; correlation_id = "0123abcd"; lane = lane })
    × UniqueSteps s.db.tasks
    × CallEnded context 7 request i lane
        (base_payload context 1 request i [] id_json)
        id_json
        tables
        s.sent
        s.db
end_interaction_total_example =
    end_interaction_total lower text id_json context 1 7 request tables [] refl tt no_lines

end_interaction_unknown_example :
    end_interaction lower text id_json context 1 9 request tables ≡ err integrity_error
end_interaction_unknown_example =
    end_interaction_unknown lower text id_json context 1 9 request tables refl refl

is_skipped :
    (classify_transcript lower [] (load_interaction 7 tables).conversation_data).lane ≡ Lane.skip
unfolding classify_transcript load_interaction get get_or_null
is_skipped = refl

abbrev delivers : LeadStageCall → Sent
delivers call = Sent.delivered

end_interaction_skipped_example :
    (s : Served) × (t : ProcessingTask) × (out : Bool × (ProcessingTask × Db)) × (end_interaction
        lower text id_json context 1 7 request tables
      ≡ ok s)
    × (find_step 7 TaskStep.lead_stage s.db ≡ some t)
    × (execute_lead_stage delivers context t tables ≡ ok out)
    × (((delivers (lead_stage_call t "no_contact") ≡ Sent.delivered)
          × Succeeded context t tables out)
        ⊎ ((error : String) × (delivers (lead_stage_call t "no_contact") ≡ Sent.raised error)
            × Failed context error t tables out))
end_interaction_skipped_example =
    end_interaction_skipped lower text id_json context 1 7 request tables [] delivers context tables
      refl tt no_lines is_skipped refl (ground arith) (ground arith)

abbrev two_turns : Interaction
two_turns = record interaction {
  conversation_data = dict (("transcript", arr (cons (obj end) (cons (str "noise") nil))) ∷ []);
}

derived_agree_example :
    ((is_short_transcript text (λ s. 0) two_turns ≡ ok true) ↔ (
      (n : ℕ) × ((classify_transcript lower [] two_turns.conversation_data).reason
        ≡ Reason.short_transcript n)))
    × ((lines : List String) × (transcript_lines text (transcript two_turns) ≡ ok lines)
        × (transcript_text text two_turns ≡ err attribute_error))
unfolding get
derived_agree_example = derived_agree lower text (λ s. 0) [] two_turns _ refl
