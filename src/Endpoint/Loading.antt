-- ===== src/Endpoint/Loading.antt =====
-- src/api/endpoints.py: the interaction that a request is about, and the lines of its transcript.
use post_call_processing_pip.Prelude.{ℕ, String, List, [], ◌∷◌, Option, none, some, find, ◌==◌}
use post_call_processing_pip.Json.{
  Json, Items, Fields, str, instant, arr, obj, nil, cons, dict, get, get_or_null, get_or,
}
use post_call_processing_pip.Models.{Interaction}
use post_call_processing_pip.Db.{Db, Result, ok, err, type_error}
use post_call_processing_pip.Strings.{join}

-- The dict that `_load_interaction` returns.
pub record Loaded : Type 0 where
  pub lead_id : ℕ
  pub campaign_id : ℕ
  pub customer_id : ℕ
  pub agent_id : ℕ
  pub exotel_account_id : Json
  pub call_sid : Option String
  pub conversation_data : Fields

abbrev turn : String → String → Json
turn role content = obj (dict (("role", str role) ∷ ("content", str content) ∷ []))

abbrev pub mock_transcript : Items
mock_transcript = cons (turn "agent" "Hello, am I speaking with Mr. Sharma?") (
    cons (turn "customer" "Yes, speaking.") (
      cons (turn "agent" "Calling about your recent inquiry.") (
        cons (turn "customer" "Yes, I was looking at the product.") (
          cons (turn "agent" "Would you like to schedule a demo?")
            (cons (turn "customer" "Tomorrow at 3 PM works.") nil)))))

-- What is returned for an id that no row has; its UUIDs as numbers.
abbrev pub mock_interaction : Loaded
mock_interaction = record {
  lead_id = 212676479325586539664609129644855132161;
  campaign_id = 255211775190703847597530955573826158593;
  customer_id = 276479423123262501563991868538311671809;
  agent_id = 297747071055821155530452781502797185025;
  exotel_account_id = str "mock-exotel-account";
  call_sid = some "exotel-mock-001";
  conversation_data = dict (("transcript", arr mock_transcript) ∷ []);
}

abbrev pub loaded_row : Interaction → Loaded
unfolding get_or_null
loaded_row i = record {
  lead_id = i.lead_id;
  campaign_id = i.campaign_id;
  customer_id = i.customer_id;
  agent_id = i.agent_id;
  exotel_account_id = get_or_null "exotel_account_sid" i.conversation_data;
  call_sid = i.call_sid;
  conversation_data = i.conversation_data;
}

abbrev pub find_interaction : ℕ → Db → Option Interaction
find_interaction id db = find (λ i. i.id == id) db.interactions

-- _load_interaction
unfoldable pub load_interaction : ℕ → Db → Loaded
load_interaction id db = elim (find_interaction id db) [
  | none ↦ mock_interaction
  | some i ↦ loaded_row i
]

-- f"{turn.get('role', 'unknown')}: {turn.get('content', '')}" for the turns that are dicts
unfoldable pub turn_texts : (Json → String) → Items → List String
unfolding get
turn_texts text nil = []
turn_texts text (cons (obj t) ts) =
    join ""
      (text (get_or (str "unknown") "role" t) ∷ ": " ∷ text (get_or (str "") "content" t) ∷ [])
    ∷ turn_texts text ts
turn_texts text (cons _ ts) = turn_texts text ts

-- The loop over the transcript: the characters of a text and the keys of a dict are no dicts, and
-- what cannot be iterated raises.
unfoldable pub transcript_lines : (Json → String) → Json → Result (List String)
unfolding turn_texts
transcript_lines text (arr ts) = ok (turn_texts text ts)
transcript_lines text (str s) = ok []
transcript_lines text (instant t) = ok []
transcript_lines text (obj d) = ok []
transcript_lines text _ = err type_error
