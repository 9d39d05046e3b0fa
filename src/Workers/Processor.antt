-- ===== src/Workers/Processor.antt =====
-- src/services/post_call_processor.py: the prompt, the model's answer taken apart, and the answer that
-- the repository's own `_call_llm` gives. The clock's two readings are one argument, and a latency is in
-- whole milliseconds.
use post_call_processing_pip.Prelude.{String, [], ◌∷◌, Option, none, some}
use post_call_processing_pip.Prelude.Integers.{ℤ, pos}
use post_call_processing_pip.Json.{Json, Fields, num, str, obj, dict, end, get}
use post_call_processing_pip.Strings.{join}
use post_call_processing_pip.Workers.PostCall.{PostCallContext}

abbrev system_prompt : String
system_prompt =
    "You are a call analysis assistant. Analyze the following\ncall transcript and extract:\n1. call_stage: The outcome/disposition of the call\n2. entities: Key information mentioned (dates, times, amounts, names, preferences)\n3. summary: A brief summary of what happened in the call\n\nRespond in JSON format:\n{\n    \"call_stage\": \"...\",\n    \"entities\": {...},\n    \"summary\": \"...\"\n}"

-- _build_analysis_prompt, with the text that an f-string shows of a value, and `json.dumps`
unfoldable pub build_analysis_prompt : (Json → String) → (Json → String) → Json → Json → String
unfolding join
build_analysis_prompt text dumps transcript additional_data = join "" (
    system_prompt
    ∷ "\n\nTranscript:\n"
    ∷ text transcript
    ∷ "\n\nAdditional context:\n"
    ∷ dumps additional_data
    ∷ [])

-- How the call of the provider ends: with a dict, or with an exception of this text.
pub data Answer : Type 0 where
  answered : Fields → Answer
  raised : String → Answer

-- _call_llm, as it stands in the repository
abbrev pub call_llm : String → Answer
call_llm prompt = Answer.answered (
    dict (
      ("call_stage", str "unknown")
      ∷ ("entities", obj end)
      ∷ ("summary", str "Mock analysis result")
      ∷ ("usage", obj (dict (("total_tokens", num (pos 1500)) ∷ [])))
      ∷ []))

-- AnalysisResult, with the count of tokens as the provider gave it.
pub record Parsed : Type 0 where
  pub call_stage : Json
  pub entities : Json
  pub summary : Json
  pub raw_response : Fields
  pub tokens_used : Json
  pub latency_ms : ℤ
  pub provider : String
  pub model : String

abbrev pub get_default : String → Json → Fields → Json
unfolding get
get_default k default d = elim (get k d) [ none ↦ default | some v ↦ v ]

-- response.get("usage", {}).get("total_tokens", 0); only a dict has `get`
unfoldable pub total_tokens : Json → Option Json
unfolding get
total_tokens (obj usage) = some (get_default "total_tokens" (num (pos 0)) usage)
total_tokens _ = none

-- What the settings hold, and the text of the AttributeError of a value without `get`.
pub record Settings : Type 0 where
  pub llm_provider : String
  pub llm_model : String
  pub no_get : Json → String

abbrev parsed : Settings → Fields → ℤ → Json → Parsed
unfolding get
parsed w response latency_ms tokens = record {
  call_stage = get_default "call_stage" (str "unknown") response;
  entities = get_default "entities" (obj end) response;
  summary = get_default "summary" (str "") response;
  raw_response = response;
  tokens_used = tokens;
  latency_ms = latency_ms;
  provider = w.llm_provider;
  model = w.llm_model;
}

abbrev pub usage_of : Fields → Json
unfolding get
usage_of response = get_default "usage" (obj end) response

-- How `process_post_call` ends.
pub data Outcome : Type 0 where
  returned : Parsed → Outcome
  failed : String → Outcome

-- _parse_response
unfoldable pub parse_response : Settings → Fields → ℤ → Outcome
unfolding total_tokens
parse_response w response latency_ms = elim (total_tokens (usage_of response)) [
  | none ↦ Outcome.failed (w.no_get (usage_of response))
  | some tokens ↦ Outcome.returned (parsed w response latency_ms tokens)
]

-- What the answer of the provider becomes.
abbrev pub settle_answer : Settings → ℤ → Answer → Outcome
unfolding parse_response
settle_answer w latency_ms (answered response) = parse_response w response latency_ms
settle_answer w latency_ms (raised error) = Outcome.failed error

-- process_post_call. `_update_interaction_metadata` writes a log line and nothing else.
unfoldable pub process_post_call :
    (Json → String) → (Json → String) → Settings → (String → Answer) → ℤ → PostCallContext → Outcome
unfolding build_analysis_prompt settle_answer
process_post_call text dumps w call latency_ms x =
    settle_answer w latency_ms
      (call (build_analysis_prompt text dumps x.transcript_text x.additional_data))
