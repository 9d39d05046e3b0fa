-- ===== src/Models/Transcript.antt =====
-- src/models/interaction.py: what an interaction derives from its conversation data. `text` is the text
-- that an f-string and `str` show of a value, and `text_length` is `len` of a text.
use post_call_processing_pip.Prelude.{ℕ, String, Bool, List, [], ◌∷◌, ltb}
use post_call_processing_pip.Json.{
  items_length, fields_length, Json, Items, Fields, str, instant, arr, obj, nil, cons, get_or,
  get_or_null,
}
use post_call_processing_pip.Models.{Interaction}
use post_call_processing_pip.Db.{Result, ok, err, type_error, attribute_error, ◌>>=◌}
use post_call_processing_pip.Strings.{join}

-- (self.conversation_data or {}).get("transcript", [])
abbrev pub transcript : Interaction → Json
transcript i = get_or (arr nil) "transcript" i.conversation_data

-- f"{turn.get('role', 'unknown')}: {turn.get('content', '')}"
abbrev pub turn_line : (Json → String) → Fields → String
unfolding join
turn_line text turn =
    join "" (
      text (get_or (str "unknown") "role" turn) ∷ ": " ∷ text (get_or (str "") "content" turn) ∷ [])

-- The generator over the turns; what is no dict has no `get`.
unfoldable pub turn_lines : (Json → String) → Items → Result (List String)
turn_lines text nil = ok []
turn_lines text (cons (obj turn) ts) = do rest ← turn_lines text ts; ok (turn_line text turn ∷ rest)
turn_lines text (cons _ ts) = err attribute_error

unfoldable pub text_of_transcript : (Json → String) → Json → Result String
unfolding turn_lines join
text_of_transcript text (arr ts) = do lines ← turn_lines text ts; ok (join "\n" lines)
text_of_transcript text v = ok (text v)

-- Interaction.transcript_text
abbrev pub transcript_text : (Json → String) → Interaction → Result String
transcript_text text i = text_of_transcript text (transcript i)

-- len(transcript); a number, a truth value and None have none
unfoldable pub transcript_length : (Json → String) → (String → ℕ) → Json → Result ℕ
transcript_length text text_length (arr ts) = ok (items_length ts)
transcript_length text text_length (str s) = ok (text_length s)
transcript_length text text_length (instant t) = ok (text_length (text (instant t)))
transcript_length text text_length (obj d) = ok (fields_length d)
transcript_length text text_length _ = err type_error

-- Interaction.is_short_transcript
unfoldable pub is_short_transcript : (Json → String) → (String → ℕ) → Interaction → Result Bool
unfolding transcript_length
is_short_transcript text text_length i = do
  n ← transcript_length text text_length (transcript i)
  ok (ltb n 4)

-- Interaction.exotel_account_id
abbrev pub exotel_account_id : Interaction → Json
unfolding get_or_null
exotel_account_id i = get_or_null "exotel_account_sid" i.conversation_data
