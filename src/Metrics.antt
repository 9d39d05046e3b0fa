-- ===== src/Metrics.antt =====
-- src/services/metrics.py: the start time that is kept in Redis for an hour, and the two log lines.
-- Times are in microseconds; the text of a time and `float` of it are taken to keep it exactly.
mod Tests
use post_call_processing_pip.Prelude.{
  ℕ, ◌+◌, ◌*◌, ◌≡◌, ◌≤◌, ◌<◌, String, List, [], ◌∷◌, Option, none, some,
}
use post_call_processing_pip.Prelude.Integers.{ℤ, pos, sub_ℕ}
use post_call_processing_pip.Prelude.{refl, true, false, ◌-◌, leb, inl, inr, arith, if◌then◌else◌}
use post_call_processing_pip.Json.{Json, Fields, num, str, dict}

-- What the tracker uses of Redis: SET with an expiry, and GET, each at a time.
pub record KeyValues : Type 1 where
  pub Store : Type 0
  pub set : ℕ → String → ℕ → ℕ → Store → Store
  pub get : ℕ → String → Store → Option ℕ
  -- a key holds its value until it expires, and nothing after that
  pub get-set :
      (now later : ℕ) (key : String) (value ex : ℕ) (st : Store)
      → later < now + ex
      → get later key (set now key value ex st) ≡ some value
  pub get-expired :
      (now later : ℕ) (key : String) (value ex : ℕ) (st : Store)
      → now + ex ≤ later
      → get later key (set now key value ex st) ≡ none

pub record LogLine : Type 0 where
  pub event : String
  pub extra : Fields

-- ex=3600
abbrev pub start_ttl : ℕ
start_ttl = 3600 * 1000000

module _ (K : KeyValues) (start_key : ℕ → String) (id_text : ℕ → String) (round2 : ℤ → Json) where
  open K use {Store, set, get}

  abbrev pub track_processing_started : ℕ → ℕ → Store → Store
  track_processing_started now interaction_id st =
      set now (start_key interaction_id) now start_ttl st

  -- time.time() - float(start) if start else 0
  abbrev pub wall_time : ℕ → Option ℕ → ℤ
  wall_time now none = pos 0
  wall_time now (some start) = sub_ℕ now start

  unfoldable pub track_processing_completed : ℕ → ℕ → ℤ → Json → Store → LogLine
  track_processing_completed now interaction_id tokens_used latency_ms st = record {
    event = "postcall_metrics";
    extra = dict (
        ("interaction_id", str (id_text interaction_id))
        ∷ ("tokens_used", num tokens_used)
        ∷ ("llm_latency_ms", latency_ms)
        ∷ ("total_wall_time_s", round2 (wall_time now (get now (start_key interaction_id) st)))
        ∷ []);
  }

  abbrev pub track_processing_failed : ℕ → String → LogLine
  track_processing_failed interaction_id error = record {
    event = "postcall_failed_permanently";
    extra = dict (("interaction_id", str (id_text interaction_id)) ∷ ("error", str error) ∷ []);
  }

  sub_ℕ-le : (a b : ℕ) → b ≤ a → sub_ℕ a b ≡ pos (a - b)
  sub_ℕ-le a b h = let e : leb b a ≡ true = ground (arith, h) in rw e refl

  -- What a completed line says of the time.
  abbrev pub completed_line : ℕ → ℤ → Json → ℤ → LogLine
  completed_line interaction_id tokens_used latency_ms wall = record {
    event = "postcall_metrics";
    extra = dict (
        ("interaction_id", str (id_text interaction_id))
        ∷ ("tokens_used", num tokens_used)
        ∷ ("llm_latency_ms", latency_ms)
        ∷ ("total_wall_time_s", round2 wall)
        ∷ []);
  }

  -- A completion within an hour of the start reports the time between them; a later one reports that no
  -- time passed.
  pub completed-started :
      (now later interaction_id : ℕ) (tokens_used : ℤ) (latency_ms : Json) (st : Store)
      → now ≤ later
      → ((later < now + start_ttl)
          → track_processing_completed later interaction_id tokens_used latency_ms
              (track_processing_started now interaction_id st)
            ≡ completed_line interaction_id tokens_used latency_ms (pos (later - now)))
        × ((now + start_ttl ≤ later)
            → track_processing_completed later interaction_id tokens_used latency_ms
                (track_processing_started now interaction_id st)
              ≡ completed_line interaction_id tokens_used latency_ms (pos 0))
  unfolding track_processing_completed
  completed-started now later interaction_id tokens_used latency_ms st h = (
    (λ early.
        rw (K.get-set now later (start_key interaction_id) now start_ttl st early)
          (rw (sub_ℕ-le later now h) refl)),
    (λ late. rw (K.get-expired now later (start_key interaction_id) now start_ttl st late) refl),
  )
