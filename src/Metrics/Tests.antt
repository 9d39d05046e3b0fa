-- ===== src/Metrics/Tests.antt =====
-- A store that keeps the one key that was set last, and a completion ten seconds after the start.
use post_call_processing_pip.Prelude.{
  ℕ, ◌+◌, ◌≡◌, refl, String, Option, none, some, ltb, true, false, ◌&&◌, str_eq, eq_iff, arith,
  if◌then◌else◌,
}
use post_call_processing_pip.Prelude.Integers.{pos}
use post_call_processing_pip.Json.{num}
use post_call_processing_pip.Metrics

abbrev Kept : Type 0
Kept = Option (String × ℕ × ℕ)

abbrev look : ℕ → String → Kept → Option ℕ
look now key none = none
look now key (some (k, value, until)) = if str_eq k key && ltb now until then some value else none

abbrev last_key : Metrics.KeyValues
last_key = record {
  Store = Kept;
  set = λ now key value ex st. some (key, value, now + ex);
  get = look;
  get-set = λ now later key value ex st h.
      let same : str_eq key key ≡ true = (eq_iff key key).1 refl in
      let early : ltb later (now + ex) ≡ true = ground (arith, h) in rw (same, early) refl;
  get-expired = λ now later key value ex st h.
      let same : str_eq key key ≡ true = (eq_iff key key).1 refl in
      let late : ltb later (now + ex) ≡ false = ground (arith, h) in rw (same, late) refl;
}

abbrev key_of : ℕ → String
key_of id = "start"

abbrev id_text : ℕ → String
id_text id = "id"

ten_seconds :
    Metrics.track_processing_completed last_key key_of id_text num 11000000 7
      (pos 1320)
      (num (pos 800))
      (Metrics.track_processing_started last_key key_of id_text num 1000000 7 none)
    ≡ Metrics.completed_line last_key key_of id_text num 7 (pos 1320) (num (pos 800)) (pos 10000000)
ten_seconds =
    (Metrics.completed-started last_key key_of id_text num 1000000 11000000 7 (pos 1320)
        (num (pos 800)) none (omega arith)).0
      (omega arith)
