-- ===== src/Context.antt =====
-- What an operation reads from outside the tables: the clock, the correlation id that
-- src/observability/logging.py keeps in a ContextVar, `uuid4().hex`, and one draw of
-- `random.uniform(-10, 10)`, kept as the exact fraction draw_num / draw_den - 10.
use post_call_processing_pip.Prelude.{ℕ, ◌*◌, String, Option, none, some, str_eq, if◌then◌else◌}

pub record Context : Type 0 where
  pub now : ℕ
  pub correlation_id : Option String
  pub uuid_hex : String
  pub draw_num : ℕ
  pub draw_den : ℕ

-- timedelta(seconds=n), in microseconds
abbrev pub seconds : ℕ → ℕ
seconds n = n * 1000000

-- `a or b` for an optional text
abbrev pub or_text : Option String → String → String
or_text none b = b
or_text (some a) b = if str_eq a "" then b else a
