-- ===== src/Observability/Setup.antt =====
-- src/observability/logging.py, `configure_structured_logging`: what becomes of the root logger.
use post_call_processing_pip.Prelude.{
  ℕ, Bool, true, false, ◌≡◌, refl, List, [], ◌∷◌, ◌==◌, arith, if◌then◌else◌,
}

-- The handler with the formatter of this module, and any other, by its number.
pub data Handler : Type 0 where
  structured : Handler
  other : ℕ → Handler

abbrev pub same_handler : Handler → Handler → Bool
same_handler Handler.structured Handler.structured = true
same_handler (Handler.other m) (Handler.other n) = m == n
same_handler _ _ = false

-- `_configured` beside what the root logger holds.
pub record Logging : Type 0 where
  pub configured : Bool
  pub handlers : List Handler
  pub level : ℕ

-- root.removeHandler(h)
abbrev pub remove_handler : Handler → List Handler → List Handler
remove_handler h [] = []
remove_handler h (x ∷ xs) =
    let rest = remove_handler h xs in if same_handler x h then xs else x ∷ rest

-- The loop over a copy of the handlers.
abbrev pub remove_all : List Handler → List Handler → List Handler
remove_all [] handlers = handlers
remove_all (h ∷ hs) handlers = remove_all hs (remove_handler h handlers)

unfoldable pub configure_structured_logging : ℕ → Logging → Logging
configure_structured_logging level x = if x.configured then x else record {
  configured = true;
  handlers = Handler.structured ∷ remove_all x.handlers x.handlers;
  level = level;
}

same_handler_refl : (h : Handler) → same_handler h h ≡ true
same_handler_refl Handler.structured = refl
same_handler_refl (Handler.other n) = ground arith

remove_all_self : (hs : List Handler) → remove_all hs hs ≡ []
remove_all_self [] = refl
remove_all_self (h ∷ hs) = rw (same_handler_refl h) (remove_all_self hs)

-- However often it is called and with whatever levels, the first call decides: the root logger has one
-- handler, which writes the structured lines, and the level of that call.
pub configure_structured_logging_again :
    (level later : ℕ) (x : Logging)
    → x.configured ≡ false
    → configure_structured_logging later (configure_structured_logging level x)
      ≡ record { configured = true; handlers = Handler.structured ∷ []; level = level }
unfolding configure_structured_logging
configure_structured_logging_again level later x h = rw (h, remove_all_self x.handlers) refl
