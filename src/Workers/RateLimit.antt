-- ===== src/Workers/RateLimit.antt =====
-- src/tasks/workers/llm_worker.py, `_is_rate_limit_error`: which errors of the provider are taken for a
-- rate limit. `alike` is the comparison of two characters that `re` makes under IGNORECASE.
pub mod Pattern
use Prim.Native.Char.{Char, code}
use Prim.Native.String.{String, ◌++◌}
use text.Mathlib.TextLemmas.{cons-append, nil-append, append_assoc}
use post_call_processing_pip.Prelude.{
  Bool, true, false, ◌||◌, ◌&&◌, not, ◌==◌, Option, none, some, if◌then◌else◌, ◌≡◌, refl, ◌∙◌, ap,
  sym, ◌↔◌, ◌⊎◌, inl, inr, ◌≢◌, arith, Bool-cases, Option-cases,
}

-- What is left of `s` after the literal `p`.
unfoldable pub after_literal : (Char → Char → Bool) → String → String → Option String
after_literal alike String.[] s = some s
after_literal alike (String.◌∷◌ c p) String.[] = none
after_literal alike (String.◌∷◌ c p) (String.◌∷◌ d s) =
    let rest = after_literal alike p s in if alike c d then rest else none

abbrev pub stands : Option String → Bool
stands none = false
stands (some rest) = true

-- .?limit
unfoldable pub maybe_one_then_limit : (Char → Char → Bool) → String → Bool
unfolding after_literal
maybe_one_then_limit alike String.[] = false
maybe_one_then_limit alike (String.◌∷◌ c s) =
    not (code c == 10) && stands (after_literal alike "limit" s)
    || stands (after_literal alike "limit" (String.◌∷◌ c s))

abbrev pub after_rate : (Char → Char → Bool) → Option String → Bool
unfolding maybe_one_then_limit
after_rate alike none = false
after_rate alike (some rest) = maybe_one_then_limit alike rest

-- rate.?limit|429, at the start of the text
unfoldable pub hint_here : (Char → Char → Bool) → String → Bool
unfolding after_literal maybe_one_then_limit
hint_here alike s =
    after_rate alike (after_literal alike "rate" s) || stands (after_literal alike "429" s)

-- _is_rate_limit_error
unfoldable pub is_rate_limit_error : (Char → Char → Bool) → String → Bool
unfolding hint_here
is_rate_limit_error alike String.[] = hint_here alike String.[]
is_rate_limit_error alike (String.◌∷◌ c s) =
    let later = is_rate_limit_error alike s in hint_here alike (String.◌∷◌ c s) || later
