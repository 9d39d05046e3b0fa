-- ===== src/Strings.antt =====
-- Python's texts as src/classifier/pre_classifier.py uses them: positions count characters, as the
-- constructors of the native `String` do.
pub mod Search
use Prim.Native.Char.{code}
use Prim.Native.String.{String, ◌++◌}
use post_call_processing_pip.Prelude.{
  ℕ, zero, suc, ◌-◌, Bool, true, false, ◌&&◌, List, [], ◌∷◌, Option, none, some, ◌==◌,
  if◌then◌else◌,
}

-- s.startswith(p), with the part of `p` first
unfoldable pub begins_with : String → String → Bool
begins_with String.[] s = true
begins_with (String.◌∷◌ c p) String.[] = false
begins_with (String.◌∷◌ c p) (String.◌∷◌ d s) = code c == code d && begins_with p s

abbrev pub next : Option ℕ → Option ℕ
next none = none
next (some i) = some (suc i)

-- s.find(p), with `none` for -1
unfoldable pub index_of : String → String → Option ℕ
unfolding begins_with
index_of p String.[] = if begins_with p String.[] then some 0 else none
index_of p (String.◌∷◌ c s) =
    let later = index_of p s in if begins_with p (String.◌∷◌ c s) then some 0 else next later

abbrev pub is_found : Option ℕ → Bool
is_found none = false
is_found (some i) = true

-- p in s
unfoldable pub contains : String → String → Bool
unfolding index_of
contains p s = is_found (index_of p s)

-- s[n:] and s[:n]
unfoldable pub skip : ℕ → String → String
skip zero s = s
skip (suc n) String.[] = String.[]
skip (suc n) (String.◌∷◌ c s) = skip n s

unfoldable pub prefix : ℕ → String → String
prefix zero s = String.[]
prefix (suc n) String.[] = String.[]
prefix (suc n) (String.◌∷◌ c s) = String.◌∷◌ c (prefix n s)

-- s[max(0, i - 30):i]
unfoldable pub window : ℕ → String → String
unfolding skip prefix
window i s = skip (i - 30) (prefix i s)

-- sep.join(parts)
unfoldable pub join : String → List String → String
join sep [] = String.[]
join sep (p ∷ []) = p
join sep (p ∷ q ∷ ps) = p ++ (sep ++ join sep (q ∷ ps))
