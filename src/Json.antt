-- ===== src/Json.antt =====
-- Python values that the program keeps in JSONB columns: payloads, transcripts and audit details.
-- A dict is its entries in order; the constructor `instant` stands for the text `isoformat()` makes
-- of a datetime.
use post_call_processing_pip.Prelude.{
  ℕ, suc, String, Bool, true, false, not, List, [], ◌∷◌, Option, none, some, ◌==◌, str_eq,
  if◌then◌else◌, ◌≡◌,
}
use post_call_processing_pip.Prelude.Integers.{ℤ, pos, negsuc}

mutual
  pub data Json : Type 0 where
    null : Json
    bool : Bool → Json
    num : ℤ → Json
    str : String → Json
    instant : ℕ → Json
    arr : Items → Json
    obj : Fields → Json

  pub data Items : Type 0 where
    nil : Items
    cons : Json → Items → Items

  pub data Fields : Type 0 where
    end : Fields
    field : String → Json → Fields → Fields

abbrev pub int : ℕ → Json
int n = num (pos n)

-- A dict literal.
abbrev pub dict : List (String × Json) → Fields
dict [] = end
dict ((k, v) ∷ l) = field k v (dict l)

-- {**a, **b}: the entries of b hide those of a.
abbrev pub without : String → Fields → Fields
without k end = end
without k (field j v d) = let rest = without k d in if str_eq j k then rest else field j v rest

abbrev pub put : String → Json → Fields → Fields
put k v d = field k v (without k d)

abbrev pub merge : Fields → Fields → Fields
merge a end = a
merge a (field k v b) = put k v (merge a b)

-- d.get(k)
unfoldable pub get : String → Fields → Option Json
get k end = none
get k (field j v d) = if str_eq j k then some v else get k d

-- len(v), for a list and for a dict
abbrev pub items_length : Items → ℕ
items_length nil = 0
items_length (cons x xs) = suc (items_length xs)

abbrev pub fields_length : Fields → ℕ
fields_length end = 0
fields_length (field k v d) = suc (fields_length d)

-- d.get(k, default)
abbrev pub get_or : Json → String → Fields → Json
unfolding get
get_or default k d = elim (get k d) [ none ↦ default | some v ↦ v ]

pub get_or_found :
    (default : Json) (k : String) (d : Fields) (v : Json)
    → get k d ≡ some v
    → get_or default k d ≡ v
unfolding get_or
get_or_found default k d v h = rw (h, get_or)

-- Python's truth value.
unfoldable pub truthy : Json → Bool
truthy null = false
truthy (bool b) = b
truthy (num (pos n)) = not (n == 0)
truthy (num (negsuc n)) = true
truthy (str s) = not (str_eq s "")
truthy (instant t) = true
truthy (arr nil) = false
truthy (arr (cons x xs)) = true
truthy (obj end) = false
truthy (obj (field k v d)) = true

-- A missing key and None are one value, as `d.get(k)` makes them.
unfoldable pub get_or_null : String → Fields → Json
unfolding get
get_or_null k d = elim (get k d) [ none ↦ null | some v ↦ v ]

-- `v or {}` for a value that is used as a dict: `none` is the AttributeError of another type.
unfoldable pub or_empty : Json → Option Fields
unfolding truthy
or_empty (obj d) = some d
or_empty v = if truthy v then none else some end
