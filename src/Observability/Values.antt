-- ===== src/Observability/Values.antt =====
-- src/observability/logging.py, `_make_serialisable`: what a line makes of the Python values that the
-- call which logs it passes on.
use post_call_processing_pip.Prelude.{ℕ, String, Bool}
use post_call_processing_pip.Prelude.Integers.{ℤ}
use post_call_processing_pip.Json.{Json, Items, Fields, put}

-- A list and a tuple are both a sequence; an object of any other class is known by its number.
mutual
  pub data Value : Type 0 where
    nothing : Value
    truth : Bool → Value
    number : ℤ → Value
    text : String → Value
    sequence : Values → Value
    dictionary : Entries → Value
    object : ℕ → Value

  pub data Values : Type 0 where
    none_left : Values
    element : Value → Values → Values

  pub data Entries : Type 0 where
    empty : Entries
    entry : Value → Value → Entries → Entries

-- `str` of a key that is no text, and `repr`
pub record Texts : Type 0 where
  pub str : Value → String
  pub repr : Value → String

abbrev pub key_text : Texts → Value → String
key_text p (Value.text s) = s
key_text p k = p.str k

-- _make_serialisable; a key that comes twice keeps its last value
unfoldable mutual
  pub make_serialisable : Texts → Value → Json
  make_serialisable p Value.nothing = Json.null
  make_serialisable p (Value.truth b) = Json.bool b
  make_serialisable p (Value.number z) = Json.num z
  make_serialisable p (Value.text s) = Json.str s
  make_serialisable p (Value.sequence vs) = Json.arr (serialisable_items p vs)
  make_serialisable p (Value.dictionary es) = Json.obj (serialisable_fields p es Fields.end)
  make_serialisable p (Value.object n) = Json.str (p.repr (Value.object n))

  pub serialisable_items : Texts → Values → Items
  serialisable_items p Values.none_left = Items.nil
  serialisable_items p (Values.element v vs) =
      Items.cons (make_serialisable p v) (serialisable_items p vs)

  pub serialisable_fields : Texts → Entries → Fields → Fields
  serialisable_fields p Entries.empty made = made
  serialisable_fields p (Entries.entry k v es) made =
      serialisable_fields p es (put (key_text p k) (make_serialisable p v) made)
