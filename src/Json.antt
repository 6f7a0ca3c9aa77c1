-- ===== src/Json.antt =====
-- The values of Python's `json` module, and how the program reads the fields of an object. What
-- `json.loads` returns has distinct keys, in their order. A float is kept as its text.
use devloop.Prelude.Int.{ℤ}
use devloop.Prelude.{
  text_same, ◌==◌, false, ◌∷◌, some, true, none, if◌then◌else◌, [], String, List, Option, Bool,
}

mutual
  pub data Json : Type 0 where
    null_value : Json
    bool_value : Bool → Json
    int_value : ℤ → Json
    float_value : String → Json
    text_value : String → Json
    array_value : JsonItems → Json
    object_value : JsonFields → Json

  pub data JsonItems : Type 0 where
    no_items : JsonItems
    items : Json → JsonItems → JsonItems

  pub data JsonFields : Type 0 where
    no_fields : JsonFields
    fields : String → Json → JsonFields → JsonFields

abbrev pub item_list : JsonItems → List Json
item_list no_items = []
item_list (items first rest) = first ∷ item_list rest

abbrev pub field_list : JsonFields → List (String × Json)
field_list no_fields = []
field_list (fields key value rest) = (key, value) ∷ field_list rest

-- `data.get(key)`, whose `None` a reader treats as it treats a null.
abbrev pub get : JsonFields → String → Json
get no_fields key = null_value
get (fields name value rest) key = let later = get rest key in if name == key then value else later

-- The value of a field that is there.
abbrev pub field : JsonFields → String → Option Json
field no_fields key = none
field (fields name value rest) key =
    let later = field rest key in if name == key then some value else later

-- `set(payload)`, with its repetitions.
abbrev pub field_names : JsonFields → List String
field_names no_fields = []
field_names (fields name value rest) = name ∷ field_names rest

abbrev pub is_null : Json → Bool
is_null null_value = true
is_null _ = false

-- `isinstance(value, str)`
abbrev pub is_text : Json → Bool
is_text (text_value _) = true
is_text _ = false

-- `isinstance(value, int) and not isinstance(value, bool)`
abbrev pub is_integer : Json → Bool
is_integer (int_value _) = true
is_integer _ = false

abbrev pub is_bool : Json → Bool
is_bool (bool_value _) = true
is_bool _ = false

-- The text of a value, where it is one.
abbrev pub text_of : Json → Option String
text_of (text_value value) = some value
text_of _ = none

abbrev pub items_in : Json → Option (List Json)
items_in (array_value values) = some (item_list values)
items_in _ = none

abbrev pub fields_in : Json → Option JsonFields
fields_in (object_value object) = some object
fields_in _ = none
