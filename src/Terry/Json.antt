-- ===== src/Terry/Json.antt =====
-- What Python's json.loads returns, as far as the outcome of a Terry checker is concerned.
use task_maker.Prelude.{
  String, Bool, true, false, not, Option, none, some, List, [], ◌∷◌, string_eq, ◌==◌, if◌then◌else◌,
  is_empty, Result, ok, err, key_error, type_error, attribute_error,
}
use task_maker.Floats.{Floats}

mutual
  pub data Json (F : Type 0) : Type 0 where
    null : Json F
    boolean : Bool → Json F
    number : F → Json F
    text : String → Json F
    array : Items F → Json F
    object : Fields F → Json F

  pub data Items (F : Type 0) : Type 0 where
    end : Items F
    item : Json F → Items F → Items F

  pub data Fields (F : Type 0) : Type 0 where
    nil : Fields F
    field : String → Json F → Fields F → Fields F

module _ {F : Type 0} (fl : Floats F) where
  -- d.get(key)
  abbrev pub member : String → Fields F → Option (Json F)
  member key nil = none
  member key (field name value rest) =
      let found = member key rest in if name == key then some value else found

  abbrev present : Option (Json F) → Result (Json F)
  present none = err key_error
  present (some v) = ok v

  -- value[key]
  abbrev pub item_of : Json F → String → Result (Json F)
  item_of (object fields) key = present (member key fields)
  item_of _ key = err type_error

  -- value.get(key), with None as null
  abbrev pub get_item : Json F → String → Result (Json F)
  get_item (object fields) key = elim (member key fields) [ none ↦ ok null | some v ↦ ok v ]
  get_item _ key = err attribute_error

  abbrev pub listed : Items F → List (Json F)
  listed end = []
  listed (item v rest) = v ∷ listed rest

  abbrev names : Fields F → List (Json F)
  names nil = []
  names (field name v rest) = text name ∷ names rest

  abbrev characters : String → List (Json F)
  characters String.[] = []
  characters (String.◌∷◌ c s) = text (String.◌∷◌ c String.[]) ∷ characters s

  -- iter(value)
  abbrev pub iterated : Json F → Result (List (Json F))
  iterated (array items) = ok (listed items)
  iterated (object fields) = ok (names fields)
  iterated (text s) = ok (characters s)
  iterated _ = err type_error

  -- The number that a value is compared as.
  abbrev pub as_number : Json F → Result F
  as_number (number x) = ok x
  as_number (boolean true) = ok fl.one
  as_number (boolean false) = ok fl.zero
  as_number _ = err type_error

  abbrev pub truthy : Json F → Bool
  truthy null = false
  truthy (boolean b) = b
  truthy (number x) = not (fl.eq x fl.zero)
  truthy (text s) = not (is_empty s)
  truthy (array end) = false
  truthy (array (item v rest)) = true
  truthy (object nil) = false
  truthy (object (field name v rest)) = true

  abbrev pub is_text : Json F → String → Bool
  is_text (text s) t = s == t
  is_text _ t = false
