-- ===== src/Json.antt =====
-- serde_json's `Value`. The library itself is not part of the repository: its numbers and their
-- conversions are the parameter `JsonLib`. An object is its members in the order of its map.
use pipe_bolt.Prelude.{
  Bool, List, Option, Result, [], false, if◌then◌else◌, none, some, true, ℕ, ◌&&◌, ◌∷◌,
}
use pipe_bolt.Text.{Str, str_eq}

mutual
  pub data Value (N : Type 0) : Type 0 where
    null : Value N
    bool : Bool → Value N
    number : N → Value N
    string : Str → Value N
    array : Values N → Value N
    object : Members N → Value N

  pub data Values (N : Type 0) : Type 0 where
    nil : Values N
    cons : Value N → Values N → Values N

  pub data Members (N : Type 0) : Type 0 where
    end : Members N
    member : Str → Value N → Members N → Members N

-- What the code uses of serde_json's numbers, parser and printer, and of `f64`.
pub record JsonLib : Type 1 where
  pub Number : Type 0
  pub F64 : Type 0
  -- `Number::as_f64`
  pub as_f64 : Number → Option F64
  -- `==` on `Number`
  pub number_eq : Number → Number → Bool
  -- `>`, `>=`, `<` and `<=` on `f64`
  pub gt : F64 → F64 → Bool
  pub ge : F64 → F64 → Bool
  pub lt : F64 → F64 → Bool
  pub le : F64 → F64 → Bool
  -- `Number::from` at a `u64`
  pub from_u64 : ℕ → Number
  -- `to_string`
  pub number_text : Number → Str
  -- `serde_json::from_slice` on bytes; the error is the parser's message
  pub from_slice : List ℕ → Result Str (Value Number)
  -- `serde_json::to_vec`
  pub to_vec : Value Number → Result Str (List ℕ)

module _ {N : Type 0} where
  -- `Map::get`
  unfoldable pub get_member : Str → Members N → Option (Value N)
  get_member key end = none
  get_member key (member k v ms) =
      let rest = get_member key ms in if str_eq k key then some v else rest

  -- `Value::get` at a text: only an object has members.
  unfoldable pub get : Str → Value N → Option (Value N)
  get key (object ms) = get_member key ms
  get key _ = none

  -- `get_json_path`, which the rule engine and the normalizer declare alike.
  unfoldable pub get_json_path : Value N → List Str → Option (Value N)
  get_json_path value [] = some value
  get_json_path value (segment ∷ segments) = elim (get segment value) [
    | none ↦ none
    | some inner ↦ get_json_path inner segments
  ]

  abbrev pub is_string : Value N → Bool
  is_string (string s) = true
  is_string _ = false

  abbrev pub is_number : Value N → Bool
  is_number (number n) = true
  is_number _ = false

  abbrev pub is_boolean : Value N → Bool
  is_boolean (bool b) = true
  is_boolean _ = false

  abbrev pub is_object : Value N → Bool
  is_object (object ms) = true
  is_object _ = false

  abbrev pub is_array : Value N → Bool
  is_array (array vs) = true
  is_array _ = false

abbrev pub bool_eq : Bool → Bool → Bool
bool_eq true true = true
bool_eq false false = true
bool_eq _ _ = false

-- `==` on `Value`, derived
module _ {N : Type 0} (number_eq : N → N → Bool) where
  unfoldable mutual
    pub value_eq : Value N → Value N → Bool
    value_eq null null = true
    value_eq (bool a) (bool b) = bool_eq a b
    value_eq (number m) (number n) = number_eq m n
    value_eq (string s) (string t) = str_eq s t
    value_eq (array vs) (array ws) = values_eq vs ws
    value_eq (object ms) (object ns) = members_eq ms ns
    value_eq _ _ = false

    pub values_eq : Values N → Values N → Bool
    values_eq nil nil = true
    values_eq (cons v vs) (cons w ws) = value_eq v w && values_eq vs ws
    values_eq _ _ = false

    pub members_eq : Members N → Members N → Bool
    members_eq end end = true
    members_eq (member k v ms) (member j w ns) = str_eq k j && (value_eq v w && members_eq ms ns)
    members_eq _ _ = false
