-- ===== src/Schemas/Facts.antt =====
-- The facts of the validation: `checkRequired`, `additionalPropertiesFalse`, the checks of the type and
-- of the enum, and the loops over unknown fields.
use cross_validate.Base.{
  ℕ, String, Bool, true, false, not, ◌&&◌, ◌||◌, Option, none, some, is_some, List, [], ◌∷◌, ◌++◌,
  collect, if◌then◌else◌, ◌==◌, string_eq, ◌>>=◌,
}
use cross_validate.Base.Texts.{text}
use cross_validate.Types.Values.{
  Value, arr, Fields, Items, nil, cons, get, entries, as_map, as_list, as_string, as_bool,
}
use cross_validate.Schemas.Scalars.{json_type, type_compatible, equal_scalar, is_null}

pub data ViolationKind : Type 0 where
  unknown_field wrong_type missing_required invalid_enum : ViolationKind

-- `ResourceFieldFact`, of which the validation sets these fields.
pub record FieldFact : Type 0 where
  pub path : String
  pub violation : ViolationKind
  pub message : String

-- `getNestedMap`
abbrev pub get_nested_map : Fields → String → Option Fields
get_nested_map m key = get key m >>= as_map

-- `schema["type"].(string)`, or ""
abbrev or_blank : Option String → String
or_blank none = ""
or_blank (some s) = s

unfoldable pub schema_type : Fields → String
unfolding get
schema_type schema = or_blank (get "type" schema >>= as_string)

unfoldable pub enum_of : Fields → Option (List Value)
unfolding get
enum_of schema = get "enum" schema >>= as_list

-- The names in `schema["required"]`
abbrev or_nil {ℓ} : {A : Type ℓ} → Option (List A) → List A
or_nil none = []
or_nil (some xs) = xs

pub required_names : Fields → List String
unfolding get
required_names schema = collect as_string (or_nil (get "required" schema >>= as_list))

-- `additionalPropertiesFalse`
pub additional_properties_false : Fields → Bool
unfolding get
additional_properties_false schema = elim (get "additionalProperties" schema >>= as_bool) [
  | none ↦ false
  | some b ↦ not b
]

unfoldable pub sub_path : String → String → String
sub_path path name = if path == "" then name else text (path ∷ "." ∷ name ∷ [])

-- Facts of a list, one after the other; `none` where one of them panics.
abbrev pub each_facts {ℓ} :
    {A : Type ℓ} → (A → Option (List FieldFact)) → List A → Option (List FieldFact)
each_facts f [] = some []
each_facts f (x ∷ xs) = f x >>= λ facts. each_facts f xs >>= λ more. some (facts ++ more)

abbrev pub is_declared : Option Fields → String → Bool
is_declared none key = false
is_declared (some props) key = is_some (get key props)

-- `beyond` is the comparison of a float past the range of int64 with its conversion, `quote` the verb
-- %q and `show` the verb %v.
module _ (beyond : ℕ → Bool) (quote : String → String) (show : Value → String) where
  -- A round of `checkRequired`
  unfoldable pub missing_fact : String → Fields → String → Option FieldFact
  unfolding get sub_path
  missing_fact parent raw name =
      if is_some (get name raw)
      then none
      else some record {
        path = sub_path parent name;
        violation = missing_required;
        message = text ("required field " ∷ quote (sub_path parent name) ∷ " is missing" ∷ []);
      }

  -- `checkRequired`
  unfoldable pub check_required : Fields → Fields → String → List FieldFact
  unfolding missing_fact required_names
  check_required schema raw parent = collect (missing_fact parent raw) (required_names schema)

  pub unknown_fact : String → FieldFact
  unknown_fact path = record {
    path = path;
    violation = unknown_field;
    message =
        text ("unknown field " ∷ quote path ∷ " (schema has additionalProperties: false)" ∷ []);
  }

  -- The loop over the keys of a value whose schema has `additionalProperties: false`; some keys of the
  -- root are exempt.
  unfoldable pub unknown_facts :
      (exempt : String → Bool) → String → Fields → Fields → List FieldFact
  unfolding get unknown_fact additional_properties_false sub_path
  unknown_facts exempt path schema raw =
      if additional_properties_false schema
      then collect
          (λ entry.
            if is_declared (get_nested_map schema "properties") entry.0 || exempt entry.0
            then none
            else some (unknown_fact (sub_path path entry.0)))
          (entries raw)
      else []

  unfoldable pub type_fact : String → Fields → Value → FieldFact
  unfolding json_type schema_type
  type_fact path schema v = record {
    path = path;
    violation = wrong_type;
    message = text (
        "field "
        ∷ quote path
        ∷ " has type "
        ∷ json_type beyond v
        ∷ ", want "
        ∷ schema_type schema
        ∷ []);
  }

  unfoldable pub enum_fact : String → Value → List Value → FieldFact
  enum_fact path v enum = record {
    path = path;
    violation = invalid_enum;
    message = text (
        "field "
        ∷ quote path
        ∷ " value "
        ∷ show v
        ∷ " not in enum "
        ∷ show (arr (items_of enum))
        ∷ []);
  }
    where
      items_of : List Value → Items
      items_of [] = nil
      items_of (w ∷ ws) = cons w (items_of ws)

  unfoldable pub has_wrong_type : Fields → Value → Bool
  unfolding schema_type json_type type_compatible
  has_wrong_type schema v =
      not (schema_type schema == "")
      && not (is_null v)
      && not (type_compatible (json_type beyond v) (schema_type schema))

  -- The loop over the enum; `none` where `==` panics.
  unfoldable pub enum_matched : List Value → Value → Option Bool
  unfolding equal_scalar
  enum_matched [] v = some false
  enum_matched (e ∷ es) v =
      equal_scalar e v >>= λ same. if same then some true else enum_matched es v

  -- The enum that a value is checked against.
  abbrev pub applied_enum : Fields → Value → Option (List Value)
  applied_enum schema v = if is_null v then none else enum_of schema

  abbrev pub enum_passed : Option (List Value) → Value → Option (Option (List Value))
  enum_passed none v = some none
  enum_passed (some enum) v =
      enum_matched enum v >>= λ same. if same then some none else some (some enum)
