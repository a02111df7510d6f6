-- ===== src/Schemas.antt =====
-- pkg/schemas/validate_manifest.go: a manifest against an OpenAPI schema.
pub mod Scalars
pub mod Facts
mod Empty
pub mod Enums
pub mod Conforms
mod Properties
mod Parts
pub mod Decided
pub mod Total
pub mod Manifests
pub mod Index
use cross_validate.Base.{
  ℕ, zero, suc, ◌+◌, String, Bool, true, false, not, ◌&&◌, ◌||◌, Option, none, some, is_some, List,
  [], ◌∷◌, ◌++◌, collect, if◌then◌else◌, ◌==◌, string_eq, ◌>>=◌,
}
use cross_validate.Base.Texts.{text}
use cross_validate.Ir.Paths.{itoa}
use cross_validate.Types.Values.{
  Value, null, bool, int, float, str, obj, arr, Fields, end, field, Items, nil, cons, get, entries,
  as_map, as_list, Raw,
}
use cross_validate.Schemas.Facts.{
  FieldFact, get_nested_map, schema_type, sub_path, each_facts, check_required, unknown_fact,
  unknown_facts, additional_properties_false, type_fact, enum_fact, has_wrong_type, applied_enum,
  enum_passed, enum_matched, enum_of,
}

-- The size of a schema, as fuel: it is larger than that of any schema in it.
mutual
  pub size : Value → ℕ
  size (obj fs) = suc (fields_size fs)
  size (arr vs) = suc (items_size vs)
  size _ = 0

  pub fields_size : Fields → ℕ
  fields_size end = 0
  fields_size (field k v fs) = suc (size v + fields_size fs)

  pub items_size : Items → ℕ
  items_size nil = 0
  items_size (cons v vs) = suc (size v + items_size vs)

-- A walk of the values in a value.
abbrev pub Walk : Type 0
Walk = String → Fields → Value → Option (List FieldFact)

-- A round of the loop over the properties.
abbrev pub walk_property : Walk → String → Fields → String × Value → Option (List FieldFact)
walk_property walk path fs (name, declared) = elim (as_map declared) [
  | none ↦ some []
  | some sub ↦ elim (get name fs) [ none ↦ some [] | some v ↦ walk (sub_path path name) sub v ]
]

abbrev pub walk_properties : Walk → String → Option Fields → Fields → Option (List FieldFact)
walk_properties walk path none fs = some []
walk_properties walk path (some props) fs = each_facts (walk_property walk path fs) (entries props)

-- The loop over the elements, from the place `i` on.
abbrev pub walk_items : Walk → String → Fields → ℕ → List Value → Option (List FieldFact)
walk_items walk path items i [] = some []
walk_items walk path items i (v ∷ vs) =
    walk (text (path ∷ "[" ∷ itoa i ∷ "]" ∷ [])) items v >>= λ facts.
    walk_items walk path items (suc i) vs >>= λ more. some (facts ++ more)

abbrev pub walk_array :
    Walk → String → Option (List Value) → Option Fields → Option (List FieldFact)
walk_array walk path (some vs) (some items) = walk_items walk path items 0 vs
walk_array walk path _ _ = some []

-- The keys that are exempt at the root.
abbrev pub is_structural : String → Bool
is_structural key = key == "apiVersion" || key == "kind" || key == "metadata" || key == "status"

abbrev pub unwrapped : Fields → Fields
unwrapped schema = elim (get_nested_map schema "openAPIV3Schema") [
  | none ↦ schema
  | some root ↦ root
]

module _ (beyond : ℕ → Bool) (quote : String → String) (show : Value → String) where
  abbrev pub walk_object : Walk → String → Fields → Option Fields → Option (List FieldFact)
  walk_object walk path schema none = some []
  walk_object walk path schema (some fs) =
      walk_properties walk path (get_nested_map schema "properties") fs >>= λ known. some (
        check_required beyond quote show schema fs path
        ++ (known ++ unknown_facts beyond quote show (λ _. false) path schema fs))

  -- The switch of `walkField`
  pub walk_parts : Walk → String → Fields → Value → Option (List FieldFact)
  unfolding get schema_type check_required unknown_facts sub_path itoa
  walk_parts walk path schema v =
      if schema_type schema == "object"
      then walk_object walk path schema (as_map v)
      else if schema_type schema == "array"
      then walk_array walk path (as_list v) (get_nested_map schema "items")
      else some []

  -- `walkField`, on fuel for the size of the schema; `none` is a panic.
  pub walk_field : ℕ → Walk
  unfolding has_wrong_type type_fact enum_of enum_matched enum_fact walk_parts
  walk_field zero path schema v = none
  walk_field (suc fuel) path schema v =
      if has_wrong_type beyond quote show schema v
      then some (type_fact beyond quote show path schema v ∷ [])
      else (enum_passed beyond quote show (applied_enum beyond quote show schema v) v >>= λ failed.
          elim failed [
            | some enum ↦ some (enum_fact beyond quote show path v enum ∷ [])
            | none ↦ walk_parts (walk_field fuel) path schema v
          ])

  pub validate_root : Fields → Fields → Option Fields → Option (List FieldFact)
  unfolding check_required walk_field fields_size unknown_facts
  validate_root root raw none = some (check_required beyond quote show root raw "")
  validate_root root raw (some props) =
      walk_properties (walk_field (fields_size root)) "" (some props) raw >>= λ known. some (
        check_required beyond quote show root raw ""
        ++ (known ++ unknown_facts beyond quote show is_structural "" root raw))

  -- `ValidateManifest`
  unfoldable pub validate_manifest : Raw → Raw → Option (List FieldFact)
  unfolding validate_root get
  validate_manifest (some schema) (some raw) =
      validate_root (unwrapped schema) raw (get_nested_map (unwrapped schema) "properties")
  validate_manifest _ _ = some []
