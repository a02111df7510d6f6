-- ===== src/Schemas/Scalars.antt =====
-- The types and the comparison of scalars: `jsonType`, `typeCompatible`, `equalScalar` and `toFloat`.
use cross_validate.Base.{
  ℕ, String, Bool, true, false, ◌&&◌, Option, none, some, if◌then◌else◌, ◌==◌, string_eq, ◌>>=◌,
}
use cross_validate.Base.Int.{ℤ, int_eq}
use cross_validate.Base.Floats.{float_of_int, is_integral}
use cross_validate.Types.Values.{
  Value, null, bool, int, float, obj, arr, str, as_string, as_bool, as_map, as_list, float_eq,
  bool_eq,
}

-- `jsonType`
unfoldable pub json_type : (beyond : ℕ → Bool) → Value → String
unfolding is_integral
json_type beyond (str s) = "string"
json_type beyond (bool b) = "boolean"
json_type beyond (int n) = "integer"
json_type beyond (float f) = if is_integral beyond f then "integer" else "number"
json_type beyond (obj fs) = "object"
json_type beyond (arr vs) = "array"
json_type beyond null = "null"

-- `typeCompatible`
unfoldable pub type_compatible : String → String → Bool
type_compatible actual want =
    if actual == want then true else if actual == "integer" && want == "number" then true else false

abbrev pub as_int : Value → Option ℤ
as_int (int n) = some n
as_int _ = none

abbrev pub as_float : Value → Option ℕ
as_float (float f) = some f
as_float _ = none

abbrev pub is_null : Value → Bool
is_null null = true
is_null _ = false

abbrev pub is_some_and {ℓ} : {A : Type ℓ} → (A → Bool) → Option A → Bool
is_some_and test none = false
is_some_and test (some a) = test a

-- `a == b` on interfaces: values of different types differ, and two maps or two lists panic.
abbrev pub same_interface : Value → Value → Option Bool
same_interface null b = some (is_null b)
same_interface (bool a) b = some (is_some_and (bool_eq a) (as_bool b))
same_interface (int a) b = some (is_some_and (int_eq a) (as_int b))
same_interface (float a) b = some (is_some_and (float_eq a) (as_float b))
same_interface (str s) b = some (is_some_and (λ t. s == t) (as_string b))
same_interface (obj fs) b = elim (as_map b) [ none ↦ some false | some gs ↦ none ]
same_interface (arr vs) b = elim (as_list b) [ none ↦ some false | some ws ↦ none ]

-- `toFloat`
abbrev pub to_float : Value → Option ℕ
to_float (int n) = some (float_of_int n)
to_float (float f) = some f
to_float _ = none

abbrev pub both {ℓ} : {A : Type ℓ} → (A → A → Bool) → Option A → Option A → Option Bool
both test (some a) (some b) = some (test a b)
both test _ _ = none

abbrev or_default : Bool → Option Bool → Bool
or_default b none = b
or_default b (some a) = a

-- `equalScalar`; `none` is the panic of `==`.
unfoldable pub equal_scalar : Value → Value → Option Bool
unfolding float_of_int
equal_scalar a b = same_interface a b >>= λ same. some (
    if same then true else elim (both ◌==◌ (as_string a) (as_string b)) [
      | some equal ↦ equal
      | none ↦ or_default false (both float_eq (to_float a) (to_float b))
    ])
