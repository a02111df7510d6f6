-- ===== src/Types/Values.antt =====
-- Decoded YAML and JSON, the `interface{}` of the loader, and `reflect.DeepEqual` on it.
-- Each container has a list type of its own. A `float64` is given by its 64 bits, so that NaN and
-- the two zeros compare as in Go. Timestamps, integers past int64 and maps with keys that are no texts
-- are left out.
pub mod DeepEqual
pub mod Members
use cross_validate.Base.{ℕ, ◌/◌, ◌%◌, ◌^◌, String, Bool, true, false, ◌&&◌, ◌||◌, not}
use cross_validate.Base.{
  Option, none, some, is_some, List, [], ◌∷◌, length, nat_eq, ◌==◌, string_eq,
}
use cross_validate.Base.Maps.{lookup}
use cross_validate.Base.Int.{ℤ, int_eq}

mutual
  pub data Value : Type 0 where
    null : Value
    bool : Bool → Value
    int : ℤ → Value
    float : ℕ → Value
    obj : Fields → Value
    arr : Items → Value
    str : String → Value

  pub data Fields : Type 0 where
    end : Fields
    field : String → Value → Fields → Fields

  pub data Items : Type 0 where
    nil : Items
    cons : Value → Items → Items

abbrev pub elems : Items → List Value
elems nil = []
elems (cons v vs) = v ∷ elems vs

abbrev pub entries : Fields → List (String × Value)
entries end = []
entries (field k v fs) = (k, v) ∷ entries fs

-- `m[k]` with its `ok`
unfoldable pub get : String → Fields → Option Value
unfolding lookup
get k fs = lookup k (entries fs)

-- The type assertions `v.(map[string]interface{})`, `v.([]interface{})`, `v.(string)`, `v.(bool)`.
abbrev pub as_map : Value → Option Fields
as_map (obj fs) = some fs
as_map _ = none

abbrev pub as_list : Value → Option (List Value)
as_list (arr vs) = some (elems vs)
as_list _ = none

abbrev pub as_string : Value → Option String
as_string (str s) = some s
as_string _ = none

abbrev pub as_bool : Value → Option Bool
as_bool (bool b) = some b
as_bool _ = none

-- `==` on float64
abbrev pub is_nan : ℕ → Bool
is_nan b = nat_eq (b / 2 ^ 52 % 2048) 2047 && not (nat_eq (b % 2 ^ 52) 0)

abbrev pub float_eq : ℕ → ℕ → Bool
float_eq a b =
    not (is_nan a)
    && not (is_nan b)
    && (nat_eq a b || nat_eq (a % 2 ^ 63) 0 && nat_eq (b % 2 ^ 63) 0)

abbrev pub bool_eq : Bool → Bool → Bool
bool_eq true b = b
bool_eq false b = not b

abbrev pub found_equal : (Value → Bool) → Option Value → Bool
found_equal test none = false
found_equal test (some v) = test v

-- `reflect.DeepEqual` on values that share no map or slice: maps are equal that have as many keys
-- and an equal value at each.
unfoldable mutual
  pub deep_equal : Value → Value → Bool
  deep_equal null null = true
  deep_equal (bool a) (bool b) = bool_eq a b
  deep_equal (int a) (int b) = int_eq a b
  deep_equal (float a) (float b) = float_eq a b
  deep_equal (str s) (str t) = s == t
  deep_equal (arr vs) (arr ws) = deep_items vs ws
  deep_equal (obj fs) (obj gs) =
      nat_eq (length (entries fs)) (length (entries gs)) && deep_fields fs gs
  deep_equal _ _ = false

  pub deep_items : Items → Items → Bool
  deep_items nil nil = true
  deep_items (cons v vs) (cons w ws) = deep_equal v w && deep_items vs ws
  deep_items _ _ = false

  pub deep_fields : Fields → Fields → Bool
  deep_fields end gs = true
  deep_fields (field k v fs) gs = found_equal (deep_equal v) (get k gs) && deep_fields fs gs

-- The same on `map[string]interface{}`, where nil (`none`) and an empty map differ.
abbrev pub Raw : Type 0
Raw = Option Fields

unfoldable pub raw_equal : Raw → Raw → Bool
unfolding deep_equal
raw_equal none none = true
raw_equal (some fs) (some gs) = deep_equal (obj fs) (obj gs)
raw_equal _ _ = false

-- What decoding gives: no map has a key twice, and no number is NaN, the one value that is not
-- equal to itself.
unfoldable mutual
  pub is_plain : Value → Bool
  is_plain (float b) = not (is_nan b)
  is_plain (arr vs) = plain_items vs
  is_plain (obj fs) = plain_fields fs
  is_plain _ = true

  pub plain_items : Items → Bool
  plain_items nil = true
  plain_items (cons v vs) = is_plain v && plain_items vs

  pub plain_fields : Fields → Bool
  plain_fields end = true
  plain_fields (field k v fs) = not (is_some (get k fs)) && (is_plain v && plain_fields fs)

unfoldable pub is_plain_raw : Raw → Bool
unfolding is_plain
is_plain_raw none = true
is_plain_raw (some fs) = plain_fields fs
