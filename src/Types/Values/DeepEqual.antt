-- ===== src/Types/Values/DeepEqual.antt =====
-- `reflect.DeepEqual` of a decoded value with itself.
use cross_validate.Base.{
  ℕ, String, true, false, none, some, is_some, string_eq, ◌≡◌, refl, arith, eq_iff, nat_eq_iff,
  and_intro, and_left, and_right, not-eq-true,
}
use cross_validate.Base.Int.{int_eq_iff}
use cross_validate.Types.Values.{
  Value, null, bool, int, float, str, arr, obj, Items, nil, cons, Fields, end, field, get,
  deep_equal, deep_items, deep_fields, is_plain, plain_items, plain_fields, Raw, raw_equal,
  is_plain_raw, float_eq, is_nan,
}

-- `gs` gives the fields of `fs` their values.
abbrev Extends : Fields → Fields → Type 0
Extends gs fs = (k : String) (v : Value) → get k fs ≡ some v → get k gs ≡ some v

Extends-tail :
    (k : String) (v : Value) (fs gs : Fields)
    → is_some (get k fs) ≡ false
    → Extends gs (field k v fs)
    → Extends gs fs
unfolding get
Extends-tail k v fs gs fresh h j w e = h j w (ground (arith, eq_iff k j))

get-field : (k : String) (v : Value) (fs : Fields) → get k (field k v fs) ≡ some v
unfolding get
get-field k v fs = ground (arith, eq_iff k k)

float_eq_refl : (b : ℕ) → is_nan b ≡ false → float_eq b b ≡ true
float_eq_refl b h = ground arith

mutual
  unfolding deep_equal is_plain

  deep_equal_refl : (v : Value) → is_plain v ≡ true → deep_equal v v ≡ true
  deep_equal_refl null h = refl
  deep_equal_refl (bool b) h = ground arith
  deep_equal_refl (int n) h = (int_eq_iff n n).1 refl
  deep_equal_refl (float b) h = float_eq_refl b (ground arith)
  deep_equal_refl (str s) h = (eq_iff s s).1 refl
  deep_equal_refl (arr vs) h = deep_items_refl vs h
  deep_equal_refl (obj fs) h =
      and_intro ((nat_eq_iff _ _).1 refl) (deep_fields_refl fs fs h (λ k v e. e))

  deep_items_refl : (vs : Items) → plain_items vs ≡ true → deep_items vs vs ≡ true
  deep_items_refl nil h = refl
  deep_items_refl (cons v vs) h =
      and_intro (deep_equal_refl v (and_left _ _ h)) (deep_items_refl vs (and_right _ _ h))

  deep_fields_refl :
      (fs gs : Fields) → plain_fields fs ≡ true → Extends gs fs → deep_fields fs gs ≡ true
  deep_fields_refl end gs h ext = refl
  deep_fields_refl (field k v fs) gs h ext =
      let fresh = not-eq-true (is_some (get k fs)) (and_left _ _ h) in
      let rest = and_right _ _ h in
      let same = deep_equal_refl v (and_left _ _ rest) in
      let more = deep_fields_refl fs gs (and_right _ _ rest) (Extends-tail k v fs gs fresh ext) in
      rw (ext k v (get-field k v fs)) (and_intro same more)

pub raw_equal_refl : (r : Raw) → is_plain_raw r ≡ true → raw_equal r r ≡ true
unfolding raw_equal is_plain_raw
raw_equal_refl none h = refl
raw_equal_refl (some fs) h = deep_equal_refl (obj fs) h
