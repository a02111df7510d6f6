-- ===== src/Types/Values/Members.antt =====
-- Members of deeply equal maps.
use cross_validate.Base.{
  String, true, Option, some, ◌≡◌, arith, eq_iff, ◌==◌, string_eq, Bool-cases, inl, inr, and_left,
  and_right,
}
use cross_validate.Types.Values.{
  Value, obj, Fields, end, field, get, as_map, deep_equal, deep_fields, found_equal,
}

found_equal-get :
    (v w : Value) (o : Option Value)
    → found_equal (deep_equal v) o ≡ true
    → o ≡ some w
    → deep_equal v w ≡ true
found_equal-get v w o h e = rw e at h

deep_fields-get :
    (k : String) (fs gs : Fields) (v w : Value)
    → deep_fields fs gs ≡ true
    → get k fs ≡ some v
    → get k gs ≡ some w
    → deep_equal v w ≡ true
unfolding deep_equal get
deep_fields-get k end gs v w h e e' = cc
deep_fields-get k (field j u fs) gs v w h e e' = elim (Bool-cases (j == k)) [
  | inl same ↦
      let key : j ≡ k = (eq_iff j k).0 same in
      let here : u ≡ v = ground arith in
      let found : found_equal (deep_equal u) (get j gs) ≡ true = and_left _ _ h in
      rw here at (found_equal-get u w (get j gs) found (rw key e'))
  | inr other ↦ deep_fields-get k fs gs v w (and_right _ _ h) (ground arith) e'
]

-- A value found in a map, and the value found in a deeply equal one, are deeply equal.
pub deep_equal-get :
    (k : String) (x y v w : Value) (m n : Fields)
    → deep_equal x y ≡ true
    → as_map x ≡ some m
    → as_map y ≡ some n
    → get k m ≡ some v
    → get k n ≡ some w
    → deep_equal v w ≡ true
unfolding deep_equal
deep_equal-get k (obj m') (obj n') v w m n h e e' g g' =
    let a : m' ≡ m = cc in
    let b : n' ≡ n = cc in deep_fields-get k m' n' v w (and_right _ _ h) (rw a g) (rw b g')
deep_equal-get k (obj m') y v w m n h e e' g g' = cc
deep_equal-get k x y v w m n h e e' g g' = cc
