-- ===== src/Ir/Leaves/Flatten.antt =====
-- The map of leaves against the list of all leaves.
use cross_validate.Base.{
  ℕ, ◌+◌, String, false, Option, none, some, List, [], ◌∷◌, ◌++◌, string_eq, ◌≡◌, refl, sym, ap,
  ◌∙◌,
}
use cross_validate.Base.Maps.{
  lookup, lookup-insert, IsMap, insert-IsMap, last_value, last_value-append,
}
use cross_validate.Types.Values.{
  Value, null, bool, int, float, obj, arr, str, Fields, end, field, Items, nil, cons, Raw,
}
use cross_validate.Ir.Paths.{at_index, at_key}
use cross_validate.Ir.Leaves.{
  flatten_string_leaves, flatten_value, flatten_items, flatten_item, leaves_of, is_blank,
}

-- All texts in a value with their paths, in order; a list in a list is passed over.
unfoldable mutual
  pub leaves : String → Fields → List (String × String)
  leaves prefix end = []
  leaves prefix (field k v fs) = value_leaves (at_key prefix k) v ++ leaves prefix fs

  pub value_leaves : String → Value → List (String × String)
  value_leaves path (str s) = (path, s) ∷ []
  value_leaves path (obj fs) = leaves path fs
  value_leaves path (arr vs) = item_leaves path 0 vs
  value_leaves path _ = []

  pub item_leaves : String → ℕ → Items → List (String × String)
  item_leaves path i nil = []
  item_leaves path i (cons v vs) = element_leaves (at_index path i) v ++ item_leaves path (i + 1) vs

  pub element_leaves : String → Value → List (String × String)
  element_leaves path (str s) = (path, s) ∷ []
  element_leaves path (obj fs) = leaves path fs
  element_leaves path _ = []

mutual
  unfolding flatten_string_leaves leaves

  pub lookup-flatten :
      (p prefix : String) (fs : Fields) (out : List (String × String))
      → lookup p (flatten_string_leaves prefix fs out)
        ≡ last_value p (lookup p out) (leaves prefix fs)
  lookup-flatten p prefix end out = refl
  lookup-flatten p prefix (field k v fs) out =
      lookup-flatten p prefix fs (flatten_value (at_key prefix k) v out)
      ∙ ap (λ o. last_value p o (leaves prefix fs)) (lookup-flatten_value p (at_key prefix k) v out)
      ∙ sym
          (last_value-append p (lookup p out) (value_leaves (at_key prefix k) v) (leaves prefix fs))

  pub lookup-flatten_value :
      (p path : String) (v : Value) (out : List (String × String))
      → lookup p (flatten_value path v out) ≡ last_value p (lookup p out) (value_leaves path v)
  lookup-flatten_value p path (str s) out = lookup-insert path p s out
  lookup-flatten_value p path (obj fs) out = lookup-flatten p path fs out
  lookup-flatten_value p path (arr vs) out = lookup-flatten_items p path 0 vs out
  lookup-flatten_value p path null out = refl
  lookup-flatten_value p path (bool b) out = refl
  lookup-flatten_value p path (int n) out = refl
  lookup-flatten_value p path (float b) out = refl

  pub lookup-flatten_items :
      (p path : String) (i : ℕ) (vs : Items) (out : List (String × String))
      → lookup p (flatten_items path i vs out) ≡ last_value p (lookup p out) (item_leaves path i vs)
  lookup-flatten_items p path i nil out = refl
  lookup-flatten_items p path i (cons v vs) out =
      lookup-flatten_items p path (i + 1) vs (flatten_item (at_index path i) v out)
      ∙ ap (λ o. last_value p o (item_leaves path (i + 1) vs))
          (lookup-flatten_item p (at_index path i) v out)
      ∙ sym (
          last_value-append p (lookup p out) (element_leaves (at_index path i) v)
            (item_leaves path (i + 1) vs))

  pub lookup-flatten_item :
      (p path : String) (v : Value) (out : List (String × String))
      → lookup p (flatten_item path v out) ≡ last_value p (lookup p out) (element_leaves path v)
  lookup-flatten_item p path (str s) out = lookup-insert path p s out
  lookup-flatten_item p path (obj fs) out = lookup-flatten p path fs out
  lookup-flatten_item p path (arr vs) out = refl
  lookup-flatten_item p path null out = refl
  lookup-flatten_item p path (bool b) out = refl
  lookup-flatten_item p path (int n) out = refl
  lookup-flatten_item p path (float b) out = refl

mutual
  unfolding flatten_string_leaves

  pub flatten-IsMap :
      (prefix : String) (fs : Fields) (out : List (String × String))
      → IsMap out
      → IsMap (flatten_string_leaves prefix fs out)
  flatten-IsMap prefix end out h = h
  flatten-IsMap prefix (field k v fs) out h =
      flatten-IsMap prefix fs (flatten_value (at_key prefix k) v out)
        (flatten_value-IsMap (at_key prefix k) v out h)

  pub flatten_value-IsMap :
      (path : String) (v : Value) (out : List (String × String))
      → IsMap out
      → IsMap (flatten_value path v out)
  flatten_value-IsMap path (str s) out h = insert-IsMap path s out h
  flatten_value-IsMap path (obj fs) out h = flatten-IsMap path fs out h
  flatten_value-IsMap path (arr vs) out h = flatten_items-IsMap path 0 vs out h
  flatten_value-IsMap path null out h = h
  flatten_value-IsMap path (bool b) out h = h
  flatten_value-IsMap path (int n) out h = h
  flatten_value-IsMap path (float b) out h = h

  pub flatten_items-IsMap :
      (path : String) (i : ℕ) (vs : Items) (out : List (String × String))
      → IsMap out
      → IsMap (flatten_items path i vs out)
  flatten_items-IsMap path i nil out h = h
  flatten_items-IsMap path i (cons v vs) out h =
      flatten_items-IsMap path (i + 1) vs (flatten_item (at_index path i) v out)
        (flatten_item-IsMap (at_index path i) v out h)

  pub flatten_item-IsMap :
      (path : String) (v : Value) (out : List (String × String))
      → IsMap out
      → IsMap (flatten_item path v out)
  flatten_item-IsMap path (str s) out h = insert-IsMap path s out h
  flatten_item-IsMap path (obj fs) out h = flatten-IsMap path fs out h
  flatten_item-IsMap path (arr vs) out h = h
  flatten_item-IsMap path null out h = h
  flatten_item-IsMap path (bool b) out h = h
  flatten_item-IsMap path (int n) out h = h
  flatten_item-IsMap path (float b) out h = h

-- The text that stands last at a path of a map, which can be nil.
abbrev pub text_in : Raw → String → Option String
text_in none p = none
text_in (some fs) p = last_value p none (leaves "" fs)

pub lookup-leaves_of : (m : Raw) (p : String) → lookup p (leaves_of m) ≡ text_in m p
unfolding lookup
lookup-leaves_of none p = refl
lookup-leaves_of (some fs) p = lookup-flatten p "" fs []

pub leaves_of-IsMap : (m : Raw) → IsMap (leaves_of m)
leaves_of-IsMap none = tt
leaves_of-IsMap (some fs) = flatten-IsMap "" fs [] tt

pub is_blank-text_in : (m : Raw) (p s : String) → text_in m p ≡ some s → is_blank m ≡ false
unfolding leaves
is_blank-text_in none p s e = cc
is_blank-text_in (some end) p s e = cc
is_blank-text_in (some (field _ _ _)) p s e = refl
