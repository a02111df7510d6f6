-- ===== src/AppSet/Generators/Lookups.antt =====
-- What the parameter sets that the loops of `expandMatrix` and `expandMerge` build hold under a key.
use cross_validate.Base.{
  String, true, false, Option, none, some, List, [], ◌∷◌, ◌==◌, string_eq, ◌≡◌, refl, ◌∙◌, sym,
  arith, eq_iff, Bool-cases, Option-cases, inl, inr,
}
use cross_validate.Base.Maps.{
  lookup, insert, has, IsMap, insert-IsMap, lookup-insert, last_of, or_else,
}
use cross_validate.Types.Argo.{Params}
use cross_validate.AppSet.Generators.{put_all, put_missing, index_params, merge_key}

pub or_else-none {ℓ} : {A : Type ℓ} (o : Option A) → or_else o none ≡ o
or_else-none none = refl
or_else-none (some a) = refl

pub put_all-IsMap : (from to : Params) → IsMap to → IsMap (put_all from to)
unfolding put_all
put_all-IsMap [] to h = h
put_all-IsMap ((k, v) ∷ from) to h = put_all-IsMap from (insert k v to) (insert-IsMap k v to h)

pub put_missing-IsMap : (from to : Params) → IsMap to → IsMap (put_missing from to)
unfolding put_missing
put_missing-IsMap [] to h = h
put_missing-IsMap ((k, v) ∷ from) to h = put_missing-IsMap from _ (elim (Bool-cases (has k to)) [
  | inl there ↦ rw there h
  | inr fresh ↦ rw fresh (insert-IsMap k v to h)
])

-- The values that are put in come before those that were there.
pub lookup-put_all :
    (k : String) (from to : Params)
    → IsMap from
    → lookup k (put_all from to) ≡ or_else (lookup k from) (lookup k to)
unfolding put_all lookup
lookup-put_all k [] to h = refl
lookup-put_all k ((j, v) ∷ from) to h =
    lookup-put_all k from (insert j v to) h.1
    ∙ rw (lookup-insert j k v to) (elim (Bool-cases (j == k)) [
      | inl same ↦
          let gone : lookup k from ≡ none = ground (arith, eq_iff j k, h.0) in rw (same, gone) refl
      | inr other ↦ rw other refl
    ])

has-none : (j : String) (to : Params) → has j to ≡ false → lookup j to ≡ none
has-none j to h = elim (Option-cases (lookup j to)) [
  | inl e ↦ e
  | inr (w, e) ↦ let there : has j to ≡ true = rw e refl in cc
]

kept :
    (k j v : String) (from to : Params)
    → has j to ≡ true
    → or_else (lookup k to) (lookup k from) ≡ or_else (lookup k to) (lookup k ((j, v) ∷ from))
unfolding lookup
kept k j v from to there = elim (Option-cases (lookup k to)) [
  | inr (w, e) ↦ rw e refl
  | inl e ↦ elim (Bool-cases (j == k)) [
    | inl same ↦
        let key : j ≡ k = (eq_iff j k).0 same in
        let gone : has k to ≡ false = rw e refl in
        let found : has k to ≡ true = rw key at there in cc
    | inr other ↦ rw (e, other) refl
  ]
]

added :
    (k j v : String) (from to : Params)
    → has j to ≡ false
    → or_else (lookup k (insert j v to)) (lookup k from)
      ≡ or_else (lookup k to) (lookup k ((j, v) ∷ from))
unfolding lookup
added k j v from to fresh = rw (lookup-insert j k v to) (elim (Bool-cases (j == k)) [
  | inl same ↦
      let gone : lookup k to ≡ none = has-none k to (rw ((eq_iff j k).0 same) at fresh) in
      rw (same, gone) refl
  | inr other ↦ rw other refl
])

pub lookup-put_missing :
    (k : String) (from to : Params)
    → lookup k (put_missing from to) ≡ or_else (lookup k to) (lookup k from)
unfolding put_missing lookup
lookup-put_missing k [] to = sym (or_else-none (lookup k to))
lookup-put_missing k ((j, v) ∷ from) to = elim (Bool-cases (has j to)) [
  | inl there ↦ rw there (lookup-put_missing k from to ∙ kept k j v from to there)
  | inr fresh ↦ rw fresh (lookup-put_missing k from (insert j v to) ∙ added k j v from to fresh)
]

pub lookup-index_params :
    (key : String) (keys : List String) (right : List Params) (index : List (String × Params))
    → lookup key (index_params keys right index)
      ≡ last_of (λ bp. merge_key bp keys) key (lookup key index) right
unfolding index_params
lookup-index_params key keys [] index = refl
lookup-index_params key keys (bp ∷ rest) index =
    lookup-index_params key keys rest (insert (merge_key bp keys) bp index)
    ∙ rw (lookup-insert (merge_key bp keys) key bp index) refl
