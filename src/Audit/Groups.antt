-- ===== src/Audit/Groups.antt =====
-- What the maps of subtrees hold.
use cross_validate.Base.{
  any-append, String, Bool, true, false, ◌||◌, some, List, [], ◌∷◌, ◌++◌, if◌then◌else◌, ◌==◌,
  string_eq, any, select, ◌≡◌, refl, sym, ◌∙◌, ap, arith, Bool-cases, inl, inr, eq_of_beq,
}
use mathlib.Core.List.{append_assoc, append-nil}
use cross_validate.Base.Maps.{lookup, insert, has, lookup-insert}
use cross_validate.Base.Sorting.{sort_by, insert_sorted}
use cross_validate.Types.World.{or_empty}
use cross_validate.Config.Names.{contains_string}
use cross_validate.Audit.{Judgment, Subtree, group, keys_of, add_observed, subtree_of, fill}

any-insert_sorted {ℓ} :
    {A : Type ℓ} (less : A → A → Bool) (p : A → Bool) (x : A) (xs : List A)
    → any p (insert_sorted less x xs) ≡ (p x || any p xs)
unfolding insert_sorted
any-insert_sorted less p x [] = refl
any-insert_sorted less p x (y ∷ ys) = ground (arith, any-insert_sorted less p x ys)

pub any-sort_by {ℓ} :
    {A : Type ℓ} (less : A → A → Bool) (p : A → Bool) (xs : List A)
    → any p (sort_by less xs) ≡ any p xs
unfolding sort_by
any-sort_by less p [] = refl
any-sort_by less p (x ∷ xs) =
    any-insert_sorted less p x (sort_by less xs) ∙ ap (λ b. p x || b) (any-sort_by less p xs)

pub contains-add_observed :
    (ids more : List String) (id : String)
    → contains_string (add_observed ids more) id
      ≡ (contains_string ids id || contains_string more id)
unfolding add_observed
contains-add_observed ids [] id = ground arith
contains-add_observed ids (x ∷ more) id = elim (Bool-cases (contains_string ids x)) [
  | inl old ↦
      rw (old, contains-add_observed ids more id)
        (elim (Bool-cases (x == id)) [
          | inl same ↦
              let e = eq_of_beq x id same in
              let here : contains_string ids id ≡ true = rw e at old in rw (here) refl
          | inr other ↦ rw other refl
        ])
  | inr new ↦
      rw
        (new, contains-add_observed (ids ++ x ∷ []) more id, any-append (λ s. s == id) ids (x ∷ []))
        (ground arith)
]

module _ (of : Judgment → String) (key : String) where
  -- A key's group holds the judgments with that key, in order.
  pub group_lem :
      (groups : List (String × List Judgment)) (js : List Judgment)
      → or_empty (lookup key (group of groups js))
        ≡ or_empty (lookup key groups) ++ select (λ j. of j == key) js
  unfolding group
  group_lem groups [] = sym (append-nil _)
  group_lem groups (j ∷ js) =
      group_lem (insert (of j) (or_empty (lookup (of j) groups) ++ j ∷ []) groups) js
      ∙ rw (lookup-insert (of j) key (or_empty (lookup (of j) groups) ++ j ∷ []) groups)
          (elim (Bool-cases (of j == key)) [
            | inl same ↦
                rw (same, eq_of_beq (of j) key same)
                  (append_assoc (or_empty (lookup key groups)) (j ∷ []) _)
            | inr other ↦ rw other refl
          ])

  pub has-group :
      (groups : List (String × List Judgment)) (js : List Judgment)
      → has key (group of groups js) ≡ (has key groups || any (λ j. of j == key) js)
  unfolding group
  has-group groups [] = ground arith
  has-group groups (j ∷ js) =
      has-group (insert (of j) (or_empty (lookup (of j) groups) ++ j ∷ []) groups) js
      ∙ rw (lookup-insert (of j) key (or_empty (lookup (of j) groups) ++ j ∷ []) groups)
          (elim (Bool-cases (of j == key)) [
            | inl same ↦ rw same (ground arith)
            | inr other ↦ rw other refl
          ])

pub has-keys_of {ℓ} :
    {A : Type ℓ} (m : List (String × A)) (key : String)
    → contains_string (keys_of m) key ≡ has key m
unfolding lookup
has-keys_of [] key = refl
has-keys_of ((k, a) ∷ m) key = ground (arith, has-keys_of m key)

module _ (sha256_hex : String → String) (groups : List (String × List Judgment)) where
  either :
      {key : String} (k : String) (b : Bool)
      → k ≡ key
      → (if b
          then some (subtree_of sha256_hex groups key)
          else some (subtree_of sha256_hex groups k))
        ≡ some (subtree_of sha256_hex groups key)
  either k true e = refl
  either k false e = ap (λ x. some (subtree_of sha256_hex groups x)) e

  -- The map holds the subtree of each key of the list.
  pub lookup-fill :
      (out : List (String × Subtree)) (keys : List String) (key : String)
      → lookup key (fill sha256_hex groups out keys) ≡ (
          if contains_string keys key
          then some (subtree_of sha256_hex groups key)
          else lookup key out)
  unfolding fill
  lookup-fill out [] key = refl
  lookup-fill out (k ∷ keys) key =
      lookup-fill (insert k (subtree_of sha256_hex groups k) out) keys key
      ∙ rw (lookup-insert k key (subtree_of sha256_hex groups k) out)
          (elim (Bool-cases (k == key)) [
            | inl same ↦ rw same (either k (contains_string keys key) (eq_of_beq k key same))
            | inr other ↦ rw other refl
          ])
