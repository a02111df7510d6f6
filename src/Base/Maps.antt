-- ===== src/Base/Maps.antt =====
-- Go maps as association lists. `m[k] = v` overwrites in place or adds at the end, so keys stay
-- distinct; a range over the map meets the entries in the order of the list.
use cross_validate.Base.Bools.{if◌then◌else◌, Bool-cases, is_some}
use cross_validate.Base.Equality.{Eq, ◌==◌, eq_of_beq}
use mathlib.Core.Path.{◌≡◌, refl, sym, ap}
use mathlib.Core.Logic.{inl, inr}
use mathlib.Core.Bool.{Bool, false}
use mathlib.Core.Option.{Option, none, some}
use mathlib.Core.List.Memᴰ
use mathlib.Core.List.{List, [], ◌∷◌, ◌++◌, Memᴰ}
use native.Mathlib.Omega.{arith}

module _ {ℓ κ} {K : Type ℓ} {V : Type κ} ⦃eq : Eq K⦄ where
  unfoldable pub lookup : K → List (K × V) → Option V
  lookup k [] = none
  lookup k ((j, v) ∷ m) = if j == k then some v else lookup k m

  unfoldable pub insert : K → V → List (K × V) → List (K × V)
  insert k v [] = (k, v) ∷ []
  insert k v ((j, w) ∷ m) = if j == k then (j, v) ∷ m else (j, w) ∷ insert k v m

  -- `_, ok := m[k]`
  abbrev pub has : K → List (K × V) → Bool
  has k m = is_some (lookup k m)

  -- The keys are distinct.
  abbrev pub IsMap : List (K × V) → Type 0
  IsMap [] = Unit
  IsMap ((k, _) ∷ m) = (has k m ≡ false) × IsMap m

  pub lookup-insert :
      (put asked : K) (v : V) (m : List (K × V))
      → lookup asked (insert put v m) ≡ (if put == asked then some v else lookup asked m)
  unfolding lookup insert
  lookup-insert put asked v [] = refl
  lookup-insert put asked v ((first, w) ∷ rest) = ground (
    lookup-insert put asked v rest,
    eq.beq_iff first asked,
    eq.beq_iff first put,
    eq.beq_iff put asked,
    arith,
  )

  pub insert-IsMap : (k : K) (v : V) (m : List (K × V)) → IsMap m → IsMap (insert k v m)
  unfolding lookup insert
  insert-IsMap k v [] h = (refl, tt)
  insert-IsMap k v ((j, w) ∷ m) h =
      ground (arith, eq.beq_iff j k, eq.beq_iff k j, insert-IsMap k v m h.1, lookup-insert k j v m)

  -- With distinct keys the entries are what `lookup` finds.
  pub mem-of_lookup : (k : K) (m : List (K × V)) {v : V} → lookup k m ≡ some v → Memᴰ (k, v) m
  unfolding lookup
  mem-of_lookup k [] h = cc
  mem-of_lookup k ((j, w) ∷ m) {v} h = elim (Bool-cases (j == k)) [
    | inl same ↦
        let here : j ≡ k = eq_of_beq j k same in
        let val : w ≡ v = ground arith in Memᴰ.head (λ i. (sym here i, sym val i))
    | inr other ↦ Memᴰ.tail (mem-of_lookup k m (rw (other, lookup) at h))
  ]

  pub lookup-of_mem :
      (k : K) (m : List (K × V)) {v : V} → IsMap m → Memᴰ (k, v) m → lookup k m ≡ some v
  unfolding lookup
  lookup-of_mem k [] h mem = absurd (Memᴰ.not-nil mem)
  lookup-of_mem k ((j, w) ∷ m) {v} h mem = elim (Memᴰ.cases_cons mem) [
    | inl e ↦
        let key : k ≡ j = ap (λ p. p.0) e in
        let val : v ≡ w = ap (λ p. p.1) e in ground (arith, eq.beq_iff j k)
    | inr later ↦ let ih = lookup-of_mem k m h.1 later in ground (arith, eq.beq_iff j k, h.0)
  ]

-- The last element of a list under a key, or else what was known before.
module _ {ℓ κ} {K : Type ℓ} {A : Type κ} ⦃eq : Eq K⦄ (key : A → K) where
  abbrev pub last_of : K → Option A → List A → Option A
  last_of k known [] = known
  last_of k known (x ∷ xs) = last_of k (if key x == k then some x else known) xs

abbrev pub or_else {ℓ} : {A : Type ℓ} → Option A → Option A → Option A
or_else none b = b
or_else (some a) b = some a

-- The last value under a key of a list of entries, or else what was known before: what a loop of
-- `m[k] = v` leaves under the key.
module _ {ℓ κ} {K : Type ℓ} {V : Type κ} ⦃eq : Eq K⦄ where
  abbrev pub last_value : K → Option V → List (K × V) → Option V
  last_value k known [] = known
  last_value k known ((j, v) ∷ rest) = last_value k (if j == k then some v else known) rest

  pub last_value-append :
      (k : K) (known : Option V) (xs ys : List (K × V))
      → last_value k known (xs ++ ys) ≡ last_value k (last_value k known xs) ys
  last_value-append k known [] ys = refl
  last_value-append k known ((j, v) ∷ xs) ys =
      last_value-append k (if j == k then some v else known) xs ys
