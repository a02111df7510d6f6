-- ===== src/Base/Sorting/Strict.antt =====
-- Sorting a list of elements that are all apart gives a strict order.
use mathlib.Core.Path.{◌≡◌, refl, ap, ◌∙◌}
use mathlib.Core.Bool.{Bool, true, false, ◌||◌}
use mathlib.Core.List.{List, [], ◌∷◌}
use native.Mathlib.Omega.{arith}
use cross_validate.Base.Bools.{Bool-cases}
use cross_validate.Base.Lists.{All, any}
use cross_validate.Base.Sorting.{insert_sorted, sort_by, IsSorted, sort_by-IsSorted}
use mathlib.Core.Logic.{inl, inr}

-- Each element stands in the relation to all behind it.
module _ {ℓ κ} {A : Type ℓ} (R : A → A → Type κ) where
  abbrev pub Pairwise : List A → Type κ
  Pairwise [] = Unit
  Pairwise (x ∷ xs) = All (R x) xs × Pairwise xs

  -- Each element stands in the relation to the next.
  abbrev HeadNext : A → List A → Type κ
  HeadNext x [] = Unit
  HeadNext x (y ∷ _) = R x y

  abbrev pub IsChain : List A → Type κ
  IsChain [] = Unit
  IsChain (x ∷ xs) = HeadNext x xs × IsChain xs

module _ {ℓ κ} {A : Type ℓ} (less : A → A → Bool) where
  All-insert_sorted :
      (P : A → Type κ) (x : A) (xs : List A) → P x → All P xs → All P (insert_sorted less x xs)
  unfolding insert_sorted
  All-insert_sorted P x [] p h = (p, tt)
  All-insert_sorted P x (y ∷ ys) p h = elim (Bool-cases (less y x)) [
    | inl before ↦ rw before (h.0, All-insert_sorted P x ys p h.1)
    | inr after ↦ rw after (p, h)
  ]

  module _ (Apart : A → A → Type κ) (apart_sym : (x y : A) → Apart x y → Apart y x) where
    Pairwise-insert_sorted :
        (x : A) (xs : List A)
        → All (Apart x) xs
        → Pairwise Apart xs
        → Pairwise Apart (insert_sorted less x xs)
    unfolding insert_sorted
    Pairwise-insert_sorted x [] p h = (tt, tt)
    Pairwise-insert_sorted x (y ∷ ys) p h = elim (Bool-cases (less y x)) [
      | inl before ↦ rw before (
        All-insert_sorted (Apart y) x ys (apart_sym x y p.0) h.0,
        Pairwise-insert_sorted x ys p.1 h.1,
      )
      | inr after ↦ rw after (p, h)
    ]

    All-sort_by : (P : A → Type κ) (xs : List A) → All P xs → All P (sort_by less xs)
    unfolding sort_by
    All-sort_by P [] h = tt
    All-sort_by P (x ∷ xs) h = All-insert_sorted P x (sort_by less xs) h.0 (All-sort_by P xs h.1)

    Pairwise-sort_by : (xs : List A) → Pairwise Apart xs → Pairwise Apart (sort_by less xs)
    unfolding sort_by
    Pairwise-sort_by [] h = tt
    Pairwise-sort_by (x ∷ xs) h =
        Pairwise-insert_sorted x (sort_by less xs) (All-sort_by (Apart x) xs h.0)
          (Pairwise-sort_by xs h.1)

    module _ {ι} (Below : A → A → Type ι)
        (below : (x y : A) → less y x ≡ false → Apart x y → Below x y) where
      IsSorted-IsChain : (xs : List A) → IsSorted less xs → Pairwise Apart xs → IsChain Below xs
      IsSorted-IsChain [] h p = tt
      IsSorted-IsChain (x ∷ []) h p = (tt, tt)
      IsSorted-IsChain (x ∷ y ∷ ys) h p = (below x y h.0 p.0.0, IsSorted-IsChain (y ∷ ys) h.1 p.1)

      pub sort_by-IsChain :
          ((x y : A) → less x y ≡ true → less y x ≡ false)
          → (xs : List A) → Pairwise Apart xs
          → IsChain Below (sort_by less xs)
      sort_by-IsChain asymm xs p =
          IsSorted-IsChain (sort_by less xs) (sort_by-IsSorted less asymm xs)
            (Pairwise-sort_by xs p)

-- Sorting keeps what a loop for one element finds.
module _ {ℓ} {A : Type ℓ} (less : A → A → Bool) (p : A → Bool) where
  any-insert_sorted : (x : A) (xs : List A) → any p (insert_sorted less x xs) ≡ (p x || any p xs)
  unfolding insert_sorted
  any-insert_sorted x [] = refl
  any-insert_sorted x (y ∷ ys) = elim (Bool-cases (less y x)) [
    | inl before ↦ let ih = any-insert_sorted x ys in rw (before, ih) (swap (p y) (p x) (any p ys))
    | inr after ↦ rw after refl
  ]
    where
      swap : (a b c : Bool) → (a || (b || c)) ≡ (b || (a || c))
      swap a b c = ground arith

  pub any-sort_by : (xs : List A) → any p (sort_by less xs) ≡ any p xs
  unfolding sort_by
  any-sort_by [] = refl
  any-sort_by (x ∷ xs) = any-insert_sorted x (sort_by less xs) ∙ ap (λ b. p x || b) (any-sort_by xs)
