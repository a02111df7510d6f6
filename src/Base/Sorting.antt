-- ===== src/Base/Sorting.antt =====
-- `sort.Slice` and its kin, as a stable insertion sort by the program's `less`. Where `less` leaves
-- two unequal elements unordered, Go may choose another of their orders.
pub mod Strict
use mathlib.Core.Path.{◌≡◌}
use mathlib.Core.Bool.{Bool, true, false}
use mathlib.Core.List.Memᴰ
use mathlib.Core.Logic.{◌⊎◌, inl, inr}
use mathlib.Core.List.{List, [], ◌∷◌, Memᴰ}
use cross_validate.Base.Bools.{if◌then◌else◌, Bool-cases}

module _ {ℓ} {A : Type ℓ} (less : A → A → Bool) where
  unfoldable pub insert_sorted : A → List A → List A
  insert_sorted x [] = x ∷ []
  insert_sorted x (y ∷ ys) = if less y x then y ∷ insert_sorted x ys else x ∷ y ∷ ys

  unfoldable pub sort_by : List A → List A
  unfolding insert_sorted
  sort_by [] = []
  sort_by (x ∷ xs) = insert_sorted x (sort_by xs)

  -- No element is less than the one before it.
  abbrev HeadLe : A → List A → Type 0
  HeadLe x [] = Unit
  HeadLe x (y ∷ _) = less y x ≡ false

  abbrev pub IsSorted : List A → Type 0
  IsSorted [] = Unit
  IsSorted (x ∷ xs) = HeadLe x xs × IsSorted xs

module _ {ℓ} {A : Type ℓ} (less : A → A → Bool) where
  insert_sorted-mem :
      {a : A} (x : A) (xs : List A) → Memᴰ a (insert_sorted less x xs) → (a ≡ x) ⊎ Memᴰ a xs
  unfolding insert_sorted
  insert_sorted-mem x [] m = Memᴰ.cases_cons m
  insert_sorted-mem x (y ∷ ys) m = elim (Bool-cases (less y x)) [
    | inl before ↦ elim (Memᴰ.cases_cons (rw before at m)) [
      | inl e ↦ inr (Memᴰ.head e)
      | inr later ↦ elim (insert_sorted-mem x ys later) [
        | inl e ↦ inl e
        | inr n ↦ inr (Memᴰ.tail n)
      ]
    ]
    | inr after ↦ Memᴰ.cases_cons (rw after at m)
  ]

  mem-insert_sorted :
      {a : A} (x : A) (xs : List A) → Memᴰ a (x ∷ xs) → Memᴰ a (insert_sorted less x xs)
  unfolding insert_sorted
  mem-insert_sorted x [] m = m
  mem-insert_sorted x (y ∷ ys) m = elim (Bool-cases (less y x)) [
    | inl before ↦ rw before (elim (Memᴰ.cases_cons m) [
      | inl e ↦ Memᴰ.tail (mem-insert_sorted x ys (Memᴰ.head e))
      | inr later ↦ elim (Memᴰ.cases_cons later) [
        | inl e ↦ Memᴰ.head e
        | inr n ↦ Memᴰ.tail (mem-insert_sorted x ys (Memᴰ.tail n))
      ]
    ])
    | inr after ↦ rw after m
  ]

  pub mem_of_sort_by : {a : A} (xs : List A) → Memᴰ a (sort_by less xs) → Memᴰ a xs
  unfolding sort_by
  mem_of_sort_by [] m = m
  mem_of_sort_by (x ∷ xs) m = elim (insert_sorted-mem x (sort_by less xs) m) [
    | inl e ↦ Memᴰ.head e
    | inr n ↦ Memᴰ.tail (mem_of_sort_by xs n)
  ]

  pub mem-sort_by : {a : A} (xs : List A) → Memᴰ a xs → Memᴰ a (sort_by less xs)
  unfolding sort_by
  mem-sort_by [] m = m
  mem-sort_by (x ∷ xs) m = elim (Memᴰ.cases_cons m) [
    | inl e ↦ mem-insert_sorted x (sort_by less xs) (Memᴰ.head e)
    | inr n ↦ mem-insert_sorted x (sort_by less xs) (Memᴰ.tail (mem-sort_by xs n))
  ]

module _ {ℓ} {A : Type ℓ} (less : A → A → Bool)
    (asymm : (a b : A) → less a b ≡ true → less b a ≡ false) where
  HeadLe-insert_sorted :
      (y x : A) (ys : List A)
      → HeadLe less y ys
      → less x y ≡ false
      → HeadLe less y (insert_sorted less x ys)
  unfolding insert_sorted
  HeadLe-insert_sorted y x [] h k = k
  HeadLe-insert_sorted y x (z ∷ zs) h k = elim (Bool-cases (less z x)) [
    | inl before ↦ rw before h
    | inr after ↦ rw after k
  ]

  insert_sorted-IsSorted :
      (x : A) (xs : List A) → IsSorted less xs → IsSorted less (insert_sorted less x xs)
  unfolding insert_sorted
  insert_sorted-IsSorted x [] h = (tt, tt)
  insert_sorted-IsSorted x (y ∷ ys) h = elim (Bool-cases (less y x)) [
    | inl before ↦
        rw before
          (HeadLe-insert_sorted y x ys h.0 (asymm y x before), insert_sorted-IsSorted x ys h.1)
    | inr after ↦ rw after (after, h)
  ]

  pub sort_by-IsSorted : (xs : List A) → IsSorted less (sort_by less xs)
  unfolding sort_by
  sort_by-IsSorted [] = tt
  sort_by-IsSorted (x ∷ xs) = insert_sorted-IsSorted x (sort_by less xs) (sort_by-IsSorted xs)
