-- ===== src/Base/Lists.antt =====
-- Lists measured and indexed by native numbers, and membership in lists that a loop builds.
pub mod Places
use Prim.Native.Nat.{ℕ, zero, suc}
use mathlib.Core.Path.{◌≡◌, refl, sym, ap, subst}
use mathlib.Core.Bool.{Bool, true, false, ◌&&◌, ◌||◌}
use mathlib.Core.Logic.{◌⊎◌, inl, inr}
use mathlib.Core.List.Memᴰ
use mathlib.Core.List.{◌++◌, List, [], ◌∷◌, Memᴰ, flat_map}
use mathlib.Core.Option.{Option, none, some}
use native.Mathlib.Omega.{arith}
use cross_validate.Base.Bools.{if◌then◌else◌, Bool-cases}

module _ {ℓ} {A : Type ℓ} where
  abbrev pub length : List A → ℕ
  length [] = 0
  length (x ∷ xs) = suc (length xs)

  abbrev pub get_elem? : List A → ℕ → Option A
  get_elem? [] i = none
  get_elem? (x ∷ xs) zero = some x
  get_elem? (x ∷ xs) (suc i) = get_elem? xs i

  abbrev pub is_empty : List A → Bool
  is_empty [] = true
  is_empty (_ ∷ _) = false

  abbrev pub any : (A → Bool) → List A → Bool
  any p [] = false
  any p (x ∷ xs) = p x || any p xs

  abbrev pub all : (A → Bool) → List A → Bool
  all p [] = true
  all p (x ∷ xs) = p x && all p xs

  -- The elements that pass a test, in order.
  abbrev pub select : (A → Bool) → List A → List A
  select p [] = []
  select p (x ∷ xs) = if p x then x ∷ select p xs else select p xs

  abbrev pub All {κ} : (A → Type κ) → List A → Type κ
  All P [] = Unit
  All P (x ∷ xs) = P x × All P xs

-- What a loop that appends at most one element for each item has built.
module _ {ℓ κ} {A : Type ℓ} {B : Type κ} (f : A → Option B) where
  abbrev pub push_some : Option B → List B → List B
  push_some none ys = ys
  push_some (some y) ys = y ∷ ys

  abbrev pub collect : List A → List B
  collect [] = []
  collect (x ∷ xs) = push_some (f x) (collect xs)

module _ {ℓ κ} {A : Type ℓ} {B : Type κ} (f : A → Option B) where
  mem-push_some :
      (o : Option B) (ys : List B) {b : B} → Memᴰ b (push_some f o ys) → (o ≡ some b) ⊎ Memᴰ b ys
  mem-push_some none ys m = inr m
  mem-push_some (some y) ys (Memᴰ.head e) = inl (ap some (sym e))
  mem-push_some (some y) ys (Memᴰ.tail m) = inr m

  push_some-mem : (o : Option B) (ys : List B) {b : B} → Memᴰ b ys → Memᴰ b (push_some f o ys)
  push_some-mem none ys m = m
  push_some-mem (some y) ys m = Memᴰ.tail m

  -- A collected element comes from an element of the list.
  pub mem-collect :
      (xs : List A) {b : B} → Memᴰ b (collect f xs) → (a : A) × Memᴰ a xs × (f a ≡ some b)
  mem-collect [] m = absurd (Memᴰ.not-nil m)
  mem-collect (x ∷ xs) m = elim (mem-push_some (f x) (collect f xs) m) [
    | inl here ↦ (x, Memᴰ.head refl, here)
    | inr later ↦ let (a, n, e) = mem-collect xs later in (a, Memᴰ.tail n, e)
  ]

  pub collect-mem : {a : A} {b : B} {xs : List A} → Memᴰ a xs → f a ≡ some b → Memᴰ b (collect f xs)
  collect-mem {a} (Memᴰ.head {x} {xs} same) e =
      let found : f x ≡ some _ = cc in rw found (Memᴰ.head refl)
  collect-mem (Memᴰ.tail {x} {xs} m) e = push_some-mem (f x) _ (collect-mem m e)

-- The same of a loop that tests its items.
module _ {ℓ} {A : Type ℓ} (p : A → Bool) where
  pub mem-select : (xs : List A) {a : A} → Memᴰ a (select p xs) → Memᴰ a xs × (p a ≡ true)
  mem-select [] m = absurd (Memᴰ.not-nil m)
  mem-select (x ∷ xs) m = elim (Bool-cases (p x)) [
    | inl pass ↦ elim (Memᴰ.cases_cons (rw pass at m)) [
      | inl e ↦ (Memᴰ.head e, cc)
      | inr later ↦ let (n, e) = mem-select xs later in (Memᴰ.tail n, e)
    ]
    | inr fail ↦ let (n, e) = mem-select xs (rw fail at m) in (Memᴰ.tail n, e)
  ]

  pub select-mem : {a : A} {xs : List A} → Memᴰ a xs → p a ≡ true → Memᴰ a (select p xs)
  select-mem {a} (Memᴰ.head {x} {xs} same) e =
      let found : p x ≡ true = cc in rw found (Memᴰ.head same)
  select-mem (Memᴰ.tail {x} {xs} m) e = elim (Bool-cases (p x)) [
    | inl pass ↦ rw pass (Memᴰ.tail (select-mem m e))
    | inr fail ↦ rw fail (select-mem m e)
  ]

-- A test of some element.
pub any-append {ℓ} :
    {A : Type ℓ} (p : A → Bool) (xs ys : List A) → any p (xs ++ ys) ≡ (any p xs || any p ys)
any-append p [] ys = refl
any-append p (x ∷ xs) ys = ground (arith, any-append p xs ys)

pub any-select {ℓ} :
    {A : Type ℓ} (p q : A → Bool) (xs : List A) → any p (select q xs) ≡ any (λ x. q x && p x) xs
any-select p q [] = refl
any-select p q (x ∷ xs) = ground (arith, any-select p q xs)

pub mem-flat_map {ℓ κ} :
    {A : Type ℓ} {B : Type κ} (f : A → List B) (xs : List A) {b : B}
    → Memᴰ b (flat_map f xs)
    → (a : A) × Memᴰ a xs × Memᴰ b (f a)
unfolding flat_map
mem-flat_map f [] m = absurd (Memᴰ.not-nil m)
mem-flat_map f (x ∷ xs) m = elim (Memᴰ.append_cases (f x) m) [
  | inl here ↦ (x, Memᴰ.head refl, here)
  | inr later ↦ let (a, n, k) = mem-flat_map f xs later in (a, Memᴰ.tail n, k)
]

pub flat_map-mem {ℓ κ} :
    {A : Type ℓ} {B : Type κ} (f : A → List B) {a : A} {b : B} {xs : List A}
    → Memᴰ a xs
    → Memᴰ b (f a)
    → Memᴰ b (flat_map f xs)
unfolding flat_map
flat_map-mem f {b} (Memᴰ.head {x} {xs} e) m = Memᴰ.append_left _ (subst (λ y. Memᴰ b (f y)) e m)
flat_map-mem f (Memᴰ.tail {x} {xs} n) m = Memᴰ.append_right (f x) (flat_map-mem f n m)
