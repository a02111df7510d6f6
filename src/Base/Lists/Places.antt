-- ===== src/Base/Lists/Places.antt =====
-- Lists that are mapped, appended and flattened: what holds of all elements, and what stands where.
use Prim.Native.Nat.{ℕ, zero, suc, ◌+◌, ◌*◌}
use mathlib.Core.Path.{◌≡◌, refl, sym, ap, subst, ◌∙◌}
use mathlib.Core.Option
use mathlib.Core.Option.{Option, none, some}
use mathlib.Core.List.{Memᴰ, List, [], ◌∷◌, ◌++◌, map, flat_map}
use native.Mathlib.Omega.{arith}
use cross_validate.Base.Lists.{length, get_elem?, All, collect, push_some}

module _ {ℓ κ} {A : Type ℓ} (P : A → Type κ) where
  pub All-append : (xs ys : List A) → All P xs → All P ys → All P (xs ++ ys)
  All-append [] ys hx hy = hy
  All-append (x ∷ xs) ys (px, hx) hy = (px, All-append xs ys hx hy)

  pub All-mem : {x : A} {xs : List A} → All P xs → Memᴰ x xs → P x
  All-mem h (Memᴰ.head e) = subst P (sym e) h.0
  All-mem h (Memᴰ.tail m) = All-mem h.1 m

  pub get_elem?-All : (xs : List A) (i : ℕ) {x : A} → All P xs → get_elem? xs i ≡ some x → P x
  get_elem?-All [] i h e = cc
  get_elem?-All (y ∷ xs) zero h e = subst P (Option.some_inj.0 e) h.0
  get_elem?-All (y ∷ xs) (suc i) h e = get_elem?-All xs i h.1 e

module _ {ℓ κ ι} {A : Type ℓ} {B : Type κ} (P : B → Type ι) where
  pub All-map : (f : A → B) (xs : List A) → ((a : A) → P (f a)) → All P (map f xs)
  All-map f [] h = tt
  All-map f (x ∷ xs) h = (h x, All-map f xs h)

  pub All-flat_map :
      (f : A → List B) (xs : List A) → ((a : A) → All P (f a)) → All P (flat_map f xs)
  unfolding flat_map
  All-flat_map f [] h = tt
  All-flat_map f (x ∷ xs) h = All-append P (f x) (flat_map f xs) (h x) (All-flat_map f xs h)

  All-push_some :
      (f : A → Option B) (o : Option B) (ys : List B)
      → ((b : B) → o ≡ some b → P b)
      → All P ys
      → All P (push_some f o ys)
  All-push_some f none ys k h = h
  All-push_some f (some b) ys k h = (k b refl, h)

  pub All-collect :
      (f : A → Option B) (xs : List A)
      → ((a : A) (b : B) → f a ≡ some b → P b)
      → All P (collect f xs)
  All-collect f [] h = tt
  All-collect f (x ∷ xs) h = All-push_some f (f x) (collect f xs) (h x) (All-collect f xs h)

module _ {ℓ κ} {A : Type ℓ} {B : Type κ} where
  pub length-map : (f : A → B) (xs : List A) → length (map f xs) ≡ length xs
  length-map f [] = refl
  length-map f (x ∷ xs) = ap suc (length-map f xs)

  pub get_elem?-map :
      (f : A → B) (xs : List A) (i : ℕ) {x : A}
      → get_elem? xs i ≡ some x
      → get_elem? (map f xs) i ≡ some (f x)
  get_elem?-map f [] i e = cc
  get_elem?-map f (y ∷ xs) zero e = ap (λ a. some (f a)) (Option.some_inj.0 e)
  get_elem?-map f (y ∷ xs) (suc i) e = get_elem?-map f xs i e

pub length-append {ℓ} : {A : Type ℓ} (xs ys : List A) → length (xs ++ ys) ≡ length xs + length ys
length-append [] ys = omega arith
length-append (x ∷ xs) ys = let ih = length-append xs ys in omega arith

get_elem?-append_left {ℓ} :
    {A : Type ℓ} (xs ys : List A) (i : ℕ) {x : A}
    → get_elem? xs i ≡ some x
    → get_elem? (xs ++ ys) i ≡ some x
get_elem?-append_left [] ys i e = cc
get_elem?-append_left (y ∷ xs) ys zero e = e
get_elem?-append_left (y ∷ xs) ys (suc i) e = get_elem?-append_left xs ys i e

get_elem?-append_right {ℓ} :
    {A : Type ℓ} (xs ys : List A) (i : ℕ) → get_elem? (xs ++ ys) (length xs + i) ≡ get_elem? ys i
get_elem?-append_right [] ys i = ap (get_elem? ys) (omega arith)
get_elem?-append_right (y ∷ xs) ys i =
    let next : suc (length xs) + i ≡ suc (length xs + i) = omega arith in
    ap (get_elem? (y ∷ (xs ++ ys))) next ∙ get_elem?-append_right xs ys i

-- Flattening lists of the same length.
module _ {ℓ κ} {A : Type ℓ} {B : Type κ} (f : A → List B) (n : ℕ)
    (even : (a : A) → length (f a) ≡ n) where
  pub length-flat_map : (xs : List A) → length (flat_map f xs) ≡ length xs * n
  unfolding flat_map
  length-flat_map [] = omega arith
  length-flat_map (x ∷ xs) =
      let ih = length-flat_map xs in
      let here = even x in length-append (f x) (flat_map f xs) ∙ grind arith

  pub get_elem?-flat_map :
      (xs : List A) (i j : ℕ) {x : A} {b : B}
      → get_elem? xs i ≡ some x
      → get_elem? (f x) j ≡ some b
      → get_elem? (flat_map f xs) (i * n + j) ≡ some b
  unfolding flat_map
  get_elem?-flat_map [] i j e e' = cc
  get_elem?-flat_map (y ∷ xs) zero j {x} {b} e e' =
      let here : 0 * n + j ≡ j = omega arith in
      ap (get_elem? (f y ++ flat_map f xs)) here
      ∙ get_elem?-append_left (f y) (flat_map f xs) j
          (subst (λ a. get_elem? (f a) j ≡ some b) (sym (Option.some_inj.0 e)) e')
  get_elem?-flat_map (y ∷ xs) (suc i) j {x} {b} e e' =
      let there : suc i * n + j ≡ length (f y) + (i * n + j) = (let here = even y in grind arith) in
      ap (get_elem? (f y ++ flat_map f xs)) there
      ∙ get_elem?-append_right (f y) (flat_map f xs) (i * n + j)
      ∙ get_elem?-flat_map xs i j e e'
