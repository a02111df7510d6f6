-- ===== src/Schemas/Empty.antt =====
-- When the loops give no fact.
use cross_validate.Base.{
  ℕ, suc, String, Bool, true, false, ◌||◌, Option, none, some, is_some, List, [], ◌∷◌, ◌++◌,
  collect, if◌then◌else◌, ◌≡◌, refl, sym, ap, subst, ◌∙◌, ◌↔◌, ◌>>=◌, Memᴰ, Bool-cases,
  Option-cases, inl, inr,
}
use mathlib.Core.List.Memᴰ
use mathlib.Core.Option
use cross_validate.Base.Texts.{text}
use cross_validate.Ir.Paths.{itoa}
use cross_validate.Types.Values.{Value, Fields, get, entries}
use cross_validate.Schemas.Facts.{
  FieldFact, each_facts, check_required, required_names, missing_fact, unknown_facts, unknown_fact,
  additional_properties_false, is_declared, get_nested_map, sub_path,
}
use cross_validate.Schemas.{Walk, walk_items}

abbrev pub Facts : Type 0
Facts = List FieldFact

pub append-empty {ℓ} : {A : Type ℓ} (xs ys : List A) → xs ++ ys ≡ [] → (xs ≡ []) × (ys ≡ [])
append-empty [] ys e = (refl, e)
append-empty (x ∷ xs) ys e = cc

-- One step and then another.
pub in_turn :
    (o p : Option Facts)
    → ((o >>= λ a. p >>= λ b. some (a ++ b)) ≡ some []) ↔ ((o ≡ some []) × (p ≡ some []))
in_turn none p = ((λ e. cc), λ h. cc)
in_turn (some a) none = ((λ e. cc), λ h. cc)
in_turn (some a) (some b) = (
  (λ e. let (x, y) = append-empty a b (Option.some_inj.0 e) in (ap some x, ap some y)),
  λ (x, y).
      let x' = Option.some_inj.0 x in let y' = Option.some_inj.0 y in λ i. some (x' i ++ y' i),
)

pub each_facts-empty {ℓ} :
    {A : Type ℓ} (f : A → Option Facts) (xs : List A)
    → (each_facts f xs ≡ some []) ↔ ((x : A) → Memᴰ x xs → f x ≡ some [])
each_facts-empty f [] = ((λ e x m. absurd (Memᴰ.not-nil m)), λ h. refl)
each_facts-empty f (x ∷ xs) =
    let step = in_turn (f x) (each_facts f xs) in
    let ih = each_facts-empty f xs in
    (
      (λ e y m. elim (Memᴰ.cases_cons m) [
        | inl same ↦ ap f same ∙ (step.0 e).0
        | inr later ↦ ih.0 (step.0 e).1 y later
      ]),
      λ h. step.1 (h x (Memᴰ.head refl), ih.1 (λ y m. h y (Memᴰ.tail m))),
    )

pub walk_items-empty :
    (walk : Walk) (path : String) (items : Fields) (P : Value → Type 0)
    → ((p : String) (v : Value) → (walk p items v ≡ some []) ↔ P v)
    → (i : ℕ) (vs : List Value)
    → (walk_items walk path items i vs ≡ some []) ↔ ((v : Value) → Memᴰ v vs → P v)
walk_items-empty walk path items P each i [] = ((λ e x m. absurd (Memᴰ.not-nil m)), λ h. refl)
walk_items-empty walk path items P each i (v ∷ vs) =
    let here = text (path ∷ "[" ∷ itoa i ∷ "]" ∷ []) in
    let step = in_turn (walk here items v) (walk_items walk path items (suc i) vs) in
    let ih = walk_items-empty walk path items P each (suc i) vs in
    (
      (λ e w m. elim (Memᴰ.cases_cons m) [
        | inl same ↦ subst P (sym same) ((each here v).0 (step.0 e).0)
        | inr later ↦ ih.0 (step.0 e).1 w later
      ]),
      λ h. step.1 ((each here v).1 (h v (Memᴰ.head refl)), ih.1 (λ w m. h w (Memᴰ.tail m))),
    )

pub collect-empty {ℓ κ} :
    {A : Type ℓ} {B : Type κ} (f : A → Option B) (xs : List A)
    → (collect f xs ≡ []) ↔ ((x : A) → Memᴰ x xs → f x ≡ none)
collect-empty f [] = ((λ e x m. absurd (Memᴰ.not-nil m)), λ h. refl)
collect-empty f (x ∷ xs) = (
  (λ e y m. elim (Option-cases (f x)) [
    | inl gone ↦ elim (Memᴰ.cases_cons m) [
      | inl same ↦ ap f same ∙ gone
      | inr later ↦ (collect-empty f xs).0 (rw gone at e) y later
    ]
    | inr (b, there) ↦ let some_fact : b ∷ collect f xs ≡ [] = rw there at e in cc
  ]),
  λ h. rw (h x (Memᴰ.head refl)) ((collect-empty f xs).1 (λ y m. h y (Memᴰ.tail m))),
)

-- The required names have values.
abbrev pub HasRequired : Fields → Fields → Type 0
HasRequired schema fs =
    (name : String) → Memᴰ name (required_names schema) → is_some (get name fs) ≡ true

-- A schema that forbids other properties declares all keys that are not exempt.
abbrev pub IsClosed : (exempt : String → Bool) → Fields → Fields → Type 0
IsClosed exempt schema fs =
    additional_properties_false schema ≡ true
    → (entry : String × Value) → Memᴰ entry (entries fs)
    → (is_declared (get_nested_map schema "properties") entry.0 || exempt entry.0) ≡ true

unless-none {ℓ} :
    {A : Type ℓ} (b : Bool) (a : A) → ((if b then none else some a) ≡ none) ↔ (b ≡ true)
unless-none true a = ((λ e. refl), λ h. refl)
unless-none false a = ((λ e. cc), λ h. cc)

module _ (beyond : ℕ → Bool) (quote : String → String) (show : Value → String) where
  pub check_required-empty :
      (schema fs : Fields) (path : String)
      → (check_required beyond quote show schema fs path ≡ []) ↔ HasRequired schema fs
  unfolding check_required missing_fact
  check_required-empty schema fs path =
      let all = collect-empty (missing_fact beyond quote show path fs) (required_names schema) in
      (
        (λ e name m. (unless-none (is_some (get name fs)) _).0 (all.0 e name m)),
        λ h. all.1 (λ name m. (unless-none (is_some (get name fs)) _).1 (h name m)),
      )

  pub unknown_facts-empty :
      (exempt : String → Bool) (path : String) (schema fs : Fields)
      → (unknown_facts beyond quote show exempt path schema fs ≡ []) ↔ IsClosed exempt schema fs
  unfolding unknown_facts
  unknown_facts-empty exempt path schema fs =
      elim (Bool-cases (additional_properties_false schema)) [
        | inl closed ↦
            let all =
              collect-empty
                (λ entry.
                  if is_declared (get_nested_map schema "properties") entry.0 || exempt entry.0
                  then none
                  else some (unknown_fact beyond quote show (sub_path path entry.0)))
                (entries fs) in
            (
              (λ e c entry m. (unless-none _ _).0 (all.0 (rw closed at e) entry m)),
              λ h. rw closed (all.1 (λ entry m. (unless-none _ _).1 (h closed entry m))),
            )
        | inr lax ↦ ((λ e c entry m. cc), λ h. rw lax refl)
      ]
