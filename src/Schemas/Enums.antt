-- ===== src/Schemas/Enums.antt =====
-- When the check of the enum passes.
use cross_validate.Base.{
  ℕ, String, Bool, true, false, Option, none, some, List, [], ◌∷◌, if◌then◌else◌, ◌≡◌, refl, sym,
  ap, subst, ◌∙◌, ◌↔◌, ◌⊎◌, inl, inr, ◌>>=◌, Memᴰ, Bool-cases, Option-cases, string_eq,
}
use mathlib.Core.List.Memᴰ
use mathlib.Core.Option
use cross_validate.Types.Values.{Value, null, bool, int, float, obj, arr, str, Fields}
use cross_validate.Schemas.Scalars.{equal_scalar, same_interface, is_null}
use cross_validate.Schemas.Facts.{enum_of, enum_matched, applied_enum, enum_passed}

abbrev pub is_container : Value → Bool
is_container (obj _) = true
is_container (arr _) = true
is_container _ = false

same_some : (e v : Value) → is_container v ≡ false → (b : Bool) × (same_interface e v ≡ some b)
same_some null v h = (_, refl)
same_some (bool a) v h = (_, refl)
same_some (int a) v h = (_, refl)
same_some (float a) v h = (_, refl)
same_some (str a) v h = (_, refl)
same_some (obj fs) (obj gs) h = cc
same_some (obj fs) null h = (_, refl)
same_some (obj fs) (bool b) h = (_, refl)
same_some (obj fs) (int b) h = (_, refl)
same_some (obj fs) (float b) h = (_, refl)
same_some (obj fs) (str b) h = (_, refl)
same_some (obj fs) (arr b) h = (_, refl)
same_some (arr fs) (arr gs) h = cc
same_some (arr fs) null h = (_, refl)
same_some (arr fs) (bool b) h = (_, refl)
same_some (arr fs) (int b) h = (_, refl)
same_some (arr fs) (float b) h = (_, refl)
same_some (arr fs) (str b) h = (_, refl)
same_some (arr fs) (obj b) h = (_, refl)

pub then_some :
    (o : Option Bool) (f : Bool → Bool)
    → (b : Bool) × (o ≡ some b)
    → (b : Bool) × ((o >>= λ x. some (f x)) ≡ some b)
then_some o f (b, e) = (f b, ap (λ p. p >>= λ x. some (f x)) e)

-- A scalar can be compared with any value.
pub equal_scalar-some :
    (e v : Value) → is_container v ≡ false → (b : Bool) × (equal_scalar e v ≡ some b)
unfolding equal_scalar
equal_scalar-some e v h = then_some (same_interface e v) _ (same_some e v h)

-- What is equal to a value of an enum is a scalar.
equal_scalar-scalar : (e v : Value) → equal_scalar e v ≡ some true → is_container v ≡ false
unfolding equal_scalar
equal_scalar-scalar e null h = refl
equal_scalar-scalar e (bool b) h = refl
equal_scalar-scalar e (int b) h = refl
equal_scalar-scalar e (float b) h = refl
equal_scalar-scalar e (str b) h = refl
equal_scalar-scalar null (obj fs) h = cc
equal_scalar-scalar (bool a) (obj fs) h = cc
equal_scalar-scalar (int a) (obj fs) h = cc
equal_scalar-scalar (float a) (obj fs) h = cc
equal_scalar-scalar (str a) (obj fs) h = cc
equal_scalar-scalar (obj a) (obj fs) h = cc
equal_scalar-scalar (arr a) (obj fs) h = cc
equal_scalar-scalar null (arr fs) h = cc
equal_scalar-scalar (bool a) (arr fs) h = cc
equal_scalar-scalar (int a) (arr fs) h = cc
equal_scalar-scalar (float a) (arr fs) h = cc
equal_scalar-scalar (str a) (arr fs) h = cc
equal_scalar-scalar (obj a) (arr fs) h = cc
equal_scalar-scalar (arr a) (arr fs) h = cc

matched_passes :
    (enum : List Value) (o : Option Bool)
    → ◌≡◌ {A = Option (Option (List Value))}
        (o >>= λ same. if same then some none else some (some enum))
        (some none)
      ↔ (o ≡ some true)
matched_passes enum none = ((λ e. cc), λ e. cc)
matched_passes enum (some true) = ((λ e. refl), λ e. refl)
matched_passes enum (some false) = ((λ e. cc), λ e. cc)

-- The value is null or without an enum, or it is equal to one of the enum's values.
abbrev pub InEnum : Fields → Value → Type 0
InEnum schema v =
    (is_null v ≡ true)
    ⊎ ((enum_of schema ≡ none)
        ⊎ ((enum : List Value) × ((enum_of schema ≡ some enum)
              × ((e : Value) × (Memᴰ e enum × (equal_scalar e v ≡ some true))))))

module _ (beyond : ℕ → Bool) (quote : String → String) (show : Value → String) where
  pub enum_matched-some :
      (enum : List Value) (v : Value)
      → is_container v ≡ false
      → (b : Bool) × (enum_matched beyond quote show enum v ≡ some b)
  unfolding enum_matched
  enum_matched-some [] v h = (false, refl)
  enum_matched-some (e ∷ es) v h =
      let (same, found) = equal_scalar-some e v h in
      elim (Bool-cases same) [
        | inl yes_same ↦ (true, rw (found, yes_same) refl)
        | inr other ↦ let (b, rest) = enum_matched-some es v h in (b, rw (found, other) rest)
      ]

  enum_matched-mem :
      (enum : List Value) (v : Value)
      → (enum_matched beyond quote show enum v ≡ some true)
        ↔ ((e : Value) × (Memᴰ e enum × (equal_scalar e v ≡ some true)))
  unfolding enum_matched
  enum_matched-mem [] v = ((λ h. cc), λ (e, (m, h)). absurd (Memᴰ.not-nil m))
  enum_matched-mem (e ∷ es) v =
      let ih = enum_matched-mem es v in
      (
        (λ h. elim (Option-cases (equal_scalar e v)) [
          | inl panics ↦ absurd (Option.none-ne-some _ (rw panics at h))
          | inr (same, found) ↦ elim (Bool-cases same) [
            | inl hit ↦ (e, (Memᴰ.head refl, found ∙ ap some hit))
            | inr other ↦ let (d, (m, k)) = ih.0 (rw (found, other) at h) in (d, (Memᴰ.tail m, k))
          ]
        ]),
        λ (d, (m, k)).
            let (same, found) = equal_scalar-some e v (equal_scalar-scalar d v k) in
            elim (Bool-cases same) [
              | inl hit ↦ rw (found, hit) refl
              | inr other ↦ elim (Memᴰ.cases_cons m) [
                | inl here ↦
                    let equal : equal_scalar e v ≡ some true =
                      subst (λ x. equal_scalar x v ≡ some true) here k in
                    let differ : equal_scalar e v ≡ some false = found ∙ ap some other in cc
                | inr later ↦ rw (found, other) (ih.1 (d, (later, k)))
              ]
            ],
      )

  pub enum_passed-InEnum :
      (schema : Fields) (v : Value)
      → (enum_passed beyond quote show (applied_enum beyond quote show schema v) v ≡ some none)
        ↔ InEnum schema v
  enum_passed-InEnum schema v = elim (Bool-cases (is_null v)) [
    | inl nothing ↦ ((λ e. inl nothing), λ h. rw nothing refl)
    | inr other ↦ elim (Option-cases (enum_of schema)) [
      | inl without ↦ ((λ e. inr (inl without)), λ h. rw (other, without) refl)
      | inr (enum, with_enum) ↦ (
        (λ e.
            let matched =
              (matched_passes enum (enum_matched beyond quote show enum v)).0
                (rw (other, with_enum) at e) in
            inr (inr (enum, (with_enum, (enum_matched-mem enum v).0 matched)))),
        λ h.
            rw (other, with_enum)
              ((matched_passes enum (enum_matched beyond quote show enum v)).1 (elim h [
                | inl nothing ↦ cc
                | inr (inl without) ↦ cc
                | inr (inr (enum', (given, found))) ↦
                    let same = Option.some_inj.0 (sym given ∙ with_enum) in
                    (enum_matched-mem enum v).1 (
                      subst (λ es. (e : Value) × (Memᴰ e es × (equal_scalar e v ≡ some true))) same
                        found)
              ])),
      )
    ]
  ]
