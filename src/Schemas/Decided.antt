-- ===== src/Schemas/Decided.antt =====
-- `walkField` gives no fact exactly for the values that conform to the schema.
use cross_validate.Base.{
  ℕ, zero, suc, ◌<◌, String, Bool, true, false, not, ◌&&◌, Option, none, some, List, [], ◌∷◌,
  if◌then◌else◌, string_eq, ◌≡◌, ◌≢◌, refl, ◌↔◌, ◌⊎◌, inl, inr, ◌>>=◌, arith, eq_iff, Bool-cases,
}
use mathlib.Core.Option
use cross_validate.Types.Values.{Value, Fields}
use cross_validate.Schemas.{fields_size, walk_parts, walk_field}
use cross_validate.Schemas.Scalars.{json_type, type_compatible}
use cross_validate.Schemas.Facts.{
  schema_type, has_wrong_type, enum_passed, applied_enum, type_fact, enum_fact,
}
use cross_validate.Schemas.Empty.{Facts}
use cross_validate.Schemas.Enums.{InEnum, enum_passed-InEnum}
use cross_validate.Schemas.Conforms.{HasType, Conforms, conforms}
use cross_validate.Schemas.Properties.{Decides}
use cross_validate.Schemas.Parts.{Parts, walk_parts-empty}

module _ (beyond : ℕ → Bool) (quote : String → String) (show : Value → String) where
  has_wrong_type-HasType :
      (schema : Fields) (v : Value)
      → (has_wrong_type beyond quote show schema v ≡ false) ↔ HasType beyond schema v
  unfolding has_wrong_type type_compatible
  has_wrong_type-HasType schema v = (
    (λ h.
        typed_of_test _ _ _ _ _ (eq_iff (schema_type schema) "")
          (eq_iff (json_type beyond v) (schema_type schema)) (eq_iff (json_type beyond v) "integer")
          (eq_iff (schema_type schema) "number") h),
    λ h. ground (
      arith,
      eq_iff (schema_type schema) "",
      eq_iff (json_type beyond v) (schema_type schema),
      eq_iff (json_type beyond v) "integer",
      eq_iff (schema_type schema) "number",
    ),
  )
    where
      typed_of_test :
          (b1 b2 b3 b4 b5 : Bool) {P Q R S : Type 0}
          → (b1 ≡ true) ↔ P
          → (b2 ≡ true) ↔ Q
          → (b3 ≡ true) ↔ R
          → (b4 ≡ true) ↔ S
          → (not b1 && not b5 && not (if b2 then true else if b3 && b4 then true else false))
            ≡ false
          → P ⊎ ((b5 ≡ true) ⊎ (Q ⊎ (R × S)))
      typed_of_test true b2 b3 b4 b5 p q r s h = inl (p.0 refl)
      typed_of_test false b2 b3 b4 true p q r s h = inr (inl refl)
      typed_of_test false true b3 b4 false p q r s h = inr (inr (inl (q.0 refl)))
      typed_of_test false false true true false p q r s h = inr (inr (inr (r.0 refl, s.0 refl)))
      typed_of_test false false true false false p q r s h = cc
      typed_of_test false false false b4 false p q r s h = cc

  passed_on :
      (o : Option (Option (List Value))) (fact : List Value → Facts) (p : Option Facts)
      → ((enum : List Value) → fact enum ≢ [])
      → ((o >>= λ failed. elim failed [ some enum ↦ some (fact enum) | none ↦ p ]) ≡ some [])
        ↔ ((o ≡ some none) × (p ≡ some []))
  passed_on none fact p h = ((λ e. cc), λ k. cc)
  passed_on (some none) fact p h = ((λ e. (refl, e)), λ k. k.1)
  passed_on (some (some enum)) fact p h = ((λ e. absurd (h enum (Option.some_inj.0 e))), λ k. cc)

  Conforms-Parts :
      (schema : Fields) (v : Value)
      → Conforms beyond schema v
        ↔ (HasType beyond schema v × InEnum schema v × Parts (Conforms beyond) schema v)
  Conforms-Parts schema v = (
    (λ c. elim c [
      | conforms _ _ typed enum shape props elements ↦ (
        typed,
        enum,
        (
          (λ fs t same.
              let (r, k) = shape fs t same in
              (r, k, λ props' sub name w. props fs props' sub name w t same)),
          elements,
        ),
      )
    ]),
    λ (typed, enum, (object, array)).
        conforms schema v typed enum
          (λ fs t same. let parts = object fs t same in (parts.0, parts.1))
          (λ fs props sub name w t same. (object fs t same).2 props sub name w) array,
  )

  -- On enough fuel `walkField` gives no fact, and does not panic, exactly for a value that conforms to the schema.
  pub walk_field-Conforms :
      (fuel : ℕ) (path : String) (schema : Fields) (v : Value)
      → fields_size schema < fuel
      → (walk_field beyond quote show fuel path schema v ≡ some []) ↔ Conforms beyond schema v
  unfolding walk_field
  walk_field-Conforms zero path schema v h = absurd (omega arith)
  walk_field-Conforms (suc fuel) path schema v h =
      let decides : Decides (walk_field beyond quote show fuel) (Conforms beyond) schema =
        λ path' sub w lt. walk_field-Conforms fuel path' sub w (omega arith) in
      let parts =
        walk_parts-empty beyond quote show (walk_field beyond quote show fuel) (Conforms beyond)
          schema v path decides in
      let enum = enum_passed-InEnum beyond quote show schema v in
      let typed = has_wrong_type-HasType schema v in
      let whole = Conforms-Parts schema v in
      elim (Bool-cases (has_wrong_type beyond quote show schema v)) [
        | inl wrong ↦ (
          (λ e.
              let some_fact : type_fact beyond quote show path schema v ∷ [] ≡ [] =
                Option.some_inj.0 (rw wrong at e) in
              cc),
          λ c. let right = typed.1 (whole.0 c).0 in cc,
        )
        | inr right ↦
            let rest =
              passed_on (enum_passed beyond quote show (applied_enum beyond quote show schema v) v)
                (λ e. enum_fact beyond quote show path v e ∷ [])
                (walk_parts beyond quote show (walk_field beyond quote show fuel) path schema v)
                (λ e same. cc) in
            (
              (λ e.
                  let (passes, run) = rest.0 (rw right at e) in
                  whole.1 (typed.0 right, enum.0 passes, parts.0 run)),
              λ c. let (t, n, p) = whole.0 c in rw right (rest.1 (enum.1 n, parts.1 p)),
            )
      ]
