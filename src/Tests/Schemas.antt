-- ===== src/Tests/Schemas.antt =====
-- pkg/schemas/validate_manifest.go on a schema with a required colour from an enum.
use cross_validate.Base.{
  ℕ, String, Bool, false, none, some, [], ◌∷◌, ◌≡◌, refl, sym, ap, subst, inl, inr, ◌↔◌, Memᴰ,
  string_eq,
}
use cross_validate.Base.Int.{pos}
use mathlib.Core.Option
use mathlib.Core.List.Memᴰ
use cross_validate.Types.Values.{
  Value, int, bool, str, obj, arr, Fields, end, field, nil, cons, get, entries, as_map,
}
use cross_validate.Schemas.{validate_manifest, unwrapped}
use cross_validate.Schemas.Facts.{missing_required, unknown_field, enum_of}
use cross_validate.Schemas.Enums.{is_container}
use cross_validate.Schemas.Manifests.{validate_manifest-RootConforms, RootConforms}
use cross_validate.Schemas.Total.{validate_manifest-Returns, HasScalarEnums, scalar_enums, Returns}

abbrev pub never : ℕ → Bool
never _ = false

abbrev pub same_text : String → String
same_text s = s

abbrev pub shown : Value → String
shown _ = "v"

abbrev colour : Fields
colour =
    field "type" (str "string") (field "enum" (arr (cons (str "red") (cons (str "blue") nil))) end)

abbrev pub schema : Fields
schema =
    field "openAPIV3Schema"
      (obj (
        field "required" (arr (cons (str "colour") nil)) (
          field "additionalProperties" (bool false)
            (field "properties" (obj (field "colour" (obj colour) end)) end))))
      end

abbrev red : Fields
red = field "kind" (str "Paint") (field "colour" (str "red") end)

accepted : validate_manifest never same_text shown (some schema) (some red) ≡ some []
unfolding validate_manifest
accepted = refl

reported :
    validate_manifest never same_text shown (some schema) (some (field "size" (int (pos 1)) end))
    ≡ some (
        record {
          path = "colour";
          violation = missing_required;
          message = "required field colour is missing";
        }
        ∷ record {
          path = "size";
          violation = unknown_field;
          message = "unknown field size (schema has additionalProperties: false)";
        }
        ∷ [])
unfolding validate_manifest
reported = refl

-- A map in an enum and a map in the manifest: the comparison panics.
abbrev odd : Fields
odd =
    field "properties" (obj (field "a" (obj (field "enum" (arr (cons (obj end) nil)) end)) end)) end

panics : validate_manifest never same_text shown (some odd) (some (field "a" (obj end) end)) ≡ none
unfolding validate_manifest
panics = refl

validate_manifest-RootConforms_example :
    (validate_manifest never same_text shown (some schema) (some red) ≡ some [])
    ↔ RootConforms never (unwrapped schema) red
validate_manifest-RootConforms_example =
    validate_manifest-RootConforms never same_text shown schema red

colour-HasScalarEnums : HasScalarEnums colour
unfolding get enum_of
colour-HasScalarEnums =
    scalar_enums colour
      (λ enum e given m.
        let values : str "red" ∷ str "blue" ∷ [] ≡ enum = Option.some_inj.0 given in
        elim (Memᴰ.cases_cons (subst (λ es. Memᴰ e es) (sym values) m)) [
          | inl red ↦ ap is_container red
          | inr later ↦ elim (Memᴰ.cases_cons later) [
            | inl blue ↦ ap is_container blue
            | inr nothing ↦ absurd (Memᴰ.not-nil nothing)
          ]
        ])
      (λ props sub name given m. cc) (λ items given. cc)

root-HasScalarEnums : HasScalarEnums (unwrapped schema)
unfolding get enum_of
root-HasScalarEnums =
    scalar_enums (unwrapped schema) (λ enum e given m. cc)
      (λ props sub name given m.
        let only : field "colour" (obj colour) end ≡ props = Option.some_inj.0 given in
        elim (Memᴰ.cases_cons (subst (λ p. Memᴰ (name, obj sub) (entries p)) (sym only) m)) [
          | inl same ↦
              let is_colour : sub ≡ colour = Option.some_inj.0 (ap (λ e. as_map e.1) same) in
              subst HasScalarEnums (sym is_colour) colour-HasScalarEnums
          | inr nothing ↦ absurd (Memᴰ.not-nil nothing)
        ])
      (λ items given. cc)

validate_manifest-Returns_example :
    Returns (validate_manifest never same_text shown (some schema) (some red))
validate_manifest-Returns_example =
    validate_manifest-Returns never same_text shown schema (some red) root-HasScalarEnums
