-- ===== src/Config/Validate/Resolved.antt =====
-- The immutable fields of an accepted xpc.yaml in the resolved registry.
use cross_validate.Base.{
  String, Bool, true, false, not, ◌&&◌, some, List, [], ◌∷◌, any, ◌==◌, string_eq, ◌≡◌, refl, sym,
  ap, ◌∙◌, arith, eq_iff, Memᴰ, inl, inr,
}
use cross_validate.Base.Lists.Places.{All-mem}
use cross_validate.Types.World.{ImmutableField}
use cross_validate.Config.Immutable.{
  ImmutableFieldEntry, field_of, same_field, resolve_immutable_fields,
}
use cross_validate.Config.Immutable.Overlay.{has_field, covers, has_field-resolve_immutable_fields}
use cross_validate.Config.Validate.{Config, accepted, validate}
use cross_validate.Config.Validate.Accepted.{IsGoodEntry, validate-IsGoodConfig}
use mathlib.Core.List.Memᴰ

any-mem {ℓ} :
    {A : Type ℓ} (p : A → Bool) (xs : List A) (x : A) → Memᴰ x xs → p x ≡ true → any p xs ≡ true
any-mem p [] x m e = absurd (Memᴰ.not-nil m)
any-mem p (y ∷ xs) x m e = elim (Memᴰ.cases_cons m) [
  | inl here ↦ let same : p y ≡ true = ap p (sym here) ∙ e in rw same refl
  | inr later ↦ let ih = any-mem p xs x later e in ground arith
]

same_field_refl : (f : ImmutableField) → same_field f f ≡ true
same_field_refl f =
    ground (arith, eq_iff f.group f.group, eq_iff f.kind f.kind, eq_iff f.field_path f.field_path)

-- Each path of an entry without `suppress` of an accepted configuration is in the resolved registry, under the group and the kind of the entry's GVK, whatever the built-ins and the other entries are.
pub validate-has_field :
    (cfg cfg' : Config) (builtins : List ImmutableField) (entry : ImmutableFieldEntry)
    (path : String)
    → validate cfg ≡ accepted cfg'
    → Memᴰ entry cfg'.immutable_fields
    → entry.suppress ≡ false
    → Memᴰ path entry.paths
    → has_field
        (resolve_immutable_fields (some cfg'.immutable_fields) builtins)
        (field_of entry path)
      ≡ true
validate-has_field cfg cfg' builtins entry path ok member kept listed =
    let (_, good) = validate-IsGoodConfig cfg cfg' ok in
    let (gvk, some_path, named) = All-mem IsGoodEntry good.1 member in
    let this_named = All-mem (λ p. (p == "") ≡ false) named listed in
    let k = field_of entry path in
    let covered : covers entry k ≡ true =
      any-mem (λ p. same_field (field_of entry p) k) entry.paths path listed (same_field_refl k) in
    let named_here : any (λ e. not e.suppress && covers e k) cfg'.immutable_fields ≡ true =
      any-mem (λ e. not e.suppress && covers e k) cfg'.immutable_fields entry member
        (rw (kept, covered) refl) in
    has_field-resolve_immutable_fields cfg'.immutable_fields builtins k this_named
    ∙ rw named_here refl
