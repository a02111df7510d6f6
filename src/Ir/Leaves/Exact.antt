-- ===== src/Ir/Leaves/Exact.antt =====
-- The usages that the leaves give.
use cross_validate.Base.{
  String, Bool, true, false, ◌||◌, none, some, List, [], if◌then◌else◌, ◌==◌, string_eq, ◌≡◌, ◌↔◌,
  Memᴰ, refl, sym, ◌∙◌, subst, Bool-cases, Option-cases, inl, inr, collect, mem-collect,
  collect-mem, mem-flat_map, flat_map-mem, ◌≢◌, eq_iff,
}
use mathlib.Core.Option
use mathlib.Core.List.Memᴰ
use cross_validate.Base.Maps.{lookup, mem-of_lookup, lookup-of_mem}
use cross_validate.Types.World.{ResourceInfo}
use cross_validate.Types.Facts.{CanonicalFormMapping, FixedPointUsage}
use cross_validate.Ir.Extract.{annotation_truthy, allow_non_canonical_annotation}
use cross_validate.Ir.Leaves.{
  fixed_point_usage, leaf_round, leaves_of, is_blank, for_provider, at_provider, fixed_point_rows,
  extract_fixed_point_usages,
}
use cross_validate.Ir.Leaves.Flatten.{text_in, lookup-leaves_of, leaves_of-IsMap, is_blank-text_in}

-- A leaf of a resource that is not exempt has two different texts.
abbrev pub Diverges : List CanonicalFormMapping → ResourceInfo → FixedPointUsage → Type 0
Diverges registry res u =
    (annotation_truthy res.annotations allow_non_canonical_annotation ≡ false)
    × ((p dv ov : String) × ((text_in (for_provider res) p ≡ some dv)
          × (text_in (at_provider res) p ≡ some ov)
          × (dv ≢ ov)
          × (u ≡ fixed_point_usage registry res p dv ov)))

given_unless {ℓ} :
    {A : Type ℓ} (b : Bool) (x y : A)
    → (if b then none else some x) ≡ some y
    → (b ≡ false) × (x ≡ y)
given_unless true x y e = absurd (Option.none-ne-some _ e)
given_unless false x y e = (refl, Option.some_inj.0 e)

unequal : (s t : String) → (s == t) ≡ false → s ≢ t
unequal s t e q = let same = (eq_iff s t).1 q in cc

differ : (s t : String) → s ≢ t → (s == t) ≡ false
differ s t d = elim (Bool-cases (s == t)) [
  | inl e ↦ absurd (d ((eq_iff s t).0 e))
  | inr other ↦ other
]

leaf_round-some :
    (registry : List CanonicalFormMapping) (res : ResourceInfo) (p dv : String)
    (u : FixedPointUsage)
    → leaf_round registry res (leaves_of (at_provider res)) (p, dv) ≡ some u
    → (ov : String) × ((text_in (at_provider res) p ≡ some ov)
        × (dv ≢ ov)
        × (u ≡ fixed_point_usage registry res p dv ov))
unfolding leaf_round
leaf_round-some registry res p dv u e =
    elim (Option-cases (lookup p (leaves_of (at_provider res)))) [
      | inl absent ↦ absurd (Option.none-ne-some _ (rw (absent, leaf_round) at e))
      | inr (ov, found) ↦
          let (other, same) = given_unless (dv == ov) _ u (rw (found, leaf_round) at e) in
          (ov, (sym (lookup-leaves_of (at_provider res) p) ∙ found, unequal dv ov other, sym same))
    ]

leaf_round-differs :
    (registry : List CanonicalFormMapping) (res : ResourceInfo) (p dv ov : String)
    → text_in (at_provider res) p ≡ some ov
    → dv ≢ ov
    → leaf_round registry res (leaves_of (at_provider res)) (p, dv)
      ≡ some (fixed_point_usage registry res p dv ov)
unfolding leaf_round
leaf_round-differs registry res p dv ov e d =
    let found = lookup-leaves_of (at_provider res) p ∙ e in
    rw (found, leaf_round, differ dv ov d) refl

mem-guarded {ℓ} :
    {A : Type ℓ} (a b : Bool) (xs : List A) {x : A}
    → Memᴰ x (if a then [] else (if b then [] else xs))
    → (a ≡ false) × ((b ≡ false) × Memᴰ x xs)
mem-guarded true b xs m = absurd (Memᴰ.not-nil m)
mem-guarded false true xs m = absurd (Memᴰ.not-nil m)
mem-guarded false false xs m = (refl, (refl, m))

fixed_point_rows-Diverges :
    (registry : List CanonicalFormMapping) (res : ResourceInfo) (u : FixedPointUsage)
    → Memᴰ u (fixed_point_rows registry res)
    → Diverges registry res u
unfolding fixed_point_rows
fixed_point_rows-Diverges registry res u m =
    let all =
      collect (leaf_round registry res (leaves_of (at_provider res)))
        (leaves_of (for_provider res)) in
    let (_, (exempt, listed)) =
      mem-guarded (is_blank (for_provider res) || is_blank (at_provider res))
        (annotation_truthy res.annotations allow_non_canonical_annotation) all m in
    let ((p, dv), here, given) =
      mem-collect (leaf_round registry res (leaves_of (at_provider res)))
        (leaves_of (for_provider res)) listed in
    let (ov, (seen, other, same)) = leaf_round-some registry res p dv u given in
    let wanted =
      lookup-of_mem p (leaves_of (for_provider res)) (leaves_of-IsMap (for_provider res)) here in
    (exempt, (p, dv, ov, (sym (lookup-leaves_of (for_provider res) p) ∙ wanted, seen, other, same)))

Diverges-fixed_point_rows :
    (registry : List CanonicalFormMapping) (res : ResourceInfo) (u : FixedPointUsage)
    → Diverges registry res u
    → Memᴰ u (fixed_point_rows registry res)
unfolding fixed_point_rows
Diverges-fixed_point_rows registry res u (exempt, (p, dv, ov, (wanted, seen, other, same))) =
    let here =
      mem-of_lookup p (leaves_of (for_provider res))
        (lookup-leaves_of (for_provider res) p ∙ wanted) in
    let listed =
      collect-mem (leaf_round registry res (leaves_of (at_provider res))) here
        (leaf_round-differs registry res p dv ov seen other) in
    rw
      (
        is_blank-text_in (for_provider res) p dv wanted,
        is_blank-text_in (at_provider res) p ov seen,
        exempt,
      )
      (subst
        (λ v. Memᴰ v (
          collect (leaf_round registry res (leaves_of (at_provider res)))
            (leaves_of (for_provider res))))
        (sym same) listed)

-- A usage is reported exactly for a resource that is not exempt, a path and two different texts, of which the one is the last at the path under `spec.forProvider` and the other the last at the same path under `status.atProvider`.
pub extract_fixed_point_usages-Diverges :
    (registry : List CanonicalFormMapping) (resources : List ResourceInfo) (u : FixedPointUsage)
    → Memᴰ u (extract_fixed_point_usages registry resources)
      ↔ ((res : ResourceInfo) × (Memᴰ res resources × Diverges registry res u))
unfolding extract_fixed_point_usages
extract_fixed_point_usages-Diverges registry resources u = (
  λ m.
      let (res, n, k) = mem-flat_map (fixed_point_rows registry) resources m in
      (res, (n, fixed_point_rows-Diverges registry res u k)),
  λ p.
      let (res, (n, d)) = p in
      flat_map-mem (fixed_point_rows registry) n (Diverges-fixed_point_rows registry res u d),
)
