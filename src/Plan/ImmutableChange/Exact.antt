-- ===== src/Plan/ImmutableChange/Exact.antt =====
-- Which changes R27 reports.
use cross_validate.Base.{
  mem-flat_map, flat_map-mem, String, Bool, true, false, ◌||◌, not, Option, none, some, List,
  if◌then◌else◌, string_eq, ◌≡◌, ◌↔◌, inl, inr, refl, subst, Memᴰ, mem-collect, collect-mem,
  Bool-cases, eq_iff,
}
use mathlib.Core.List.Memᴰ
use cross_validate.Base.Maps.{lookup}
use cross_validate.Ir.Groups.{group_from_api_version}
use cross_validate.Ir.Paths.{read_path}
use cross_validate.Ir.Paths.Compare.{read_path_equal}
use cross_validate.Types.Values.{Value, deep_equal, raw_equal}
use cross_validate.Types.World.{
  Diagnostic, ImmutableField, BypassKeySet, allow_immutable_change, World,
}
use cross_validate.Plan.Diff.{
  ResourceIdentity, identity_instance, ResourceChange, IndexedResource, index_all, modified_change,
  diff,
}
use cross_validate.Plan.Diff.Classes.{diff_classes}
use cross_validate.Plan.Manifest.{has_bypass_annotation}
use cross_validate.Plan.ImmutableChange.{
  resolved_keys, resolved_registry, immutable_change, compare_values, entry_round, change_round,
  r27_immutable_change,
}

-- Manifests with different values at one path are not deeply equal.
manifests_differ :
    (old new : IndexedResource) (path : String) (v w : Value)
    → read_path old.raw path ≡ some v
    → read_path new.raw path ≡ some w
    → deep_equal v w ≡ false
    → raw_equal old.raw new.raw ≡ false
manifests_differ old new path v w e e' differ = elim (Bool-cases (raw_equal old.raw new.raw)) [
  | inl same ↦ cc (read_path_equal old.raw new.raw path v w same e e')
  | inr other ↦ other
]

both_pass {ℓ} :
    {A : Type ℓ} (a b : Bool) (o : Option A) {d : A}
    → (if not a || not b then none else o) ≡ some d
    → (a ≡ true) × (b ≡ true) × (o ≡ some d)
both_pass true true o e = (refl, refl, e)
both_pass true false o e = cc
both_pass false b o e = cc

module _ (builtins : List ImmutableField) (format : Value → String) (keys : BypassKeySet) where
  -- The entry is of the resource's group and kind, both manifests have a value at its path, the
  -- values differ, and `d` is the diagnostic.
  abbrev pub IsChange : ResourceChange → ImmutableField → Diagnostic → Type 0
  IsChange c entry d =
      (entry.group ≡ group_from_api_version c.identity.api_version)
      × (entry.kind ≡ c.identity.kind)
      × (v : Value) × (w : Value) × (read_path c.base_raw entry.field_path ≡ some v)
      × (read_path c.head_raw entry.field_path ≡ some w)
      × (deep_equal v w ≡ false)
      × (d ≡ immutable_change builtins format keys c entry v w)

  compare_values_sound :
      (c : ResourceChange) (entry : ImmutableField) (d : Diagnostic) (o p : Option Value)
      → compare_values builtins format keys c entry o p ≡ some d
      → (v : Value) × (w : Value) × (o ≡ some v)
        × (p ≡ some w)
        × (deep_equal v w ≡ false)
        × (d ≡ immutable_change builtins format keys c entry v w)
  unfolding compare_values
  compare_values_sound c entry d none p e = cc
  compare_values_sound c entry d (some v) none e = cc
  compare_values_sound c entry d (some v) (some w) e = elim (Bool-cases (deep_equal v w)) [
    | inl same ↦ let gone : none ≡ some d = rw same at e in cc
    | inr differ ↦
        let kept : some (immutable_change builtins format keys c entry v w) ≡ some d =
          rw differ at e in
        (v, w, refl, refl, differ, cc)
  ]

  entry_round_sound :
      (c : ResourceChange) (entry : ImmutableField) (d : Diagnostic)
      → entry_round builtins format keys c entry ≡ some d
      → IsChange c entry d
  unfolding entry_round
  entry_round_sound c entry d e =
      let (group, kind, found) = both_pass _ _ _ e in
      let (v, w, base, head, differ, same) = compare_values_sound c entry d _ _ found in
      ((eq_iff _ _).0 group, (eq_iff _ _).0 kind, v, w, base, head, differ, same)

  entry_round_complete :
      (c : ResourceChange) (entry : ImmutableField) (d : Diagnostic)
      → IsChange c entry d
      → entry_round builtins format keys c entry ≡ some d
  unfolding entry_round
  entry_round_complete c entry d (group, kind, v, w, base, head, differ, same) =
      rw (base, head, (eq_iff _ _).1 group, (eq_iff _ _).1 kind, differ) (cc)

  -- What R27 reports for one modified resource, under the keys in force.
  change_round_iff :
      (registry : List ImmutableField) (c : ResourceChange) (d : Diagnostic)
      → Memᴰ d (change_round builtins format keys registry c) ↔ (
          (has_bypass_annotation allow_immutable_change c.head_raw keys ≡ false)
          × (entry : ImmutableField) × Memᴰ entry registry
          × IsChange c entry d)
  unfolding change_round
  change_round_iff registry c d =
      elim (Bool-cases (has_bypass_annotation allow_immutable_change c.head_raw keys)) [
        | inl silent ↦ (
          λ m. absurd (Memᴰ.not-nil (rw silent at m)),
          λ h. let no_way : true ≡ false = rw silent at h.0 in cc,
        )
        | inr heard ↦ (
          λ m.
              let (entry, listed, e) = mem-collect _ registry (rw heard at m) in
              (heard, entry, listed, entry_round_sound c entry d e),
          λ (_, entry, listed, change).
              rw heard (collect-mem _ listed (entry_round_complete c entry d change)),
        )
      ]

module _ (builtins : List ImmutableField) (format : Value → String) (keys : BypassKeySet)
    (registry : Option (List ImmutableField)) where
  -- On the delta of two worlds R27 gives exactly the diagnostics for a resource that both
  -- indexes have and no annotation of the head manifest silences, and an entry of the resolved
  -- registry of its group and kind, at whose path both manifests have values and these differ.
  pub r27_exact :
      (base head : World) (d : Diagnostic)
      → Memᴰ d (r27_immutable_change builtins format (diff base head) registry keys) ↔ (
          (id : ResourceIdentity) × (old : IndexedResource) × (new : IndexedResource) × (lookup id
              (index_all base)
            ≡ some old)
          × (lookup id (index_all head) ≡ some new)
          × (has_bypass_annotation allow_immutable_change new.raw (resolved_keys keys) ≡ false)
          × (entry : ImmutableField) × Memᴰ entry (resolved_registry builtins format registry)
          × IsChange builtins format (resolved_keys keys) (modified_change id old new) entry d)
  unfolding r27_immutable_change
  r27_exact base head d = (
    λ m.
        let (c, listed, reported) = mem-flat_map _ (diff base head).modified m in
        let (id, old, found, (new, found', changed, same)) =
          (diff_classes base head c).2.0 listed in
        let (heard, entry, known, change) =
          (change_round_iff builtins format (resolved_keys keys) _ c d).0 reported in
        let in_force = resolved_keys keys in
        (
          id,
          old,
          new,
          found,
          found',
          subst (λ c'. has_bypass_annotation allow_immutable_change c'.head_raw in_force ≡ false)
              same heard,
          entry,
          known,
          subst (λ c'. IsChange builtins format in_force c' entry d) same change,
        ),
    λ (id, old, new, found, found', heard, entry, known, change).
        let c = modified_change id old new in
        let changed =
          manifests_differ old new entry.field_path change.2 change.3 change.4 change.5 change.6 in
        flat_map-mem
          (change_round builtins format (resolved_keys keys)
            (resolved_registry builtins format registry))
          ((diff_classes base head c).2.1 (id, old, found, (new, found', changed, refl)))
          ((change_round_iff builtins format (resolved_keys keys) _ c d).1
            (heard, entry, known, change)),
  )
