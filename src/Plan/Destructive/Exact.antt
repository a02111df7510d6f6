-- ===== src/Plan/Destructive/Exact.antt =====
-- Which removals R26 reports.
use cross_validate.Base.{
  Bool, true, false, ◌&&◌, not, Option, none, some, List, if◌then◌else◌, ◌==◌, string_eq, ◌≡◌, ◌↔◌,
  ◌⊎◌, inl, inr, refl, subst, arith, Memᴰ, mem-collect, collect-mem, Bool-cases,
}
use cross_validate.Base.Maps.{lookup}
use cross_validate.Types.World.{Diagnostic, GroupKind, BypassKeySet, allow_delete, World}
use cross_validate.Plan.Diff.{
  ResourceIdentity, identity_instance, ResourceChange, IndexedResource, index_all, removed_change,
  diff,
}
use cross_validate.Plan.Diff.Classes.{diff_classes}
use cross_validate.Plan.Manifest.{
  has_bypass_annotation, read_deletion_policy, has_cascade_finalizer,
  preserve_resources_on_deletion,
}
use cross_validate.Plan.Destructive.{
  is_state_bearing, is_application, destructive_delete, cascade_risk, destructive_round,
  r26_destructive_delete,
}

-- The six tests of a round, as their results.
module _ {ℓ} {A : Type ℓ} (bypass bearing orphan app finalizer preserve : Bool) (x y d : A) where
  abbrev verdict : Option A
  verdict =
      if bypass
      then none
      else if bearing
      then (if orphan then none else some x)
      else if app
      then (if finalizer && not preserve then some y else none)
      else none

  abbrev Holds : Type ℓ
  Holds =
      (bypass ≡ false)
      × (((bearing ≡ true) × (orphan ≡ false) × (d ≡ x))
          ⊎ ((bearing ≡ false) × (app ≡ true) × (finalizer ≡ true) × (preserve ≡ false) × (d ≡ y)))

  verdict_sound : verdict ≡ some d → Holds
  verdict_sound e = (
    ground arith,
    elim (Bool-cases bearing) [
      | inl bears ↦ inl (bears, ground arith, ground arith)
      | inr bare ↦ inr (bare, ground arith, ground arith, ground arith, ground arith)
    ],
  )

  verdict_complete : Holds → verdict ≡ some d
  verdict_complete (open_, inl (bears, kept, e)) = ground arith
  verdict_complete (open_, inr (bare, app', fin, pres, e)) = ground arith

module _ (keys : BypassKeySet) (kinds : Option (List GroupKind)) where
  -- No key of the base manifest silences the rule, and the resource is of a state-bearing kind
  -- without the Orphan policy, or else an Application with the cascading finalizer and without
  -- preserveResourcesOnDeletion; `d` is the diagnostic of the case.
  abbrev pub IsReported : ResourceChange → Diagnostic → Type 0
  IsReported c d =
      Holds (has_bypass_annotation allow_delete c.base_raw keys) (is_state_bearing kinds c.identity)
        (read_deletion_policy c.base_raw == "Orphan") (is_application c.identity)
        (has_cascade_finalizer c.base_raw) (preserve_resources_on_deletion c.base_raw)
        (destructive_delete c keys) (cascade_risk c) d

  destructive_round_iff :
      (c : ResourceChange) (d : Diagnostic)
      → (destructive_round keys kinds c ≡ some d) ↔ IsReported c d
  unfolding destructive_round
  destructive_round_iff c d = (
    verdict_sound (has_bypass_annotation allow_delete c.base_raw keys)
        (is_state_bearing kinds c.identity) (read_deletion_policy c.base_raw == "Orphan")
        (is_application c.identity) (has_cascade_finalizer c.base_raw)
        (preserve_resources_on_deletion c.base_raw) (destructive_delete c keys) (cascade_risk c) d,
    verdict_complete (has_bypass_annotation allow_delete c.base_raw keys)
        (is_state_bearing kinds c.identity) (read_deletion_policy c.base_raw == "Orphan")
        (is_application c.identity) (has_cascade_finalizer c.base_raw)
        (preserve_resources_on_deletion c.base_raw) (destructive_delete c keys) (cascade_risk c) d,
  )

  -- On the delta of two worlds R26 gives exactly the diagnostics of those entries of the base index
  -- that the head index lacks, that no annotation silences, and that are state-bearing without the
  -- Orphan policy or, not being state-bearing, Applications that would cascade.
  pub r26_exact :
      (base head : World) (d : Diagnostic)
      → Memᴰ d (r26_destructive_delete (diff base head) keys kinds) ↔ (
          (id : ResourceIdentity) × (res : IndexedResource) × (lookup id (index_all base)
            ≡ some res)
          × (lookup id (index_all head) ≡ none)
          × IsReported (removed_change id res) d)
  unfolding r26_destructive_delete
  r26_exact base head d = (
    λ m.
        let (c, listed, e) =
          mem-collect (destructive_round keys kinds) (diff base head).removed m in
        let (id, res, found, (missing, same)) = (diff_classes base head c).0.0 listed in
        let reported = (destructive_round_iff c d).0 e in
        (id, res, found, missing, subst (λ c'. IsReported c' d) same reported),
    λ (id, res, found, missing, reported).
        let c = removed_change id res in
        collect-mem (destructive_round keys kinds)
          ((diff_classes base head c).0.1 (id, res, found, (missing, refl)))
          ((destructive_round_iff c d).1 reported),
  )
