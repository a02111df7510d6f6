-- ===== src/Plan/Destructive.antt =====
-- pkg/plan/r26.go: removals that destroy external state.
pub mod Exact
pub mod Generated
pub mod Agreed
use cross_validate.Base.{
  String, Bool, true, false, ◌||◌, ◌&&◌, not, Option, none, some, List, [], ◌∷◌, map, if◌then◌else◌,
  ◌==◌, string_eq, any, collect,
}
use cross_validate.Ir.Groups.{group_from_api_version}
use cross_validate.Types.World.{
  SourceLocation, Severity, error, Diagnostic, GroupKind, BypassKeySet, BypassSlot, allow_delete,
  or_empty,
}
use cross_validate.Config.StateBearing.{state_bearing_kinds_registry}
use cross_validate.Plan.Diff.{ResourceIdentity, ResourceChange, ResourceDelta}
use cross_validate.Base.Texts.{text}
use cross_validate.Plan.Manifest.{
  has_bypass_annotation, read_deletion_policy, has_cascade_finalizer,
  preserve_resources_on_deletion, primary_or, qualified_name, deletion_policy_phrase,
}

-- `buildStateBearingSet`: the keys of the set; nil falls back to the registry.
abbrev resolved_kinds : Option (List GroupKind) → List GroupKind
resolved_kinds none = state_bearing_kinds_registry
resolved_kinds (some kinds) = kinds

abbrev pub group_kind_key : String → String → String
group_kind_key group kind = text (group ∷ "/" ∷ kind ∷ [])

unfoldable pub state_bearing_set : Option (List GroupKind) → List String
state_bearing_set resolved = map (λ gk. group_kind_key gk.group gk.kind) (resolved_kinds resolved)

abbrev pub is_state_bearing : Option (List GroupKind) → ResourceIdentity → Bool
is_state_bearing kinds id =
    any (λ k. k == group_kind_key (group_from_api_version id.api_version) id.kind)
      (state_bearing_set kinds)

-- The test for an Argo Application.
abbrev pub is_application : ResourceIdentity → Bool
is_application id =
    let gk = group_kind_key id.api_version id.kind in
    gk == "argoproj.io/v1alpha1/Application"
    || gk == "v1alpha1/Application"
    || id.kind == "Application" && group_from_api_version id.api_version == "argoproj.io"

pub destructive_delete : ResourceChange → BypassKeySet → Diagnostic
unfolding read_deletion_policy
destructive_delete c keys = record {
  code = "XPC.P.destructive-delete";
  severity = error;
  message = text (c.identity.kind ∷ " " ∷ qualified_name c.identity ∷ " would be removed" ∷ []);
  source = c.base_source;
  detail = text (
      c.identity.kind
      ∷ " is state-bearing (Group="
      ∷ group_from_api_version c.identity.api_version
      ∷ "). Base-side "
      ∷ deletion_policy_phrase (read_deletion_policy c.base_raw)
      ∷ ". Applying this change will run a real destructive call against the external object. "
      ∷ "This is the INC-6 failure shape."
      ∷ []);
  fix = text (
      "Either (a) keep the resource on HEAD (revert the removal), (b) set spec.deletionPolicy: Orphan "
      ∷ "on the base side before removing the CR, or (c) add annotation "
      ∷ primary_or (or_empty keys.allow_delete) "xpc.io/allow-delete"
      ∷ ": \"true\" to the base manifest if the destruction is genuinely intended."
      ∷ []);
  obligation = none;
}

pub cascade_risk : ResourceChange → Diagnostic
cascade_risk c = record {
  code = "XPC.P.cascade-risk";
  severity = error;
  message = text (
      "ArgoCD Application "
      ∷ qualified_name c.identity
      ∷ " would be removed with cascading finalizer present"
      ∷ []);
  source = c.base_source;
  detail = text (
      "Base manifest carries resources-finalizer.argocd.argoproj.io without "
      ∷ "preserveResourcesOnDeletion: true. Removing the Application will cascade DELETE through "
      ∷ "every resource it owns. This is the fg-synapse INC-6 trigger applied at the Application level."
      ∷ []);
  fix = text (
      "Either set spec.syncPolicy.preserveResourcesOnDeletion: true on the Application "
      ∷ "before removing it, or drop the resources-finalizer entry from metadata.finalizers, "
      ∷ "or keep the Application on HEAD." ∷ []);
  obligation = none;
}

-- One round of the loop over `delta.Removed`.
pub destructive_round : BypassKeySet → Option (List GroupKind) → ResourceChange → Option Diagnostic
unfolding state_bearing_set has_bypass_annotation read_deletion_policy destructive_delete
    cascade_risk
destructive_round keys kinds c =
    if has_bypass_annotation allow_delete c.base_raw keys
    then none
    else if is_state_bearing kinds c.identity
    then (if read_deletion_policy c.base_raw == "Orphan"
        then none
        else some (destructive_delete c keys))
    else if is_application c.identity
    then (if has_cascade_finalizer c.base_raw && not (preserve_resources_on_deletion c.base_raw)
        then some (cascade_risk c)
        else none)
    else none

-- `R26DestructiveDelete`
pub r26_destructive_delete :
    ResourceDelta → BypassKeySet → Option (List GroupKind) → List Diagnostic
unfolding destructive_round
r26_destructive_delete delta keys kinds = collect (destructive_round keys kinds) delta.removed
