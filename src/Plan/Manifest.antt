-- ===== src/Plan/Manifest.antt =====
-- What the rules of pkg/plan/r26.go and pkg/plan/r27.go read from a manifest, and their texts.
use cross_validate.Base.{
  String, Bool, false, ◌||◌, not, Option, none, some, List, [], ◌∷◌, if◌then◌else◌, ◌==◌, string_eq,
  any, ◌>>=◌,
}
use cross_validate.Types.Values.{Value, Fields, Raw, get, as_map, as_list, as_string, as_bool}
use cross_validate.Types.World.{BypassKeySet, BypassSlot, has_raw}
use cross_validate.Base.Texts.{text}
use cross_validate.Plan.Diff.{ResourceIdentity}

-- `m, ok := raw[k].(map[string]interface{})`
abbrev pub get_map : String → Fields → Option Fields
get_map k fs = get k fs >>= as_map

abbrev or_false : Option Bool → Bool
or_false none = false
or_false (some b) = b

-- `hasBypassAnnotation` and `hasImmutableChangeBypass`
unfoldable pub has_bypass_annotation : BypassSlot → Raw → BypassKeySet → Bool
unfolding get has_raw
has_bypass_annotation slot raw keys = or_false do
  fs ← raw
  meta ← get_map "metadata" fs
  ann ← get_map "annotations" meta
  some (has_raw keys ann slot)

abbrev or_blank : Option String → String
or_blank none = ""
or_blank (some s) = s

-- `readDeletionPolicy`
unfoldable pub read_deletion_policy : Raw → String
unfolding get
read_deletion_policy raw =
    or_blank
      do fs ← raw; spec ← get_map "spec" fs; policy ← get "deletionPolicy" spec; as_string policy

abbrev is_cascade_finalizer : Value → Bool
is_cascade_finalizer f = elim (as_string f) [
  | none ↦ false
  | some s ↦
      s == "resources-finalizer.argocd.argoproj.io"
      || s == "resources-finalizer.argocd.argoproj.io/foreground"
]

-- `hasCascadeFinalizer`
unfoldable pub has_cascade_finalizer : Raw → Bool
unfolding get
has_cascade_finalizer raw = or_false do
  fs ← raw
  meta ← get_map "metadata" fs
  fins ← get "finalizers" meta
  items ← as_list fins
  some (any is_cascade_finalizer items)

-- `preserveResourcesOnDeletion`
pub preserve_resources_on_deletion : Raw → Bool
unfolding get
preserve_resources_on_deletion raw = or_false do
  fs ← raw
  spec ← get_map "spec" fs
  sp ← get_map "syncPolicy" spec
  flag ← get "preserveResourcesOnDeletion" sp
  as_bool flag

-- `primaryOr`
abbrev pub primary_or : List String → String → String
primary_or [] fallback = fallback
primary_or (key ∷ _) fallback = if not (key == "") then key else fallback

-- `qualifiedName`
abbrev pub qualified_name : ResourceIdentity → String
qualified_name id =
    if not (id.namespace == "") then text (id.namespace ∷ "/" ∷ id.name ∷ []) else id.name

-- `deletionPolicyPhrase`
abbrev pub deletion_policy_phrase : String → String
deletion_policy_phrase policy =
    if policy == ""
    then "spec.deletionPolicy is absent (Crossplane default is Delete)"
    else text ("spec.deletionPolicy is " ∷ policy ∷ " (not Orphan)" ∷ [])

-- `gkForMessage`
abbrev pub gk_for_message : String → String → String
gk_for_message group kind = if group == "" then kind else text (group ∷ "/" ∷ kind ∷ [])
