-- ===== src/Plan/ImmutableChange.antt =====
-- pkg/plan/r27.go: changes of registered immutable fields.
pub mod Exact
use cross_validate.Base.{
  String, Bool, true, false, ◌||◌, ◌&&◌, not, Option, none, some, List, [], ◌∷◌, flat_map,
  if◌then◌else◌, ◌==◌, string_eq, any, collect,
}
use cross_validate.Ir.Groups.{group_from_api_version}
use cross_validate.Ir.Paths.{read_path}
use cross_validate.Types.Values.{Value, deep_equal}
use cross_validate.Types.World.{
  SourceLocation, Severity, error, Diagnostic, ImmutableField, BypassKeySet, BypassSlot,
  allow_immutable_change, or_empty,
}
use cross_validate.Config.Bypass.{resolve_allow_immutable_change_keys}
use cross_validate.Plan.Diff.{ResourceIdentity, ResourceChange, ResourceDelta}
use cross_validate.Base.Texts.{text}
use cross_validate.Plan.Manifest.{has_bypass_annotation, primary_or, qualified_name, gk_for_message}

-- The keys with the built-in ones where none were resolved.
abbrev keys_or_default : Option (List String) → List String
keys_or_default none = resolve_allow_immutable_change_keys none
keys_or_default (some keys) = keys

abbrev pub resolved_keys : BypassKeySet → BypassKeySet
resolved_keys keys = record keys {
  allow_immutable_change = some (keys_or_default keys.allow_immutable_change);
}

-- `builtins` is the immutable-field registry; `ResolveImmutableFields` of no configuration is a copy
-- of it. `format` is the verb %v of Go's fmt on a decoded value.
module _ (builtins : List ImmutableField) (format : Value → String) where
  abbrev pub resolved_registry : Option (List ImmutableField) → List ImmutableField
  resolved_registry none = builtins
  resolved_registry (some fields) = fields

  pub immutable_change : BypassKeySet → ResourceChange → ImmutableField → Value → Value → Diagnostic
  immutable_change keys c entry base head =
      let group = group_from_api_version c.identity.api_version in
      record {
        code = "XPC.P.immutable-change";
        severity = error;
        message = text (
            gk_for_message group c.identity.kind
            ∷ " "
            ∷ qualified_name c.identity
            ∷ ": immutable field "
            ∷ entry.field_path
            ∷ " changed"
            ∷ []);
        source = c.base_source;
        detail = text (
            "Base value "
            ∷ format base
            ∷ " → head value "
            ∷ format head
            ∷ ". "
            ∷ entry.reason
            ∷ ". Applying this change will require destroying and recreating the external object."
            ∷ []);
        fix = text (
            "Either (a) revert the change to "
            ∷ entry.field_path
            ∷ " on HEAD, (b) recreate the resource under a new identity if the reshape is intentional, or "
            ∷ "(c) add annotation "
            ∷ primary_or (or_empty keys.allow_immutable_change) "xpc.io/allow-immutable-change"
            ∷ ": \"true\" on the HEAD manifest to consent to the recreate."
            ∷ []);
        obligation = none;
      }

  -- The two reads and the comparison.
  pub compare_values :
      BypassKeySet
      → ResourceChange
      → ImmutableField
      → Option Value
      → Option Value
      → Option Diagnostic
  unfolding immutable_change deep_equal
  compare_values keys c entry (some base) (some head) =
      if deep_equal base head then none else some (immutable_change keys c entry base head)
  compare_values keys c entry _ _ = none

  -- One round of the loop over the registry.
  pub entry_round : BypassKeySet → ResourceChange → ImmutableField → Option Diagnostic
  unfolding compare_values read_path group_from_api_version
  entry_round keys c entry =
      if not (entry.group == group_from_api_version c.identity.api_version)
        || not (entry.kind == c.identity.kind)
      then none
      else compare_values keys c entry (read_path c.base_raw entry.field_path)
          (read_path c.head_raw entry.field_path)

  -- One round of the loop over `delta.Modified`.
  pub change_round : BypassKeySet → List ImmutableField → ResourceChange → List Diagnostic
  unfolding entry_round has_bypass_annotation
  change_round keys registry c =
      if has_bypass_annotation allow_immutable_change c.head_raw keys
      then []
      else collect (entry_round keys c) registry

  -- `R27ImmutableChange`
  pub r27_immutable_change :
      ResourceDelta → Option (List ImmutableField) → BypassKeySet → List Diagnostic
  unfolding change_round flat_map resolve_allow_immutable_change_keys
  r27_immutable_change delta registry keys =
      flat_map (change_round (resolved_keys keys) (resolved_registry registry)) delta.modified
