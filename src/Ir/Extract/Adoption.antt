-- ===== src/Ir/Extract/Adoption.antt =====
-- pkg/ir/trajectory_extract.go: the deletion policies of state-bearing resources (R23), and resources
-- that must be adopted by their external name (R35).
use cross_validate.Base.{
  String, not, ◌||◌, Option, none, some, List, [], ◌∷◌, collect, any, if◌then◌else◌, ◌==◌,
  string_eq, ◌>>=◌,
}
use cross_validate.Base.Texts.{trim_space, text}
use cross_validate.Base.Maps.{last_of}
use cross_validate.Types.World.{
  ResourceInfo, GroupKind, group_kind_instance, BypassKeySet, allow_delete, has_key, text_at,
}
use cross_validate.Types.Values.{get, as_string}
use cross_validate.Types.Facts.{
  CpDeletionPolicyFact, ExternalNameAdoptMapping, ExternalNameAdoptFinding,
}
use cross_validate.Config.StateBearing.{state_bearing_kinds_registry}
use cross_validate.Ir.Groups.{group_from_api_version}
use cross_validate.Ir.Extract.{get_map, resource_gk, annotation_truthy}

-- The keys of the map `allow`.
abbrev pub slash_key : String → String → String
slash_key group kind = text (group ∷ "/" ∷ kind ∷ [])

abbrev pub source_kinds : Option (List GroupKind) → List GroupKind
source_kinds none = state_bearing_kinds_registry
source_kinds (some kinds) = kinds

-- One round of `extractCPDeletionPolicyFacts`.
unfoldable pub deletion_policy_fact :
    List GroupKind → BypassKeySet → ResourceInfo → Option CpDeletionPolicyFact
unfolding get has_key
deletion_policy_fact source keys res =
    let group = group_from_api_version res.api_version in
    let policy : String =
      elim (do spec ← get_map res.raw "spec"; dp ← get "deletionPolicy" spec; as_string dp) [
        | none ↦ ""
        | some dp ↦ dp
      ] in
    if not (any (λ gk. slash_key gk.group gk.kind == slash_key group res.kind) source)
    then none
    else some (record {
      group = group;
      kind = res.kind;
      name = res.name;
      namespace = res.namespace;
      deletion_policy = policy;
      bypass = has_key keys res.annotations allow_delete;
      source = res.source;
    })

-- `extractCPDeletionPolicyFacts`; nil kinds fall back to the registry.
unfoldable pub extract_cp_deletion_policy_facts :
    Option (List GroupKind) → BypassKeySet → List ResourceInfo → List CpDeletionPolicyFact
unfolding deletion_policy_fact
extract_cp_deletion_policy_facts kinds keys resources =
    collect (deletion_policy_fact (source_kinds kinds) keys) resources

abbrev pub external_name_annotation : String
external_name_annotation = "crossplane.io/external-name"

abbrev pub allow_missing_external_name_annotation : String
allow_missing_external_name_annotation = "xpc.io/allow-missing-external-name"

abbrev pub adopt_key : ExternalNameAdoptMapping → GroupKind
adopt_key m = record { group = m.group; kind = m.kind }

-- One round of `extractExternalNameAdoptFindings`. The index holds the last row of a key.
pub adopt_finding : List ExternalNameAdoptMapping → ResourceInfo → Option ExternalNameAdoptFinding
unfolding annotation_truthy text_at trim_space
adopt_finding registry res = elim (last_of adopt_key (resource_gk res) none registry) [
  | none ↦ none
  | some m ↦
      if res.name == ""
        || annotation_truthy res.annotations allow_missing_external_name_annotation
        || not (trim_space (text_at external_name_annotation res.annotations) == "")
      then none
      else some (record {
        group = group_from_api_version res.api_version;
        kind = res.kind;
        name = res.name;
        namespace = res.namespace;
        reason = m.reason;
        source = res.source;
      })
]

-- `extractExternalNameAdoptFindings`
unfoldable pub extract_external_name_adopt_findings :
    List ExternalNameAdoptMapping → List ResourceInfo → List ExternalNameAdoptFinding
unfolding adopt_finding
extract_external_name_adopt_findings registry resources = collect (adopt_finding registry) resources
