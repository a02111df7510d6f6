-- ===== src/Ir/Enrich.antt =====
-- pkg/ir/trajectory_extract.go: EnrichTrajectoryData and ReEnrich, on a World with its knobs and facts.
pub mod State
pub mod Again
use cross_validate.Base.{
  ℕ, String, Bool, true, false, not, ◌&&◌, ◌||◌, Option, none, some, List, [], ◌∷◌, ◌++◌, map,
  flat_map, collect, any, is_some, if◌then◌else◌, ◌==◌, string_eq, ◌>>=◌,
}
use cross_validate.Base.Maps.{lookup, insert, has, last_value}
use cross_validate.Types.World.{
  World, ResourceInfo, GroupKind, ImmutableField, BypassKeySet, or_empty,
}
use cross_validate.Types.Values.{Value, Raw, get, as_list, as_string}
use cross_validate.Types.Argo.{ArgoApplication}
use cross_validate.Types.Facts.{
  MountRef, SaRef, RbacBinding, RbacRule, SelectorMapping, SelectorUsage, LateInitMapping,
  LateInitUsage, CanonicalFormMapping, CanonicalFormUsage, FixedPointUsage, SsampConflict,
  CpDeletionPolicyFact, ExternalNameAdoptMapping, ExternalNameAdoptFinding,
}
use cross_validate.Config.Immutable.{resolve_immutable_fields}
use cross_validate.Config.StateBearing.{resolve_state_bearing_kinds, state_bearing_kinds_registry}
use cross_validate.Config.Names.{
  EnvLabelConfig, resolve_env_label, resolve_prod_patterns, resolve_carveouts,
}
use cross_validate.Config.Bypass.{resolve_allow_delete_keys, resolve_allow_immutable_change_keys}
use cross_validate.Ir.Groups.{group_from_api_version}
use cross_validate.Ir.Extract.{
  get_map, extract_late_init_usages, extract_selector_usages, extract_canonical_form_usages,
}
use cross_validate.Ir.Extract.Adoption.{
  extract_cp_deletion_policy_facts, extract_external_name_adopt_findings,
}
use cross_validate.Ir.Pods.{
  pod_sa_refs, pod_mount_refs, pod_spec_of, extract_rbac_binding, extract_rbac_rules,
}
use cross_validate.Ir.Leaves.{extract_fixed_point_usages}
use cross_validate.Schemas.Index.{
  SchemaWorld, ResourceFieldFact, build_schema_index, enrich_field_validation,
}
use cross_validate.Ir.Enrich.State.{
  Registries, Knobs, Facts, FactWorld, no_facts, with_facts, with_field_facts, with_schema_world,
}

abbrev pub knob_or {ℓ} : {A : Type ℓ} → Option A → A → Option A
knob_or none d = some d
knob_or (some a) d = some a

abbrev pub carveout_rule : String
carveout_rule = "crossplane-state-needs-orphan"

pub default_carveouts_in :
    Option (List (String × List String)) → List String → Option (List (String × List String))
unfolding lookup insert
default_carveouts_in none names = some ((carveout_rule, names) ∷ [])
default_carveouts_in (some m) names =
    if has carveout_rule m then some m else some (insert carveout_rule names m)

pub default_env_label_in : EnvLabelConfig → EnvLabelConfig
unfolding resolve_env_label
default_env_label_in env = if env.key == "" then resolve_env_label none else env

-- `ensureKnobDefaults`
pub ensure_knob_defaults : Registries → Knobs → Knobs
unfolding default_carveouts_in default_env_label_in
ensure_knob_defaults registries k = record {
  immutable_fields =
      knob_or k.immutable_fields (resolve_immutable_fields none registries.immutable_fields);
  state_bearing_kinds =
      knob_or k.state_bearing_kinds (resolve_state_bearing_kinds none state_bearing_kinds_registry);
  env_label = default_env_label_in k.env_label;
  prod_patterns = knob_or k.prod_patterns (resolve_prod_patterns none);
  bypass_keys = record {
    allow_delete = knob_or k.bypass_keys.allow_delete (resolve_allow_delete_keys none);
    allow_immutable_change =
        knob_or k.bypass_keys.allow_immutable_change (resolve_allow_immutable_change_keys none);
  };
  name_carveouts = default_carveouts_in k.name_carveouts (resolve_carveouts none);
}

-- `readManagementPolicies`
pub read_management_policies : Raw → Option (List String)
unfolding get
read_management_policies raw = do
  spec ← get_map raw "spec"
  mp ← get "managementPolicies" spec
  items ← as_list mp
  some (collect as_string items)

-- One round of `extractSSAMPConflicts`; `ssa_by_app` has the last Application of a name.
abbrev pub ssa_by_app : List ArgoApplication → String → Option Bool
ssa_by_app apps name =
    last_value name none
      (map (λ app. (app.name, app.sync_policy.sync_options.server_side_apply)) apps)

pub ssamp_conflict : List ArgoApplication → ResourceInfo → Option SsampConflict
unfolding read_management_policies
ssamp_conflict apps res =
    if res.owning_app == ""
    then none
    else (ssa_by_app apps res.owning_app >>= λ ssa.
        if not ssa
        then none
        else (read_management_policies res.raw >>= λ policies. some (record {
          app_name = res.owning_app;
          server_side_apply = true;
          management_policies = policies;
          resource_group = group_from_api_version res.api_version;
          resource_kind = res.kind;
          resource_name = res.name;
          resource_namespace = res.namespace;
          source = res.source;
        })))

-- `extractSSAMPConflicts`
pub extract_ssamp_conflicts : World → List SsampConflict
unfolding ssamp_conflict
extract_ssamp_conflicts w = collect (ssamp_conflict w.argo_apps) w.resources

abbrev pub bindings_of : ResourceInfo → List RbacBinding
bindings_of res =
    if res.kind == "RoleBinding" || res.kind == "ClusterRoleBinding"
    then extract_rbac_binding res
    else []

abbrev pub rules_of : ResourceInfo → List RbacRule
rules_of res =
    if res.kind == "Role" || res.kind == "ClusterRole" then extract_rbac_rules res else []

-- What enriching appends to the facts.
pub enriched_facts : Registries → World → Knobs → Facts → Facts
unfolding pod_sa_refs pod_mount_refs pod_spec_of extract_rbac_binding extract_rbac_rules flat_map
    extract_selector_usages extract_late_init_usages extract_canonical_form_usages
    extract_fixed_point_usages extract_ssamp_conflicts extract_cp_deletion_policy_facts
    extract_external_name_adopt_findings
enriched_facts registries w k f = record {
  mount_refs = f.mount_refs ++ flat_map (λ res. pod_mount_refs res (pod_spec_of res)) w.resources;
  sa_refs = f.sa_refs ++ flat_map (λ res. pod_sa_refs res (pod_spec_of res)) w.resources;
  rbac_bindings = f.rbac_bindings ++ flat_map bindings_of w.resources;
  rbac_rules = f.rbac_rules ++ flat_map rules_of w.resources;
  selector_usages = f.selector_usages ++ extract_selector_usages registries.selectors w.resources;
  late_init_usages =
      f.late_init_usages ++ extract_late_init_usages registries.late_inits w.resources;
  canonical_form_usages =
      f.canonical_form_usages
      ++ extract_canonical_form_usages registries.canonical_forms w.resources;
  fixed_point_usages =
      f.fixed_point_usages ++ extract_fixed_point_usages registries.canonical_forms w.resources;
  ssamp_conflicts = f.ssamp_conflicts ++ extract_ssamp_conflicts w;
  cp_deletion_policy_facts =
      f.cp_deletion_policy_facts
      ++ extract_cp_deletion_policy_facts k.state_bearing_kinds k.bypass_keys w.resources;
  resource_field_facts = f.resource_field_facts;
  external_name_adopt_findings =
      f.external_name_adopt_findings
      ++ extract_external_name_adopt_findings registries.external_names w.resources;
}

-- `EnrichTrajectoryData`
pub enrich_trajectory_data : Registries → FactWorld → FactWorld
unfolding ensure_knob_defaults enriched_facts
enrich_trajectory_data registries w =
    let knobs = ensure_knob_defaults registries w.knobs in
    record {
      world = w.world;
      schema_world = w.schema_world;
      knobs = knobs;
      selector_mappings = registries.selectors;
      late_init_mappings = registries.late_inits;
      canonical_form_mappings = registries.canonical_forms;
      facts = enriched_facts registries w.world knobs w.facts;
    }

module _ (beyond : ℕ → Bool) (quote : String → String) (show : Value → String) where
  -- `EnrichFieldValidation` on the World; `none` is a panic.
  pub enrich_fields : FactWorld → Option FactWorld
  unfolding build_schema_index enrich_field_validation
  enrich_fields w =
      enrich_field_validation beyond quote show w.schema_world w.world.resources >>= λ facts. some (
        with_schema_world (build_schema_index w.schema_world).1
          (with_facts (with_field_facts facts w.facts) w))

  -- `ReEnrich`
  pub re_enrich : Registries → FactWorld → Option FactWorld
  unfolding enrich_trajectory_data enrich_fields
  re_enrich registries w = enrich_fields (enrich_trajectory_data registries (with_facts no_facts w))
