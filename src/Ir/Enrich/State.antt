-- ===== src/Ir/Enrich/State.antt =====
-- The World with the knobs and the facts that pkg/ir/trajectory_extract.go reads and writes.
use cross_validate.Base.{String, Option, List, [], ◌++◌, string_eq}
use cross_validate.Types.World.{World, GroupKind, ImmutableField, BypassKeySet}
use cross_validate.Types.Facts.{
  MountRef, SaRef, RbacBinding, RbacRule, SelectorMapping, SelectorUsage, LateInitMapping,
  LateInitUsage, CanonicalFormMapping, CanonicalFormUsage, FixedPointUsage, SsampConflict,
  CpDeletionPolicyFact, ExternalNameAdoptMapping, ExternalNameAdoptFinding,
}
use cross_validate.Config.Names.{EnvLabelConfig}
use cross_validate.Schemas.Index.{SchemaWorld, ResourceFieldFact}

-- The tables that the source spells out as lists.
pub record Registries : Type 0 where
  pub immutable_fields : List ImmutableField
  pub selectors : List SelectorMapping
  pub late_inits : List LateInitMapping
  pub canonical_forms : List CanonicalFormMapping
  pub external_names : List ExternalNameAdoptMapping

-- The knobs of the World; `none` is nil. `env_label` has the three fields of R31.
pub record Knobs : Type 0 where
  pub immutable_fields : Option (List ImmutableField)
  pub state_bearing_kinds : Option (List GroupKind)
  pub env_label : EnvLabelConfig
  pub prod_patterns : Option (List String)
  pub bypass_keys : BypassKeySet
  pub name_carveouts : Option (List (String × List String))

-- The slices of facts of the World.
pub record Facts : Type 0 where
  pub mount_refs : List MountRef
  pub sa_refs : List SaRef
  pub rbac_bindings : List RbacBinding
  pub rbac_rules : List RbacRule
  pub selector_usages : List SelectorUsage
  pub late_init_usages : List LateInitUsage
  pub canonical_form_usages : List CanonicalFormUsage
  pub fixed_point_usages : List FixedPointUsage
  pub ssamp_conflicts : List SsampConflict
  pub cp_deletion_policy_facts : List CpDeletionPolicyFact
  pub resource_field_facts : List ResourceFieldFact
  pub external_name_adopt_findings : List ExternalNameAdoptFinding

-- The World with what enriching reads and writes.
pub record FactWorld : Type 0 where
  pub world : World
  pub schema_world : SchemaWorld
  pub knobs : Knobs
  pub selector_mappings : List SelectorMapping
  pub late_init_mappings : List LateInitMapping
  pub canonical_form_mappings : List CanonicalFormMapping
  pub facts : Facts

abbrev pub no_facts : Facts
no_facts = record {
  mount_refs = [];
  sa_refs = [];
  rbac_bindings = [];
  rbac_rules = [];
  selector_usages = [];
  late_init_usages = [];
  canonical_form_usages = [];
  fixed_point_usages = [];
  ssamp_conflicts = [];
  cp_deletion_policy_facts = [];
  resource_field_facts = [];
  external_name_adopt_findings = [];
}

abbrev pub with_facts : Facts → FactWorld → FactWorld
with_facts facts w = record {
  world = w.world;
  schema_world = w.schema_world;
  knobs = w.knobs;
  selector_mappings = w.selector_mappings;
  late_init_mappings = w.late_init_mappings;
  canonical_form_mappings = w.canonical_form_mappings;
  facts = facts;
}

abbrev pub with_field_facts : List ResourceFieldFact → Facts → Facts
with_field_facts field_facts f = record {
  mount_refs = f.mount_refs;
  sa_refs = f.sa_refs;
  rbac_bindings = f.rbac_bindings;
  rbac_rules = f.rbac_rules;
  selector_usages = f.selector_usages;
  late_init_usages = f.late_init_usages;
  canonical_form_usages = f.canonical_form_usages;
  fixed_point_usages = f.fixed_point_usages;
  ssamp_conflicts = f.ssamp_conflicts;
  cp_deletion_policy_facts = f.cp_deletion_policy_facts;
  resource_field_facts = f.resource_field_facts ++ field_facts;
  external_name_adopt_findings = f.external_name_adopt_findings;
}

abbrev pub with_schema_world : SchemaWorld → FactWorld → FactWorld
with_schema_world s w = record {
  world = w.world;
  schema_world = s;
  knobs = w.knobs;
  selector_mappings = w.selector_mappings;
  late_init_mappings = w.late_init_mappings;
  canonical_form_mappings = w.canonical_form_mappings;
  facts = w.facts;
}
