-- ===== src/Types/Facts.antt =====
-- The facts of pkg/types/types.go that pkg/ir derives from the resources of a World, and the rows of
-- the registries that they are derived by.
use cross_validate.Base.{String, Bool, List}
use cross_validate.Types.Locations.{SourceLocation}

pub record MountRef : Type 0 where
  pub owner_kind : String
  pub owner_name : String
  pub owner_namespace : String
  pub target_kind : String
  pub target_name : String
  pub target_namespace : String
  pub mount_kind : String
  pub optional : Bool
  pub source : SourceLocation

pub record SaRef : Type 0 where
  pub owner_kind : String
  pub owner_name : String
  pub owner_namespace : String
  pub sa_name : String
  pub sa_namespace : String
  pub source : SourceLocation

pub record RbacBinding : Type 0 where
  pub binding_kind : String
  pub binding_name : String
  pub binding_namespace : String
  pub subject_kind : String
  pub subject_name : String
  pub subject_namespace : String
  pub role_kind : String
  pub role_name : String
  pub role_namespace : String
  pub source : SourceLocation

pub record RbacRule : Type 0 where
  pub owner_kind : String
  pub owner_name : String
  pub owner_namespace : String
  pub api_groups : List String
  pub resources : List String
  pub verbs : List String
  pub resource_names : List String
  pub source : SourceLocation

pub record SelectorMapping : Type 0 where
  pub group : String
  pub kind : String
  pub selector_path : String
  pub resolved_path : String
  pub reason : String

pub record SelectorUsage : Type 0 where
  pub resource_group : String
  pub resource_kind : String
  pub resource_name : String
  pub resource_namespace : String
  pub selector_path : String
  pub resolved_path : String
  pub source : SourceLocation

pub record LateInitMapping : Type 0 where
  pub group : String
  pub kind : String
  pub field_path : String
  pub fix_pattern : String
  pub reason : String

pub record LateInitUsage : Type 0 where
  pub resource_group : String
  pub resource_kind : String
  pub resource_name : String
  pub resource_namespace : String
  pub field_path : String
  pub source : SourceLocation

pub record CanonicalFormMapping : Type 0 where
  pub group : String
  pub kind : String
  pub field_path : String
  pub detector : String
  pub canonical : String
  pub reason : String

pub record CanonicalFormUsage : Type 0 where
  pub resource_group : String
  pub resource_kind : String
  pub resource_name : String
  pub resource_namespace : String
  pub field_path : String
  pub value : String
  pub canonical : String
  pub reason : String
  pub non_canonical : Bool
  pub update_disabled : Bool
  pub bypass : Bool
  pub source : SourceLocation

pub record FixedPointUsage : Type 0 where
  pub resource_group : String
  pub resource_kind : String
  pub resource_name : String
  pub resource_namespace : String
  pub field_path : String
  pub desired : String
  pub observed : String
  pub registered : Bool
  pub update_disabled : Bool
  pub source : SourceLocation

pub record SsampConflict : Type 0 where
  pub app_name : String
  pub server_side_apply : Bool
  pub management_policies : List String
  pub resource_group : String
  pub resource_kind : String
  pub resource_name : String
  pub resource_namespace : String
  pub source : SourceLocation

pub record CpDeletionPolicyFact : Type 0 where
  pub group : String
  pub kind : String
  pub name : String
  pub namespace : String
  pub deletion_policy : String
  pub bypass : Bool
  pub source : SourceLocation

pub record ExternalNameAdoptMapping : Type 0 where
  pub group : String
  pub kind : String
  pub reason : String

pub record ExternalNameAdoptFinding : Type 0 where
  pub group : String
  pub kind : String
  pub name : String
  pub namespace : String
  pub reason : String
  pub source : SourceLocation
