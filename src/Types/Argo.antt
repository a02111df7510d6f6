-- ===== src/Types/Argo.antt =====
-- The Argo CD records of pkg/types/types.go: Applications, their sources and policies, and
-- ApplicationSets with their generators and template.
use cross_validate.Base.{String, Bool, Option, List}
use cross_validate.Base.Int.{ℤ}
use cross_validate.Types.Values.{Raw}
use cross_validate.Types.Locations.{SourceLocation}

pub record ArgoHelmParam : Type 0 where
  pub name : String
  pub value : String

pub record ArgoHelmSource : Type 0 where
  pub value_files : List String
  pub values_object : Raw
  pub values : String
  pub release_name : String
  pub parameters : List ArgoHelmParam

pub record ArgoKustomizeSource : Type 0 where
  pub name_prefix : String
  pub name_suffix : String
  pub images : List String
  pub common_labels : List (String × String)
  pub common_annotations : List (String × String)

pub record ArgoDirectorySource : Type 0 where
  pub recurse : Bool
  pub exclude : String
  pub include : String

pub record ArgoPluginEnv : Type 0 where
  pub name : String
  pub value : String

pub record ArgoPluginSource : Type 0 where
  pub name : String
  pub env : List ArgoPluginEnv

pub record ArgoSource : Type 0 where
  pub repo_url : String
  pub path : String
  pub target_revision : String
  pub chart : String
  pub ref : String
  pub renderer : String
  pub helm : Option ArgoHelmSource
  pub kustomize : Option ArgoKustomizeSource
  pub directory : Option ArgoDirectorySource
  pub plugin : Option ArgoPluginSource

pub record ArgoDestination : Type 0 where
  pub server : String
  pub name : String
  pub namespace : String

pub record ArgoAutomatedSync : Type 0 where
  pub prune : Bool
  pub self_heal : Bool

pub record ArgoSyncOptions : Type 0 where
  pub replace : Bool
  pub server_side_apply : Bool
  pub prune : Bool
  pub prune_last : Bool
  pub create_namespace : Bool
  pub apply_out_of_sync_only : Bool
  pub validate : Bool
  pub fail_on_shared_resource : Bool
  pub respect_ignore_differences : Bool

pub record ArgoRetryPolicy : Type 0 where
  pub limit : ℤ
  pub backoff_duration_sec : ℤ
  pub backoff_max_duration_sec : ℤ
  pub backoff_factor : ℤ

pub record ArgoSyncPolicy : Type 0 where
  pub automated : Option ArgoAutomatedSync
  pub sync_options : ArgoSyncOptions
  pub retry : Option ArgoRetryPolicy
  pub preserve_resources_on_deletion : Bool

pub record ArgoIgnoreDiff : Type 0 where
  pub group : String
  pub kind : String
  pub name : String
  pub namespace : String
  pub json_pointers : List String
  pub jq_path_expressions : List String
  pub managed_fields_managers : List String

pub record ResourceRef : Type 0 where
  pub api_version : String
  pub kind : String
  pub name : String
  pub namespace : String

pub record ArgoHook : Type 0 where
  pub phase : String
  pub delete_policy : String
  pub resource : ResourceRef
  pub wave : ℤ

pub record SyncWaveEntry : Type 0 where
  pub kind : String
  pub name : String
  pub wave : ℤ

pub record ArgoApplication : Type 0 where
  pub name : String
  pub namespace : String
  pub tracking_mode : String
  pub sync_waves : List SyncWaveEntry
  pub source : SourceLocation
  pub project : String
  pub sources : List ArgoSource
  pub destination : ArgoDestination
  pub sync_policy : ArgoSyncPolicy
  pub ignore_differences : List ArgoIgnoreDiff
  pub hooks : List ArgoHook
  pub finalizers : List String
  pub annotations : List (String × String)

pub record ArgoAppSetGitDir : Type 0 where
  pub path : String
  pub exclude : Bool

pub record ArgoAppSetGitFile : Type 0 where
  pub path : String

pub record ArgoAppSetGitGenerator : Type 0 where
  pub repo_url : String
  pub revision : String
  pub directories : List ArgoAppSetGitDir
  pub files : List ArgoAppSetGitFile

-- A parameter set, `map[string]string`.
abbrev pub Params : Type 0
Params = List (String × String)

-- `ArgoAppSetGenerator` with its fields in the source's order; the two lists of generators have a
-- list type of their own.
mutual
  pub data ArgoAppSetGenerator : Type 0 where
    generator :
        (kind : String) (list_elements : List Params) (cluster_selector : Params)
        (git : Option ArgoAppSetGitGenerator) (matrix_generators merge_generators : Generators)
        (merge_keys : List String)
        → ArgoAppSetGenerator

  pub data Generators : Type 0 where
    nil : Generators
    cons : ArgoAppSetGenerator → Generators → Generators

pub record ArgoAppSetTemplate : Type 0 where
  pub name : String
  pub namespace : String
  pub finalizers : List String
  pub project : String
  pub source : Option ArgoSource
  pub sources : List ArgoSource
  pub destination : ArgoDestination
  pub sync_policy : ArgoSyncPolicy
  pub ignore_differences : List ArgoIgnoreDiff

pub record ArgoAppSetSyncPolicy : Type 0 where
  pub preserve_resources_on_deletion : Bool

pub record ArgoApplicationSet : Type 0 where
  pub name : String
  pub source : SourceLocation
  pub generators : List ArgoAppSetGenerator
  pub template : ArgoAppSetTemplate
  pub sync_policy : ArgoAppSetSyncPolicy
