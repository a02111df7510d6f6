-- ===== src/Config/StateBearing.antt =====
-- The state-bearing kinds: the registry of pkg/ir/state_bearing_registry.go and its overlay,
-- `ResolveStateBearingKinds` of pkg/config/resolve.go.
pub mod Overlay
use cross_validate.Base.{
  String, Bool, Option, none, some, List, [], ◌∷◌, ◌++◌, if◌then◌else◌, ◌==◌, any, select, not,
}
use cross_validate.Types.World.{GroupKind, group_kind_eq, group_kind_instance}

abbrev gk : String → String → GroupKind
gk group kind = record { group = group; kind = kind }

abbrev pub state_bearing_kinds_registry : List GroupKind
state_bearing_kinds_registry =
    gk "rds.aws.upbound.io" "Cluster"
    ∷ gk "rds.aws.upbound.io" "ClusterInstance"
    ∷ gk "docdb.aws.upbound.io" "Cluster"
    ∷ gk "docdb.aws.upbound.io" "ClusterInstance"
    ∷ gk "mysql.sql.crossplane.io" "Database"
    ∷ gk "mysql.sql.crossplane.io" "User"
    ∷ gk "mysql.sql.crossplane.io" "Grant"
    ∷ gk "kms.aws.upbound.io" "Key"
    ∷ gk "s3.aws.upbound.io" "Bucket"
    ∷ gk "ec2.aws.upbound.io" "VPC"
    ∷ []

pub record StateBearingKindsConfig : Type 0 where
  pub append : List GroupKind
  pub suppress : List GroupKind

-- `containsStateBearing`
abbrev pub contains_state_bearing : List GroupKind → GroupKind → Bool
contains_state_bearing kinds e = any (λ k. group_kind_eq k e) kinds

-- `removeStateBearing`
abbrev pub remove_state_bearing : List GroupKind → GroupKind → List GroupKind
remove_state_bearing kinds e = select (λ k. not (group_kind_eq k e)) kinds

pub suppress_kinds : List GroupKind → List GroupKind → List GroupKind
suppress_kinds out [] = out
suppress_kinds out (e ∷ es) = suppress_kinds (remove_state_bearing out e) es

pub append_kinds : List GroupKind → List GroupKind → List GroupKind
append_kinds out [] = out
append_kinds out (e ∷ es) =
    append_kinds (if contains_state_bearing out e then out else out ++ e ∷ []) es

pub resolve_state_bearing_kinds : Option StateBearingKindsConfig → List GroupKind → List GroupKind
unfolding suppress_kinds append_kinds
resolve_state_bearing_kinds none defaults = defaults
resolve_state_bearing_kinds (some cfg) defaults =
    append_kinds (suppress_kinds defaults cfg.suppress) cfg.append
