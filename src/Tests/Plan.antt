-- ===== src/Tests/Plan.antt =====
-- pkg/plan on two small worlds: head drops a VPC and changes the engine of a database.
use cross_validate.Base.{String, true, none, some, [], ◌∷◌, ◌≡◌, refl, ap, inl, inr, Memᴰ}
use mathlib.Core.List.Memᴰ
use cross_validate.Base.Maps.{lookup, mem-of_lookup}
use cross_validate.Types.Values.{Value, str, obj, end, field, is_plain_raw, get, deep_equal}
use cross_validate.Types.World.{ResourceInfo, Diagnostic, ImmutableField, World, BypassKeySet}
use cross_validate.Plan.Diff.{
  ResourceIdentity, identity_instance, ResourceChange, IndexedResource, no_source,
  resource_identity, indexed_resource, index_all, removed_change, modified_change, diff,
}
use cross_validate.Plan.Diff.Classes.{diff_classes}
use cross_validate.Base.Sorting.Strict.{IsChain}
use cross_validate.Plan.Diff.Order.{ComesBefore, diff-IsChain}
use cross_validate.Ir.Groups.{group_from_api_version}
use cross_validate.Ir.Paths.{read_path}
use cross_validate.Plan.Manifest.{has_bypass_annotation, read_deletion_policy}
use cross_validate.Plan.Destructive.{state_bearing_set, destructive_delete, r26_destructive_delete}
use cross_validate.Plan.Destructive.Exact.{r26_exact}
use cross_validate.Plan.Destructive.Agreed.{destructive_round-fact}
use cross_validate.Types.World.{allow_delete, has_key}
use cross_validate.Types.Facts.{CpDeletionPolicyFact}
use cross_validate.Ir.Extract.Adoption.{source_kinds, deletion_policy_fact}
use cross_validate.Plan.Destructive.{destructive_round}
use cross_validate.Base.{false, ◌↔◌, ◌≢◌}
use cross_validate.Plan.ImmutableChange.{resolved_keys, immutable_change, r27_immutable_change}
use cross_validate.Plan.ImmutableChange.Exact.{r27_exact}

abbrev vpc : ResourceInfo
vpc = record {
  api_version = "ec2.aws.upbound.io/v1beta1";
  kind = "VPC";
  name = "main";
  namespace = "";
  annotations = [];
  source = no_source;
  raw = some (field "kind" (str "VPC") end);
  owning_app = "net";
}

abbrev database : String → ResourceInfo
database engine = record {
  api_version = "rds.aws.upbound.io/v1beta1";
  kind = "Cluster";
  name = "db";
  namespace = "";
  annotations = [];
  source = no_source;
  raw = some (field "spec" (obj (field "engine" (str engine) end)) end);
  owning_app = "data";
}

abbrev base : World
base = record { resources = vpc ∷ database "mysql" ∷ []; argo_apps = [] }

abbrev empty : World
empty = record { resources = []; argo_apps = [] }

abbrev head : World
head = record { resources = database "postgres" ∷ []; argo_apps = [] }

abbrev keys : BypassKeySet
keys = record { allow_delete = some ("xpc.io/allow-delete" ∷ []); allow_immutable_change = none }

abbrev engine : ImmutableField
engine = record {
  group = "rds.aws.upbound.io";
  kind = "Cluster";
  field_path = "spec.engine";
  reason = "fixed at creation";
}

abbrev format : Value → String
format (str s) = s
format _ = "?"

diff_classes_example :
    Memᴰ (removed_change (resource_identity vpc) (indexed_resource vpc)) (diff base head).removed
unfolding lookup index_all
diff_classes_example =
    (diff_classes base head (removed_change (resource_identity vpc) (indexed_resource vpc))).0.1
      (resource_identity vpc, indexed_resource vpc, refl, (refl, refl))

diff-IsChain_example :
    IsChain ComesBefore (diff empty base).added
    × IsChain ComesBefore (diff empty base).removed
    × IsChain ComesBefore (diff empty base).modified
diff-IsChain_example = diff-IsChain empty base

abbrev only : World
only = record { resources = vpc ∷ []; argo_apps = [] }

only_plain :
    (id : ResourceIdentity) (res : IndexedResource)
    → lookup id (index_all only) ≡ some res
    → is_plain_raw res.raw ≡ true
unfolding index_all is_plain_raw get
only_plain id res e = elim (Memᴰ.cases_cons (mem-of_lookup id (index_all only) e)) [
  | inl same ↦ ap (λ p. is_plain_raw p.1.raw) same
  | inr later ↦ absurd (Memᴰ.not-nil later)
]

abbrev vpc_change : ResourceChange
vpc_change = removed_change (resource_identity vpc) (indexed_resource vpc)

r26_exact_example :
    Memᴰ (destructive_delete vpc_change keys) (r26_destructive_delete (diff base head) keys none)
unfolding lookup index_all has_bypass_annotation read_deletion_policy state_bearing_set
    group_from_api_version
r26_exact_example =
    (r26_exact keys none base head (destructive_delete vpc_change keys)).1
      (resource_identity vpc, indexed_resource vpc, refl, refl, (refl, inl (refl, refl, refl)))

abbrev database_change : ResourceChange
database_change =
    modified_change (resource_identity (database "mysql")) (indexed_resource (database "mysql"))
      (indexed_resource (database "postgres"))

abbrev engine_finding : Diagnostic
engine_finding =
    immutable_change (engine ∷ []) format (resolved_keys keys) database_change engine (str "mysql")
      (str "postgres")

r27_exact_example :
    Memᴰ engine_finding (r27_immutable_change (engine ∷ []) format (diff base head) none keys)
unfolding lookup index_all has_bypass_annotation group_from_api_version read_path deep_equal
r27_exact_example = (r27_exact (engine ∷ []) format keys none base head engine_finding).1 (
  resource_identity (database "mysql"),
  indexed_resource (database "mysql"),
  indexed_resource (database "postgres"),
  refl,
  refl,
  refl,
  engine,
  Memᴰ.head refl,
  (refl, refl, str "mysql", str "postgres", refl, refl, refl, refl),
)

alike : has_bypass_annotation allow_delete vpc.raw keys ≡ has_key keys vpc.annotations allow_delete
unfolding has_bypass_annotation has_key
alike = refl

destructive_round-fact_example :
    (destructive_round keys none vpc_change ≡ some (destructive_delete vpc_change keys)) ↔ (
      (f : CpDeletionPolicyFact) × ((deletion_policy_fact (source_kinds none) keys vpc ≡ some f)
        × (f.bypass ≡ false)
        × (f.deletion_policy ≢ "Orphan")))
destructive_round-fact_example = destructive_round-fact keys none vpc vpc_change refl refl alike
