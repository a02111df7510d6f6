-- ===== src/Tests/Enrich.antt =====
-- pkg/ir's facts of an ECS service whose task definition never settles, and of a pod.
use cross_validate.Base.{
  String, true, false, none, some, List, [], ◌∷◌, map, flat_map, select, collect, ◌==◌, string_eq,
  ◌≡◌, ◌↔◌, Memᴰ, refl,
}
use cross_validate.Types.Values.{str, obj, arr, Fields, end, field, nil, cons}
use cross_validate.Types.World.{ResourceInfo, group_kind_instance}
use cross_validate.Types.Facts.{
  LateInitMapping, SelectorMapping, CanonicalFormMapping, FixedPointUsage, MountRef,
}
use cross_validate.Plan.Diff.{no_source}
use cross_validate.Ir.Groups.{group_from_api_version}
use cross_validate.Ir.Paths.{walk_path}
use cross_validate.Ir.Indices.{specialize_indices}
use cross_validate.Ir.Indices.Pieces.{written, filled}
use cross_validate.Ir.Indices.Wildcards.{specialize_indices-written}
use cross_validate.Ir.Extract.{
  resource_gk, late_init_key, late_init_usage, extract_late_init_usages, selector_key,
  selector_usage, extract_selector_usages, canonical_key, canonical_usage,
  extract_canonical_form_usages,
}
use cross_validate.Ir.Extract.Registry.{extract_usages-registry}
use cross_validate.Ir.Pods.{pod_mount_refs, pod_spec_of}
use cross_validate.Ir.Leaves.{extract_fixed_point_usages}
use cross_validate.Ir.Leaves.Exact.{Diverges, extract_fixed_point_usages-Diverges}
use cross_validate.Ir.Enrich.State.{Registries, FactWorld, Facts, no_facts, with_facts}
use cross_validate.Ir.Enrich.{re_enrich}
use cross_validate.Ir.Enrich.Again.{re_enrich-again}
use cross_validate.Schemas.Index.{CrdInfo, SchemaWorld, resource_key, enrich_field_validation}
use cross_validate.Schemas.Index.Conforming.{schema_of, Fits, enrich_field_validation-Fits}
use cross_validate.Tests.Schemas.{never, same_text, shown, schema}

abbrev resource : String → String → Fields → ResourceInfo
resource api_version kind raw = record {
  api_version = api_version;
  kind = kind;
  name = "web";
  namespace = "apps";
  annotations = [];
  source = no_source;
  raw = some raw;
  owning_app = "";
}

abbrev task : String → Fields
task revision = field "taskDefinition" (str revision) end

abbrev service : ResourceInfo
service = resource "ecs.aws.upbound.io/v1beta1" "Service" (
    field "spec" (obj (field "forProvider" (obj (task "web")) end))
      (field "status" (obj (field "atProvider" (obj (task "web:7")) end)) end))

abbrev canonical_form : CanonicalFormMapping
canonical_form = record {
  group = "ecs.aws.upbound.io";
  kind = "Service";
  field_path = "spec.forProvider.taskDefinition";
  detector = "arn-requires-revision";
  canonical = "family:revision";
  reason = "bare family name";
}

abbrev usage : FixedPointUsage
usage = record {
  resource_group = "ecs.aws.upbound.io";
  resource_kind = "Service";
  resource_name = "web";
  resource_namespace = "apps";
  field_path = "spec.forProvider.taskDefinition";
  desired = "web";
  observed = "web:7";
  registered = true;
  update_disabled = false;
  source = no_source;
}

storm : extract_fixed_point_usages (canonical_form ∷ []) (service ∷ []) ≡ usage ∷ []
unfolding extract_fixed_point_usages group_from_api_version
storm = refl

abbrev pod : ResourceInfo
pod = resource "v1" "Pod" (
    field "spec"
      (obj (
        field "volumes"
          (arr (cons (obj (field "secret" (obj (field "secretName" (str "tls") end)) end)) nil))
          end))
      end)

abbrev secret_ref : MountRef
secret_ref = record {
  owner_kind = "Pod";
  owner_name = "web";
  owner_namespace = "apps";
  target_kind = "Secret";
  target_name = "tls";
  target_namespace = "apps";
  mount_kind = "volume";
  optional = false;
  source = no_source;
}

mounted : pod_mount_refs pod (pod_spec_of pod) ≡ secret_ref ∷ []
unfolding pod_mount_refs pod_spec_of
mounted = refl

-- An explicit index of the selector is taken for the first wildcard.
misplaced : specialize_indices "a[].b" "x[0].y[3].z" "x[0].y[].z" ≡ "a[0].b"
unfolding specialize_indices
misplaced = refl

abbrev template : List (String × String)
template = ("launchTemplate", "") ∷ (".nic", "1") ∷ (".subnet", "*") ∷ []

abbrev concrete : List (String × String)
concrete = ("launchTemplate", "2") ∷ (".nic", "5") ∷ []

specialize_indices-written_example :
    specialize_indices (written template ".id") (written concrete ".idSelector") ""
    ≡ written (filled template ("2" ∷ "5" ∷ [])) ".id"
specialize_indices-written_example =
    specialize_indices-written template concrete ".id" ".idSelector" ""
      ((refl, refl), ((refl, refl), ((refl, refl), tt))) refl ((refl, refl), ((refl, refl), tt))
      refl

abbrev late_init : LateInitMapping
late_init = record {
  group = "ecs.aws.upbound.io";
  kind = "Service";
  field_path = "spec.forProvider.taskDefinition";
  fix_pattern = "";
  reason = "";
}

abbrev selector : SelectorMapping
selector = record {
  group = "ecs.aws.upbound.io";
  kind = "Service";
  selector_path = "spec.forProvider.taskDefinition";
  resolved_path = "spec.forProvider.taskDefinitionRef";
  reason = "";
}

extract_usages-registry_example :
    (extract_late_init_usages (late_init ∷ []) (service ∷ [])
      ≡ flat_map
          (λ res.
            flat_map
              (λ m. map (late_init_usage res) (walk_path res.raw m.field_path))
              (select (λ m. late_init_key m == resource_gk res) (late_init ∷ [])))
          (service ∷ []))
    × (extract_selector_usages (selector ∷ []) (service ∷ [])
        ≡ flat_map
            (λ res.
              flat_map
                (λ m. map (selector_usage res m) (walk_path res.raw m.selector_path))
                (select (λ m. selector_key m == resource_gk res) (selector ∷ [])))
            (service ∷ []))
    × (extract_canonical_form_usages (canonical_form ∷ []) (service ∷ [])
        ≡ flat_map
            (λ res.
              flat_map
                (λ m. collect (canonical_usage res m) (walk_path res.raw m.field_path))
                (select (λ m. canonical_key m == resource_gk res) (canonical_form ∷ [])))
            (service ∷ []))
extract_usages-registry_example =
    extract_usages-registry (late_init ∷ []) (selector ∷ []) (canonical_form ∷ []) (service ∷ [])

extract_fixed_point_usages-Diverges_example :
    Memᴰ usage (extract_fixed_point_usages (canonical_form ∷ []) (service ∷ []))
    ↔ ((res : ResourceInfo) × (Memᴰ res (service ∷ []) × Diverges (canonical_form ∷ []) res usage))
extract_fixed_point_usages-Diverges_example =
    extract_fixed_point_usages-Diverges (canonical_form ∷ []) (service ∷ []) usage

abbrev paint : CrdInfo
paint = record {
  group = "example.org";
  kind = "Paint";
  versions =
      record {
        name = "v1";
        served = true;
        storage = false;
        referenceable = false;
        schema_digest = "d";
      }
      ∷ [];
}

abbrev schemas : SchemaWorld
schemas = record {
  xrds = [];
  crds = paint ∷ [];
  schemas = ("d", record { digest = "d"; schema = some schema }) ∷ [];
  schema_index = none;
}

abbrev tin : ResourceInfo
tin = resource "example.org/v1" "Paint" (field "colour" (str "red") end)

fitting : enrich_field_validation never same_text shown schemas (tin ∷ []) ≡ some []
unfolding enrich_field_validation
fitting = refl

enrich_field_validation-Fits_example :
    (enrich_field_validation never same_text shown schemas (tin ∷ []) ≡ some []) ↔ (
      (res : ResourceInfo)
      → Memᴰ res (tin ∷ [])
      → Fits never same_text shown (schema_of schemas (resource_key res)) res)
enrich_field_validation-Fits_example =
    enrich_field_validation-Fits never same_text shown schemas (tin ∷ []) refl

abbrev registries : Registries
registries = record {
  immutable_fields = [];
  selectors = selector ∷ [];
  late_inits = late_init ∷ [];
  canonical_forms = canonical_form ∷ [];
  external_names = [];
}

abbrev merged : FactWorld
merged = record {
  world = record { resources = service ∷ pod ∷ tin ∷ []; argo_apps = [] };
  schema_world = schemas;
  knobs = record {
    immutable_fields = none;
    state_bearing_kinds = none;
    env_label = record { key = ""; claim_kinds = []; allowed_values = [] };
    prod_patterns = none;
    bypass_keys = record { allow_delete = none; allow_immutable_change = none };
    name_carveouts = none;
  };
  selector_mappings = [];
  late_init_mappings = [];
  canonical_form_mappings = [];
  facts = no_facts;
}

abbrev stale : Facts
stale = record no_facts { fixed_point_usages = usage ∷ [] }

re_enrich-again_example :
    (re_enrich never same_text shown registries (with_facts stale merged)
      ≡ re_enrich never same_text shown registries merged)
    × ((w' : FactWorld)
        → re_enrich never same_text shown registries merged ≡ some w'
        → re_enrich never same_text shown registries w' ≡ some w')
re_enrich-again_example = re_enrich-again never same_text shown registries merged stale
