-- ===== src/Ir/Pods.antt =====
-- pkg/ir/trajectory_extract.go: what a pod refers to, and the bindings and rules of RBAC.
use cross_validate.Base.{
  String, Bool, false, ◌&&◌, ◌||◌, none, some, List, [], ◌∷◌, ◌++◌, flat_map, collect, any,
  if◌then◌else◌, ◌==◌, string_eq, ◌>>=◌,
}
use cross_validate.Types.World.{ResourceInfo, or_empty}
use cross_validate.Types.Values.{Value, Raw, get, as_map, as_list, as_string, as_bool}
use cross_validate.Types.Facts.{MountRef, SaRef, RbacBinding, RbacRule}
use cross_validate.Ir.Extract.{get_map}

-- `getSlice` and `getStringSlice`; a range over nil makes no round.
abbrev pub get_slice : Raw → String → List Value
get_slice m k = or_empty do fs ← m; v ← get k fs; as_list v

abbrev pub get_string_slice : Raw → String → List String
get_string_slice m k = collect as_string (get_slice m k)

-- `s, _ := m[k].(string)` and `b, _ := m[k].(bool)`
abbrev pub string_or_blank : Raw → String → String
string_or_blank m k = elim (do fs ← m; v ← get k fs; as_string v) [ none ↦ "" | some s ↦ s ]

abbrev bool_or_false : Raw → String → Bool
bool_or_false m k = elim (do fs ← m; v ← get k fs; as_bool v) [ none ↦ false | some b ↦ b ]

-- The loops over a list that pass over what is no map.
abbrev pub for_maps {ℓ} : {B : Type ℓ} → (Raw → List B) → List Value → List B
for_maps body vs = flat_map (λ v. elim (as_map v) [ none ↦ [] | some m ↦ body (some m) ]) vs

abbrev pub sa_name_of : Raw → String
sa_name_of pod_spec =
    let name = string_or_blank pod_spec "serviceAccountName" in
    if name == "" then string_or_blank pod_spec "serviceAccount" else name

-- `extractFromPodSpec`, what it appends to `SARefs`
unfoldable pub pod_sa_refs : ResourceInfo → Raw → List SaRef
unfolding get
pod_sa_refs owner none = []
pod_sa_refs owner (some spec) =
    if sa_name_of (some spec) == ""
    then []
    else record {
      owner_kind = owner.kind;
      owner_name = owner.name;
      owner_namespace = owner.namespace;
      sa_name = sa_name_of (some spec);
      sa_namespace = owner.namespace;
      source = owner.source;
    }
      ∷ []

-- A reference to a ConfigMap or a Secret, which has its name under a key.
pub reference : ResourceInfo → String → String → String → Raw → List MountRef
unfolding get
reference owner target_kind name_key mount_kind none = []
reference owner target_kind name_key mount_kind (some m) =
    if string_or_blank (some m) name_key == ""
    then []
    else record {
      owner_kind = owner.kind;
      owner_name = owner.name;
      owner_namespace = owner.namespace;
      target_kind = target_kind;
      target_name = string_or_blank (some m) name_key;
      target_namespace = owner.namespace;
      mount_kind = mount_kind;
      optional = bool_or_false (some m) "optional";
      source = owner.source;
    }
      ∷ []

-- An element of `sources`, of `volumes` and of `envFrom`.
pub projected_source : ResourceInfo → Raw → List MountRef
unfolding get reference
projected_source owner sm =
    reference owner "ConfigMap" "name" "projected" (get_map sm "configMap")
    ++ reference owner "Secret" "name" "projected" (get_map sm "secret")

pub volume : ResourceInfo → Raw → List MountRef
unfolding get flat_map reference projected_source
volume owner vm =
    reference owner "ConfigMap" "name" "volume" (get_map vm "configMap")
    ++ (reference owner "Secret" "secretName" "volume" (get_map vm "secret")
        ++ for_maps (projected_source owner) (get_slice (get_map vm "projected") "sources"))

pub env_from : ResourceInfo → Raw → List MountRef
unfolding get reference
env_from owner em =
    reference owner "ConfigMap" "name" "envFrom" (get_map em "configMapRef")
    ++ reference owner "Secret" "name" "envFrom" (get_map em "secretRef")

pub container : ResourceInfo → Raw → List MountRef
unfolding get flat_map env_from
container owner cm = for_maps (env_from owner) (get_slice cm "envFrom")

-- `extractFromPodSpec`, what it appends to `MountRefs`
unfoldable pub pod_mount_refs : ResourceInfo → Raw → List MountRef
unfolding get flat_map volume container
pod_mount_refs owner none = []
pod_mount_refs owner (some spec) =
    for_maps (volume owner) (get_slice (some spec) "volumes")
    ++ (for_maps (container owner) (get_slice (some spec) "containers")
        ++ for_maps (container owner) (get_slice (some spec) "initContainers"))

-- The switch of `EnrichTrajectoryData` over the kind: where the pod's spec is, if there is one.
unfoldable pub pod_spec_of : ResourceInfo → Raw
unfolding get
pod_spec_of res =
    let spec = get_map res.raw "spec" in
    if res.kind == "Pod"
    then spec
    else if any (λ k. k == res.kind)
        ("Deployment" ∷ "StatefulSet" ∷ "DaemonSet" ∷ "ReplicaSet" ∷ "Job" ∷ [])
    then get_map (get_map spec "template") "spec"
    else if res.kind == "CronJob"
    then get_map (get_map (get_map (get_map spec "jobTemplate") "spec") "template") "spec"
    else none

-- One subject of a binding.
abbrev rbac_subject : ResourceInfo → String → String → Raw → List RbacBinding
rbac_subject res role_kind role_name sm =
    if string_or_blank sm "kind" == "" || string_or_blank sm "name" == ""
    then []
    else record {
      binding_kind = res.kind;
      binding_name = res.name;
      binding_namespace = res.namespace;
      subject_kind = string_or_blank sm "kind";
      subject_name = string_or_blank sm "name";
      subject_namespace = string_or_blank sm "namespace";
      role_kind = role_kind;
      role_name = role_name;
      role_namespace =
          if res.kind == "RoleBinding" && role_kind == "Role" then res.namespace else "";
      source = res.source;
    }
      ∷ []

-- `extractRBACBinding`
unfoldable pub extract_rbac_binding : ResourceInfo → List RbacBinding
unfolding get flat_map
extract_rbac_binding res =
    let role_kind = string_or_blank (get_map res.raw "roleRef") "kind" in
    let role_name = string_or_blank (get_map res.raw "roleRef") "name" in
    if role_kind == "" || role_name == ""
    then []
    else for_maps (rbac_subject res role_kind role_name) (get_slice res.raw "subjects")

abbrev rbac_rule : ResourceInfo → Raw → List RbacRule
rbac_rule res rm =
    record {
      owner_kind = res.kind;
      owner_name = res.name;
      owner_namespace = res.namespace;
      api_groups = get_string_slice rm "apiGroups";
      resources = get_string_slice rm "resources";
      verbs = get_string_slice rm "verbs";
      resource_names = get_string_slice rm "resourceNames";
      source = res.source;
    }
    ∷ []

-- `extractRBACRules`
unfoldable pub extract_rbac_rules : ResourceInfo → List RbacRule
unfolding get flat_map
extract_rbac_rules res = for_maps (rbac_rule res) (get_slice res.raw "rules")
