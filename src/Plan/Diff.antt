-- ===== src/Plan/Diff.antt =====
-- pkg/plan/plan.go and pkg/plan/diff.go: identities, the index of a world and the delta.
-- A Go map is an association list in the order of insertion.
pub mod Index
pub mod Classes
pub mod Order
pub mod Same
use cross_validate.Base.{
  ℕ, String, Bool, true, false, ◌&&◌, ◌||◌, not, Option, none, some, is_some, List, [], ◌∷◌, map,
  if◌then◌else◌, ◌==◌, Eq, string_eq, ◌≡◌, ◌↔◌, arith, eq_iff, collect, is_empty,
}
use cross_validate.Base.Maps.{lookup, insert, has}
use cross_validate.Base.Sorting.{sort_by}
use cross_validate.Base.Texts.{str_lt}
use cross_validate.Types.Values.{
  Value, bool, str, arr, obj, Items, nil, cons, Fields, end, field, Raw, raw_equal,
}
use cross_validate.Types.World.{SourceLocation, ResourceInfo, ArgoApplication, World}

pub record ResourceIdentity : Type 0 where
  pub api_version : String
  pub kind : String
  pub namespace : String
  pub name : String
  pub app_name : String

abbrev pub identity_eq : ResourceIdentity → ResourceIdentity → Bool
identity_eq a b =
    a.api_version == b.api_version
    && (a.kind == b.kind
        && (a.namespace == b.namespace && (a.name == b.name && a.app_name == b.app_name)))

pub identity_eq_iff : (a b : ResourceIdentity) → (identity_eq a b ≡ true) ↔ (a ≡ b)
identity_eq_iff a b = (
  λ h. ground (
    arith,
    eq_iff a.api_version b.api_version,
    eq_iff a.kind b.kind,
    eq_iff a.namespace b.namespace,
    eq_iff a.name b.name,
    eq_iff a.app_name b.app_name,
  ),
  λ h. ground (
    arith,
    eq_iff a.api_version b.api_version,
    eq_iff a.kind b.kind,
    eq_iff a.namespace b.namespace,
    eq_iff a.name b.name,
    eq_iff a.app_name b.app_name,
  ),
)

instance abbrev pub identity_instance : Eq ResourceIdentity
identity_instance = record { beq = identity_eq; beq_iff = identity_eq_iff }

pub record ResourceChange : Type 0 where
  pub identity : ResourceIdentity
  pub base_source : SourceLocation
  pub head_source : SourceLocation
  pub base_raw : Raw
  pub head_raw : Raw

pub record ResourceDelta : Type 0 where
  pub added : List ResourceChange
  pub removed : List ResourceChange
  pub modified : List ResourceChange

pub record IndexedResource : Type 0 where
  pub source : SourceLocation
  pub raw : Raw

abbrev pub Index : Type 0
Index = List (ResourceIdentity × IndexedResource)

-- The zero `SourceLocation`.
abbrev pub no_source : SourceLocation
no_source = record { file = ""; line = 0; column = 0 }

abbrev pub resource_identity : ResourceInfo → ResourceIdentity
resource_identity res = record {
  api_version = res.api_version;
  kind = res.kind;
  namespace = res.namespace;
  name = res.name;
  app_name = res.owning_app;
}

-- The loop of `indexByIdentity`: a later resource replaces an earlier one of its identity.
pub index_resources :
    List (ResourceIdentity × ResourceInfo)
    → List ResourceInfo
    → List (ResourceIdentity × ResourceInfo)
unfolding insert
index_resources out [] = out
index_resources out (res ∷ rest) = index_resources (insert (resource_identity res) res out) rest

pub index_by_identity : World → List (ResourceIdentity × ResourceInfo)
unfolding index_resources
index_by_identity w = index_resources [] w.resources

abbrev strings : List String → Items
strings [] = nil
strings (s ∷ ss) = cons (str s) (strings ss)

abbrev string_fields : List (String × String) → Fields
string_fields [] = end
string_fields ((k, v) ∷ m) = field k (str v) (string_fields m)

-- `m[k] = v` under a condition, on a map that is being built
abbrev field_if : Bool → String → Value → Fields → Fields
field_if b k v m = if b then field k v m else m

-- `argoAppVirtualRaw`
unfoldable pub argo_app_virtual_raw : ArgoApplication → Fields
argo_app_virtual_raw app =
    let meta = field "name" (str app.name) (
      field_if (not (app.namespace == "")) "namespace" (str app.namespace) (
        field_if (not (is_empty app.finalizers)) "finalizers" (arr (strings app.finalizers)) (
          field_if (not (is_empty app.annotations)) "annotations"
            (obj (string_fields app.annotations)) end))) in
    let sync_policy =
      field_if app.sync_policy.preserve_resources_on_deletion "preserveResourcesOnDeletion"
        (bool true) end in
    let spec =
      field_if app.sync_policy.preserve_resources_on_deletion "syncPolicy" (obj sync_policy) end in
    field "apiVersion" (str "argoproj.io/v1alpha1")
      (field "kind" (str "Application") (field "metadata" (obj meta) (field "spec" (obj spec) end)))

abbrev pub application_identity : ArgoApplication → ResourceIdentity
application_identity app = record {
  api_version = "argoproj.io/v1alpha1";
  kind = "Application";
  namespace = app.namespace;
  name = app.name;
  app_name = "";
}

abbrev pub indexed_resource : ResourceInfo → IndexedResource
indexed_resource res = record { source = res.source; raw = res.raw }

unfoldable pub indexed_application : ArgoApplication → IndexedResource
unfolding argo_app_virtual_raw
indexed_application app = record { source = app.source; raw = some (argo_app_virtual_raw app) }

-- The first loop of `indexAll` fills an empty map from a map, entry by entry.
pub index_copies : List (ResourceIdentity × ResourceInfo) → Index
index_copies [] = []
index_copies ((id, res) ∷ rest) = (id, indexed_resource res) ∷ index_copies rest

-- Its second loop.
pub index_applications : Index → List ArgoApplication → Index
unfolding insert indexed_application
index_applications out [] = out
index_applications out (app ∷ rest) =
    index_applications (insert (application_identity app) (indexed_application app) out) rest

unfoldable pub index_all : World → Index
unfolding index_by_identity index_copies index_applications
index_all w = index_applications (index_copies (index_by_identity w)) w.argo_apps

abbrev pub removed_change : ResourceIdentity → IndexedResource → ResourceChange
removed_change id base = record {
  identity = id;
  base_source = base.source;
  head_source = no_source;
  base_raw = base.raw;
  head_raw = none;
}

abbrev pub added_change : ResourceIdentity → IndexedResource → ResourceChange
added_change id head = record {
  identity = id;
  base_source = no_source;
  head_source = head.source;
  base_raw = none;
  head_raw = head.raw;
}

abbrev pub modified_change : ResourceIdentity → IndexedResource → IndexedResource → ResourceChange
modified_change id base head = record {
  identity = id;
  base_source = base.source;
  head_source = head.source;
  base_raw = base.raw;
  head_raw = head.raw;
}

-- One round of the loop over the base index, and one of the loop over the head index.
pub removed_round : Index → ResourceIdentity × IndexedResource → Option ResourceChange
unfolding lookup
removed_round head (id, base) = elim (lookup id head) [
  | none ↦ some (removed_change id base)
  | some _ ↦ none
]

pub modified_round : Index → ResourceIdentity × IndexedResource → Option ResourceChange
unfolding lookup raw_equal
modified_round head (id, base) = elim (lookup id head) [
  | none ↦ none
  | some res ↦ if raw_equal base.raw res.raw then none else some (modified_change id base res)
]

pub added_round : Index → ResourceIdentity × IndexedResource → Option ResourceChange
unfolding lookup
added_round base (id, head) = if has id base then none else some (added_change id head)

-- The order of `sortChanges`.
pub change_less : ResourceChange → ResourceChange → Bool
unfolding str_lt
change_less c d =
    let a = c.identity in
    let b = d.identity in
    if not (a.app_name == b.app_name)
    then str_lt a.app_name b.app_name
    else if not (a.api_version == b.api_version)
    then str_lt a.api_version b.api_version
    else if not (a.kind == b.kind)
    then str_lt a.kind b.kind
    else if not (a.namespace == b.namespace)
    then str_lt a.namespace b.namespace
    else str_lt a.name b.name

-- `Diff`
pub diff : World → World → ResourceDelta
unfolding index_all removed_round modified_round added_round change_less sort_by
diff base head =
    let base_map = index_all base in
    let head_map = index_all head in
    record {
      added = sort_by change_less (collect (added_round base_map) head_map);
      removed = sort_by change_less (collect (removed_round head_map) base_map);
      modified = sort_by change_less (collect (modified_round head_map) base_map);
    }
