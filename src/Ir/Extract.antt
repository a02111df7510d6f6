-- ===== src/Ir/Extract.antt =====
-- pkg/ir/trajectory_extract.go: the facts about single resources that a registry calls for. Each
-- function gives the rows that the source appends to its slice of the World, in order.
pub mod Registry
pub mod Adoption
use cross_validate.Base.{
  ℕ, String, Bool, true, false, not, ◌&&◌, ◌||◌, Option, none, some, List, [], ◌∷◌, ◌++◌, map,
  flat_map, collect, any, if◌then◌else◌, ◌==◌, string_eq, ◌>>=◌, ◌+◌, leb, nat_eq,
}
use cross_validate.Base.Texts.{after_last, contains, trim_space, text}
use cross_validate.Base.Maps.{lookup, insert, last_of}
use cross_validate.Types.World.{
  ResourceInfo, GroupKind, group_kind_eq, group_kind_instance, BypassKeySet, allow_delete, has_key,
  text_at, or_empty,
}
use cross_validate.Types.Values.{Value, str, Fields, Raw, get, as_map, as_list, as_string}
use cross_validate.Types.Facts.{
  SelectorMapping, SelectorUsage, LateInitMapping, LateInitUsage, CanonicalFormMapping,
  CanonicalFormUsage, CpDeletionPolicyFact, ExternalNameAdoptMapping, ExternalNameAdoptFinding,
}
use cross_validate.Config.StateBearing.{state_bearing_kinds_registry}
use cross_validate.Ir.Groups.{group_from_api_version}
use cross_validate.Ir.Paths.{PathHit, walk_path}
use cross_validate.Ir.Indices.{specialize_indices}
use Prim.Native.Char.{Char, code}
use Prim.Native.String

-- `getMap`, on a map that can be nil
abbrev pub get_map : Raw → String → Raw
get_map m k = do fs ← m; v ← get k fs; as_map v

-- The struct `gk` of a resource.
abbrev pub resource_gk : ResourceInfo → GroupKind
resource_gk res = record { group = group_from_api_version res.api_version; kind = res.kind }

-- `index[key] = append(index[key], m)` for each row of a registry.
module _ {ℓ} {A : Type ℓ} (key : A → GroupKind) where
  pub index_rows : List (GroupKind × List A) → List A → List (GroupKind × List A)
  unfolding lookup insert
  index_rows index [] = index
  index_rows index (m ∷ ms) =
      index_rows (insert (key m) (or_empty (lookup (key m) index) ++ m ∷ []) index) ms

  -- The loops over the resources and the rows of their group and kind, with `rows` for one row.
  pub extract_rows {κ} :
      {B : Type κ} → (ResourceInfo → A → List B) → List A → List ResourceInfo → List B
  unfolding index_rows lookup flat_map
  extract_rows rows registry resources =
      let index = index_rows [] registry in
      flat_map (λ res. flat_map (rows res) (or_empty (lookup (resource_gk res) index))) resources

abbrev pub late_init_usage : ResourceInfo → PathHit → LateInitUsage
late_init_usage res hit = record {
  resource_group = group_from_api_version res.api_version;
  resource_kind = res.kind;
  resource_name = res.name;
  resource_namespace = res.namespace;
  field_path = hit.path;
  source = res.source;
}

abbrev pub late_init_key : LateInitMapping → GroupKind
late_init_key m = record { group = m.group; kind = m.kind }

pub late_init_rows : ResourceInfo → LateInitMapping → List LateInitUsage
unfolding walk_path
late_init_rows res m = map (late_init_usage res) (walk_path res.raw m.field_path)

-- `extractLateInitUsages`
unfoldable pub extract_late_init_usages :
    List LateInitMapping → List ResourceInfo → List LateInitUsage
unfolding extract_rows late_init_rows
extract_late_init_usages = extract_rows late_init_key late_init_rows

pub selector_usage : ResourceInfo → SelectorMapping → PathHit → SelectorUsage
unfolding specialize_indices
selector_usage res m hit = record {
  resource_group = group_from_api_version res.api_version;
  resource_kind = res.kind;
  resource_name = res.name;
  resource_namespace = res.namespace;
  selector_path = hit.path;
  resolved_path = specialize_indices m.resolved_path hit.path m.selector_path;
  source = res.source;
}

abbrev pub selector_key : SelectorMapping → GroupKind
selector_key m = record { group = m.group; kind = m.kind }

pub selector_rows : ResourceInfo → SelectorMapping → List SelectorUsage
unfolding walk_path selector_usage
selector_rows res m = map (selector_usage res m) (walk_path res.raw m.selector_path)

-- `extractSelectorUsages`
unfoldable pub extract_selector_usages :
    List SelectorMapping → List ResourceInfo → List SelectorUsage
unfolding extract_rows selector_rows
extract_selector_usages = extract_rows selector_key selector_rows

-- `failsCanonicalDetector`
pub fails_canonical_detector : String → String → Bool
unfolding after_last contains
fails_canonical_detector detector value =
    if detector == "arn-requires-revision"
    then not (contains (after_last b'/' value) ":")
    else false

-- `managementUpdateDisabled`
unfoldable pub management_update_disabled : Raw → Bool
unfolding get
management_update_disabled spec =
    elim (do fs ← spec; raw ← get "managementPolicies" fs; as_list raw) [
      | none ↦ false
      | some policies ↦ not (
          any (λ p. elim (as_string p) [ none ↦ false | some s ↦ s == "*" || s == "Update" ])
            policies)
    ]

-- `strings.ToLower(s) == w`, for a text w of small letters and digits. No character beyond ASCII
-- becomes one of the letters of the words below.
abbrev lower_eq : ℕ → ℕ → Bool
lower_eq c d = nat_eq c d || leb b'A' c && leb c b'Z' && nat_eq (c + 32) d

lowers_to : String → String → Bool
lowers_to String.[] String.[] = true
lowers_to (String.◌∷◌ c s) (String.◌∷◌ d w) = lower_eq (code c) (code d) && lowers_to s w
lowers_to _ _ = false

-- `annotationTruthy`
unfoldable pub annotation_truthy : List (String × String) → String → Bool
unfolding lookup trim_space lowers_to
annotation_truthy annotations key = elim (lookup key annotations) [
  | none ↦ false
  | some v ↦ not (any (lowers_to (trim_space v)) ("" ∷ "false" ∷ "0" ∷ "no" ∷ "off" ∷ []))
]

abbrev pub allow_non_canonical_annotation : String
allow_non_canonical_annotation = "xpc.io/allow-noncanonical"

abbrev pub canonical_key : CanonicalFormMapping → GroupKind
canonical_key m = record { group = m.group; kind = m.kind }

-- One hit; a value that is no text, or is "", is passed over.
abbrev pub canonical_usage :
    ResourceInfo → CanonicalFormMapping → PathHit → Option CanonicalFormUsage
unfolding fails_canonical_detector management_update_disabled annotation_truthy get
canonical_usage res m hit = elim (as_string hit.value) [
  | none ↦ none
  | some val ↦
      if val == ""
      then none
      else some (record {
        resource_group = group_from_api_version res.api_version;
        resource_kind = res.kind;
        resource_name = res.name;
        resource_namespace = res.namespace;
        field_path = hit.path;
        value = val;
        canonical = m.canonical;
        reason = m.reason;
        non_canonical = fails_canonical_detector m.detector val;
        update_disabled = management_update_disabled (get_map res.raw "spec");
        bypass = annotation_truthy res.annotations allow_non_canonical_annotation;
        source = res.source;
      })
]

pub canonical_rows : ResourceInfo → CanonicalFormMapping → List CanonicalFormUsage
unfolding walk_path
canonical_rows res m = collect (canonical_usage res m) (walk_path res.raw m.field_path)

-- `extractCanonicalFormUsages`
unfoldable pub extract_canonical_form_usages :
    List CanonicalFormMapping → List ResourceInfo → List CanonicalFormUsage
unfolding extract_rows canonical_rows
extract_canonical_form_usages = extract_rows canonical_key canonical_rows
