-- ===== src/Ir/Leaves.antt =====
-- pkg/ir/trajectory_extract.go: desired and observed leaves of a managed resource (R32).
pub mod Flatten
pub mod Exact
use cross_validate.Base.{
  ℕ, ◌+◌, String, Bool, true, false, not, ◌&&◌, ◌||◌, Option, none, some, List, [], ◌∷◌, ◌++◌,
  collect, flat_map, any, if◌then◌else◌, ◌==◌, string_eq,
}
use cross_validate.Base.Texts.{after_last, text}
use cross_validate.Base.Maps.{lookup, insert}
use cross_validate.Types.World.{ResourceInfo}
use cross_validate.Types.Values.{
  Value, null, bool, int, float, obj, arr, str, Fields, end, field, Items, nil, cons, Raw,
}
use cross_validate.Types.Facts.{CanonicalFormMapping, FixedPointUsage}
use cross_validate.Ir.Groups.{group_from_api_version}
use cross_validate.Ir.Paths.{at_index, at_key, itoa}
use cross_validate.Ir.Extract.{
  get_map, management_update_disabled, annotation_truthy, allow_non_canonical_annotation,
}

-- `flattenStringLeaves`, writing to `out`; `flatten_value` is the switch over a value of the map,
-- `flatten_items` the loop over a list, and `flatten_item` the tests of an element.
unfoldable mutual
  unfolding insert itoa

  pub flatten_string_leaves : String → Fields → List (String × String) → List (String × String)
  flatten_string_leaves prefix end out = out
  flatten_string_leaves prefix (field k v fs) out =
      flatten_string_leaves prefix fs (flatten_value (at_key prefix k) v out)

  pub flatten_value : String → Value → List (String × String) → List (String × String)
  flatten_value path (str s) out = insert path s out
  flatten_value path (obj fs) out = flatten_string_leaves path fs out
  flatten_value path (arr vs) out = flatten_items path 0 vs out
  flatten_value path _ out = out

  pub flatten_items : String → ℕ → Items → List (String × String) → List (String × String)
  flatten_items path i nil out = out
  flatten_items path i (cons v vs) out =
      flatten_items path (i + 1) vs (flatten_item (at_index path i) v out)

  pub flatten_item : String → Value → List (String × String) → List (String × String)
  flatten_item path (str s) out = insert path s out
  flatten_item path (obj fs) out = flatten_string_leaves path fs out
  flatten_item path _ out = out

-- `lastDotted` and `leafSeg`
abbrev pub last_dotted : String → String
last_dotted path = after_last b'.' path

abbrev pub is_registered : List CanonicalFormMapping → ResourceInfo → String → Bool
is_registered registry res leaf =
    any
      (λ m.
        m.group == group_from_api_version res.api_version
        && m.kind == res.kind
        && last_dotted m.field_path == last_dotted leaf)
      registry

abbrev pub fixed_point_usage :
    List CanonicalFormMapping → ResourceInfo → String → String → String → FixedPointUsage
fixed_point_usage registry res leaf dv ov = record {
  resource_group = group_from_api_version res.api_version;
  resource_kind = res.kind;
  resource_name = res.name;
  resource_namespace = res.namespace;
  field_path = text ("spec.forProvider." ∷ leaf ∷ []);
  desired = dv;
  observed = ov;
  registered = is_registered registry res leaf;
  update_disabled = management_update_disabled (get_map res.raw "spec");
  source = res.source;
}

-- One round of the loop over the desired leaves.
pub leaf_round :
    List CanonicalFormMapping
    → ResourceInfo
    → List (String × String)
    → String × String
    → Option FixedPointUsage
unfolding lookup after_last management_update_disabled
leaf_round registry res observed (leaf, dv) = elim (lookup leaf observed) [
  | none ↦ none
  | some ov ↦ if dv == ov then none else some (fixed_point_usage registry res leaf dv ov)
]

abbrev pub leaves_of : Raw → List (String × String)
leaves_of none = []
leaves_of (some fs) = flatten_string_leaves "" fs []

abbrev pub is_blank : Raw → Bool
is_blank (some (field _ _ _)) = false
is_blank _ = true

abbrev pub for_provider : ResourceInfo → Raw
for_provider res = get_map (get_map res.raw "spec") "forProvider"

abbrev pub at_provider : ResourceInfo → Raw
at_provider res = get_map (get_map res.raw "status") "atProvider"

-- The round of a resource.
pub fixed_point_rows : List CanonicalFormMapping → ResourceInfo → List FixedPointUsage
unfolding flatten_string_leaves leaf_round annotation_truthy
fixed_point_rows registry res =
    if is_blank (for_provider res) || is_blank (at_provider res)
    then []
    else if annotation_truthy res.annotations allow_non_canonical_annotation
    then []
    else collect (leaf_round registry res (leaves_of (at_provider res)))
        (leaves_of (for_provider res))

-- `extractFixedPointUsages`
unfoldable pub extract_fixed_point_usages :
    List CanonicalFormMapping → List ResourceInfo → List FixedPointUsage
unfolding fixed_point_rows flat_map
extract_fixed_point_usages registry resources = flat_map (fixed_point_rows registry) resources
