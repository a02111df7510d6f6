-- ===== src/Config/Immutable.antt =====
-- The immutable fields: `ResolveImmutableFields` of pkg/config/resolve.go.
pub mod Overlay
use cross_validate.Base.{
  ℕ, String, Bool, Option, none, some, List, [], ◌∷◌, ◌++◌, if◌then◌else◌, ◌==◌, string_eq, any,
  select, not, ◌&&◌,
}
use cross_validate.Base.Texts.{split_on, join}
use cross_validate.Types.World.{ImmutableField}

pub record ImmutableFieldEntry : Type 0 where
  pub gvk : String
  pub paths : List String
  pub reason : String
  pub suppress : Bool

pub record Gvk : Type 0 where
  pub group : String
  pub version : String
  pub kind : String

-- `splitGVK`; `split_on` gives at least one part.
abbrev pub gvk_of_parts : List String → Gvk
gvk_of_parts [] = record { group = ""; version = ""; kind = "" }
gvk_of_parts (kind ∷ []) = record { group = ""; version = ""; kind = kind }
gvk_of_parts (version ∷ kind ∷ []) = record { group = ""; version = version; kind = kind }
gvk_of_parts (group ∷ version ∷ rest) = record {
  group = group;
  version = version;
  kind = join "/" rest;
}

unfoldable pub split_gvk : String → Gvk
unfolding split_on join
split_gvk gvk = gvk_of_parts (split_on b'/' gvk)

-- `f.Group == group && f.Kind == kind && f.FieldPath == path`
abbrev pub same_field : ImmutableField → ImmutableField → Bool
same_field f g = f.group == g.group && (f.kind == g.kind && f.field_path == g.field_path)

-- `removeImmutable`; the reason of the second argument is not read.
abbrev pub remove_immutable : List ImmutableField → ImmutableField → List ImmutableField
remove_immutable fields e = select (λ f. not (same_field f e)) fields

-- `upsertImmutable`
pub upsert_immutable : List ImmutableField → ImmutableField → List ImmutableField
upsert_immutable [] e = e ∷ []
upsert_immutable (f ∷ fs) e =
    if same_field f e
    then (if not (e.reason == "") then record f { reason = e.reason } else f) ∷ fs
    else f ∷ upsert_immutable fs e

abbrev pub field_of : ImmutableFieldEntry → String → ImmutableField
field_of e path =
    let gvk = split_gvk e.gvk in
    record { group = gvk.group; kind = gvk.kind; field_path = path; reason = e.reason }

-- The inner and the outer loop of the first pass.
pub suppress_paths : List ImmutableField → ImmutableFieldEntry → List String → List ImmutableField
unfolding split_gvk
suppress_paths out e [] = out
suppress_paths out e (path ∷ paths) =
    suppress_paths (remove_immutable out (field_of e path)) e paths

pub suppressions : List ImmutableField → List ImmutableFieldEntry → List ImmutableField
unfolding suppress_paths
suppressions out [] = out
suppressions out (e ∷ es) =
    suppressions (if e.suppress then suppress_paths out e e.paths else out) es

-- The loops of the second pass.
pub append_paths : List ImmutableField → ImmutableFieldEntry → List String → List ImmutableField
unfolding split_gvk upsert_immutable
append_paths out e [] = out
append_paths out e (path ∷ paths) =
    append_paths (if path == "" then out else upsert_immutable out (field_of e path)) e paths

pub additions : List ImmutableField → List ImmutableFieldEntry → List ImmutableField
unfolding append_paths
additions out [] = out
additions out (e ∷ es) = additions (if e.suppress then out else append_paths out e e.paths) es

-- `ResolveImmutableFields`
pub resolve_immutable_fields :
    Option (List ImmutableFieldEntry) → List ImmutableField → List ImmutableField
unfolding suppressions additions
resolve_immutable_fields none builtins = builtins
resolve_immutable_fields (some entries) builtins = additions (suppressions builtins entries) entries
