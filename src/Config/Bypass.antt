-- ===== src/Config/Bypass.antt =====
-- The annotation keys that silence a rule, `mergeBypass` and its callers in pkg/config/resolve.go.
pub mod Keys
use cross_validate.Base.{
  String, Option, none, some, List, [], ◌∷◌, if◌then◌else◌, ◌==◌, string_eq, not,
}
use cross_validate.Config.Names.{add_names}

pub record BypassKeyConfig : Type 0 where
  pub primary : String
  pub aliases : List String

pub record BypassAnnotationsConfig : Type 0 where
  pub allow_delete : BypassKeyConfig
  pub allow_immutable_change : BypassKeyConfig

abbrev pub chosen_primary : String → BypassKeyConfig → String
chosen_primary builtin user = if not (user.primary == "") then user.primary else builtin

-- `mergeBypass`
pub merge_bypass : String → List String → BypassKeyConfig → List String
unfolding add_names
merge_bypass builtin_primary builtin_aliases user =
    let primary = chosen_primary builtin_primary user in
    let out = if not (primary == "") then primary ∷ [] else [] in
    add_names (add_names out builtin_aliases) user.aliases

abbrev no_keys : BypassKeyConfig
no_keys = record { primary = ""; aliases = [] }

-- `ResolveAllowDeleteKeys`
pub resolve_allow_delete_keys : Option BypassAnnotationsConfig → List String
unfolding merge_bypass
resolve_allow_delete_keys none = merge_bypass "xpc.io/allow-delete" [] no_keys
resolve_allow_delete_keys (some cfg) = merge_bypass "xpc.io/allow-delete" [] cfg.allow_delete

-- `ResolveAllowImmutableChangeKeys`
unfoldable pub resolve_allow_immutable_change_keys : Option BypassAnnotationsConfig → List String
unfolding merge_bypass
resolve_allow_immutable_change_keys none = merge_bypass "xpc.io/allow-immutable-change" [] no_keys
resolve_allow_immutable_change_keys (some cfg) =
    merge_bypass "xpc.io/allow-immutable-change" [] cfg.allow_immutable_change
