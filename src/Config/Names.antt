-- ===== src/Config/Names.antt =====
-- The lists of names of pkg/config/resolve.go: additions to a list that skip "" and repetitions.
pub mod Sets
use cross_validate.Base.{
  String, Bool, Option, none, some, List, [], ◌∷◌, ◌++◌, if◌then◌else◌, ◌==◌, string_eq, ◌||◌, any,
  is_empty, not,
}

-- `containsString`
abbrev pub contains_string : List String → String → Bool
contains_string haystack needle = any (λ s. s == needle) haystack

-- One round of the loops that build a list of names.
abbrev pub add_name : List String → String → List String
add_name out s = if s == "" || contains_string out s then out else out ++ s ∷ []

unfoldable pub add_names : List String → List String → List String
add_names out [] = out
add_names out (s ∷ ss) = add_names (add_name out s) ss

-- `ResolveExternalSecretStoreNames`, `ResolveAllowedProviderConfigs`: the configured names, none
-- without a configuration.
pub resolve_allowed_names : Option (List String) → List String
unfolding add_names
resolve_allowed_names none = []
resolve_allowed_names (some names) = add_names [] names

abbrev pub default_carveouts : List String
default_carveouts = "alb-logs" ∷ []

-- `ResolveCrossplaneStateNeedsOrphanCarveouts`
pub resolve_carveouts : Option (List String) → List String
unfolding add_names
resolve_carveouts none = default_carveouts
resolve_carveouts (some names) = add_names default_carveouts names

abbrev pub default_prod_patterns : List String
default_prod_patterns = "-prod" ∷ "prod-" ∷ []

-- `ResolveProdPatterns`
pub resolve_prod_patterns : Option (List String) → List String
resolve_prod_patterns none = default_prod_patterns
resolve_prod_patterns (some patterns) =
    if not (is_empty patterns) then patterns else default_prod_patterns

pub record EnvLabelConfig : Type 0 where
  pub key : String
  pub claim_kinds : List String
  pub allowed_values : List String

abbrev pub default_env_label : EnvLabelConfig
default_env_label = record {
  key = "app.facilitygrid.io/environment";
  claim_kinds = "FargateApp" ∷ "FargateWorker" ∷ "FargateService" ∷ [];
  allowed_values = "prod" ∷ "preview" ∷ "ops" ∷ [];
}

-- `ResolveEnvLabel`: each field that is set replaces its default.
unfoldable pub resolve_env_label : Option EnvLabelConfig → EnvLabelConfig
resolve_env_label none = default_env_label
resolve_env_label (some cfg) = record {
  key = if not (cfg.key == "") then cfg.key else default_env_label.key;
  claim_kinds =
      if not (is_empty cfg.claim_kinds) then cfg.claim_kinds else default_env_label.claim_kinds;
  allowed_values =
      if not (is_empty cfg.allowed_values)
      then cfg.allowed_values
      else default_env_label.allowed_values;
}
