-- ===== src/Tests/Owners.antt =====
-- pkg/ir's repository roots, owners and value files on a small checkout under /w.
use cross_validate.Base.{
  String, none, some, List, [], ◌∷◌, All, ◌==◌, string_eq, ◌≡◌, ◌≢◌, ◌⊎◌, refl,
}
use cross_validate.Types.Argo.{ArgoSource}
use cross_validate.Ir.Owners.{
  FileSystem, find_repo_root, OwnerPrefix, resolve_owner, resolve_value_file_prefix, resolved,
}
use cross_validate.Ir.Owners.Roots.{IsNearest, find_repo_root-IsNearest}
use cross_validate.Ir.Owners.Longest.{IsUnder, IsBest, resolve_owner-IsBest}

abbrev disk : FileSystem
disk = record {
  is_git = λ path. path == "/w/.git";
  exists = λ path. path == "/w/charts/web";
  absolute = λ path. some path;
}

abbrev prefixes : List OwnerPrefix
prefixes =
    record { dir = "/w/apps"; app_name = "root" }
    ∷ record { dir = "/w/apps/web"; app_name = "web" }
    ∷ record { dir = "/w/apps/we"; app_name = "we" }
    ∷ record { dir = "/w/apps/web"; app_name = "web-copy" }
    ∷ []

abbrev values_source : ArgoSource
values_source = record {
  repo_url = "";
  path = "";
  target_revision = "";
  chart = "";
  ref = "values";
  renderer = "";
  helm = none;
  kustomize = none;
  directory = none;
  plugin = none;
}

owner : resolve_owner disk "/w/apps/web/a.yaml" prefixes ≡ "web"
unfolding resolve_owner
owner = refl

-- A prefix that is the root directory holds no other file.
below_root : resolve_owner disk "/a.yaml" (record { dir = "/"; app_name = "all" } ∷ []) ≡ ""
unfolding resolve_owner
below_root = refl

value_file :
    resolve_value_file_prefix disk "$values/env/../prod.yaml" (values_source ∷ []) "/w/apps/web"
    ≡ ("/w/prod.yaml", resolved)
unfolding resolve_value_file_prefix
value_file = refl

abbrev web : String
web = "/w/apps/web"

apart : web ≢ ""
apart e = cc

find_repo_root-IsNearest_example : IsNearest disk web (find_repo_root disk web)
find_repo_root-IsNearest_example = find_repo_root-IsNearest disk web apart

resolve_owner-IsBest_example :
    ((resolve_owner disk "/w/apps/web/a.yaml" prefixes ≡ "")
      × All (λ p. ¬ IsUnder "/w/apps/web/a.yaml" p.dir) prefixes)
    ⊎ IsBest "/w/apps/web/a.yaml" none prefixes (resolve_owner disk "/w/apps/web/a.yaml" prefixes)
resolve_owner-IsBest_example =
    resolve_owner-IsBest disk "/w/apps/web/a.yaml" "/w/apps/web/a.yaml" prefixes refl
