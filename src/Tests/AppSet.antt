-- ===== src/Tests/AppSet.antt =====
-- pkg/ir/appset_expand.go on an ApplicationSet with a matrix of environments and regions.
use cross_validate.Base.{
  String, Bool, true, false, Option, none, some, is_some, List, [], ◌∷◌, ◌≡◌, refl, length,
  get_elem?, string_eq, Memᴰ, map, all, ◌*◌, ◌+◌,
}
use cross_validate.Base.Maps.{lookup, or_else}
use cross_validate.Types.Argo.{
  Params, ArgoAppSetGenerator, generator, nil, cons, ArgoApplicationSet, ArgoApplication,
}
use cross_validate.Ir.Groups.{group_from_api_version}
use cross_validate.Types.World.{BypassKeySet}
use cross_validate.Plan.Diff.{no_source, ResourceChange, indexed_application, application_identity}
use cross_validate.Plan.Destructive.{destructive_round, state_bearing_set}
use cross_validate.Plan.Destructive.Generated.{r26_generated}
use cross_validate.AppSet.Template.{substitute_template, is_unsupported}
use cross_validate.AppSet.Template.Segments.{
  substitute_template-fill, Segments, print, fill, IsCanonical,
}
use cross_validate.AppSet.Generators.{ExpansionContext, expand_generator}
use cross_validate.AppSet.Generators.Combined.{
  expand_generator-matrix, expand_generator-merge, partner,
}
use cross_validate.AppSet.Generators.Maps.{params_of, diags_of}
use cross_validate.AppSet.Instantiate.{instantiate_template, expand_app_set}
use cross_validate.AppSet.Instantiate.Rendered.{
  instantiate_template-is_some, template_texts, is_supported,
}
use cross_validate.AppSet.Instantiate.Comprehension.{expand_app_set-results, instances, refusals}
use cross_validate.Base.{ℕ, ◌⊎◌, flat_map, ◌++◌, ◌>>=◌}
use cross_validate.Tests.Trajectory.{no_policy}

filled :
    substitute_template (("env", "prod") ∷ []) "app-{{ .env }}-{{x}}{{" ≡ some "app-prod-{{x}}{{"
unfolding substitute_template
filled = refl

refused : substitute_template [] "{{ .env | upper }}" ≡ none
unfolding substitute_template
refused = refl

abbrev no_glob : String → Option (List String)
no_glob _ = none

abbrev no_dir : String → Bool
no_dir _ = false

abbrev same_text : String → String
same_text s = s

abbrev listed : List Params → ArgoAppSetGenerator
listed elements = generator "list" elements [] none nil nil []

abbrev envs : ArgoAppSetGenerator
envs = listed ((("env", "dev") ∷ []) ∷ (("env", "prod") ∷ ("region", "eu") ∷ []) ∷ [])

abbrev regions : ArgoAppSetGenerator
regions = listed ((("region", "eu") ∷ []) ∷ (("region", "us") ∷ ("size", "big") ∷ []) ∷ [])

abbrev matrix : ArgoAppSetGenerator
matrix = generator "matrix" [] [] none (cons envs (cons regions nil)) nil []

abbrev merge : ArgoAppSetGenerator
merge = generator "merge" [] [] none nil (cons regions (cons envs nil)) ("region" ∷ [])

abbrev set : ArgoApplicationSet
set = record {
  name = "web";
  source = no_source;
  generators = matrix ∷ [];
  template = record {
    name = "web-{{ .env }}-{{ .region }}";
    namespace = "argocd";
    finalizers = "resources-finalizer.argocd.argoproj.io" ∷ [];
    project = "";
    source = none;
    sources = [];
    destination = record { server = ""; name = "{{ .region }}"; namespace = "web" };
    sync_policy = no_policy;
    ignore_differences = [];
  };
  sync_policy = record { preserve_resources_on_deletion = false };
}

abbrev ctx : ExpansionContext
ctx = record { pr_fixtures = []; root = "" }

abbrev expanded : ArgoAppSetGenerator → List Params
expanded = params_of no_glob no_dir same_text set ctx

names :
    map (λ app. app.name) (expand_app_set no_glob no_dir same_text set ctx).applications
    ≡ "web-dev-eu" ∷ "web-dev-us" ∷ "web-prod-eu" ∷ "web-prod-us" ∷ []
unfolding expand_app_set
names = refl

joined :
    (expand_generator no_glob no_dir same_text set ctx merge).0
    ≡ (("region", "eu") ∷ ("env", "prod") ∷ []) ∷ (("region", "us") ∷ ("size", "big") ∷ []) ∷ []
unfolding expand_generator
joined = refl

-- Witnesses.
substitute_template-fill_example :
    ((is_unsupported "a{{ .b }}c" ≡ true)
      × ((params : Params) → substitute_template params "a{{ .b }}c" ≡ none))
    ⊎ ((is_unsupported "a{{ .b }}c" ≡ false)
        × ((segs : Segments) × ((print segs ≡ "a{{ .b }}c")
              × IsCanonical segs
              × ((params : Params)
                  → substitute_template params "a{{ .b }}c" ≡ some (fill params segs)))))
substitute_template-fill_example = substitute_template-fill "a{{ .b }}c"

expand_generator-matrix_example :
    (length (expanded matrix) ≡ length (expanded envs) * length (expanded regions))
    × ((i j : ℕ) (ap bp : Params)
        → get_elem? (expanded envs) i ≡ some ap
        → get_elem? (expanded regions) j ≡ some bp
        → (p : Params) × ((get_elem? (expanded matrix) (i * length (expanded regions) + j) ≡ some p)
            × ((k : String) → lookup k p ≡ or_else (lookup k bp) (lookup k ap))))
unfolding lookup
expand_generator-matrix_example =
    expand_generator-matrix no_glob no_dir same_text set ctx envs regions nil nil [] [] none tt
      ((refl, tt), ((refl, (refl, tt)), tt)) ((refl, tt), ((refl, (refl, tt)), tt)) []

expand_generator-merge_example :
    (length (expanded merge) ≡ length (expanded regions))
    × ((i : ℕ) (ap : Params)
        → get_elem? (expanded regions) i ≡ some ap
        → (p : Params) × ((get_elem? (expanded merge) i ≡ some p)
            × ((k : String)
                → lookup k p
                  ≡ or_else
                      (lookup k ap)
                      (partner ("region" ∷ []) (expanded envs) ap >>= λ bp. lookup k bp))))
unfolding lookup
expand_generator-merge_example =
    expand_generator-merge no_glob no_dir same_text set ctx regions envs nil nil [] [] none tt
      ((refl, tt), ((refl, (refl, tt)), tt)) ((refl, tt), ((refl, (refl, tt)), tt)) "region" []

instantiate_template-is_some_example :
    is_some (instantiate_template set (("env", "dev") ∷ [])) ≡ all is_supported (template_texts set)
instantiate_template-is_some_example = instantiate_template-is_some (("env", "dev") ∷ []) set

expand_app_set-results_example :
    ((expand_app_set no_glob no_dir same_text set ctx).applications
      ≡ flat_map (λ g. instances set (expanded g)) (matrix ∷ []))
    × ((expand_app_set no_glob no_dir same_text set ctx).diagnostics
        ≡ flat_map
            (λ g. diags_of no_glob no_dir same_text set ctx g ++ refusals set (expanded g))
            (matrix ∷ []))
expand_app_set-results_example = expand_app_set-results no_glob no_dir same_text set ctx

abbrev generated : ArgoApplication
generated = record {
  name = "web-dev-eu";
  namespace = "argocd";
  tracking_mode = "annotation";
  sync_waves = [];
  source = no_source;
  project = "";
  sources = [];
  destination = record { server = ""; name = "eu"; namespace = "web" };
  sync_policy = no_policy;
  ignore_differences = [];
  hooks = [];
  finalizers = [];
  annotations = [];
}

abbrev removal : ResourceChange
removal = record {
  identity = application_identity generated;
  base_source = no_source;
  head_source = no_source;
  base_raw = (indexed_application generated).raw;
  head_raw = none;
}

abbrev keys : BypassKeySet
keys = record { allow_delete = none; allow_immutable_change = none }

r26_generated_example : destructive_round keys none removal ≡ none
unfolding expand_app_set state_bearing_set group_from_api_version
r26_generated_example =
    r26_generated no_glob no_dir same_text set ctx generated removal keys none (Memᴰ.head refl) refl
      refl
