-- ===== src/AppSet/Instantiate.antt =====
-- The template of an ApplicationSet under a parameter set, and the expansion: `instantiateTemplate`,
-- `substituteSource`, `substituteHelm` and `ExpandAppSet` of pkg/ir/appset_expand.go.
pub mod Rendered
pub mod Comprehension
pub mod Fields
use cross_validate.Base.{
  String, Bool, Option, none, some, List, [], ◌∷◌, ◌++◌, if◌then◌else◌, ◌==◌, string_eq, ◌>>=◌,
}
use cross_validate.Base.Texts.{text}
use cross_validate.Types.Argo.{
  Params, ArgoHelmParam, ArgoHelmSource, ArgoSource, ArgoDestination, ArgoApplication,
  ArgoApplicationSet, ArgoAppSetGenerator,
}
use cross_validate.Types.World.{Diagnostic, Severity, info}
use cross_validate.AppSet.Template.{substitute_template}
use cross_validate.AppSet.Generators.{ExpansionContext, Expansion, expand_generator}

-- A loop that ends at the first element that cannot be rendered.
abbrev pub each {ℓ κ} : {A : Type ℓ} {B : Type κ} → (A → Option B) → List A → Option (List B)
each f [] = some []
each f (x ∷ xs) = f x >>= λ y. each f xs >>= λ ys. some (y ∷ ys)

-- A step on what is not nil.
abbrev pub if_set {ℓ κ} : {A : Type ℓ} {B : Type κ} → (A → Option B) → Option A → Option (Option B)
if_set f none = some none
if_set f (some x) = f x >>= λ y. some (some y)

pub substitute_param : Params → ArgoHelmParam → Option ArgoHelmParam
unfolding substitute_template
substitute_param params p = do
  name ← substitute_template params p.name
  value ← substitute_template params p.value
  some (record { name = name; value = value })

-- `substituteHelm`
pub substitute_helm : Params → ArgoHelmSource → Option ArgoHelmSource
unfolding substitute_template substitute_param
substitute_helm params h = do
  values ← substitute_template params h.values
  release ← substitute_template params h.release_name
  files ← each (substitute_template params) h.value_files
  parameters ← each (substitute_param params) h.parameters
  some record {
    value_files = files;
    values_object = h.values_object;
    values = values;
    release_name = release;
    parameters = parameters;
  }

-- `substituteSource`
pub substitute_source : Params → ArgoSource → Option ArgoSource
unfolding substitute_template substitute_helm
substitute_source params src = do
  repo ← substitute_template params src.repo_url
  path ← substitute_template params src.path
  target ← substitute_template params src.target_revision
  chart ← substitute_template params src.chart
  helm ← if_set (substitute_helm params) src.helm
  some record {
    repo_url = repo;
    path = path;
    target_revision = target;
    chart = chart;
    ref = src.ref;
    renderer = src.renderer;
    helm = helm;
    kustomize = src.kustomize;
    directory = src.directory;
    plugin = src.plugin;
  }

-- The single source of a template before its list of sources.
abbrev pub template_sources : Option ArgoSource → List ArgoSource → List ArgoSource
template_sources none sources = sources
template_sources (some source) sources = source ∷ sources

-- `instantiateTemplate`
pub instantiate_template : ArgoApplicationSet → Params → Option ArgoApplication
unfolding substitute_template substitute_source
instantiate_template set params = do
  name ← substitute_template params set.template.name
  namespace ← substitute_template params set.template.namespace
  project ← substitute_template params set.template.project
  server ← substitute_template params set.template.destination.server
  cluster ← substitute_template params set.template.destination.name
  target ← substitute_template params set.template.destination.namespace
  sources ←
      each (substitute_source params) (template_sources set.template.source set.template.sources)
  some record {
    name = if name == "" then text (set.name ∷ "-expanded" ∷ []) else name;
    namespace = namespace;
    tracking_mode = "annotation";
    sync_waves = [];
    source = set.source;
    project = project;
    sources = sources;
    destination = record { server = server; name = cluster; namespace = target };
    sync_policy = set.template.sync_policy;
    ignore_differences = set.template.ignore_differences;
    hooks = [];
    finalizers = [];
    annotations = [];
  }

-- `ExpansionResult`
pub record ExpansionResult : Type 0 where
  pub applications : List ArgoApplication
  pub diagnostics : List Diagnostic

-- The diagnostic for a template that is not rendered.
pub template_diag : ArgoApplicationSet → Diagnostic
template_diag set = record {
  code = "XPC.H.appset-unsupported-generator";
  severity = info;
  message =
      text (set.name ∷ ": template uses non-trivial Go-template syntax we do not simulate" ∷ []);
  source = set.source;
  detail = text (
      "ranges/conditionals/pipelines are not rendered offline; "
      ∷ "run Argo CD's appset controller for full coverage" ∷ []);
  fix = "simplify the template to plain `{{ .key }}` placeholders, or accept coverage gap";
  obligation = none;
}

-- A round of the inner loop of `ExpandAppSet`, then the rounds that follow.
abbrev pub add_instance :
    ArgoApplicationSet → Option ArgoApplication → ExpansionResult → ExpansionResult
add_instance set none res = record {
  applications = res.applications;
  diagnostics = template_diag set ∷ res.diagnostics;
}
add_instance set (some app) res = record {
  applications = app ∷ res.applications;
  diagnostics = res.diagnostics;
}

pub instantiate_all : ArgoApplicationSet → List Params → ExpansionResult → ExpansionResult
unfolding instantiate_template template_diag
instantiate_all set [] res = res
instantiate_all set (p ∷ ps) res =
    add_instance set (instantiate_template set p) (instantiate_all set ps res)

module _ (glob : String → Option (List String)) (is_dir : String → Bool)
    (quote : String → String) where
  -- A round of the outer loop: the generator's diagnostics, its instances, then the next rounds.
  abbrev pub expansion_round : ArgoApplicationSet → Expansion → ExpansionResult → ExpansionResult
  expansion_round set (params, diags) rest =
      let res = instantiate_all set params rest in
      record { applications = res.applications; diagnostics = diags ++ res.diagnostics }

  -- The generators of a set.
  pub expand_generators :
      ArgoApplicationSet → ExpansionContext → List ArgoAppSetGenerator → ExpansionResult
  unfolding expand_generator instantiate_all
  expand_generators set ctx [] = record { applications = []; diagnostics = [] }
  expand_generators set ctx (gen ∷ gens) =
      expansion_round set (expand_generator glob is_dir quote set ctx gen)
        (expand_generators set ctx gens)

  -- `ExpandAppSet`
  unfoldable pub expand_app_set : ArgoApplicationSet → ExpansionContext → ExpansionResult
  unfolding expand_generators
  expand_app_set set ctx = expand_generators set ctx set.generators
