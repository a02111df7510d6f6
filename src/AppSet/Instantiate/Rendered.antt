-- ===== src/AppSet/Instantiate/Rendered.antt =====
-- Which templates are rendered: the texts of a template that must be supported.
use cross_validate.Base.{
  String, Bool, not, ◌&&◌, Option, none, some, is_some, List, [], ◌∷◌, ◌++◌, flat_map, all,
  string_eq, ◌≡◌, refl, subst, ◌>>=◌, arith, inl, inr,
}
use cross_validate.Types.Argo.{
  Params, ArgoHelmParam, ArgoHelmSource, ArgoSource, ArgoApplicationSet,
}
use cross_validate.AppSet.Template.{is_unsupported, substitute_template}
use cross_validate.AppSet.Template.Segments.{substitute_template-fill}
use cross_validate.AppSet.Instantiate.{
  each, if_set, substitute_param, substitute_helm, substitute_source, template_sources,
  instantiate_template,
}

-- The texts of a template that are rendered.
abbrev param_texts : ArgoHelmParam → List String
param_texts p = p.name ∷ p.value ∷ []

abbrev helm_texts : Option ArgoHelmSource → List String
helm_texts none = []
helm_texts (some h) =
    h.values ∷ h.release_name ∷ (h.value_files ++ flat_map param_texts h.parameters)

abbrev source_texts : ArgoSource → List String
source_texts src = src.repo_url ∷ src.path ∷ src.target_revision ∷ src.chart ∷ helm_texts src.helm

abbrev pub template_texts : ArgoApplicationSet → List String
template_texts set =
    set.template.name
    ∷ set.template.namespace
    ∷ set.template.project
    ∷ set.template.destination.server
    ∷ set.template.destination.name
    ∷ set.template.destination.namespace
    ∷ flat_map source_texts (template_sources set.template.source set.template.sources)

abbrev pub is_supported : String → Bool
is_supported s = not (is_unsupported s)

-- `o` has a value exactly when the texts are supported.
Needs {ℓ} : {A : Type ℓ} → Option A → List String → Type 0
Needs o texts = is_some o ≡ all is_supported texts

all-append :
    (xs ys : List String)
    → all is_supported (xs ++ ys) ≡ (all is_supported xs && all is_supported ys)
all-append [] ys = refl
all-append (x ∷ xs) ys = ground (arith, all-append xs ys)

Needs-bind {ℓ κ} :
    {A : Type ℓ} {B : Type κ} (o : Option A) (f : A → Option B) (xs ys : List String)
    → Needs o xs
    → ((a : A) → Needs (f a) ys)
    → Needs (o >>= f) (xs ++ ys)
unfolding Needs
Needs-bind none f xs ys h k = rw (all-append xs ys) (ground arith)
Needs-bind (some a) f xs ys h k = let here = k a in rw (all-append xs ys) (ground arith)

substitute_template-Needs :
    (params : Params) (s : String) → Needs (substitute_template params s) (s ∷ [])
unfolding Needs
substitute_template-Needs params s = elim (substitute_template-fill s) [
  | inl (bad, none_at) ↦ rw (bad, none_at params) refl
  | inr (good, (segs, (printed, canonical, some_at))) ↦ rw (good, some_at params) refl
]

-- The last step of a chain.
Needs-some {ℓ κ} :
    {A : Type ℓ} {B : Type κ} (o : Option A) (f : A → B) (xs : List String)
    → Needs o xs
    → Needs (o >>= λ a. some (f a)) xs
unfolding Needs
Needs-some none f xs h = h
Needs-some (some a) f xs h = h

Needs-each {ℓ κ} :
    {A : Type ℓ} {B : Type κ} (f : A → Option B) (texts : A → List String)
    → ((a : A) → Needs (f a) (texts a))
    → (items : List A) → Needs (each f items) (flat_map texts items)
unfolding flat_map Needs
Needs-each f texts h [] = refl
Needs-each f texts h (a ∷ items) =
    Needs-bind (f a) _ (texts a) (flat_map texts items) (h a)
      (λ b. Needs-some (each f items) _ (flat_map texts items) (Needs-each f texts h items))

substitute_param-Needs :
    (params : Params) (p : ArgoHelmParam) → Needs (substitute_param params p) (param_texts p)
unfolding substitute_param
substitute_param-Needs params p =
    Needs-bind (substitute_template params p.name) _ (p.name ∷ []) _
      (substitute_template-Needs params p.name)
      (λ name.
        Needs-some (substitute_template params p.value) _ _
          (substitute_template-Needs params p.value))

singles : (texts : List String) → flat_map (λ s. s ∷ []) texts ≡ texts
unfolding flat_map
singles [] = refl
singles (s ∷ texts) = λ i. s ∷ singles texts i

module _ (params : Params) where
  -- A chain whose next step renders a text.
  Needs-text {ℓ} :
      {B : Type ℓ} (s : String) (f : String → Option B) (ys : List String)
      → ((t : String) → Needs (f t) ys)
      → Needs (substitute_template params s >>= f) (s ∷ ys)
  Needs-text s f ys =
      Needs-bind (substitute_template params s) f (s ∷ []) ys (substitute_template-Needs params s)

  Needs-files : (files : List String) → Needs (each (substitute_template params) files) files
  Needs-files files = subst (Needs (each (substitute_template params) files)) (singles files) (
      Needs-each (substitute_template params) (λ s. s ∷ []) (substitute_template-Needs params)
        files)

  substitute_helm-Needs :
      (h : ArgoHelmSource) → Needs (substitute_helm params h) (helm_texts (some h))
  unfolding substitute_helm
  substitute_helm-Needs h = Needs-text h.values _ _ (λ values.
      Needs-text h.release_name _ _ (λ release.
        Needs-bind (each (substitute_template params) h.value_files) _ h.value_files _
          (Needs-files h.value_files)
          (λ files. Needs-some (each (substitute_param params) h.parameters) _ _ (
            Needs-each (substitute_param params) param_texts (substitute_param-Needs params)
              h.parameters))))

  if_set-Needs :
      (h : Option ArgoHelmSource) → Needs (if_set (substitute_helm params) h) (helm_texts h)
  unfolding Needs
  if_set-Needs none = refl
  if_set-Needs (some h) =
      Needs-some (substitute_helm params h) some (helm_texts (some h)) (substitute_helm-Needs h)

  substitute_source-Needs :
      (src : ArgoSource) → Needs (substitute_source params src) (source_texts src)
  unfolding substitute_source
  substitute_source-Needs src = Needs-text src.repo_url _ _ (λ repo.
      Needs-text src.path _ _ (λ path. Needs-text src.target_revision _ _ (λ target.
        Needs-text src.chart _ _ (λ chart.
          Needs-some (if_set (substitute_helm params) src.helm) _ _ (if_set-Needs src.helm)))))

  instantiate_template-Needs :
      (set : ArgoApplicationSet) → Needs (instantiate_template set params) (template_texts set)
  unfolding instantiate_template
  instantiate_template-Needs set =
      let t = set.template in
      Needs-text t.name _ _ (λ name. Needs-text t.namespace _ _ (λ namespace.
        Needs-text t.project _ _ (λ project. Needs-text t.destination.server _ _ (λ server.
          Needs-text t.destination.name _ _ (λ cluster.
            Needs-text t.destination.namespace _ _ (λ target.
              Needs-some (each (substitute_source params) (template_sources t.source t.sources)) _ _
                (Needs-each (substitute_source params) source_texts substitute_source-Needs
                  (template_sources t.source t.sources))))))))

  -- Whether a template is rendered depends on its texts alone, not on the parameters: it is exactly if all of them are supported, those of its sources and of their Helm blocks included.
  pub instantiate_template-is_some :
      (set : ArgoApplicationSet)
      → is_some (instantiate_template set params) ≡ all is_supported (template_texts set)
  unfolding Needs
  instantiate_template-is_some set = instantiate_template-Needs set
