-- ===== src/AppSet/Instantiate/Comprehension.antt =====
-- The Applications and diagnostics of an ApplicationSet in one expression.
use cross_validate.Base.{
  String, Bool, Option, none, some, List, [], ◌∷◌, ◌++◌, flat_map, collect, ◌≡◌, refl, sym, ap, ◌∙◌,
  Option-cases, inl, inr,
}
use mathlib.Core.List.{append_assoc}
use cross_validate.Types.Argo.{Params, ArgoApplication, ArgoApplicationSet, ArgoAppSetGenerator}
use cross_validate.Types.World.{Diagnostic}
use cross_validate.AppSet.Generators.{ExpansionContext}
use cross_validate.AppSet.Generators.Maps.{params_of, diags_of}
use cross_validate.AppSet.Instantiate.{
  instantiate_template, template_diag, ExpansionResult, instantiate_all, expand_generators,
  expand_app_set,
}

-- The diagnostic for a parameter set: one if the template is not rendered.
abbrev pub diag_of : ArgoApplicationSet → Option ArgoApplication → Option Diagnostic
diag_of set none = some (template_diag set)
diag_of set (some app) = none

-- The results of one generator.
abbrev pub instances : ArgoApplicationSet → List Params → List ArgoApplication
instances set params = collect (instantiate_template set) params

abbrev pub refusals : ArgoApplicationSet → List Params → List Diagnostic
refusals set params = collect (λ p. diag_of set (instantiate_template set p)) params

applications-instantiate_all :
    (set : ArgoApplicationSet) (params : List Params) (res : ExpansionResult)
    → (instantiate_all set params res).applications ≡ instances set params ++ res.applications
unfolding instantiate_all
applications-instantiate_all set [] res = refl
applications-instantiate_all set (p ∷ ps) res = elim (Option-cases (instantiate_template set p)) [
  | inl e ↦ rw e (applications-instantiate_all set ps res)
  | inr (app, e) ↦ rw e (λ i. app ∷ applications-instantiate_all set ps res i)
]

diagnostics-instantiate_all :
    (set : ArgoApplicationSet) (params : List Params) (res : ExpansionResult)
    → (instantiate_all set params res).diagnostics ≡ refusals set params ++ res.diagnostics
unfolding instantiate_all
diagnostics-instantiate_all set [] res = refl
diagnostics-instantiate_all set (p ∷ ps) res = elim (Option-cases (instantiate_template set p)) [
  | inl e ↦ rw e (λ i. template_diag set ∷ diagnostics-instantiate_all set ps res i)
  | inr (app, e) ↦ rw e (diagnostics-instantiate_all set ps res)
]

module _ (glob : String → Option (List String)) (is_dir : String → Bool) (quote : String → String)
    (set : ArgoApplicationSet) (ctx : ExpansionContext) where
  expand_generators-results :
      (gens : List ArgoAppSetGenerator)
      → ((expand_generators glob is_dir quote set ctx gens).applications
          ≡ flat_map (λ g. instances set (params_of glob is_dir quote set ctx g)) gens)
        × ((expand_generators glob is_dir quote set ctx gens).diagnostics
            ≡ flat_map
                (λ g.
                  diags_of glob is_dir quote set ctx g
                  ++ refusals set (params_of glob is_dir quote set ctx g))
                gens)
  unfolding expand_generators flat_map
  expand_generators-results [] = (refl, refl)
  expand_generators-results (g ∷ gens) =
      let (apps, diags) = expand_generators-results gens in
      (
        applications-instantiate_all set (params_of glob is_dir quote set ctx g) _
            ∙ ap (λ r. instances set (params_of glob is_dir quote set ctx g) ++ r) apps,
        ap (λ r. diags_of glob is_dir quote set ctx g ++ r)
              (diagnostics-instantiate_all set (params_of glob is_dir quote set ctx g) _)
            ∙ ap
                (λ r.
                  diags_of glob is_dir quote set ctx g
                  ++ (refusals set (params_of glob is_dir quote set ctx g) ++ r))
                diags
            ∙ sym (
                append_assoc (diags_of glob is_dir quote set ctx g)
                  (refusals set (params_of glob is_dir quote set ctx g)) _),
      )

  -- The Applications of a set are, generator by generator, the instances of the template for the parameter sets that can be rendered, in their order; its diagnostics are those of each generator followed by one for each parameter set that cannot.
  pub expand_app_set-results :
      ((expand_app_set glob is_dir quote set ctx).applications
        ≡ flat_map (λ g. instances set (params_of glob is_dir quote set ctx g)) set.generators)
      × ((expand_app_set glob is_dir quote set ctx).diagnostics
          ≡ flat_map
              (λ g.
                diags_of glob is_dir quote set ctx g
                ++ refusals set (params_of glob is_dir quote set ctx g))
              set.generators)
  unfolding expand_app_set
  expand_app_set-results = expand_generators-results set.generators
