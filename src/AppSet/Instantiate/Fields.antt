-- ===== src/AppSet/Instantiate/Fields.antt =====
-- The fields of an Application that are not rendered.
use cross_validate.Base.{
  String, Bool, Option, none, some, List, [], ◌≡◌, refl, sym, subst, ◌>>=◌, All,
}
use cross_validate.Base.Lists.Places.{All-flat_map, All-collect}
use mathlib.Core.Option
use cross_validate.Types.Argo.{Params, ArgoApplication, ArgoApplicationSet}
use cross_validate.AppSet.Generators.{ExpansionContext}
use cross_validate.AppSet.Template.{substitute_template}
use cross_validate.AppSet.Instantiate.{
  each, substitute_source, template_sources, instantiate_template, expand_app_set,
}
use cross_validate.AppSet.Instantiate.Comprehension.{expand_app_set-results}
use cross_validate.AppSet.Generators.Maps.{params_of}

-- Any result of a step has the property.
Gives {ℓ κ} : {B : Type ℓ} → (B → Type κ) → Option B → Type (ℓ ⊔ κ)
Gives P o = (b : _) → o ≡ some b → P b

Gives-bind {ℓ κ ι} :
    {A : Type ℓ} {B : Type κ} (P : B → Type ι) (o : Option A) (f : A → Option B)
    → ((a : A) → Gives P (f a))
    → Gives P (o >>= f)
unfolding Gives
Gives-bind P none f h = λ b e. absurd (Option.none-ne-some b e)
Gives-bind P (some a) f h = h a

-- Nothing of the template's metadata but the name and the namespace is copied; the policy is.
abbrev pub IsBare : ArgoApplicationSet → ArgoApplication → Type 0
IsBare set app =
    (app.finalizers ≡ [])
    × (app.annotations ≡ [])
    × (app.sync_policy ≡ set.template.sync_policy)
    × (app.source ≡ set.source)

built :
    (set : ArgoApplicationSet) (app : ArgoApplication)
    → IsBare set app
    → Gives (IsBare set) (some app)
unfolding Gives
built set app h = λ b e. subst (IsBare set) (Option.some_inj.0 e) h

instantiate_template-IsBare :
    (set : ArgoApplicationSet) (params : Params)
    → Gives (IsBare set) (instantiate_template set params)
unfolding instantiate_template
instantiate_template-IsBare set params =
    let t = set.template in
    let text = substitute_template params in
    Gives-bind _ (text t.name) _ (λ name. Gives-bind _ (text t.namespace) _ (λ namespace.
      Gives-bind _ (text t.project) _ (λ project.
        Gives-bind _ (text t.destination.server) _ (λ server.
          Gives-bind _ (text t.destination.name) _ (λ cluster.
            Gives-bind _ (text t.destination.namespace) _ (λ target.
              Gives-bind _ (each (substitute_source params) (template_sources t.source t.sources)) _
                (λ sources. built set _ (refl, refl, refl, refl))))))))

pub expand_app_set-IsBare :
    (glob : String → Option (List String)) (is_dir : String → Bool) (quote : String → String)
    (set : ArgoApplicationSet) (ctx : ExpansionContext)
    → All (IsBare set) (expand_app_set glob is_dir quote set ctx).applications
unfolding Gives
expand_app_set-IsBare glob is_dir quote set ctx =
    subst (All (IsBare set)) (sym (expand_app_set-results glob is_dir quote set ctx).0) (
      All-flat_map (IsBare set) _ set.generators (λ g.
        All-collect (IsBare set) (instantiate_template set) (params_of glob is_dir quote set ctx g)
          (instantiate_template-IsBare set)))
