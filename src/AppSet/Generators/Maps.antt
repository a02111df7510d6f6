-- ===== src/AppSet/Generators/Maps.antt =====
-- Matrix and merge generators, and the parameter sets of all generators as maps.
use cross_validate.Base.{
  String, Bool, true, false, Option, none, some, List, [], ◌∷◌, collect, is_empty, All,
  if◌then◌else◌, ◌==◌, ◌||◌, string_eq, ◌≡◌, refl, ap, subst, Bool-cases, Option-cases, inl, inr,
}
use cross_validate.Base.Lists.Places.{All-map, All-flat_map, All-collect}
use cross_validate.Base.FilePaths.{join_path}
use mathlib.Core.Option
use cross_validate.Base.Maps.{lookup, IsMap}
use cross_validate.Types.Argo.{
  Params, ArgoAppSetGitDir, ArgoAppSetGitGenerator, ArgoAppSetGenerator, generator,
  ArgoApplicationSet,
}
use cross_validate.Types.World.{Diagnostic}
use cross_validate.AppSet.Generators.{
  ExpansionContext, Expansion, put_all, merge_found, cross_params, merge_key, index_params,
  merge_params, match_params, dir_params, expand_git_dirs, expand_fixture, expand_matrix,
  expand_merge, expand_generator, expand_two,
}
use cross_validate.AppSet.Generators.Lookups.{put_all-IsMap, put_missing-IsMap}

-- Parameter sets without a repeated key.
abbrev pub AreMaps : List Params → Type 0
AreMaps = All IsMap

-- The list elements of a generator are.
abbrev pub ElementsAreMaps : ArgoAppSetGenerator → Type 0
ElementsAreMaps (generator kind elements selector git matrix merge keys) = AreMaps elements

abbrev GivesMaps : Expansion → Type 0
GivesMaps e = AreMaps e.0

abbrev pub FixturesAreMaps : ExpansionContext → Type 0
FixturesAreMaps ctx = All (λ f. AreMaps f.1) ctx.pr_fixtures

if_both {ℓ} :
    {A : Type ℓ} (P : A → Type 0) (b : Bool) {x y : A} → P x → P y → P (if b then x else y)
if_both P true px py = px
if_both P false px py = py

cross_params-AreMaps : (left right : List Params) → AreMaps (cross_params left right)
unfolding cross_params
cross_params-AreMaps left right =
    All-flat_map IsMap _ left
      (λ ap. All-map IsMap _ right (λ bp. put_all-IsMap bp _ (put_all-IsMap ap [] tt)))

merge_params-AreMaps :
    (keys : List String) (left right : List Params) → AreMaps (merge_params keys left right)
unfolding merge_params
merge_params-AreMaps keys left right =
    All-map IsMap _ left (λ ap. step (lookup (merge_key ap keys) (index_params keys right [])) ap)
  where
    step : (o : Option Params) (ap : Params) → IsMap (merge_found o (put_all ap []))
    step none ap = put_all-IsMap ap [] tt
    step (some bp) ap = put_missing-IsMap bp _ (put_all-IsMap ap [] tt)

module _ (glob : String → Option (List String)) (is_dir : String → Bool)
    (quote : String → String) where
  match_params-IsMap :
      (m : String) (p : Params) → match_params glob is_dir quote m ≡ some p → IsMap p
  unfolding match_params lookup
  match_params-IsMap m p e = elim (Bool-cases (is_dir m)) [
    | inl dir ↦ subst IsMap (Option.some_inj.0 (rw dir at e)) (refl, (refl, tt))
    | inr other ↦ absurd (Option.none-ne-some _ (rw other at e))
  ]

  dir_params-AreMaps :
      (root : String) (dir : ArgoAppSetGitDir) → AreMaps (dir_params glob is_dir quote root dir)
  unfolding dir_params
  dir_params-AreMaps root dir =
      if_both AreMaps dir.exclude tt (matched (glob (join_path root dir.path)))
    where
      matched :
          (o : Option (List String))
          → AreMaps (elim o [
            | none ↦ []
            | some matches ↦ collect (match_params glob is_dir quote) matches
          ])
      matched none = tt
      matched (some ms) = All-collect IsMap _ ms match_params-IsMap

  module _ (set : ArgoApplicationSet) (ctx : ExpansionContext) where
    -- The results of a generator.
    abbrev pub params_of : ArgoAppSetGenerator → List Params
    params_of g = (expand_generator glob is_dir quote set ctx g).0

    abbrev pub diags_of : ArgoAppSetGenerator → List Diagnostic
    diags_of g = (expand_generator glob is_dir quote set ctx g).1

    expand_git_dirs-AreMaps :
        (git : Option ArgoAppSetGitGenerator)
        → AreMaps (expand_git_dirs glob is_dir quote set ctx git).0
    unfolding expand_git_dirs
    expand_git_dirs-AreMaps none = tt
    expand_git_dirs-AreMaps (some git) = All-flat_map IsMap _ git.directories (dir_params-AreMaps _)

    fixture-AreMaps :
        (name : String) (fixtures : List (String × List Params)) (prs : List Params)
        → All (λ f. AreMaps f.1) fixtures
        → lookup name fixtures ≡ some prs
        → AreMaps prs
    unfolding lookup
    fixture-AreMaps name [] prs h e = cc
    fixture-AreMaps name ((n, ps) ∷ more) prs h e = elim (Bool-cases (n == name)) [
      | inl same ↦ subst AreMaps (Option.some_inj.0 (rw same at e)) h.0
      | inr other ↦ fixture-AreMaps name more prs h.1 (rw other at e)
    ]

    expand_fixture-AreMaps :
        (kind : String)
        → FixturesAreMaps ctx
        → AreMaps (expand_fixture glob is_dir quote set ctx kind).0
    unfolding expand_fixture
    expand_fixture-AreMaps kind h = elim (Option-cases (lookup set.name ctx.pr_fixtures)) [
      | inl e ↦ rw (e, expand_fixture) tt
      | inr (prs, e) ↦ rw (e, expand_fixture) (fixture-AreMaps set.name ctx.pr_fixtures prs h e)
    ]

    expand_matrix-AreMaps :
        (two : Option (Expansion × Expansion))
        → AreMaps (expand_matrix glob is_dir quote set ctx two).0
    expand_matrix-AreMaps none = tt
    expand_matrix-AreMaps (some (a, b)) = cross_params-AreMaps a.0 b.0

    expand_merge-AreMaps :
        (keys : List String) (two : Option (Expansion × Expansion))
        → AreMaps (expand_merge glob is_dir quote set ctx keys two).0
    expand_merge-AreMaps keys none = tt
    expand_merge-AreMaps keys (some (a, b)) =
        if_both GivesMaps (is_empty keys) tt (merge_params-AreMaps keys a.0 b.0)

    -- If the list elements and the fixtures have no key twice, no parameter set has one.
    pub expand_generator-AreMaps :
        (g : ArgoAppSetGenerator)
        → ElementsAreMaps g
        → FixturesAreMaps ctx
        → AreMaps (expand_generator glob is_dir quote set ctx g).0
    unfolding expand_generator
    expand_generator-AreMaps (generator kind elements selector git matrix merge keys) h fx =
        if_both GivesMaps (kind == "list") h (
          if_both GivesMaps (kind == "git") (expand_git_dirs-AreMaps git) (
            if_both GivesMaps (kind == "matrix")
              (expand_matrix-AreMaps (expand_two glob is_dir quote set ctx matrix))
              (if_both GivesMaps (kind == "merge")
                (expand_merge-AreMaps keys (expand_two glob is_dir quote set ctx merge))
                (if_both GivesMaps (kind == "pullRequest" || kind == "scmProvider")
                  (expand_fixture-AreMaps kind fx) (if_both GivesMaps (kind == "cluster") tt tt)))))
