-- ===== src/AppSet/Generators.antt =====
-- The parameter sets that the generators of an ApplicationSet give: `expandGenerator` of
-- pkg/ir/appset_expand.go with the functions it calls.
mod Lookups
pub mod Maps
pub mod Combined
pub mod MergeKey
use cross_validate.Base.{
  ℕ, String, Bool, true, false, ◌||◌, Option, none, some, is_some, List, [], ◌∷◌, ◌++◌, map,
  flat_map, is_empty, collect, if◌then◌else◌, ◌==◌, string_eq,
}
use cross_validate.Base.Texts.{join, text}
use cross_validate.Base.Maps.{lookup, insert, has}
use cross_validate.Base.FilePaths.{dir_name, join_path, base_name}
use cross_validate.Types.Argo.{
  Params, ArgoAppSetGitDir, ArgoAppSetGitGenerator, ArgoAppSetGenerator, generator, Generators, nil,
  cons, ArgoApplicationSet,
}
use cross_validate.Types.World.{Diagnostic, Severity, info, text_at}

-- `ExpansionContext`
pub record ExpansionContext : Type 0 where
  pub pr_fixtures : List (String × List Params)
  pub root : String

-- `for k, v := range from { to[k] = v }`
pub put_all : Params → Params → Params
unfolding insert
put_all [] to = to
put_all ((k, v) ∷ from) to = put_all from (insert k v to)

-- The same for keys that are not there yet.
pub put_missing : Params → Params → Params
unfolding insert lookup
put_missing [] to = to
put_missing ((k, v) ∷ from) to = put_missing from (if has k to then to else insert k v to)

-- `expandMatrix` on the results of its generators
pub cross_params : List Params → List Params → List Params
unfolding put_all flat_map
cross_params left right = flat_map (λ ap. map (λ bp. put_all bp (put_all ap [])) right) left

-- `mergeKey`: the values of the keys with a zero byte between them
pub merge_key : Params → List String → String
unfolding join text_at
merge_key m keys = join "\0" (map (λ k. text_at k m) keys)

-- The index of the right parameter sets by their merge key.
pub index_params : List String → List Params → List (String × Params) → List (String × Params)
unfolding insert merge_key
index_params keys [] index = index
index_params keys (bp ∷ rest) index = index_params keys rest (insert (merge_key bp keys) bp index)

abbrev pub merge_found : Option Params → Params → Params
merge_found none merged = merged
merge_found (some bp) merged = put_missing bp merged

-- `expandMerge` on the results of its generators
pub merge_params : List String → List Params → List Params → List Params
unfolding index_params merge_key lookup put_all put_missing
merge_params keys left right =
    let index = index_params keys right [] in
    map (λ ap. merge_found (lookup (merge_key ap keys) index) (put_all ap [])) left

-- The parameter sets of a generator and its diagnostics.
abbrev pub Expansion : Type 0
Expansion = List Params × List Diagnostic

-- `glob` is `filepath.Glob`, `none` for a malformed pattern, `is_dir` the test with `os.Stat`, and
-- `quote` the verb %q.
module _ (glob : String → Option (List String)) (is_dir : String → Bool)
    (quote : String → String) where
  -- `unsupportedGeneratorDiag`
  pub unsupported_generator_diag : ArgoApplicationSet → String → String → Diagnostic
  unsupported_generator_diag set kind reason = record {
    code = "XPC.H.appset-unsupported-generator";
    severity = info;
    message = text (set.name ∷ ": generator " ∷ quote kind ∷ " not expandable offline" ∷ []);
    source = set.source;
    detail = reason;
    fix = text (
        "pass --appset-fixture=<file.yaml> with a parameter-set list for this ApplicationSet, "
        ∷ "or accept the coverage gap" ∷ []);
    obligation = none;
  }

  -- The rounds of the loops of `expandGitDirs`.
  pub match_params : String → Option Params
  unfolding base_name
  match_params m =
      if is_dir m then some (("path", m) ∷ ("path.basename", base_name m) ∷ []) else none

  pub dir_params : String → ArgoAppSetGitDir → List Params
  unfolding match_params join_path
  dir_params root dir = if dir.exclude then [] else elim (glob (join_path root dir.path)) [
    | none ↦ []
    | some matches ↦ collect match_params matches
  ]

  module _ (set : ArgoApplicationSet) (ctx : ExpansionContext) where
    -- `expandGitDirs`
    pub expand_git_dirs : Option ArgoAppSetGitGenerator → Expansion
    unfolding dir_params dir_name flat_map
    expand_git_dirs none = ([], [])
    expand_git_dirs (some git) =
        let root = if ctx.root == "" then dir_name set.source.file else ctx.root in
        (flat_map (dir_params root) git.directories, [])

    -- The case of pullRequest and scmProvider.
    pub expand_fixture : String → Expansion
    unfolding lookup unsupported_generator_diag
    expand_fixture kind = elim (lookup set.name ctx.pr_fixtures) [
      | some prs ↦ (prs, [])
      | none ↦ (
        [],
        unsupported_generator_diag set kind
              "no --appset-fixture provided; this generator would hit a remote API"
            ∷ [],
      )
    ]

    abbrev pub expand_matrix : Option (Expansion × Expansion) → Expansion
    expand_matrix none = ([], [])
    expand_matrix (some (a, b)) = (cross_params a.0 b.0, a.1 ++ b.1)

    abbrev pub expand_merge : List String → Option (Expansion × Expansion) → Expansion
    expand_merge keys none = ([], [])
    expand_merge keys (some (a, b)) =
        if is_empty keys then ([], []) else (merge_params keys a.0 b.0, a.1 ++ b.1)

    unfoldable mutual
      unfolding expand_git_dirs expand_fixture unsupported_generator_diag cross_params merge_params

      -- `expandGenerator`
      pub expand_generator : ArgoAppSetGenerator → Expansion
      expand_generator (generator kind elements selector git matrix merge keys) =
          let crossed : Expansion = expand_matrix (expand_two matrix) in
          let merged : Expansion = expand_merge keys (expand_two merge) in
          if kind == "list"
          then (elements, [])
          else if kind == "git"
          then expand_git_dirs git
          else if kind == "matrix"
          then crossed
          else if kind == "merge"
          then merged
          else if kind == "pullRequest" || kind == "scmProvider"
          then expand_fixture kind
          else if kind == "cluster"
          then (
            [],
            unsupported_generator_diag set kind
                  "offline simulation does not include a cluster inventory"
                ∷ [],
          )
          else ([], unsupported_generator_diag set kind "generator kind not recognized" ∷ [])

      -- The first two generators of a matrix or merge generator.
      pub expand_two : Generators → Option (Expansion × Expansion)
      expand_two (cons a (cons b _)) = some (expand_generator a, expand_generator b)
      expand_two _ = none
