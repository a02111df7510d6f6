-- ===== src/Ir/Owners.antt =====
-- pkg/ir/builder.go and pkg/ir/values_ref.go: the repository root of a directory, the Application that
-- owns a file, and value files with a reference to a sibling source.
pub mod Roots
pub mod Longest
use cross_validate.Base.{
  ℕ, zero, suc, String, Bool, true, false, not, ◌&&◌, ◌||◌, Option, none, some, List, [], ◌∷◌, ◌++◌,
  map, flat_map, any, ltb, is_empty, if◌then◌else◌, ◌==◌, string_eq,
}
use cross_validate.Base.Texts.{has_prefix, cut_at}
use cross_validate.Base.Cuts.{size, trim_prefix}
use cross_validate.Base.FilePaths.{clean, dir_name, join_path}
use cross_validate.Base.FilePaths.Parents.{height}
use cross_validate.Types.Argo.{ArgoApplication, ArgoSource, ArgoHelmSource}
use cross_validate.Types.World.{ResourceInfo}
use Prim.Native.Char.{code}
use Prim.Native.String

-- The file system and the working directory: `is_git` tells whether `os.Stat` finds a directory or a
-- regular file, `exists` whether it finds anything, and `absolute` is `filepath.Abs`.
pub record FileSystem : Type 0 where
  pub is_git : String → Bool
  pub exists : String → Bool
  pub absolute : String → Option String

module _ (fs : FileSystem) where
  -- The loop of `findRepoRoot`, on fuel
  pub root_from : ℕ → String → String
  unfolding join_path dir_name
  root_from zero cur = ""
  root_from (suc fuel) cur =
      let up = root_from fuel (dir_name cur) in
      if fs.is_git (join_path cur ".git") then cur else if dir_name cur == cur then "" else up

  -- `findRepoRoot`
  pub find_repo_root : String → String
  unfolding root_from
  find_repo_root dir = if dir == "" then "" else root_from (suc (height dir)) dir

  -- `sourcePathCwd`
  pub source_path_cwd : String → String → String
  unfolding find_repo_root dir_name join_path has_prefix
  source_path_cwd app_file src_path =
      let app_dir = dir_name app_file in
      let root = find_repo_root app_dir in
      if src_path == "" || has_prefix src_path "/"
      then app_dir
      else if fs.exists (join_path app_dir src_path)
      then app_dir
      else if not (root == "") && fs.exists (join_path root src_path)
      then root
      else app_dir

-- `pathUnder`
pub path_under : String → String → Bool
unfolding has_prefix trim_prefix
path_under file dir =
    if file == dir
    then true
    else if not (has_prefix file dir)
    then false
    else has_prefix (trim_prefix file dir) "/"

pub record OwnerPrefix : Type 0 where
  pub dir : String
  pub app_name : String

-- The loop of `resolveOwner`; `none` is the length -1.
abbrev pub is_longer : String → Option ℕ → Bool
is_longer dir none = true
is_longer dir (some len) = ltb len (size dir)

pub best_owner : String → String → Option ℕ → List OwnerPrefix → String
unfolding path_under
best_owner abs best len [] = best
best_owner abs best len (p ∷ ps) =
    let take = path_under abs p.dir && is_longer p.dir len in
    best_owner abs (if take then p.app_name else best) (if take then some (size p.dir) else len) ps

abbrev abs_prefix : Option String → String → List OwnerPrefix
abs_prefix none name = []
abs_prefix (some dir) name = record { dir = dir; app_name = name } ∷ []

module _ (fs : FileSystem) where
  -- `resolveOwner`
  unfoldable pub resolve_owner : String → List OwnerPrefix → String
  unfolding best_owner
  resolve_owner file prefixes = elim (fs.absolute file) [
    | none ↦ ""
    | some abs ↦ best_owner abs "" none prefixes
  ]

  -- The round of a source in `buildOwnerPrefixes`.
  pub source_prefixes : String → String → String → ArgoSource → List OwnerPrefix
  unfolding join_path
  source_prefixes name app_dir repo_root src =
      if not (src.renderer == "directory") || src.path == ""
      then []
      else (if not (repo_root == "")
          then abs_prefix (fs.absolute (join_path repo_root src.path)) name
          else [])
        ++ abs_prefix (fs.absolute (join_path app_dir src.path)) name

  -- The round of an Application; the absolute directory is "" where `filepath.Abs` fails.
  pub app_prefixes : ArgoApplication → List OwnerPrefix
  unfolding dir_name find_repo_root source_prefixes flat_map
  app_prefixes app =
      let app_dir = dir_name app.source.file in
      let abs_app_dir : String = elim (fs.absolute app_dir) [ none ↦ "" | some dir ↦ dir ] in
      abs_prefix (fs.absolute app_dir) app.name
      ++ flat_map (source_prefixes app.name app_dir (find_repo_root fs abs_app_dir)) app.sources

  -- `buildOwnerPrefixes`
  pub build_owner_prefixes : List ArgoApplication → List OwnerPrefix
  unfolding app_prefixes flat_map
  build_owner_prefixes = flat_map app_prefixes

  -- What `enrichOwningApp` does to one fact with an owner and a file.
  abbrev pub owner_for : List OwnerPrefix → String → String → String
  unfolding resolve_owner
  owner_for prefixes owner file = if not (owner == "") then owner else resolve_owner file prefixes

  -- `enrichOwningApp`, on the resources
  abbrev pub owned : List OwnerPrefix → ResourceInfo → ResourceInfo
  owned prefixes res = record res { owning_app = owner_for prefixes res.owning_app res.source.file }

  pub enrich_owning_app : List ArgoApplication → List ResourceInfo → List ResourceInfo
  unfolding build_owner_prefixes resolve_owner
  enrich_owning_app apps = map (owned (build_owner_prefixes apps))

pub data ValueRefOutcome : Type 0 where
  no_change resolved unknown_ref remote : ValueRefOutcome

-- The first sibling with a ref.
abbrev pub sibling_of : String → List ArgoSource → Option ArgoSource
sibling_of ref [] = none
sibling_of ref (s ∷ ss) = if s.ref == ref then some s else sibling_of ref ss

module _ (fs : FileSystem) where
  -- The root of a sibling; "" where there is none.
  pub sibling_root : ArgoSource → String → String
  unfolding clean join_path find_repo_root has_prefix
  sibling_root sibling cwd =
      if not (sibling.path == "")
      then (if has_prefix sibling.path "/"
          then clean sibling.path
          else clean (join_path cwd sibling.path))
      else find_repo_root fs cwd

  abbrev abs_or : String → Option String → String
  abs_or path none = path
  abs_or path (some abs) = abs

  -- `resolveValueFilePrefix`
  unfoldable pub resolve_value_file_prefix :
      String → List ArgoSource → String → String × ValueRefOutcome
  unfolding has_prefix cut_at trim_prefix clean join_path sibling_root
  resolve_value_file_prefix value_file siblings cwd =
      if not (has_prefix value_file "$")
      then (value_file, no_change)
      else elim (cut_at b'/' value_file) [
        | none ↦ (value_file, no_change)
        | some (before, rest) ↦
            if ltb (size before) 2
            then (value_file, no_change)
            else elim (sibling_of (trim_prefix before "$") siblings) [
              | none ↦ (value_file, unknown_ref)
              | some sibling ↦
                  let root = sibling_root sibling cwd in
                  let path = clean (join_path root rest) in
                  if root == ""
                  then (value_file, remote)
                  else (abs_or path (fs.absolute path), resolved)
            ]
      ]

  abbrev is_resolved : String × ValueRefOutcome → Bool
  is_resolved (_, resolved) = true
  is_resolved _ = false

  -- `rewriteHelmValueFiles`
  pub rewrite_helm_value_files :
      Option ArgoHelmSource
      → List ArgoSource
      → String
      → Option ArgoHelmSource × List ValueRefOutcome
  unfolding resolve_value_file_prefix
  rewrite_helm_value_files none siblings cwd = (none, [])
  rewrite_helm_value_files (some h) siblings cwd =
      let results = map (λ vf. resolve_value_file_prefix vf siblings cwd) h.value_files in
      let outcomes = map (λ r. r.1) results in
      if not (any is_resolved results)
      then (some h, outcomes)
      else (some (record h { value_files = map (λ r. r.0) results }), outcomes)
