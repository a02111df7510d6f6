-- ===== src/Plan/Comment.antt =====
-- pkg/plan/comment.go: the merge or pull request that a comment is for.
pub mod Specs
use cross_validate.Base.{
  String, Bool, true, false, not, ◌&&◌, ◌||◌, Option, none, some, List, [], ◌∷◌, all, if◌then◌else◌,
  ◌==◌, string_eq,
}
use cross_validate.Base.Int.{ℤ}
use cross_validate.Base.Texts.{split_on, contains, has_prefix, is_digit, atoi, text}
use cross_validate.Base.Cuts.{cut, trim_prefix}
use Prim.Native.Char.{Char}
use Prim.Native.String

-- `CommentTarget`
pub record CommentTarget : Type 0 where
  pub vcs : String
  pub project : String
  pub mr_or_pr : ℤ

-- `ErrCommentSpec` and `ErrAutoDetect`
pub data CommentError : Type 0 where
  comment_spec auto_detect : CommentError

pub data Parsed : Type 0 where
  target : CommentTarget → Parsed
  failed : CommentError → Parsed

-- The environment variables that are read; one that is not set is "".
pub record CiEnv : Type 0 where
  pub ci_project_path : String
  pub ci_merge_request_iid : String
  pub github_repository : String
  pub github_ref : String

-- `\d+`
abbrev pub is_number : String → Bool
is_number s = not (s == "") && only_digits s
  where
    only_digits : String → Bool
    only_digits String.[] = true
    only_digits (String.◌∷◌ c t) = is_digit c && only_digits t

-- A number read by `strconv.Atoi`, or the error.
abbrev with_number : CommentError → String → String → Option ℤ → Parsed
with_number e vcs project none = failed e
with_number e vcs project (some n) = target (record { vcs = vcs; project = project; mr_or_pr = n })

abbrev pub merge_requests : String
merge_requests = "/-/merge_requests/"

-- The case of `gitlab://`, on the text behind it.
pub parse_gitlab : String → Parsed
unfolding cut contains atoi
parse_gitlab rest = elim (cut merge_requests rest) [
  | none ↦ failed comment_spec
  | some (project, mr) ↦
      if project == "" || not (contains project "/")
      then failed comment_spec
      else with_number comment_spec "gitlab" project (atoi mr)
]

-- `githubPullSpec`: `[^/]+` is a part between slashes that is not "".
abbrev pub github_parts : List String → Option (String × String × String)
github_parts (owner ∷ repo ∷ pull ∷ n ∷ []) =
    if not (owner == "") && not (repo == "") && pull == "pull" && is_number n
    then some (owner, repo, n)
    else none
github_parts _ = none

-- The case of `github://`.
pub parse_github : String → Parsed
unfolding split_on atoi
parse_github rest = elim (github_parts (split_on b'/' rest)) [
  | none ↦ failed comment_spec
  | some (owner, repo, n) ↦
      with_number comment_spec "github" (text (owner ∷ "/" ∷ repo ∷ [])) (atoi n)
]

-- `githubRefPR`
abbrev ref_parts : List String → Option String
ref_parts (refs ∷ pull ∷ n ∷ merge ∷ []) =
    if refs == "refs" && pull == "pull" && merge == "merge" && is_number n then some n else none
ref_parts _ = none

-- `inferAutoTarget`
pub infer_auto_target : CiEnv → Parsed
unfolding split_on atoi
infer_auto_target env =
    if not (env.ci_project_path == "") && not (env.ci_merge_request_iid == "")
    then with_number auto_detect "gitlab" env.ci_project_path (atoi env.ci_merge_request_iid)
    else if env.github_repository == ""
    then failed auto_detect
    else elim (ref_parts (split_on b'/' env.github_ref)) [
      | none ↦ failed auto_detect
      | some n ↦ with_number auto_detect "github" env.github_repository (atoi n)
    ]

-- `ParseCommentSpec`
unfoldable pub parse_comment_spec : CiEnv → String → Parsed
unfolding has_prefix trim_prefix parse_gitlab parse_github infer_auto_target
parse_comment_spec env spec =
    if has_prefix spec "gitlab://"
    then parse_gitlab (trim_prefix spec "gitlab://")
    else if has_prefix spec "github://"
    then parse_github (trim_prefix spec "github://")
    else if spec == "auto"
    then infer_auto_target env
    else failed comment_spec
