-- ===== src/Tests/Comment.antt =====
-- pkg/plan/comment.go on specs of both hosts and on the CI variables.
use cross_validate.Base.{String, ◌≡◌, ◌⊎◌, refl}
use cross_validate.Base.Int.{ℤ, pos, negsuc}
use cross_validate.Plan.Comment.{
  CommentTarget, target, failed, comment_spec, CiEnv, infer_auto_target, parse_comment_spec,
}
use cross_validate.Plan.Comment.Specs.{IsGitlab, IsGithub, parse_comment_spec-target}
use Prim.Native.String.{◌++◌}

abbrev actions : CiEnv
actions = record {
  ci_project_path = "";
  ci_merge_request_iid = "";
  github_repository = "acme/infra";
  github_ref = "refs/pull/12/merge";
}

abbrev gitlab_target : ℤ → CommentTarget
gitlab_target n = record { vcs = "gitlab"; project = "g/p"; mr_or_pr = n }

abbrev github_target : CommentTarget
github_target = record { vcs = "github"; project = "acme/infra"; mr_or_pr = pos 12 }

abbrev pull_spec : String
pull_spec = "github://acme/infra/pull/12"

negative :
    parse_comment_spec actions "gitlab://g/p/-/merge_requests/-5"
    ≡ target (gitlab_target (negsuc 4))
unfolding parse_comment_spec
negative = refl

no_group : parse_comment_spec actions "gitlab://p/-/merge_requests/5" ≡ failed comment_spec
unfolding parse_comment_spec
no_group = refl

auto : parse_comment_spec actions "auto" ≡ target github_target
unfolding parse_comment_spec
auto = refl

pull_request : parse_comment_spec actions pull_spec ≡ target github_target
unfolding parse_comment_spec
pull_request = refl

parse_comment_spec-target_example :
    ((rest : String) × ((pull_spec ≡ "gitlab://" ++ rest) × IsGitlab rest github_target))
    ⊎ (((rest : String) × ((pull_spec ≡ "github://" ++ rest) × IsGithub rest github_target))
        ⊎ ((pull_spec ≡ "auto") × (infer_auto_target actions ≡ target github_target)))
parse_comment_spec-target_example =
    parse_comment_spec-target actions pull_spec github_target pull_request
