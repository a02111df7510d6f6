-- ===== src/Plan/Comment/Specs.antt =====
-- The specs that `ParseCommentSpec` accepts.
use cross_validate.Base.{
  String, Bool, true, false, not, ◌&&◌, ◌||◌, Option, none, some, List, [], ◌∷◌, All, if◌then◌else◌,
  ◌==◌, string_eq, ◌≡◌, ◌⊎◌, refl, sym, ap, subst, ◌∙◌, arith, eq_iff, Bool-cases, Option-cases,
  inl, inr,
}
use cross_validate.Base.Int.{ℤ}
use cross_validate.Base.Texts.{split_on, join, contains, has_prefix, atoi, text}
use cross_validate.Base.Cuts.{cut, trim_prefix, trim_prefix-append, cut-IsCut}
use cross_validate.Base.Splits.{join-split_on, LacksSlash, split_on-LacksSlash}
use cross_validate.Plan.Comment.{
  CommentTarget, comment_spec, target, failed, CiEnv, is_number, with_number, merge_requests,
  parse_gitlab, github_parts, parse_github, infer_auto_target, parse_comment_spec,
}
use Prim.Native.String.{◌++◌}
use mathlib.Core.Option

-- "gitlab://", a path of two names or more, the first "/-/merge_requests/" and a number.
abbrev pub IsGitlab : String → CommentTarget → Type 0
IsGitlab rest t =
    (t.vcs ≡ "gitlab")
    × (contains t.project "/" ≡ true)
    × ((mr : String) × ((rest ≡ t.project ++ (merge_requests ++ mr))
          × (contains (t.project ++ "/-/merge_requests") merge_requests ≡ false)
          × (atoi mr ≡ some t.mr_or_pr)))

-- "github://", an owner and a repository without "/", "pull" and digits.
abbrev pub IsGithub : String → CommentTarget → Type 0
IsGithub rest t =
    (t.vcs ≡ "github")
    × ((owner repo n : String) × ((rest ≡ join "/" (owner ∷ repo ∷ "pull" ∷ n ∷ []))
          × (t.project ≡ text (owner ∷ "/" ∷ repo ∷ []))
          × ((owner == "") ≡ false)
          × ((repo == "") ≡ false)
          × LacksSlash owner
          × LacksSlash repo
          × (is_number n ≡ true)
          × (atoi n ≡ some t.mr_or_pr)))

with_number-target :
    (vcs project : String) (o : Option ℤ) (t : CommentTarget)
    → with_number comment_spec vcs project o ≡ target t
    → (t.vcs ≡ vcs) × (t.project ≡ project) × (o ≡ some t.mr_or_pr)
with_number-target vcs project none t e = cc
with_number-target vcs project (some n) t e =
    let same : record { vcs = vcs; project = project; mr_or_pr = n } ≡ t =
      ap
        (λ p. elim p [
          | target u ↦ u
          | failed _ ↦ record { vcs = vcs; project = project; mr_or_pr = n }
        ])
        e in
    (ap (λ u. u.vcs) (sym same), ap (λ u. u.project) (sym same), ap (λ u. some u.mr_or_pr) same)

parse_gitlab-target :
    (rest : String) (t : CommentTarget) → parse_gitlab rest ≡ target t → IsGitlab rest t
unfolding parse_gitlab contains has_prefix
parse_gitlab-target rest t e = elim (Option-cases (cut merge_requests rest)) [
  | inl absent ↦ let error : failed comment_spec ≡ target t = rw (absent, parse_gitlab) at e in cc
  | inr ((project, mr), found) ↦
      let (parts, first) =
        cut-IsCut merge_requests "/-/merge_requests" "/" refl rest (project, mr) refl refl found in
      let after : (if project == "" || not (contains project "/")
            then failed comment_spec
            else with_number comment_spec "gitlab" project (atoi mr))
          ≡ target t =
        rw (found, parse_gitlab) at e in
      elim (Bool-cases (project == "" || not (contains project "/"))) [
        | inl bad ↦ let error : failed comment_spec ≡ target t = rw bad at after in cc
        | inr fine ↦
            let (vcs, same, number) =
              with_number-target "gitlab" project (atoi mr) t (rw fine at after) in
            let nested : contains project "/" ≡ true = ground arith in
            (
              vcs,
              subst (λ q. contains q "/" ≡ true) (sym same) nested,
              (
                mr,
                (
                  subst (λ q. rest ≡ q ++ (merge_requests ++ mr)) (sym same) parts,
                  subst (λ q. contains (q ++ "/-/merge_requests") merge_requests ≡ false) (sym same)
                      first,
                  number,
                ),
              ),
            )
      ]
]

given_if {ℓ} :
    {A : Type ℓ} (b : Bool) (x y : A) → (if b then some x else none) ≡ some y → (b ≡ true) × (x ≡ y)
given_if true x y e = (refl, Option.some_inj.0 e)
given_if false x y e = cc

github_parts-join :
    (parts : List String) (owner repo n : String)
    → github_parts parts ≡ some (owner, repo, n)
    → (parts ≡ owner ∷ repo ∷ "pull" ∷ n ∷ [])
      × ((owner == "") ≡ false)
      × ((repo == "") ≡ false)
      × (is_number n ≡ true)
github_parts-join (o ∷ r ∷ p ∷ m ∷ []) owner repo n e =
    let (test, same) =
      given_if (not (o == "") && not (r == "") && p == "pull" && is_number m) (o, r, m)
        (owner, repo, n) e in
    let pull : p ≡ "pull" = (eq_iff p "pull").0 (ground arith) in
    let is_owner : o ≡ owner = ap (λ q. q.0) same in
    let is_repo : r ≡ repo = ap (λ q. q.1) same in
    let is_n : m ≡ n = ap (λ q. q.2) same in
    (
      (λ i. is_owner i ∷ is_repo i ∷ pull i ∷ is_n i ∷ []),
      subst (λ q. (q == "") ≡ false) is_owner (ground arith),
      subst (λ q. (q == "") ≡ false) is_repo (ground arith),
      subst (λ q. is_number q ≡ true) is_n (ground arith),
    )
github_parts-join parts owner repo n e = cc

parse_github-target :
    (rest : String) (t : CommentTarget) → parse_github rest ≡ target t → IsGithub rest t
unfolding parse_github
parse_github-target rest t e = elim (Option-cases (github_parts (split_on b'/' rest))) [
  | inl other ↦ let error : failed comment_spec ≡ target t = rw (other, parse_github) at e in cc
  | inr ((owner, repo, n), found) ↦
      let (parts, has_owner, has_repo, digits) =
        github_parts-join (split_on b'/' rest) owner repo n found in
      let (lacks_owner, (lacks_repo, _)) =
        subst (All LacksSlash) parts (split_on-LacksSlash rest) in
      let (vcs, same, number) =
        with_number-target "github" (text (owner ∷ "/" ∷ repo ∷ [])) (atoi n) t
          (rw (found, parse_github) at e) in
      (
        vcs,
        (
          owner,
          repo,
          n,
          (
            sym (join-split_on rest) ∙ ap (join "/") parts,
            same,
            has_owner,
            has_repo,
            lacks_owner,
            lacks_repo,
            digits,
            number,
          ),
        ),
      )
]

branches {ℓ} :
    {A : Type ℓ} (b : Bool) (x y v : A)
    → (if b then x else y) ≡ v
    → ((b ≡ true) × (x ≡ v)) ⊎ ((b ≡ false) × (y ≡ v))
branches true x y v e = inl (refl, e)
branches false x y v e = inr (refl, e)

-- A target that `ParseCommentSpec` gives can be read off the spec: behind "gitlab://" stand the project, which has a "/", the first "/-/merge_requests/" and the number; or behind "github://" stand the owner and the repository, not "" and without "/", then "pull" and the digits of the number; or the spec is "auto" and the target is the one of the CI variables.
pub parse_comment_spec-target :
    (env : CiEnv) (spec : String) (t : CommentTarget)
    → parse_comment_spec env spec ≡ target t
    → ((rest : String) × ((spec ≡ "gitlab://" ++ rest) × IsGitlab rest t))
      ⊎ (((rest : String) × ((spec ≡ "github://" ++ rest) × IsGithub rest t))
          ⊎ ((spec ≡ "auto") × (infer_auto_target env ≡ target t)))
unfolding parse_comment_spec
parse_comment_spec-target env spec t e =
    let gitlab = parse_gitlab (trim_prefix spec "gitlab://") in
    let github = parse_github (trim_prefix spec "github://") in
    elim (branches (has_prefix spec "gitlab://") gitlab _ _ e) [
      | inl (is_gitlab, given) ↦
          inl (_, (trim_prefix-append spec "gitlab://" is_gitlab, parse_gitlab-target _ t given))
      | inr (_, e') ↦ elim (branches (has_prefix spec "github://") github _ _ e') [
        | inl (is_github, given) ↦ inr (
            inl (_, (trim_prefix-append spec "github://" is_github, parse_github-target _ t given)))
        | inr (_, e'') ↦ elim (branches (spec == "auto") (infer_auto_target env) _ _ e'') [
          | inl (is_auto, given) ↦ inr (inr ((eq_iff spec "auto").0 is_auto, given))
          | inr (_, error) ↦ cc
        ]
      ]
    ]
