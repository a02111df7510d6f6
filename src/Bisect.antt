-- ===== src/Bisect.antt =====
-- pkg/bisect/bisect.go: the commit at which a rule starts or stops firing. Git and the check of a
-- worktree are a parameter: what they answer for a ref, a range or a commit, `none` for an error.
pub mod RuleCode
pub mod Search
pub mod Transition
use cross_validate.Base.{
  ℕ, zero, suc, ◌+◌, ◌-◌, ◌/◌, String, Bool, true, false, not, Option, none, some, List, [], ◌∷◌,
  if◌then◌else◌, ◌==◌, string_eq, ltb, get_elem?, length, is_empty,
}
use cross_validate.Types.Values.{bool_eq}
use RuleCode.{validate_rule_code}

pub record Repository : Type 0 where
  pub rev_parse : String → Option String
  pub rev_list : String → String → Option (List String)
  pub commit_subject : String → Option String
  pub check_at_commit : String → Option Bool

pub data Direction : Type 0 where
  started_firing stopped_firing : Direction

pub record BisectResult : Type 0 where
  pub commit : String
  pub subject : String
  pub direction : Direction
  pub good_sha : String
  pub bad_sha : String
  pub steps : ℕ

pub data BisectError : Type 0 where
  bad_rule_code no_good_ref no_bad_ref bad_good_ref bad_bad_ref same_commit : BisectError
  good_check_failed bad_check_failed rule_never_changed rev_list_failed no_commits : BisectError
  check_failed no_convergence subject_failed index_panic out_of_fuel : BisectError

pub data Outcome {ℓ} (A : Type ℓ) : Type ℓ where
  ok : A → Outcome A
  err : BisectError → Outcome A

infixl 5 ◌>>=◌ ◌>>◌
abbrev pub ◌>>=◌ {ℓ κ} : {A : Type ℓ} {B : Type κ} → Outcome A → (A → Outcome B) → Outcome B
ok a >>= f = f a
err e >>= f = err e

abbrev pub ◌>>◌ {ℓ} : {B : Type ℓ} → Outcome (Unit {0}) → Outcome B → Outcome B
m >> k = m >>= λ _. k

abbrev pub or_fail {ℓ} : {A : Type ℓ} → BisectError → Option A → Outcome A
or_fail e none = err e
or_fail e (some a) = ok a

-- `if b { return nil, e }`
abbrev pub fail_if : Bool → BisectError → Outcome (Unit {0})
fail_if true e = err e
fail_if false e = ok tt

abbrev pub direction_of : Bool → Direction
direction_of true = started_firing
direction_of false = stopped_firing

module _ (repo : Repository) where
  -- The check of `commits[mid]`.
  unfoldable pub check_index : List String → ℕ → Outcome Bool
  check_index commits i = do
    sha ← or_fail index_panic (get_elem? commits i)
    or_fail check_failed (repo.check_at_commit sha)

  -- The loop, with the final `lo` and `steps`. Each round lessens `hi - lo`, so the number of commits
  -- is enough fuel.
  pub search : ℕ → List String → Bool → ℕ → ℕ → ℕ → Outcome (ℕ × ℕ)
  unfolding check_index
  search zero commits bad_fires lo hi steps = if ltb lo hi then err out_of_fuel else ok (lo, steps)
  search (suc fuel) commits bad_fires lo hi steps =
      let mid = lo + (hi - lo) / 2 in
      let round : Outcome (ℕ × ℕ) = check_index commits mid >>= λ fires.
      elim (bool_eq fires bad_fires) [
        | true ↦ search fuel commits bad_fires lo mid (steps + 1)
        | false ↦ search fuel commits bad_fires (mid + 1) hi (steps + 1)
      ] in
      if ltb lo hi then round else ok (lo, steps)

  -- `Run`; the repository root and the manifest path are those of the parameter.
  unfoldable pub run : (rule_code good_ref bad_ref : String) → Outcome BisectResult
  unfolding search validate_rule_code
  run rule_code good_ref bad_ref = do
    fail_if (not (validate_rule_code rule_code)) bad_rule_code
    fail_if (good_ref == "") no_good_ref
    fail_if (bad_ref == "") no_bad_ref
    good_sha ← or_fail bad_good_ref (repo.rev_parse good_ref)
    bad_sha ← or_fail bad_bad_ref (repo.rev_parse bad_ref)
    fail_if (good_sha == bad_sha) same_commit
    good_fires ← or_fail good_check_failed (repo.check_at_commit good_sha)
    bad_fires ← or_fail bad_check_failed (repo.check_at_commit bad_sha)
    fail_if (bool_eq good_fires bad_fires) rule_never_changed
    commits ← or_fail rev_list_failed (repo.rev_list good_sha bad_sha)
    fail_if (is_empty commits) no_commits
    found ← search (length commits) commits bad_fires 0 (length commits) 0
    transition_sha ← or_fail no_convergence (get_elem? commits (found.0))
    subject ← or_fail subject_failed (repo.commit_subject transition_sha)
    ok (record {
      commit = transition_sha;
      subject = subject;
      direction = direction_of bad_fires;
      good_sha = good_sha;
      bad_sha = bad_sha;
      steps = found.1;
    })
