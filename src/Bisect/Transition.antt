-- ===== src/Bisect/Transition.antt =====
-- `Run` as a whole, and the commit that it reports.
use cross_validate.Base.{
  ℕ, zero, suc, ◌+◌, ◌^◌, ◌≤◌, ◌<◌, String, Bool, true, false, not, Option, some, List, [], ◌∷◌,
  ◌==◌, string_eq, get_elem?, length, is_empty, ◌≡◌, ◌≢◌, refl, arith, Option-cases, inl, inr,
}
use cross_validate.Types.Values.{bool_eq}
use cross_validate.Bisect.{
  Repository, Outcome, ok, err, BisectError, ◌>>=◌, or_fail, fail_if, check_index, search,
  direction_of, run,
}
use cross_validate.Bisect.RuleCode.{validate_rule_code}
use cross_validate.Bisect.Search.{IsCheckable, Boundary, search-Ends}

module _ (repo : Repository) where
  ok_state :
      (sha : String) (b fires : Bool)
      → ◌≡◌ {A = Outcome Bool} (ok b) (ok fires)
      → repo.check_at_commit sha ≡ some b
      → repo.check_at_commit sha ≡ some fires
  ok_state sha b fires e answer = cc

  check_index-some :
      (commits : List String) (i : ℕ) (fires : Bool)
      → check_index repo commits i ≡ ok fires
      → (sha : String) × (get_elem? commits i ≡ some sha) × (repo.check_at_commit sha ≡ some fires)
  unfolding check_index
  check_index-some commits i fires e = elim (Option-cases (get_elem? commits i)) [
    | inl out ↦
        let gone : ◌≡◌ {A = Outcome Bool} (err BisectError.index_panic) (ok fires) =
          rw (out, or_fail, ◌>>=◌) at e in
        cc
    | inr (sha, at_i) ↦ elim (Option-cases (repo.check_at_commit sha)) [
      | inl failed ↦
          let gone : ◌≡◌ {A = Outcome Bool} (err BisectError.check_failed) (ok fires) =
            rw (at_i, or_fail, ◌>>=◌, failed, or_fail) at e in
          cc
      | inr (b, answer) ↦
          (sha, at_i, ok_state sha b fires (rw (at_i, or_fail, ◌>>=◌, answer, or_fail) at e) answer)
    ]
  ]

  check_index-ok :
      (commits : List String) (i : ℕ) {sha : String} {fires : Bool}
      → get_elem? commits i ≡ some sha
      → repo.check_at_commit sha ≡ some fires
      → check_index repo commits i ≡ ok fires
  unfolding check_index
  check_index-ok commits i at_i answer = rw (at_i, or_fail, ◌>>=◌, answer, or_fail) refl

  -- The commit before `commits[i]`.
  abbrev pub previous : String → List String → ℕ → Option String
  previous good commits zero = some good
  previous good commits (suc i) = get_elem? commits i

  -- What `Run` relies on: a rule code and refs that are accepted, two commits with different states,
  -- and a range of commits that ends with bad, all of which can be checked and have a subject.
  pub record Bisectable (rule_code good_ref bad_ref good bad : String) (fires : Bool)
      (commits : List String) : Type 0 where
    pub code_valid : validate_rule_code rule_code ≡ true
    pub good_given : (good_ref == "") ≡ false
    pub bad_given : (bad_ref == "") ≡ false
    pub good_parsed : repo.rev_parse good_ref ≡ some good
    pub bad_parsed : repo.rev_parse bad_ref ≡ some bad
    pub differ : (good == bad) ≡ false
    pub good_state : repo.check_at_commit good ≡ some (not fires)
    pub bad_state : repo.check_at_commit bad ≡ some fires
    pub range : repo.rev_list good bad ≡ some commits
    pub ends_with_bad :
        (last : ℕ) × (length commits ≡ suc last) × (get_elem? commits last ≡ some bad)
    pub checkable : (i : ℕ) → i < length commits → IsCheckable repo commits i
    pub has_subject :
        (i : ℕ) (sha : String)
        → get_elem? commits i ≡ some sha
        → (s : String) × (repo.commit_subject sha ≡ some s)

module _ (repo : Repository) (rule_code good_ref bad_ref good bad : String) (fires : Bool)
    (commits : List String)
    (able : Bisectable repo rule_code good_ref bad_ref good bad fires commits) where
  -- The commit at `p` has the state of bad and the one before it the state of good.
  pub record IsTransition (p : ℕ) (sha : String) : Type 0 where
    pub here : get_elem? commits p ≡ some sha
    pub state : repo.check_at_commit sha ≡ some fires
    pub prior :
        (q : String) × (previous repo good commits p ≡ some q)
        × (repo.check_at_commit q ≡ some (not fires))

  not_same : (b : Bool) → ◌≢◌ {A = Option Bool} (some b) (some (not b))
  not_same true e = cc
  not_same false e = cc

  Boundary-not-end :
      (p : ℕ) → Boundary repo commits fires 0 (length commits) p → p ≡ length commits → ⊥
  Boundary-not-end p b e = elim (b.before) [
    | inl start ↦ let (last, size, at_last) = able.ends_with_bad in omega arith
    | inr (q, next, state) ↦
        let (last, size, at_last) = able.ends_with_bad in
        let same : q ≡ last = omega arith in
        let (sha, at_q, answer) = check_index-some repo commits q (not fires) state in
        let answer_bad = able.bad_state in not_same fires cc
  ]

  Boundary-IsTransition :
      (p : ℕ)
      → Boundary repo commits fires 0 (length commits) p
      → (sha : String) × IsTransition p sha
  Boundary-IsTransition p b =
      let (sha, here, state) =
        check_index-some repo commits p fires
          (elim (b.changed) [ inl end ↦ absurd (Boundary-not-end p b end) | inr found ↦ found ]) in
      (
        sha,
        record {
          here = here;
          state = state;
          prior = elim (b.before) [
            | inl start ↦ (good, rw start refl, able.good_state)
            | inr (q, next, before) ↦
                let (prev, at_q, answer) = check_index-some repo commits q (not fires) before in
                (prev, rw next at_q, answer)
          ];
        },
      )

  states_differ : (b : Bool) → bool_eq (not b) b ≡ false
  states_differ true = refl
  states_differ false = refl

  not_empty : (xs : List String) → (last : ℕ) × (length xs ≡ suc last) → is_empty xs ≡ false
  not_empty [] (last, e) = let none_left : 0 ≡ suc last = e in absurd (omega arith)
  not_empty (x ∷ xs) e = refl

  run-ok :
      (p steps : ℕ) (sha subject : String)
      → search repo (length commits) commits fires 0 (length commits) 0 ≡ ok (p, steps)
      → get_elem? commits p ≡ some sha
      → repo.commit_subject sha ≡ some subject
      → run repo rule_code good_ref bad_ref
        ≡ ok (record {
          commit = sha;
          subject = subject;
          direction = direction_of fires;
          good_sha = good;
          bad_sha = bad;
          steps = steps;
        })
  unfolding run
  run-ok p steps sha subject found here titled =
      let filled = not_empty commits ((able.ends_with_bad).0, (able.ends_with_bad).1) in
      rw
        (
          able.code_valid,
          fail_if,
          ◌>>=◌,
          able.good_given,
          fail_if,
          ◌>>=◌,
          able.bad_given,
          fail_if,
          ◌>>=◌,
          able.good_parsed,
          or_fail,
          ◌>>=◌,
          able.bad_parsed,
          or_fail,
          ◌>>=◌,
          able.differ,
          fail_if,
          ◌>>=◌,
          able.good_state,
          or_fail,
          ◌>>=◌,
          able.bad_state,
          or_fail,
          ◌>>=◌,
          states_differ fires,
          fail_if,
          ◌>>=◌,
          able.range,
          or_fail,
          ◌>>=◌,
          filled,
          fail_if,
          ◌>>=◌,
          found,
          ◌>>=◌,
          here,
          or_fail,
          ◌>>=◌,
          titled,
          or_fail,
          ◌>>=◌,
        )
        refl

  -- With what `Bisectable` asks of the arguments, git and the checks, `Run` ends with the report of a
  -- transition, and checks k commits at most of fewer than 2^k.
  pub run-IsTransition :
      (p : ℕ) × (sha : String) × (subject : String) × (steps : ℕ) × IsTransition p sha
      × ((k : ℕ) → length commits < 2 ^ k → steps ≤ k)
      × (run repo rule_code good_ref bad_ref
          ≡ ok (record {
            commit = sha;
            subject = subject;
            direction = direction_of fires;
            good_sha = good;
            bad_sha = bad;
            steps = steps;
          }))
  unfolding run
  run-IsTransition =
      let (p, steps, found, b, bound) =
        search-Ends repo commits fires (length commits) 0 (length commits) 0 (omega arith)
          (omega arith) (λ i _ small. able.checkable i small) in
      let (sha, t) = Boundary-IsTransition p b in
      let (subject, titled) = able.has_subject p sha (t.here) in
      (
        p,
        sha,
        subject,
        steps,
        t,
        λ k small. let le : steps ≤ 0 + k = bound k (omega arith) in omega arith,
        run-ok p steps sha subject found (t.here) titled,
      )
