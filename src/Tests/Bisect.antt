-- ===== src/Tests/Bisect.antt =====
-- pkg/bisect on a history of three commits; the rule fires from the second on.
use cross_validate.Base.{
  ℕ, zero, suc, ◌<◌, ◌≤◌, ◌^◌, String, true, false, some, List, [], ◌∷◌, ◌≡◌, refl, arith, length,
  ◌==◌, string_eq, ◌||◌, if◌then◌else◌,
}
use cross_validate.Bisect.{Repository, ok, check_index, run, direction_of}
use cross_validate.Bisect.RuleCode.{validate_rule_code}
use cross_validate.Bisect.Search.{IsCheckable, Ends, search-Ends}
use cross_validate.Bisect.Transition.{Bisectable, IsTransition, run-IsTransition}

abbrev history : List String
history = "c1" ∷ "c2" ∷ "c3" ∷ []

abbrev repo : Repository
repo = record {
  rev_parse = λ ref. if ref == "main" then some "c3" else some "c0";
  rev_list = λ good bad. some history;
  commit_subject = λ sha. some "subject";
  check_at_commit = λ sha. some (sha == "c2" || sha == "c3");
}

checkable : (i : ℕ) → i < length history → IsCheckable repo history i
unfolding check_index
checkable zero small = (false, refl)
checkable (suc zero) small = (true, refl)
checkable (suc (suc zero)) small = (true, refl)
checkable (suc (suc (suc i))) small = absurd (omega arith)

able : Bisectable repo "XPC002" "v1" "main" "c0" "c3" true history
unfolding validate_rule_code
able = record {
  code_valid = refl;
  good_given = refl;
  bad_given = refl;
  good_parsed = refl;
  bad_parsed = refl;
  differ = refl;
  good_state = refl;
  bad_state = refl;
  range = refl;
  ends_with_bad = (2, refl, refl);
  checkable = checkable;
  has_subject = λ i sha e. ("subject", refl);
}

run_found :
    run repo "XPC002" "v1" "main"
    ≡ ok (record {
      commit = "c2";
      subject = "subject";
      direction = direction_of true;
      good_sha = "c0";
      bad_sha = "c3";
      steps = 2;
    })
unfolding run
run_found = refl

search-Ends_example : Ends repo history true 3 0 3 0
search-Ends_example =
    search-Ends repo history true 3 0 3 0 (omega arith) (omega arith)
      (λ i a small. checkable i small)

run-IsTransition_example :
    (p : ℕ) × (sha : String) × (subject : String) × (steps : ℕ) × IsTransition repo "XPC002" "v1"
      "main" "c0" "c3" true history able p sha
    × ((k : ℕ) → length history < 2 ^ k → steps ≤ k)
    × (run repo "XPC002" "v1" "main"
        ≡ ok (record {
          commit = sha;
          subject = subject;
          direction = direction_of true;
          good_sha = "c0";
          bad_sha = "c3";
          steps = steps;
        }))
run-IsTransition_example = run-IsTransition repo "XPC002" "v1" "main" "c0" "c3" true history able
