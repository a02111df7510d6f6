-- ===== src/Waiver/Discipline.antt =====
-- What a validated register can and cannot suppress.
use cross_validate.Base.{
  ℕ, ◌+◌, true, false, ◌&&◌, Option, none, some, List, [], ◌∷◌, ◌==◌, string_eq, ◌≡◌, ◌≢◌, ◌⊎◌,
  arith, Bool-cases, Option-cases, inl, inr, Memᴰ, eq_iff,
}
use mathlib.Core.List.Memᴰ
use cross_validate.Base.Texts.{contains, trim_space}
use cross_validate.Types.World.{Diagnostic}
use cross_validate.Waiver.{Waiver, matches, expired, Problem, problem, validate_from}
use cross_validate.Waiver.Dates.{Date, parse_date, date_after}
use cross_validate.Waiver.Files.{file_matches}

module _ (w : Waiver) where
  -- The waiver names a file or a name, and its expiry is a date.
  abbrev IsTargeted : Type 0
  IsTargeted =
      ((w.file == "" && w.name == "") ≡ false)
      × (date : Date) × (parse_date w.expires_at ≡ some date)

  problem_none : problem w ≡ none → IsTargeted
  unfolding problem
  problem_none e = elim (Bool-cases (trim_space w.rule == "")) [
    | inl a ↦ let gone : some Problem.no_rule ≡ none = rw a at e in cc
    | inr a ↦ elim (Bool-cases (w.file == "" && w.name == "")) [
      | inl b ↦ let gone : some Problem.no_target ≡ none = rw (a, b) at e in cc
      | inr b ↦ elim (Bool-cases (trim_space w.reason == "")) [
        | inl c ↦ let gone : some Problem.no_reason ≡ none = rw (a, b, c) at e in cc
        | inr c ↦ elim (Bool-cases (w.expires_at == "")) [
          | inl d ↦ let gone : some Problem.no_expiry ≡ none = rw (a, b, c, d) at e in cc
          | inr d ↦ elim (Option-cases (parse_date w.expires_at)) [
            | inl bad ↦
                let gone : some Problem.bad_date ≡ none = rw (a, b, c, d, bad, problem) at e in cc
            | inr (date, good) ↦ (b, date, good)
          ]
        ]
      ]
    ]
  ]

  module _ (d : Diagnostic) (m : matches w d ≡ true) where
    matches_rule : d.code ≡ w.rule
    unfolding matches
    matches_rule = ground (arith, eq_iff d.code w.rule)

    matches_file : file_matches d.source.file w.file ≡ true
    unfolding matches
    matches_file = ground arith

    matches_name : (w.name == "") ≡ false → contains d.message w.name ≡ true
    unfolding matches
    matches_name named = ground arith

some_problem : (i : ℕ) (p : Problem) → ◌≢◌ {A = Option (ℕ × Problem)} (some (i, p)) none
some_problem i p e = cc

validate_from-mem :
    (i : ℕ) (ws : List Waiver) {w : Waiver} → validate_from i ws ≡ none → Memᴰ w ws → IsTargeted w
unfolding validate_from
validate_from-mem i [] e m = absurd (Memᴰ.not-nil m)
validate_from-mem i (v ∷ ws) {w} e m = elim (Option-cases (problem v)) [
  | inl fine ↦ elim (Memᴰ.cases_cons m) [
    | inl same ↦ problem_none w (rw same fine)
    | inr later ↦ validate_from-mem (i + 1) ws (rw (fine, validate_from) at e) later
  ]
  | inr (p, bad) ↦ absurd (some_problem i p (rw (bad, validate_from) at e))
]

-- In a register without problems a waiver suppresses only findings of its rule, and only in a file
-- that it names or with a name that it gives in the message: never a whole rule. It has expired
-- exactly from the day after its date on.
pub validated_waiver :
    (ws : List Waiver) (w : Waiver) (d : Diagnostic) (now : Date)
    → validate_from 0 ws ≡ none
    → Memᴰ w ws
    → matches w d ≡ true
    → (d.code ≡ w.rule)
      × (((w.file == "") ≡ false) × (file_matches d.source.file w.file ≡ true)
          ⊎ ((w.name == "") ≡ false) × (contains d.message w.name ≡ true))
      × ((date : Date) × (parse_date w.expires_at ≡ some date)
          × (expired w now ≡ date_after now date))
unfolding expired
validated_waiver ws w d now fine listed m =
    let (target, date, good) = validate_from-mem 0 ws fine listed in
    (
      matches_rule w d m,
      elim (Bool-cases (w.file == "")) [
        | inl any_file ↦
            let named : (w.name == "") ≡ false = ground arith in
            inr (named, matches_name w d m named)
        | inr file ↦ inl (file, matches_file w d m)
      ],
      (date, good, rw (good, expired)),
    )
