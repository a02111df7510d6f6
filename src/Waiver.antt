-- ===== src/Waiver.antt =====
-- pkg/waiver/waiver.go: the register of accepted findings.
pub mod Dates
pub mod Files
pub mod Apply
pub mod Slots
pub mod Notices
pub mod Discipline
use cross_validate.Base.{
  ℕ, zero, suc, ◌+◌, String, Bool, true, false, ◌&&◌, ◌||◌, not, Option, none, some, List, [], ◌∷◌,
  ◌++◌, if◌then◌else◌, ◌==◌, string_eq, length,
}
use cross_validate.Base.Texts.{contains, trim_space, text}
use cross_validate.Base.FilePaths.{base_name}
use cross_validate.Types.World.{SourceLocation, Diagnostic, warning, info}
use Dates.{Date, parse_date, date_after}
use Files.{file_matches}

pub record Waiver : Type 0 where
  pub rule : String
  pub file : String
  pub kind : String
  pub name : String
  pub reason : String
  pub expires_at : String

pub record WaiverSet : Type 0 where
  pub waivers : List Waiver
  pub source : String

pub record WaiverResult : Type 0 where
  pub active : List Diagnostic
  pub waived : List Diagnostic
  pub expired_count : ℕ
  pub unused_count : ℕ

-- `Waiver.matches`
unfoldable pub matches : Waiver → Diagnostic → Bool
unfolding file_matches contains
matches w d =
    if not (d.code == w.rule)
    then false
    else if not (file_matches d.source.file w.file)
    then false
    else if not (w.name == "") && not (contains d.message w.name)
    then false
    else if not (w.kind == "") && not (contains d.message w.kind)
    then false
    else true

-- `matchIndex`, counting from `i`; `none` for -1
unfoldable pub match_from : ℕ → List Waiver → Diagnostic → Option ℕ
unfolding matches
match_from i [] d = none
match_from i (w ∷ ws) d = if matches w d then some i else match_from (i + 1) ws d

-- `Waiver.expired`
pub expired : Waiver → Date → Bool
unfolding parse_date
expired w now = elim (parse_date w.expires_at) [ none ↦ true | some date ↦ date_after now date ]

-- `Waiver.identity`
abbrev pub identity : Waiver → String
identity w =
    if not (w.kind == "") && not (w.name == "")
    then text (w.kind ∷ "/" ∷ w.name ∷ [])
    else if not (w.name == "")
    then w.name
    else w.file

abbrev at_source : String → SourceLocation
at_source file = record { file = file; line = 0; column = 0 }

pub expired_diagnostic : String → Waiver → Diagnostic
expired_diagnostic source w = record {
  code = "XPC.W.waiver-expired";
  severity = warning;
  message = text (
      "waiver for "
      ∷ w.rule
      ∷ " ("
      ∷ identity w
      ∷ ") expired on "
      ∷ w.expires_at
      ∷ " — re-justify or fix the finding"
      ∷ []);
  source = at_source source;
  detail = "";
  fix = "";
  obligation = none;
}

pub unused_diagnostic : String → Waiver → Diagnostic
unfolding base_name
unused_diagnostic source w = record {
  code = "XPC.W.waiver-unused";
  severity = info;
  message = text (
      "waiver for "
      ∷ w.rule
      ∷ " ("
      ∷ identity w
      ∷ ") matched no finding — remove it from "
      ∷ base_name source
      ∷ []);
  source = at_source source;
  detail = "";
  fix = "";
  obligation = none;
}

-- The variables of `Apply`: a waiver with its flags in `used` and `expiredMatched`, in the order of
-- the set, and the two lists of findings.
pub record Slot : Type 0 where
  pub waiver : Waiver
  pub used : Bool
  pub expired_matched : Bool

abbrev pub fresh_slots : List Waiver → List Slot
fresh_slots [] = []
fresh_slots (w ∷ ws) = record { waiver = w; used = false; expired_matched = false } ∷ fresh_slots ws

-- The flags that a finding sets at the waiver `i`: `used`, and `expiredMatched` if it has expired.
pub mark : Bool → ℕ → List Slot → List Slot
mark has_expired i [] = []
mark has_expired zero (s ∷ ss) =
    record s { used = true; expired_matched = s.expired_matched || has_expired } ∷ ss
mark has_expired (suc i) (s ∷ ss) = s ∷ mark has_expired i ss

pub record Progress : Type 0 where
  pub active : List Diagnostic
  pub waived : List Diagnostic
  pub slots : List Slot

-- `s.Waivers[wi].expired(now)`
pub expired_at : Date → List Waiver → ℕ → Bool
unfolding expired
expired_at now [] i = true
expired_at now (w ∷ ws) zero = expired w now
expired_at now (w ∷ ws) (suc i) = expired_at now ws i

-- One round of the first loop.
pub finding_round : List Waiver → Date → Progress → Diagnostic → Progress
unfolding match_from mark expired_at
finding_round ws now p d = elim (match_from 0 ws d) [
  | none ↦ record p { active = p.active ++ d ∷ [] }
  | some i ↦
      if expired_at now ws i
      then record p { active = p.active ++ d ∷ []; slots = mark true i p.slots }
      else record p { waived = p.waived ++ d ∷ []; slots = mark false i p.slots }
]

pub finding_rounds : List Waiver → Date → Progress → List Diagnostic → Progress
unfolding finding_round
finding_rounds ws now p [] = p
finding_rounds ws now p (d ∷ ds) = finding_rounds ws now (finding_round ws now p d) ds

-- The second loop: the warnings and notices of the waivers, and how many of each.
abbrev flagged : Bool → Diagnostic → List Diagnostic
flagged b d = if b then d ∷ [] else []

pub slot_notices : String → List Slot → List Diagnostic
slot_notices source [] = []
slot_notices source (s ∷ ss) =
    flagged s.expired_matched (expired_diagnostic source s.waiver)
    ++ (flagged (not s.used) (unused_diagnostic source s.waiver) ++ slot_notices source ss)

abbrev pub count_slots : (Slot → Bool) → List Slot → ℕ
count_slots p [] = 0
count_slots p (s ∷ ss) = (if p s then 1 else 0) + count_slots p ss

-- `Set.Apply`
pub apply : WaiverSet → List Diagnostic → Date → WaiverResult
unfolding finding_rounds slot_notices
apply set diags now =
    let start : Progress = record { active = []; waived = []; slots = fresh_slots set.waivers } in
    let p = finding_rounds set.waivers now start diags in
    record {
      active = p.active ++ slot_notices set.source p.slots;
      waived = p.waived;
      expired_count = count_slots (λ s. s.expired_matched) p.slots;
      unused_count = count_slots (λ s. not s.used) p.slots;
    }

-- The problem that `Validate` finds in a waiver.
pub data Problem : Type 0 where
  no_rule no_target no_reason no_expiry bad_date : Problem

pub problem : Waiver → Option Problem
unfolding trim_space parse_date
problem w =
    if trim_space w.rule == ""
    then some no_rule
    else if w.file == "" && w.name == ""
    then some no_target
    else if trim_space w.reason == ""
    then some no_reason
    else if w.expires_at == ""
    then some no_expiry
    else elim (parse_date w.expires_at) [ none ↦ some bad_date | some _ ↦ none ]

-- `Set.Validate`: the index of the first bad waiver with its problem, `none` for nil.
unfoldable pub validate_from : ℕ → List Waiver → Option (ℕ × Problem)
unfolding problem
validate_from i [] = none
validate_from i (w ∷ ws) = elim (problem w) [
  | none ↦ validate_from (i + 1) ws
  | some p ↦ some (i, p)
]
