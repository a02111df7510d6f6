-- ===== src/Waiver/Apply.antt =====
-- Which findings `Apply` keeps and which it suppresses.

use cross_validate.Base.{
  ℕ, Bool, false, not, Option, none, some, List, [], ◌∷◌, ◌++◌, if◌then◌else◌, select, ◌≡◌, sym, ap,
  ◌∙◌, Bool-cases, Option-cases, inl, inr,
}
use mathlib.Core.List.{append_assoc, append-nil}
use cross_validate.Types.World.{Diagnostic}
use cross_validate.Waiver.{
  Waiver, WaiverSet, match_from, expired_at, Progress, fresh_slots, finding_round, finding_rounds,
  slot_notices, apply,
}
use cross_validate.Waiver.Dates.{Date}

-- The first waiver that matches the finding has not expired.
abbrev is_live : List Waiver → Date → Option ℕ → Bool
is_live ws now none = false
is_live ws now (some i) = not (expired_at now ws i)

abbrev pub is_suppressed : List Waiver → Date → Diagnostic → Bool
is_suppressed ws now d = is_live ws now (match_from 0 ws d)

module _ (ws : List Waiver) (now : Date) where
  round_active :
      (p : Progress) (d : Diagnostic) (ds : List Diagnostic)
      → (finding_round ws now p d).active ++ ds
        ≡ p.active ++ (if not (is_suppressed ws now d) then d ∷ ds else ds)
  unfolding finding_round
  round_active p d ds = elim (Option-cases (match_from 0 ws d)) [
    | inl missed ↦ rw (missed, finding_round) (append_assoc p.active (d ∷ []) ds)
    | inr (i, found) ↦ elim (Bool-cases (expired_at now ws i)) [
      | inl old ↦ rw (found, old, finding_round) (append_assoc p.active (d ∷ []) ds)
      | inr live ↦ rw (found, live, finding_round)
    ]
  ]

  round_waived :
      (p : Progress) (d : Diagnostic) (ds : List Diagnostic)
      → (finding_round ws now p d).waived ++ ds
        ≡ p.waived ++ (if is_suppressed ws now d then d ∷ ds else ds)
  unfolding finding_round
  round_waived p d ds = elim (Option-cases (match_from 0 ws d)) [
    | inl missed ↦ rw (missed, finding_round)
    | inr (i, found) ↦ elim (Bool-cases (expired_at now ws i)) [
      | inl old ↦ rw (found, old, finding_round)
      | inr live ↦ rw (found, live, finding_round) (append_assoc p.waived (d ∷ []) ds)
    ]
  ]

  rounds_active :
      (p : Progress) (ds : List Diagnostic)
      → (finding_rounds ws now p ds).active
        ≡ p.active ++ select (λ d. not (is_suppressed ws now d)) ds
  unfolding finding_rounds
  rounds_active p [] = sym (append-nil p.active)
  rounds_active p (d ∷ ds) = rounds_active (finding_round ws now p d) ds ∙ round_active p d _

  rounds_waived :
      (p : Progress) (ds : List Diagnostic)
      → (finding_rounds ws now p ds).waived ≡ p.waived ++ select (is_suppressed ws now) ds
  unfolding finding_rounds
  rounds_waived p [] = sym (append-nil p.waived)
  rounds_waived p (d ∷ ds) = rounds_waived (finding_round ws now p d) ds ∙ round_waived p d _

-- `Apply` waives exactly the findings whose first matching waiver has not expired, and reports all
-- others, in their order, before the notices about the waivers.
pub apply_findings :
    (set : WaiverSet) (diags : List Diagnostic) (now : Date)
    → ((apply set diags now).waived ≡ select (is_suppressed set.waivers now) diags)
      × (notices : List Diagnostic) × ((apply set diags now).active
          ≡ select (λ d. not (is_suppressed set.waivers now d)) diags ++ notices)
unfolding apply
apply_findings set diags now =
    let start : Progress = record { active = []; waived = []; slots = fresh_slots set.waivers } in
    let p = finding_rounds set.waivers now start diags in
    (
      rounds_waived set.waivers now start diags,
      slot_notices set.source p.slots,
      ap (λ l. l ++ slot_notices set.source p.slots) (rounds_active set.waivers now start diags),
    )
