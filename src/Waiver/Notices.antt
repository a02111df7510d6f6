-- ===== src/Waiver/Notices.antt =====
-- Which notices `Apply` gives about the waivers.
use cross_validate.Base.{
  ℕ, zero, suc, ◌+◌, ◌<◌, ◌≤◌, String, Bool, true, false, not, ◌&&◌, Option, none, some, List, [],
  ◌∷◌, ◌++◌, if◌then◌else◌, any, get_elem?, ◌≡◌, ◌≢◌, refl, sym, subst, ap, ◌∙◌, arith, Bool-cases,
  inl, inr, Memᴰ, nat_eq_iff,
}
use mathlib.Core.List.Memᴰ
use cross_validate.Types.World.{Diagnostic}
use cross_validate.Waiver.{
  Waiver, WaiverSet, matches, match_from, expired_at, Slot, fresh_slots, finding_rounds,
  slot_notices, apply, unused_diagnostic, expired_diagnostic,
}
use cross_validate.Waiver.Dates.{Date}
use cross_validate.Waiver.Slots.{is_at, first_match_is, rounds_slots, get_elem?-fresh_slots}

mem-slot_notices_unused :
    (source : String) (ss : List Slot) (i : ℕ) {s : Slot}
    → get_elem? ss i ≡ some s
    → s.used ≡ false
    → Memᴰ (unused_diagnostic source s.waiver) (slot_notices source ss)
unfolding slot_notices
mem-slot_notices_unused source [] i e h = cc
mem-slot_notices_unused source (t ∷ ss) zero {s} e h =
    let same : t ≡ s = cc in
    Memᴰ.append_right _ (
      subst (λ u. Memᴰ (unused_diagnostic source s.waiver) (notice u ++ slot_notices source ss))
        (sym same) (rw h (Memᴰ.head refl)))
  where
    notice : Slot → List Diagnostic
    notice u = if not u.used then unused_diagnostic source u.waiver ∷ [] else []
mem-slot_notices_unused source (t ∷ ss) (suc i) e h =
    Memᴰ.append_right _ (Memᴰ.append_right _ (mem-slot_notices_unused source ss i e h))

mem-slot_notices_expired :
    (source : String) (ss : List Slot) (i : ℕ) {s : Slot}
    → get_elem? ss i ≡ some s
    → s.expired_matched ≡ true
    → Memᴰ (expired_diagnostic source s.waiver) (slot_notices source ss)
unfolding slot_notices
mem-slot_notices_expired source [] i e h = cc
mem-slot_notices_expired source (t ∷ ss) zero {s} e h =
    let same : t ≡ s = cc in
    Memᴰ.append_left _ (
      subst (λ u. Memᴰ (expired_diagnostic source s.waiver) (notice u)) (sym same)
        (rw h (Memᴰ.head refl)))
  where
    notice : Slot → List Diagnostic
    notice u = if u.expired_matched then expired_diagnostic source u.waiver ∷ [] else []
mem-slot_notices_expired source (t ∷ ss) (suc i) e h =
    Memᴰ.append_right _ (Memᴰ.append_right _ (mem-slot_notices_expired source ss i e h))

module _ (set : WaiverSet) (diags : List Diagnostic) (now : Date) (i : ℕ) {w : Waiver}
    (here : get_elem? set.waivers i ≡ some w) where
  hit : Bool
  hit = any (first_match_is set.waivers i) diags

  final_slots : List Slot
  unfolding finding_rounds
  final_slots =
      (finding_rounds set.waivers now
        (record { active = []; waived = []; slots = fresh_slots set.waivers }) diags).slots

  final_slot :
      get_elem? final_slots i
      ≡ some
          (record { waiver = w; used = hit; expired_matched = hit && expired_at now set.waivers i })
  unfolding final_slots hit
  final_slot =
      rounds_slots set.waivers now i _ diags ∙ rw (get_elem?-fresh_slots set.waivers i here)

  -- A waiver that is the first match of no finding is reported as unused; one that is the first match
  -- of a finding and has expired is reported as expired.
  pub apply_notices :
      (any (first_match_is set.waivers i) diags ≡ false
        → Memᴰ (unused_diagnostic set.source w) (apply set diags now).active)
      × (any (first_match_is set.waivers i) diags ≡ true
          → expired_at now set.waivers i ≡ true
          → Memᴰ (expired_diagnostic set.source w) (apply set diags now).active)
  unfolding apply final_slots hit
  apply_notices = (
    λ missed.
        Memᴰ.append_right _ (mem-slot_notices_unused set.source final_slots i final_slot missed),
    λ matched old.
        Memᴰ.append_right _
          (mem-slot_notices_expired set.source final_slots i final_slot (rw (matched, old))),
  )

match_from-ge :
    (k : ℕ) (ws : List Waiver) (d : Diagnostic) (n : ℕ) → match_from k ws d ≡ some n → k ≤ n
unfolding match_from
match_from-ge k [] d n e = cc
match_from-ge k (x ∷ ws) d n e = elim (Bool-cases (matches x d)) [
  | inl hit ↦ let here : some k ≡ some n = rw hit at e in ground arith
  | inr miss ↦
      let later : match_from (k + 1) ws d ≡ some n = rw miss at e in
      omega (arith, match_from-ge (k + 1) ws d n later)
]

is_at-eq_true : (n : ℕ) (o : Option ℕ) → is_at n o ≡ true → o ≡ some n
is_at-eq_true n none e = cc
is_at-eq_true n (some m) e = ap some ((nat_eq_iff m n).0 e)

-- The first waiver that matches does match.
match_from-matches :
    (k : ℕ) (ws : List Waiver) (i : ℕ) (w : Waiver) (d : Diagnostic)
    → get_elem? ws i ≡ some w
    → match_from k ws d ≡ some (k + i)
    → matches w d ≡ true
unfolding match_from
match_from-matches k [] i w d e m = cc
match_from-matches k (x ∷ ws) zero w d e m = elim (Bool-cases (matches x d)) [
  | inl hit ↦ let same : x ≡ w = cc in rw same at hit
  | inr miss ↦
      let later : match_from (k + 1) ws d ≡ some (k + 0) = rw miss at m in
      absurd (omega (arith, match_from-ge (k + 1) ws d (k + 0) later))
]
match_from-matches k (x ∷ ws) (suc i) w d e m = elim (Bool-cases (matches x d)) [
  | inl hit ↦
      let here : some k ≡ some (k + suc i) = rw hit at m in
      absurd (omega (arith, some_ℕ k (k + suc i) here))
  | inr miss ↦
      let later : match_from (k + 1) ws d ≡ some (k + suc i) = rw miss at m in
      match_from-matches (k + 1) ws i w d e (later ∙ ap some (omega arith))
]
  where
    some_ℕ : (a b : ℕ) → some a ≡ some b → a ≡ b
    some_ℕ a b h = cc

-- A waiver behind another that matches whatever it matches is the first match of no finding.
match_from-shadowed :
    (k : ℕ) (ws : List Waiver) (i j : ℕ) (w v : Waiver) (d : Diagnostic)
    → get_elem? ws i ≡ some w
    → get_elem? ws j ≡ some v
    → j < i
    → (matches w d ≡ true → matches v d ≡ true)
    → match_from k ws d ≢ some (k + i)
unfolding match_from
match_from-shadowed k [] i j w v d e e' lt h m = cc
match_from-shadowed k (x ∷ ws) i zero w v d e e' lt h m =
    let same : x ≡ v = cc in
    let hit : matches x d ≡ true = rw same (h (match_from-matches k (x ∷ ws) i w d e m)) in
    let here : some k ≡ some (k + i) = rw hit at m in ground arith
match_from-shadowed k (x ∷ ws) zero (suc j) w v d e e' lt h m = absurd (omega arith)
match_from-shadowed k (x ∷ ws) (suc i) (suc j) w v d e e' lt h m = elim (Bool-cases (matches x d)) [
  | inl hit ↦ let here : some k ≡ some (k + suc i) = rw hit at m in ground arith
  | inr miss ↦
      let later : match_from (k + 1) ws d ≡ some (k + suc i) = rw miss at m in
      match_from-shadowed (k + 1) ws i j w v d e e' (omega arith) h (later ∙ ap some (omega arith))
]

no_hit :
    (ws : List Waiver) (i : ℕ) (ds : List Diagnostic)
    → ((d : Diagnostic) → match_from 0 ws d ≢ some i)
    → any (first_match_is ws i) ds ≡ false
no_hit ws i [] h = refl
no_hit ws i (d ∷ ds) h = elim (Bool-cases (first_match_is ws i d)) [
  | inl hit ↦ absurd (h d (is_at-eq_true i _ hit))
  | inr miss ↦ rw (miss, no_hit ws i ds h)
]

-- A waiver behind another that matches whatever it matches is reported as matching no finding,
-- whatever the findings are.
pub apply_shadowed :
    (set : WaiverSet) (diags : List Diagnostic) (now : Date) (i j : ℕ) (w v : Waiver)
    → get_elem? set.waivers i ≡ some w
    → get_elem? set.waivers j ≡ some v
    → j < i
    → ((d : Diagnostic) → matches w d ≡ true → matches v d ≡ true)
    → Memᴰ (unused_diagnostic set.source w) (apply set diags now).active
apply_shadowed set diags now i j w v e e' lt h = (apply_notices set diags now i e).0 (
    no_hit set.waivers i diags
      λ d m. match_from-shadowed 0 set.waivers i j w v d e e' lt (h d) (m ∙ ap some (omega arith)))
