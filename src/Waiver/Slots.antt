-- ===== src/Waiver/Slots.antt =====
-- The flags of a waiver after the first loop of `Apply`.
use cross_validate.Base.{
  ℕ, zero, suc, Bool, false, ◌||◌, ◌&&◌, Option, none, some, List, [], ◌∷◌, any, get_elem?, ◌≡◌,
  refl, sym, ap, ◌∙◌, arith, Bool-cases, Option-cases, inl, inr, nat_eq, nat_eq_iff,
}
use cross_validate.Types.World.{Diagnostic}
use cross_validate.Waiver.{
  Waiver, match_from, expired_at, mark, Progress, Slot, fresh_slots, finding_round, finding_rounds,
}
use cross_validate.Waiver.Dates.{Date}

-- The first waiver that matches is the one at `i`.
abbrev pub is_at : ℕ → Option ℕ → Bool
is_at i none = false
is_at i (some j) = nat_eq j i

abbrev pub first_match_is : List Waiver → ℕ → Diagnostic → Bool
first_match_is ws i d = is_at i (match_from 0 ws d)

abbrev pub set_flags : Bool → Bool → Slot → Slot
set_flags hit has_expired s = record s {
  used = s.used || hit;
  expired_matched = s.expired_matched || hit && has_expired;
}

abbrev pub map_slot : (Slot → Slot) → Option Slot → Option Slot
map_slot f none = none
map_slot f (some s) = some (f s)

map_slot_miss : (b : Bool) (o : Option Slot) → o ≡ map_slot (set_flags false b) o
map_slot_miss b none = refl
map_slot_miss b (some s) = ground arith

nat_eq-suc : (j i : ℕ) → nat_eq j i ≡ nat_eq (suc j) (suc i)
nat_eq-suc j i = ground arith

zero-ne-suc : (i : ℕ) → nat_eq 0 (suc i) ≡ false
zero-ne-suc i = ground arith

get_elem?-mark :
    (has_expired : Bool) (j i : ℕ) (ss : List Slot)
    → get_elem? (mark has_expired j ss) i
      ≡ map_slot (set_flags (nat_eq j i) has_expired) (get_elem? ss i)
unfolding mark
get_elem?-mark b j i [] = refl
get_elem?-mark b zero zero (s ∷ ss) = ground arith
get_elem?-mark b zero (suc i) (s ∷ ss) = rw (zero-ne-suc i) (map_slot_miss b (get_elem? ss i))
get_elem?-mark b (suc j) zero (s ∷ ss) = ground arith
get_elem?-mark b (suc j) (suc i) (s ∷ ss) =
    get_elem?-mark b j i ss
    ∙ ap (λ hit. map_slot (set_flags hit b) (get_elem? ss i)) (nat_eq-suc j i)

map_slot-twice :
    (a b e : Bool) (o : Option Slot)
    → map_slot (set_flags b e) (map_slot (set_flags a e) o) ≡ map_slot (set_flags (a || b) e) o
map_slot-twice a b e none = refl
map_slot-twice a b e (some s) = ground arith

module _ (ws : List Waiver) (now : Date) (i : ℕ) where
  flags_agree :
      (j : ℕ) (o : Option Slot)
      → map_slot (set_flags (nat_eq j i) (expired_at now ws j)) o
        ≡ map_slot (set_flags (nat_eq j i) (expired_at now ws i)) o
  flags_agree j o = elim (Bool-cases (nat_eq j i)) [
    | inl same ↦
        ap (λ k. map_slot (set_flags (nat_eq j i) (expired_at now ws k)) o)
          ((nat_eq_iff j i).0 same)
    | inr other ↦
        rw other
          (sym (map_slot_miss (expired_at now ws j) o) ∙ map_slot_miss (expired_at now ws i) o)
  ]

  slots_of_hit :
      (p : Progress) (d : Diagnostic) (j : ℕ)
      → match_from 0 ws d ≡ some j
      → (finding_round ws now p d).slots ≡ mark (expired_at now ws j) j p.slots
  unfolding finding_round
  slots_of_hit p d j found = elim (Bool-cases (expired_at now ws j)) [
    | inl old ↦ rw (found, old, finding_round)
    | inr live ↦ rw (found, live, finding_round)
  ]

  -- After a round the flags of the waiver `i` say whether the finding hit it.
  round_slots :
      (p : Progress) (d : Diagnostic)
      → get_elem? (finding_round ws now p d).slots i
        ≡ map_slot (set_flags (first_match_is ws i d) (expired_at now ws i)) (get_elem? p.slots i)
  unfolding finding_round
  round_slots p d = elim (Option-cases (match_from 0 ws d)) [
    | inl missed ↦
        rw (missed, finding_round) (map_slot_miss (expired_at now ws i) (get_elem? p.slots i))
    | inr (j, found) ↦
        rw (slots_of_hit p d j found, found)
          (get_elem?-mark (expired_at now ws j) j i p.slots ∙ flags_agree j (get_elem? p.slots i))
  ]

  pub rounds_slots :
      (p : Progress) (ds : List Diagnostic)
      → get_elem? (finding_rounds ws now p ds).slots i
        ≡ map_slot
            (set_flags (any (first_match_is ws i) ds) (expired_at now ws i))
            (get_elem? p.slots i)
  unfolding finding_rounds
  rounds_slots p [] = map_slot_miss (expired_at now ws i) (get_elem? p.slots i)
  rounds_slots p (d ∷ ds) =
      rounds_slots (finding_round ws now p d) ds
      ∙ rw (round_slots p d) (map_slot-twice (first_match_is ws i d) _ _ _)

pub get_elem?-fresh_slots :
    (ws : List Waiver) (i : ℕ) {w : Waiver}
    → get_elem? ws i ≡ some w
    → get_elem? (fresh_slots ws) i
      ≡ some (record { waiver = w; used = false; expired_matched = false })
get_elem?-fresh_slots [] i e = cc
get_elem?-fresh_slots (w ∷ ws) zero e = cc
get_elem?-fresh_slots (w ∷ ws) (suc i) e = get_elem?-fresh_slots ws i e
