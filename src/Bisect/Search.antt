-- ===== src/Bisect/Search.antt =====
-- The binary search of `Run`: what it finds, that it ends and how many commits it checks.
use cross_validate.Base.{
  ℕ, zero, suc, ◌+◌, ◌-◌, ◌*◌, ◌/◌, ◌^◌, ◌≤◌, ◌<◌, String, Bool, true, false, not, List, ltb, ◌≡◌,
  ◌⊎◌, refl, ap, ◌∙◌, arith, Bool-cases, inl, inr,
}
use cross_validate.Types.Values.{bool_eq}
use cross_validate.Bisect.{Repository, ◌>>=◌, ok, check_index, search}

module _ (repo : Repository) (commits : List String) where
  -- Commit `i` is in the list and can be checked.
  abbrev pub IsCheckable : ℕ → Type 0
  IsCheckable i = (fires : Bool) × (check_index repo commits i ≡ ok fires)

  module _ (bad_fires : Bool) where
    -- `p` is an end of lo..hi or has the state of bad, and it is the start or has the state of
    -- good before it.
    pub record Boundary (lo hi p : ℕ) : Type 0 where
      pub above : lo ≤ p
      pub below : p ≤ hi
      pub changed : (p ≡ hi) ⊎ (check_index repo commits p ≡ ok bad_fires)
      pub before :
          (p ≡ lo) ⊎ ((q : ℕ) × (p ≡ suc q) × (check_index repo commits q ≡ ok (not bad_fires)))

    abbrev pub Ends : ℕ → ℕ → ℕ → ℕ → Type 0
    Ends fuel lo hi steps =
        (p : ℕ) × (taken : ℕ) × (search repo fuel commits bad_fires lo hi steps ≡ ok (p, taken))
        × Boundary lo hi p
        × ((k : ℕ) → hi - lo < 2 ^ k → taken ≤ steps + k)

    search-done :
        (fuel lo hi steps : ℕ)
        → ltb lo hi ≡ false
        → search repo fuel commits bad_fires lo hi steps ≡ ok (lo, steps)
    unfolding search
    search-done zero lo hi steps e = rw e refl
    search-done (suc fuel) lo hi steps e = rw e refl

    module _ (fuel lo hi steps : ℕ) (less : ltb lo hi ≡ true) (fires : Bool)
        (checked : check_index repo commits (lo + (hi - lo) / 2) ≡ ok fires) where
      search-left :
          bool_eq fires bad_fires ≡ true
          → search repo (suc fuel) commits bad_fires lo hi steps
            ≡ search repo fuel commits bad_fires lo (lo + (hi - lo) / 2) (steps + 1)
      unfolding search
      search-left same = rw (less, checked, ◌>>=◌, same) refl

      search-right :
          bool_eq fires bad_fires ≡ false
          → search repo (suc fuel) commits bad_fires lo hi steps
            ≡ search repo fuel commits bad_fires (lo + (hi - lo) / 2 + 1) hi (steps + 1)
      unfolding search
      search-right other = rw (less, checked, ◌>>=◌, other) refl

same_state : (a b : Bool) → bool_eq a b ≡ true → a ≡ b
same_state a b e = ground arith

other_state : (a b : Bool) → bool_eq a b ≡ false → a ≡ not b
other_state a b e = ground arith

pow_pos : (k : ℕ) → 0 < 2 ^ k
pow_pos zero = omega arith
pow_pos (suc k) = let ih = pow_pos k in let e : 2 ^ suc k ≡ 2 * 2 ^ k = omega arith in omega arith

left_bound :
    (lo hi taken steps : ℕ)
    → lo < hi
    → ((k : ℕ) → lo + (hi - lo) / 2 - lo < 2 ^ k → taken ≤ steps + 1 + k)
    → (k : ℕ) → hi - lo < 2 ^ k
    → taken ≤ steps + k
left_bound lo hi taken steps less rest zero small = omega arith
left_bound lo hi taken steps less rest (suc k) small =
    let e : 2 ^ suc k ≡ 2 * 2 ^ k = omega arith in
    let fits : lo + (hi - lo) / 2 - lo < 2 ^ k = omega arith in
    let bound = rest k fits in omega arith

right_bound :
    (lo hi taken steps : ℕ)
    → lo < hi
    → ((k : ℕ) → hi - (lo + (hi - lo) / 2 + 1) < 2 ^ k → taken ≤ steps + 1 + k)
    → (k : ℕ) → hi - lo < 2 ^ k
    → taken ≤ steps + k
right_bound lo hi taken steps less rest zero small = omega arith
right_bound lo hi taken steps less rest (suc k) small =
    let e : 2 ^ suc k ≡ 2 * 2 ^ k = omega arith in
    let fits : hi - (lo + (hi - lo) / 2 + 1) < 2 ^ k = omega arith in
    let bound = rest k fits in omega arith

module _ (repo : Repository) (commits : List String) (bad_fires : Bool) where
  module _ (fuel lo hi steps : ℕ) (less : lo < hi) (fires : Bool)
      (checked : check_index repo commits (lo + (hi - lo) / 2) ≡ ok fires) where
    Ends-left :
        bool_eq fires bad_fires ≡ true
        → Ends repo commits bad_fires fuel lo (lo + (hi - lo) / 2) (steps + 1)
        → Ends repo commits bad_fires (suc fuel) lo hi steps
    Ends-left same (p, taken, run, found, bound) = (
      p,
      taken,
      search-left repo commits bad_fires fuel lo hi steps (ground arith) fires checked same ∙ run,
      record {
        above = found.above;
        below = let le = found.below in omega arith;
        changed = inr (elim (found.changed) [
          | inl here ↦ rw (here, checked) (ap ok (same_state fires bad_fires same))
          | inr state ↦ state
        ]);
        before = found.before;
      },
      left_bound lo hi taken steps less bound,
    )

    Ends-right :
        bool_eq fires bad_fires ≡ false
        → Ends repo commits bad_fires fuel (lo + (hi - lo) / 2 + 1) hi (steps + 1)
        → Ends repo commits bad_fires (suc fuel) lo hi steps
    Ends-right other (p, taken, run, found, bound) = (
      p,
      taken,
      search-right repo commits bad_fires fuel lo hi steps (ground arith) fires checked other ∙ run,
      record {
        above = let le = found.above in omega arith;
        below = found.below;
        changed = found.changed;
        before = inr (elim (found.before) [
          | inl here ↦
              (lo + (hi - lo) / 2, omega arith, checked ∙ ap ok (other_state fires bad_fires other))
          | inr earlier ↦ earlier
        ]);
      },
      right_bound lo hi taken steps less bound,
    )

  Ends-here :
      (fuel lo hi steps : ℕ)
      → lo ≤ hi
      → ltb lo hi ≡ false
      → Ends repo commits bad_fires fuel lo hi steps
  Ends-here fuel lo hi steps ordered stop = (
    lo,
    steps,
    search-done repo commits bad_fires fuel lo hi steps stop,
    record {
      above = omega arith;
      below = ordered;
      changed = inl (ground arith);
      before = inl refl;
    },
    λ k small. omega arith,
  )

  -- On any range of commits that can all be checked, and with fuel for its length, the search ends at
  -- a commit p of the range or at its end. p has the state of bad if it is not the end, the commit
  -- before it the state of good if p is not the start. A range shorter than 2^k takes k checks at most.
  pub search-Ends :
      (fuel lo hi steps : ℕ)
      → lo ≤ hi
      → hi ≤ lo + fuel
      → ((i : ℕ) → lo ≤ i → i < hi → IsCheckable repo commits i)
      → Ends repo commits bad_fires fuel lo hi steps
  search-Ends zero lo hi steps ordered enough ready =
      Ends-here zero lo hi steps ordered (ground arith)
  search-Ends (suc fuel) lo hi steps ordered enough ready = elim (Bool-cases (ltb lo hi)) [
    | inr stop ↦ Ends-here (suc fuel) lo hi steps ordered stop
    | inl more ↦
        let less : lo < hi = ground arith in
        let (fires, checked) = ready (lo + (hi - lo) / 2) (omega arith) (omega arith) in
        elim (Bool-cases (bool_eq fires bad_fires)) [
          | inl same ↦ Ends-left fuel lo hi steps less fires checked same (
              search-Ends fuel lo (lo + (hi - lo) / 2) (steps + 1) (omega arith) (omega arith)
                (λ i a b. ready i a (omega arith)))
          | inr other ↦ Ends-right fuel lo hi steps less fires checked other (
              search-Ends fuel (lo + (hi - lo) / 2 + 1) hi (steps + 1) (omega arith) (omega arith)
                (λ i a b. ready i (omega arith) b))
        ]
  ]
