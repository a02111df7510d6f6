-- ===== src/Ir/Owners/Roots.antt =====
-- The loop of `findRepoRoot` ends at the nearest repository, or at the top.
use cross_validate.Base.{
  ℕ, zero, suc, ◌<◌, String, Bool, true, false, ◌==◌, string_eq, ◌≡◌, ◌≢◌, ◌⊎◌, refl, sym, ap, ◌∙◌,
  subst, arith, eq_iff, Bool-cases, inl, inr,
}
use cross_validate.Base.FilePaths.{dir_name, join_path}
use cross_validate.Base.FilePaths.Parents.{height, dir_name-height}
use cross_validate.Ir.Owners.{FileSystem, root_from, find_repo_root}

-- The directory some steps up.
abbrev pub above : ℕ → String → String
above zero dir = dir
above (suc n) dir = above n (dir_name dir)

abbrev pub is_root : FileSystem → String → Bool
is_root fs dir = fs.is_git (join_path dir ".git")

-- There is no repository, or this is the nearest.
abbrev pub IsNearest : FileSystem → String → String → Type 0
IsNearest fs dir root =
    ((root ≡ "") × ((n : ℕ) → is_root fs (above n dir) ≡ false))
    ⊎ ((n : ℕ) × ((root ≡ above n dir)
          × (is_root fs (above n dir) ≡ true)
          × ((m : ℕ) → m < n → is_root fs (above m dir) ≡ false)))

above-top : (n : ℕ) (dir : String) → dir_name dir ≡ dir → above n dir ≡ dir
above-top zero dir h = refl
above-top (suc n) dir h = ap (above n) h ∙ above-top n dir h

none_below : (P : ℕ → Type 0) → P 0 → ((n : ℕ) → P (suc n)) → (n : ℕ) → P n
none_below P h k zero = h
none_below P h k (suc n) = k n

none_before :
    (P : ℕ → Type 0) (n : ℕ) → P 0 → ((m : ℕ) → m < n → P (suc m)) → (m : ℕ) → m < suc n → P m
none_before P n h k zero lt = h
none_before P n h k (suc m) lt = k m (omega arith)

false-ne-true : false ≡ true → ⊥
false-ne-true e = cc

goes_up :
    (fuel : ℕ) (dir : String)
    → height dir < suc fuel
    → (dir_name dir == dir) ≡ false
    → height (dir_name dir) < fuel
goes_up fuel dir lt other = elim (dir_name-height dir) [
  | inl fixed ↦
      let same = (eq_iff (dir_name dir) dir).1 fixed in absurd (false-ne-true (sym other ∙ same))
  | inr shorter ↦ omega arith
]

module _ (fs : FileSystem) where
  step_up :
      (dir root : String)
      → is_root fs dir ≡ false
      → IsNearest fs (dir_name dir) root
      → IsNearest fs dir root
  step_up dir root h (inl (e, none)) =
      inl (e, none_below (λ n. is_root fs (above n dir) ≡ false) h none)
  step_up dir root h (inr (n, (e, found, before))) =
      inr (suc n, (e, found, none_before (λ m. is_root fs (above m dir) ≡ false) n h before))

  root_from-IsNearest :
      (fuel : ℕ) (dir : String) → height dir < fuel → IsNearest fs dir (root_from fs fuel dir)
  unfolding root_from
  root_from-IsNearest zero dir lt = absurd (omega arith)
  root_from-IsNearest (suc fuel) dir lt = elim (Bool-cases (is_root fs dir)) [
    | inl here ↦ rw here (inr (0, (refl, here, λ m lt. absurd (omega arith))))
    | inr other ↦ elim (Bool-cases (dir_name dir == dir)) [
      | inl top ↦
          let fixed = (eq_iff (dir_name dir) dir).0 top in
          rw (other, top) (inl (refl, λ n. ap (is_root fs) (above-top n dir fixed) ∙ other))
      | inr lower ↦
          rw (other, lower)
            (step_up dir _ other
              (root_from-IsNearest fuel (dir_name dir) (goes_up fuel dir lt lower)))
    ]
  ]

  find_repo_root-given :
      (dir : String)
      → (dir == "") ≡ false
      → find_repo_root fs dir ≡ root_from fs (suc (height dir)) dir
  unfolding find_repo_root
  find_repo_root-given dir given = rw given refl

  -- Going up from a directory ends: `findRepoRoot` gives the nearest directory above it, itself included, that has a `.git`, and "" only if none of them has one.
  pub find_repo_root-IsNearest :
      (dir : String) → dir ≢ "" → IsNearest fs dir (find_repo_root fs dir)
  find_repo_root-IsNearest dir h = elim (Bool-cases (dir == "")) [
    | inl e ↦ absurd (h ((eq_iff dir "").0 e))
    | inr given ↦
        subst (IsNearest fs dir) (sym (find_repo_root-given dir given))
          (root_from-IsNearest (suc (height dir)) dir (omega arith))
  ]
