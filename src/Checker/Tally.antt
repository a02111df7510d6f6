-- ===== src/Checker/Tally.antt =====
-- What `buildRunResult` has counted.
use cross_validate.Base.{
  ℕ, suc, ◌+◌, ◌≤◌, String, Bool, true, false, not, List, [], ◌∷◌, ◌++◌, length, select, string_eq,
  ◌≡◌, refl, sym, ap, ◌∙◌, arith, Bool-cases, inl, inr,
}
use mathlib.Core.List.{append_assoc, append-nil}
use cross_validate.Base.Lists.Places.{length-append}
use cross_validate.Types.World.{Diagnostic, Severity, error, warning, info, satisfied}
use cross_validate.Checker.{
  Tallied, obligation_id, is_seen, is_satisfied, is_error, note_id, note_diagnostic, tally,
  nothing_tallied, build_run_result,
}

-- How many elements pass a test.
abbrev pub count {ℓ} : {A : Type ℓ} → (A → Bool) → List A → ℕ
count p xs = length (select p xs)

abbrev pub is_visible : Diagnostic → Bool
is_visible d = not (is_satisfied d.severity)

abbrev pub satisfies : Diagnostic → Bool
satisfies d = is_satisfied d.severity

abbrev pub violates : Diagnostic → Bool
violates d = is_error d.severity

note_id-visible :
    (id : String) (t : Tallied)
    → ((note_id id t).visible ≡ t.visible)
      × ((note_id id t).satisfied ≡ t.satisfied)
      × ((note_id id t).violated ≡ t.violated)
unfolding note_id
note_id-visible id t = elim (Bool-cases (is_seen t.seen id)) [
  | inl seen ↦ rw seen (refl, refl, refl)
  | inr fresh ↦ rw fresh (refl, refl, refl)
]

exclusive : (s : Severity) → is_satisfied s ≡ true → is_error s ≡ false
exclusive satisfied h = refl
exclusive error h = cc
exclusive warning h = cc
exclusive info h = cc

-- `u` has what `t` has and what `ds` adds.
abbrev Counts : Tallied → Tallied → List Diagnostic → Type 0
Counts u t ds =
    (u.visible ≡ t.visible ++ select is_visible ds)
    × (u.satisfied ≡ t.satisfied + count satisfies ds)
    × (u.violated ≡ t.violated + count violates ds)

note_diagnostic-Counts : (d : Diagnostic) (t : Tallied) → Counts (note_diagnostic d t) t (d ∷ [])
unfolding note_diagnostic
note_diagnostic-Counts d t = elim (Bool-cases (is_satisfied d.severity)) [
  | inl sat ↦
      rw (sat, exclusive d.severity sat) (sym (append-nil t.visible), omega arith, omega arith)
  | inr other ↦ elim (Bool-cases (is_error d.severity)) [
    | inl bad ↦ rw (other, bad) (refl, omega arith, omega arith)
    | inr fine ↦ rw (other, fine) (refl, omega arith, omega arith)
  ]
]

select-append {ℓ} :
    {A : Type ℓ} (p : A → Bool) (xs ys : List A) → select p (xs ++ ys) ≡ select p xs ++ select p ys
select-append p [] ys = refl
select-append p (x ∷ xs) ys = elim (Bool-cases (p x)) [
  | inl pass ↦ rw pass (λ i. x ∷ select-append p xs ys i)
  | inr fail ↦ rw fail (select-append p xs ys)
]

pub count-append {ℓ} :
    {A : Type ℓ} (p : A → Bool) (xs ys : List A) → count p (xs ++ ys) ≡ count p xs + count p ys
count-append p xs ys = ap length (select-append p xs ys) ∙ length-append (select p xs) (select p ys)

tally-Counts : (t : Tallied) (ds : List Diagnostic) → Counts (tally t ds) t ds
unfolding tally
tally-Counts t [] = (sym (append-nil t.visible), omega arith, omega arith)
tally-Counts t (d ∷ ds) =
    let noted = note_id (obligation_id d) t in
    let (v0, s0, e0) = note_id-visible (obligation_id d) t in
    let (v1, s1, e1) = note_diagnostic-Counts d noted in
    let (v, s, e) = tally-Counts (note_diagnostic d noted) ds in
    let more_satisfied = count-append satisfies (d ∷ []) ds in
    let more_violated = count-append violates (d ∷ []) ds in
    (
      v
          ∙ ap (λ r. r ++ select is_visible ds) (v1 ∙ ap (λ r. r ++ select is_visible (d ∷ [])) v0)
          ∙ append_assoc t.visible (select is_visible (d ∷ [])) (select is_visible ds)
          ∙ ap (λ r. t.visible ++ r) (sym (select-append is_visible (d ∷ []) ds)),
      omega (arith, s, s1, s0, more_satisfied),
      omega (arith, e, e1, e0, more_violated),
    )

count-split : (ds : List Diagnostic) → count satisfies ds + count is_visible ds ≡ length ds
count-split [] = omega arith
count-split (d ∷ ds) =
    let ih = count-split ds in
    elim (Bool-cases (is_satisfied d.severity)) [
      | inl sat ↦ rw sat (omega arith)
      | inr other ↦ rw other (omega arith)
    ]

violated-le : (ds : List Diagnostic) → count violates ds ≤ count is_visible ds
violated-le [] = omega arith
violated-le (d ∷ ds) =
    let ih = violated-le ds in
    elim (Bool-cases (is_satisfied d.severity)) [
      | inl sat ↦ rw (sat, exclusive d.severity sat) ih
      | inr other ↦ elim (Bool-cases (is_error d.severity)) [
        | inl bad ↦ rw (other, bad) (omega arith)
        | inr fine ↦ rw (other, fine) (omega arith)
      ]
    ]

violates-visible :
    (ds : List Diagnostic) → count violates (select is_visible ds) ≡ count violates ds
violates-visible [] = refl
violates-visible (d ∷ ds) = elim (Bool-cases (is_satisfied d.severity)) [
  | inl sat ↦ rw (sat, exclusive d.severity sat) (violates-visible ds)
  | inr other ↦ elim (Bool-cases (is_error d.severity)) [
    | inl bad ↦ rw (other, bad) (ap suc (violates-visible ds))
    | inr fine ↦ rw (other, fine) (violates-visible ds)
  ]
]

-- The visible diagnostics are those that are no satisfied markers, in their order; with the markers counted as satisfied they are all diagnostics, and the violated obligations are the errors among them, so at most as many.
pub build_run_result-bounds :
    (all : List Diagnostic)
    → (let res = build_run_result all in
        (res.diagnostics ≡ select is_visible all)
        × (res.satisfied + length res.diagnostics ≡ length all)
        × (res.violated ≡ count violates res.diagnostics)
        × (res.violated ≤ length res.diagnostics))
unfolding build_run_result
build_run_result-bounds all =
    let (v, s, e) = tally-Counts nothing_tallied all in
    let split = count-split all in
    let less = violated-le all in
    let shown = ap length v in
    let errors = ap (count violates) v ∙ violates-visible all in
    (v, omega (arith, s, split, shown), omega (arith, e, errors), omega (arith, e, less, shown))
