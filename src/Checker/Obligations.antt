-- ===== src/Checker/Obligations.antt =====
-- The obligation IDs of a run.
use cross_validate.Base.{
  ℕ, suc, ◌+◌, String, Bool, true, false, ◌||◌, List, [], ◌∷◌, length, any, if◌then◌else◌, ◌==◌,
  string_eq, ◌≡◌, refl, sym, ap, ◌∙◌, arith, eq_iff, Bool-cases, inl, inr,
}
use cross_validate.Base.Texts.{str_lt, str_lt_asymm}
use cross_validate.Base.Sorting.{sort_by, insert_sorted, IsSorted, sort_by-IsSorted}
use cross_validate.Base.Maps.{lookup, insert, lookup-insert}
use cross_validate.Types.World.{Diagnostic}
use cross_validate.Checker.{
  Tallied, obligation_id, is_seen, note_id, note_diagnostic, tally, nothing_tallied,
  build_run_result, is_satisfied,
}
use cross_validate.Checker.Tally.{count, count-append}

abbrev pub same_as : String → String → Bool
same_as id s = s == id

-- The IDs that are noted are those that are seen, each once.
abbrev Noted : Tallied → Type 0
Noted t = (id : String) → count (same_as id) t.ids ≡ (if is_seen t.seen id then 1 else 0)

is_seen-insert :
    (id asked : String) (seen : List (String × Bool))
    → is_seen (insert id true seen) asked ≡ (id == asked || is_seen seen asked)
unfolding is_seen
is_seen-insert id asked seen =
    rw (lookup-insert id asked true seen, is_seen)
      (elim (Bool-cases (id == asked)) [ inl same ↦ rw same refl | inr other ↦ rw other refl ])

-- What is seen after a round.
note_id-seen :
    (id asked : String) (t : Tallied)
    → is_seen (note_id id t).seen asked ≡ (id == asked || is_seen t.seen asked)
unfolding note_id
note_id-seen id asked t = elim (Bool-cases (is_seen t.seen id)) [
  | inr fresh ↦ rw fresh (is_seen-insert id asked t.seen)
  | inl seen ↦ rw seen (elim (Bool-cases (id == asked)) [
    | inl same ↦
        let there : is_seen t.seen asked ≡ true =
          ap (is_seen t.seen) (sym ((eq_iff id asked).0 same)) ∙ seen in
        rw (same, there) refl
    | inr other ↦ rw other refl
  ])
]

note_id-Noted : (id : String) (t : Tallied) → Noted t → Noted (note_id id t)
unfolding note_id
note_id-Noted id t h asked = elim (Bool-cases (is_seen t.seen id)) [
  | inl seen ↦ rw seen (h asked)
  | inr fresh ↦
      rw (fresh, is_seen-insert id asked t.seen, count-append (same_as asked) t.ids (id ∷ []))
        (elim (Bool-cases (id == asked)) [
          | inl same ↦
              let gone : is_seen t.seen asked ≡ false =
                ap (is_seen t.seen) (sym ((eq_iff id asked).0 same)) ∙ fresh in
              let none_yet : count (same_as asked) t.ids ≡ 0 = h asked ∙ rw gone refl in
              rw same (omega arith)
          | inr other ↦ let before = h asked in rw other (zero_more before)
        ])
]
  where
    zero_more : {m n : ℕ} → m ≡ n → m + 0 ≡ n
    zero_more e = omega arith

note_diagnostic-ids :
    (d : Diagnostic) (t : Tallied)
    → ((note_diagnostic d t).ids ≡ t.ids) × ((note_diagnostic d t).seen ≡ t.seen)
unfolding note_diagnostic
note_diagnostic-ids d t = elim (Bool-cases (is_satisfied d.severity)) [
  | inl sat ↦ rw sat (refl, refl)
  | inr other ↦ rw other (refl, refl)
]

tally-Noted : (t : Tallied) (ds : List Diagnostic) → Noted t → Noted (tally t ds)
unfolding tally
tally-Noted t [] h = h
tally-Noted t (d ∷ ds) h =
    let noted = note_id (obligation_id d) t in
    let (ids, seen) = note_diagnostic-ids d noted in
    tally-Noted (note_diagnostic d noted) ds
      (λ id. rw (ids, seen) (note_id-Noted (obligation_id d) t h id))

tally-seen :
    (t : Tallied) (ds : List Diagnostic) (asked : String)
    → is_seen (tally t ds).seen asked
      ≡ (any (λ d. obligation_id d == asked) ds || is_seen t.seen asked)
unfolding tally
tally-seen t [] asked = refl
tally-seen t (d ∷ ds) asked =
    let noted = note_id (obligation_id d) t in
    let (ids, seen) = note_diagnostic-ids d noted in
    tally-seen (note_diagnostic d noted) ds asked
    ∙ rw (seen, note_id-seen (obligation_id d) asked t) (ground arith)

count-cons :
    (p : String → Bool) (x : String) (xs ys : List String)
    → count p xs ≡ count p ys
    → count p (x ∷ xs) ≡ count p (x ∷ ys)
count-cons p x xs ys e = elim (Bool-cases (p x)) [
  | inl pass ↦ rw pass (ap suc e)
  | inr fail ↦ rw fail e
]

count-swap :
    (p : String → Bool) (x y : String) (ys : List String)
    → count p (y ∷ x ∷ ys) ≡ count p (x ∷ y ∷ ys)
count-swap p x y ys = elim (Bool-cases (p x)) [
  | inl h ↦ elim (Bool-cases (p y)) [ inl k ↦ rw (h, k) refl | inr k ↦ rw (h, k) refl ]
  | inr h ↦ elim (Bool-cases (p y)) [ inl k ↦ rw (h, k) refl | inr k ↦ rw (h, k) refl ]
]

count-insert_sorted :
    (p : String → Bool) (x : String) (xs : List String)
    → count p (insert_sorted str_lt x xs) ≡ count p (x ∷ xs)
unfolding insert_sorted
count-insert_sorted p x [] = refl
count-insert_sorted p x (y ∷ ys) =
    let ih = count-insert_sorted p x ys in
    elim (Bool-cases (str_lt y x)) [
      | inr stays ↦ rw stays refl
      | inl moves ↦ rw moves (count-cons p y _ (x ∷ ys) ih ∙ count-swap p x y ys)
    ]

count-sort_by : (p : String → Bool) (xs : List String) → count p (sort_by str_lt xs) ≡ count p xs
unfolding sort_by
count-sort_by p [] = refl
count-sort_by p (x ∷ xs) =
    count-insert_sorted p x (sort_by str_lt xs) ∙ count-cons p x _ xs (count-sort_by p xs)

-- The obligation IDs are in order; an ID is listed once if a diagnostic has it, visible or not, and not at all otherwise, and the total is their number.
pub build_run_result-ids :
    (all : List Diagnostic)
    → (let res = build_run_result all in
        IsSorted str_lt res.obligation_ids
        × ((id : String)
            → count (same_as id) res.obligation_ids
              ≡ (if any (λ d. obligation_id d == id) all then 1 else 0))
        × (res.total_obligations ≡ length res.obligation_ids))
unfolding build_run_result is_seen lookup
build_run_result-ids all = (
  sort_by-IsSorted str_lt str_lt_asymm (tally nothing_tallied all).ids,
  (λ id.
      count-sort_by (same_as id) (tally nothing_tallied all).ids
      ∙ tally-Noted nothing_tallied all (λ id'. refl) id
      ∙ rw (tally-seen nothing_tallied all id) (ground arith)),
  refl,
)
