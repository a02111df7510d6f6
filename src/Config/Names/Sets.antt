-- ===== src/Config/Names/Sets.antt =====
-- What the loops that add names keep: no repetition and no "", and every other name.
use cross_validate.Base.{
  String, false, List, [], ◌∷◌, ◌++◌, ◌==◌, string_eq, ◌||◌, ◌≡◌, inl, inr, refl, arith, eq_iff,
  Bool-cases,
}
use cross_validate.Config.Names.{contains_string, add_name, add_names}

-- No name twice, and none is "".
abbrev pub IsNameSet : List String → Type 0
IsNameSet [] = Unit
IsNameSet (s ∷ ss) = ((s == "") ≡ false) × (contains_string ss s ≡ false) × IsNameSet ss

contains_string-append :
    (xs ys : List String) (s : String)
    → contains_string (xs ++ ys) s ≡ (contains_string xs s || contains_string ys s)
contains_string-append [] ys s = refl
contains_string-append (x ∷ xs) ys s = ground (arith, contains_string-append xs ys s)

append-IsNameSet :
    (xs : List String) (s : String)
    → IsNameSet xs
    → (s == "") ≡ false
    → contains_string xs s ≡ false
    → IsNameSet (xs ++ s ∷ [])
append-IsNameSet [] s h k l = (k, refl, tt)
append-IsNameSet (x ∷ xs) s (named, fresh, h) k l = (
  named,
  rw (contains_string-append xs (s ∷ []) x) (ground (arith, eq_iff x s, eq_iff s x)),
  append-IsNameSet xs s h k (ground arith),
)

add_name-IsNameSet : (out : List String) (s : String) → IsNameSet out → IsNameSet (add_name out s)
add_name-IsNameSet out s h = elim (Bool-cases (s == "")) [
  | inl blank ↦ rw blank h
  | inr named ↦ elim (Bool-cases (contains_string out s)) [
    | inl old ↦ rw (named, old) h
    | inr new ↦ rw (named, new) (append-IsNameSet out s h named new)
  ]
]

pub add_names-IsNameSet : (out ss : List String) → IsNameSet out → IsNameSet (add_names out ss)
unfolding add_names
add_names-IsNameSet out [] h = h
add_names-IsNameSet out (s ∷ ss) h =
    add_names-IsNameSet (add_name out s) ss (add_name-IsNameSet out s h)

contains_string-add_name :
    (out : List String) (s t : String)
    → (t == "") ≡ false
    → contains_string (add_name out s) t ≡ (contains_string out t || s == t)
contains_string-add_name out s t named = elim (Bool-cases (s == "")) [
  | inl blank ↦ rw blank (ground (arith, eq_iff s "", eq_iff s t, eq_iff t ""))
  | inr full ↦ elim (Bool-cases (contains_string out s)) [
    | inl old ↦
        rw (full, old)
          (elim (Bool-cases (s == t)) [
            | inl same ↦ let e : s ≡ t = (eq_iff s t).0 same in rw (same, ← e, old)
            | inr other ↦ rw other (ground arith)
          ])
    | inr new ↦ rw (full, new) (rw (contains_string-append out (s ∷ []) t) (ground arith))
  ]
]

-- A name that is not "" is in the result exactly when it was there before or was to be added.
pub contains_string-add_names :
    (out ss : List String) (t : String)
    → (t == "") ≡ false
    → contains_string (add_names out ss) t ≡ (contains_string out t || contains_string ss t)
unfolding add_names
contains_string-add_names out [] t h = ground arith
contains_string-add_names out (s ∷ ss) t h =
    rw (contains_string-add_names (add_name out s) ss t h, contains_string-add_name out s t h)
      (ground arith)
