-- ===== src/Ir/Owners/Longest.antt =====
-- The Application that `resolveOwner` gives a file.
use cross_validate.Base.{
  ℕ, ◌<◌, ◌≤◌, String, Bool, true, false, not, ◌&&◌, Option, none, some, List, [], ◌∷◌, ◌++◌, All,
  if◌then◌else◌, ◌==◌, string_eq, ◌≡◌, ◌⊎◌, refl, sym, ap, ◌∙◌, subst, arith, eq_iff, and_left,
  and_right, Bool-cases, inl, inr,
}
use cross_validate.Base.Texts.{has_prefix}
use cross_validate.Base.Cuts.{
  size, trim_prefix, trim_prefix-append, has_prefix-front, trim_prefix-front,
}
use cross_validate.Ir.Owners.{
  FileSystem, path_under, OwnerPrefix, is_longer, best_owner, resolve_owner,
}
use package.text.Mathlib.TextEquality.{Char-path}
use cross_validate.Base.{nat_eq_iff}
use Prim.Native.Char.{code}
use Prim.Native.String.{◌++◌ as ◌+++◌}

false-ne-true : false ≡ true → ⊥
false-ne-true e = cc

refused : (a b : Bool) → (a && b) ≡ false → a ≡ true → b ≡ false
refused a b h k = ground arith

-- The file is the directory, or the directory stands in it before a "/": a file right under "/" is
-- not under "/" this way.
abbrev pub IsUnder : String → String → Type 0
IsUnder file dir = (file ≡ dir) ⊎ ((rest : String) × (file ≡ dir +++ String.◌∷◌ "/" rest))

slash-front : (t : String) → has_prefix t "/" ≡ true → (rest : String) × (t ≡ String.◌∷◌ "/" rest)
unfolding has_prefix
slash-front String.[] h = absurd (false-ne-true h)
slash-front (String.◌∷◌ c t) h =
    let slash : c ≡ "/" = Char-path c "/" ((nat_eq_iff (code c) b'/').0 (and_left _ _ h)) in
    (t, λ i. String.◌∷◌ (slash i) t)

by_tests :
    (a b c : Bool)
    → (if a then true else if not b then false else c) ≡ true
    → (a ≡ true) ⊎ ((b ≡ true) × (c ≡ true))
by_tests true b c h = inl refl
by_tests false true c h = inr (refl, h)
by_tests false false c h = absurd (false-ne-true h)

to_tests :
    (a b c : Bool) → b ≡ true → c ≡ true → (if a then true else if not b then false else c) ≡ true
to_tests true b c h k = refl
to_tests false b c h k = rw (h, k) refl

path_under-IsUnder : (file dir : String) → path_under file dir ≡ true → IsUnder file dir
unfolding path_under
path_under-IsUnder file dir h =
    elim (by_tests (file == dir) (has_prefix file dir) (has_prefix (trim_prefix file dir) "/") h) [
      | inl same ↦ inl ((eq_iff file dir).0 same)
      | inr (prefix, slash) ↦
          let (rest, e) = slash-front (trim_prefix file dir) slash in
          inr (rest, trim_prefix-append file dir prefix ∙ ap (λ t. dir +++ t) e)
    ]

starts : (rest : String) → has_prefix (String.◌∷◌ "/" rest) "/" ≡ true
starts rest = unfold has_prefix in refl

IsUnder-path_under : (file dir : String) → IsUnder file dir → path_under file dir ≡ true
unfolding path_under
IsUnder-path_under file dir (inl same) = rw ((eq_iff file dir).1 same) refl
IsUnder-path_under file dir (inr (rest, e)) =
    to_tests (file == dir) (has_prefix file dir) (has_prefix (trim_prefix file dir) "/")
      (subst (λ t. has_prefix t dir ≡ true) (sym e) (has_prefix-front dir (String.◌∷◌ "/" rest)))
      (subst (λ t. has_prefix (trim_prefix t dir) "/" ≡ true) (sym e)
        (ap (λ t. has_prefix t "/") (trim_prefix-front dir (String.◌∷◌ "/" rest)) ∙ starts rest))

-- A prefix that the file is under is shorter, or is not longer.
abbrev pub IsBelow : String → ℕ → OwnerPrefix → Type 0
IsBelow abs n p = IsUnder abs p.dir → size p.dir < n

abbrev pub IsAtMost : String → ℕ → OwnerPrefix → Type 0
IsAtMost abs n p = IsUnder abs p.dir → size p.dir ≤ n

-- The owner is that of the first of the longest prefixes that the file is under, longer than `len` where there is one.
abbrev pub IsBest : String → Option ℕ → List OwnerPrefix → String → Type 0
IsBest abs len prefixes owner =
    (before after : List OwnerPrefix) × ((p : OwnerPrefix) × ((prefixes ≡ before ++ (p ∷ after))
        × (owner ≡ p.app_name)
        × IsUnder abs p.dir
        × (is_longer p.dir len ≡ true)
        × All (IsBelow abs (size p.dir)) before
        × All (IsAtMost abs (size p.dir)) after))

abbrev IsBlocked : String → Option ℕ → OwnerPrefix → Type 0
IsBlocked abs len p = path_under abs p.dir ≡ true → is_longer p.dir len ≡ false

at_most : (d e : String) → is_longer e (some (size d)) ≡ false → size e ≤ size d
at_most d e h = ground arith

longer_than : (d e : String) → is_longer e (some (size d)) ≡ true → size d < size e
longer_than d e h = ground arith

still_longer :
    (d e : String) (len : Option ℕ)
    → is_longer d len ≡ true
    → size d < size e
    → is_longer e len ≡ true
still_longer d e none h lt = refl
still_longer d e (some n) h lt = ground arith

below_longer :
    (d e : String) (len : Option ℕ)
    → is_longer d len ≡ false
    → is_longer e len ≡ true
    → size d < size e
below_longer d e none h k = absurd (false-ne-true (sym h))
below_longer d e (some n) h k = ground arith

All-IsAtMost :
    (abs : String) (d : String) (ps : List OwnerPrefix)
    → All (IsBlocked abs (some (size d))) ps
    → All (IsAtMost abs (size d)) ps
All-IsAtMost abs d [] h = tt
All-IsAtMost abs d (p ∷ ps) h =
    (λ under. at_most d p.dir (h.0 (IsUnder-path_under abs p.dir under)), All-IsAtMost abs d ps h.1)

best_owner-IsBest :
    (abs best : String) (len : Option ℕ) (prefixes : List OwnerPrefix)
    → ((best_owner abs best len prefixes ≡ best) × All (IsBlocked abs len) prefixes)
      ⊎ IsBest abs len prefixes (best_owner abs best len prefixes)
unfolding best_owner
best_owner-IsBest abs best len [] = inl (refl, tt)
best_owner-IsBest abs best len (q ∷ ps) =
    elim (Bool-cases (path_under abs q.dir && is_longer q.dir len)) [
      | inl take ↦
          let under = and_left _ _ take in
          let longer = and_right _ _ take in
          rw take (elim (best_owner-IsBest abs q.app_name (some (size q.dir)) ps) [
            | inl (same, blocked) ↦ inr (
              [],
              ps,
              (
                q,
                (
                  refl,
                  same,
                  path_under-IsUnder abs q.dir under,
                  longer,
                  tt,
                  All-IsAtMost abs q.dir ps blocked,
                ),
              ),
            )
            | inr (before, after, (p, (split, same, holds, over, below, rest))) ↦
                let more = longer_than q.dir p.dir over in
                inr (
                  q ∷ before,
                  after,
                  (
                    p,
                    (
                      ap (λ xs. q ∷ xs) split,
                      same,
                      holds,
                      still_longer q.dir p.dir len longer more,
                      ((λ _. more), below),
                      rest,
                    ),
                  ),
                )
          ])
      | inr skip ↦
          let blocked_here : IsBlocked abs len q =
            λ under. refused (path_under abs q.dir) (is_longer q.dir len) skip under in
          rw skip (elim (best_owner-IsBest abs best len ps) [
            | inl (same, blocked) ↦ inl (same, (blocked_here, blocked))
            | inr (before, after, (p, (split, same, holds, over, below, rest))) ↦ inr (
              q ∷ before,
              after,
              (
                p,
                (
                  ap (λ xs. q ∷ xs) split,
                  same,
                  holds,
                  over,
                  (
                    (λ under.
                        below_longer q.dir p.dir len
                          (blocked_here (IsUnder-path_under abs q.dir under)) over),
                    below,
                  ),
                  rest,
                ),
              ),
            )
          ])
    ]

-- The file is under no prefix.
outside :
    (abs : String) (ps : List OwnerPrefix)
    → All (IsBlocked abs none) ps
    → All (λ p. ¬ IsUnder abs p.dir) ps
outside abs [] h = tt
outside abs (p ∷ ps) h =
    (λ under. false-ne-true (sym (h.0 (IsUnder-path_under abs p.dir under))), outside abs ps h.1)

-- For a file with an absolute path, `resolveOwner` gives the Application of the first of the longest prefixes that are the path itself or stand in it before a "/", and "" if there is no such prefix; so "/" is no such prefix of a path that starts with one "/" only.
pub resolve_owner-IsBest :
    (fs : FileSystem) (file abs : String) (prefixes : List OwnerPrefix)
    → fs.absolute file ≡ some abs
    → ((resolve_owner fs file prefixes ≡ "") × All (λ p. ¬ IsUnder abs p.dir) prefixes)
      ⊎ IsBest abs none prefixes (resolve_owner fs file prefixes)
unfolding resolve_owner
resolve_owner-IsBest fs file abs prefixes e =
    rw (e, resolve_owner)
      (elim (best_owner-IsBest abs "" none prefixes) [
        | inl (none_found, blocked) ↦ inl (none_found, outside abs prefixes blocked)
        | inr best ↦ inr best
      ])
