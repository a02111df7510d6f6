-- ===== src/Base/FilePaths/Weights.antt =====
-- The length of a path by its parts, and what `filepath.Clean` keeps of it.
use Prim.Native.Char.{code}
use Prim.Native.String.{String, ◌++◌}
use Prim.Native.Nat.{ℕ, suc, ◌+◌, ◌≤◌}
use mathlib.Core.Path.{◌≡◌, refl, sym, ap, ◌∙◌}
use mathlib.Core.Logic.{inl, inr}
use mathlib.Core.Bool.{Bool, true, false}
use mathlib.Core.List.{List, [], ◌∷◌, ◌++◌ as ◌+++◌, reverse, reverse-cons}
use native.Mathlib.Omega.{arith}
use package.text.Mathlib.TextEquality.{eq_iff}
use cross_validate.Base.Bools.{if◌then◌else◌, nat_eq, Bool-cases}
use cross_validate.Base.Equality.{◌==◌, string_eq}
use cross_validate.Base.Texts.{split_on, join}
use cross_validate.Base.Cuts.{size, size-append}
use cross_validate.Base.Splits.{split_on-parts}
use cross_validate.Base.FilePaths.{climb, resolve, resolve_parts}

-- What the parts of a path weigh with a slash each, and without the empty ones.
abbrev pub weight : List String → ℕ
weight [] = 0
weight (p ∷ ps) = suc (size p + weight ps)

abbrev pub load : String → ℕ
load p = if p == "" then 0 else suc (size p)

abbrev pub loads : List String → ℕ
loads [] = 0
loads (p ∷ ps) = load p + loads ps

pub weight-append : (ps qs : List String) → weight (ps +++ qs) ≡ weight ps + weight qs
weight-append [] qs = omega arith
weight-append (p ∷ ps) qs = let ih = weight-append ps qs in omega arith

pub weight-reverse : (ps : List String) → weight (reverse ps) ≡ weight ps
weight-reverse [] = refl
weight-reverse (p ∷ ps) =
    ap weight (reverse-cons p ps)
    ∙ weight-append (reverse ps) (p ∷ [])
    ∙ (let ih = weight-reverse ps in omega arith)

pub climb-weight :
    (rooted : Bool) (stack : List String) → weight (climb rooted stack) ≤ weight stack + 3
climb-weight true [] = omega arith
climb-weight false [] = omega arith
climb-weight rooted (top ∷ stack) = ground arith

pub resolve-weight :
    (rooted : Bool) (stack : List String) (p : String)
    → weight (resolve rooted stack p) ≤ weight stack + load p
resolve-weight rooted stack p = elim (Bool-cases (p == "")) [
  | inl e ↦ rw e (omega arith)
  | inr e ↦ elim (Bool-cases (p == ".")) [
    | inl f ↦ rw (e, f) (omega arith)
    | inr f ↦ elim (Bool-cases (p == "..")) [
      | inl g ↦
          let up : p ≡ ".." = (eq_iff p "..").0 g in
          let two : size p ≡ 2 = ap size up in
          let grown = climb-weight rooted stack in rw (e, f, g) (omega arith)
      | inr g ↦ rw (e, f, g) (omega arith)
    ]
  ]
]

pub resolve_parts-weight :
    (rooted : Bool) (stack ps : List String)
    → weight (resolve_parts rooted stack ps) ≤ weight stack + loads ps
unfolding resolve_parts
resolve_parts-weight rooted stack [] = let same = weight-reverse stack in omega arith
resolve_parts-weight rooted stack (p ∷ ps) =
    let step = resolve-weight rooted stack p in
    let rest = resolve_parts-weight rooted (resolve rooted stack p) ps in omega arith

-- A path has the length of its parts with their slashes.
pub size-join : (p : String) (ps : List String) → suc (size (join "/" (p ∷ ps))) ≡ weight (p ∷ ps)
unfolding join
size-join p [] = omega arith
size-join p (q ∷ ps) =
    let ih = size-join q ps in
    let whole = size-append p ("/" ++ join "/" (q ∷ ps)) in
    let slash = size-append "/" (join "/" (q ∷ ps)) in omega arith

pub weight-split_on : (s : String) → weight (split_on b'/' s) ≡ suc (size s)
unfolding split_on
weight-split_on String.[] = refl
weight-split_on (String.◌∷◌ c s) = elim (Bool-cases (nat_eq (code c) b'/')) [
  | inl here ↦ rw here (let ih = weight-split_on s in omega arith)
  | inr other ↦
      let (p, (ps, e)) = split_on-parts b'/' s in
      let ih : weight (p ∷ ps) ≡ suc (size s) = ap weight (sym e) ∙ weight-split_on s in
      rw (other, e) (omega arith)
]

-- The empty parts.
abbrev pub blanks : List String → ℕ
blanks [] = 0
blanks (p ∷ ps) = if p == "" then suc (blanks ps) else blanks ps

pub weight-loads : (ps : List String) → weight ps ≡ loads ps + blanks ps
weight-loads [] = refl
weight-loads (p ∷ ps) =
    let ih = weight-loads ps in
    elim (Bool-cases (p == "")) [
      | inl e ↦ let none_there : size p ≡ 0 = ap size ((eq_iff p "").0 e) in rw e (omega arith)
      | inr e ↦ rw e (omega arith)
    ]
