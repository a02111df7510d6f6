-- ===== src/Ir/Indices/Wildcards.antt =====
-- `specializeIndices` on templates and paths made of texts and brackets.
use cross_validate.Base.{
  String, Bool, true, false, not, ◌&&◌, ◌||◌, List, [], ◌∷◌, map, All, is_empty, if◌then◌else◌,
  ◌==◌, string_eq, ◌≡◌, refl, sym, ap, ◌∙◌, Bool-cases, inl, inr, arith, eq_iff,
}
use cross_validate.Base.Texts.{contains, has_prefix}
use cross_validate.Ir.Indices.{specialize_indices}
use text.Mathlib.TextLemmas.{nil-append, cons-append}
use Prim.Native.Char.{Char}
use Prim.Native.String.{◌++◌}
use cross_validate.Ir.Indices.Pieces.{
  lacks, IsPiece, written, is_wild, filled, filled-nil, one-append, substitute_wildcards-written,
  bracket_contents-written,
}

-- A template in which neither "[]" nor "[*]" occurs has no wildcard.
contains-behind : (t s p : String) → contains s p ≡ true → contains (t ++ s) p ≡ true
unfolding contains
contains-behind String.[] s p h = ap (λ u. contains u p) (nil-append s) ∙ h
contains-behind (String.◌∷◌ c t) s p h =
    ap (λ u. contains u p) (cons-append c t s)
    ∙ (let ih = contains-behind t s p h in ground (arith, ih))

abbrev shows_wild : String → Bool
shows_wild s = contains s "[]" || contains s "[*]"

or_right : (a b : Bool) → b ≡ true → (a || b) ≡ true
or_right a b h = ground arith

or_left : (a b : Bool) → a ≡ true → (a || b) ≡ true
or_left a b h = ground arith

has_wild :
    (before inside s : String)
    → is_wild inside ≡ true
    → shows_wild (before ++ String.◌∷◌ "[" (inside ++ String.◌∷◌ "]" s)) ≡ true
unfolding contains has_prefix
has_wild before inside s h = elim (Bool-cases (inside == "")) [
  | inl e ↦
      let bare : contains (String.◌∷◌ "[" (inside ++ String.◌∷◌ "]" s)) "[]" ≡ true =
        ap (λ t. contains (String.◌∷◌ "[" (t ++ String.◌∷◌ "]" s)) "[]") ((eq_iff inside "").0 e)
        ∙ ap (λ t. contains (String.◌∷◌ "[" t) "[]") (nil-append (String.◌∷◌ "]" s)) in
      or_left _ _ (contains-behind before _ "[]" bare)
  | inr other ↦
      let star : (inside == "*") ≡ true = ground arith in
      let bare : contains (String.◌∷◌ "[" (inside ++ String.◌∷◌ "]" s)) "[*]" ≡ true =
        ap (λ t. contains (String.◌∷◌ "[" (t ++ String.◌∷◌ "]" s)) "[*]")
          ((eq_iff inside "*").0 star)
        ∙ ap (λ t. contains (String.◌∷◌ "[" t) "[*]") (one-append "*" (String.◌∷◌ "]" s)) in
      or_right _ _ (contains-behind before _ "[*]" bare)
]

-- Wildcards behind a piece show as well.
shows_wild-behind : (t s : String) → shows_wild s ≡ true → shows_wild (t ++ s) ≡ true
shows_wild-behind t s h = elim (Bool-cases (contains s "[]")) [
  | inl e ↦ or_left _ _ (contains-behind t s "[]" e)
  | inr other ↦
      let e : contains s "[*]" ≡ true = ground arith in or_right _ _ (contains-behind t s "[*]" e)
]

shows_wild-cons : (c : Char) (s : String) → shows_wild s ≡ true → shows_wild (String.◌∷◌ c s) ≡ true
shows_wild-cons c s h =
    ap shows_wild (sym (one-append c s)) ∙ shows_wild-behind (String.◌∷◌ c String.[]) s h

shows_wild-piece :
    (before inside s : String)
    → shows_wild s ≡ true
    → shows_wild (before ++ String.◌∷◌ "[" (inside ++ String.◌∷◌ "]" s)) ≡ true
shows_wild-piece before inside s h =
    shows_wild-behind before _
      (shows_wild-cons "[" _ (shows_wild-behind inside _ (shows_wild-cons "]" s h)))

filled-tame :
    (ps : List (String × String)) (rest : String) (is : List String)
    → shows_wild (written ps rest) ≡ false
    → filled ps is ≡ ps
filled-tame [] rest is h = refl
filled-tame (p ∷ ps) rest [] h = refl
filled-tame ((before, inside) ∷ ps) rest (i ∷ is) h = elim (Bool-cases (is_wild inside)) [
  | inl wild ↦ let shown = has_wild before inside (written ps rest) wild in cc
  | inr given ↦ elim (Bool-cases (shows_wild (written ps rest))) [
    | inl later ↦ let shown = shows_wild-piece before inside (written ps rest) later in cc
    | inr tame ↦ rw given (ap (λ qs. (before, inside) ∷ qs) (filled-tame ps rest (i ∷ is) tame))
  ]
]

-- The early returns of `specializeIndices` give what the substitution would.
unless_early :
    (a b e : Bool) (x y z : String)
    → ((a || b) ≡ false → x ≡ z)
    → (e ≡ true → x ≡ z)
    → y ≡ z
    → (if not a && not b then x else (if e then x else y)) ≡ z
unless_early true b true x y z f g h = g refl
unless_early true b false x y z f g h = h
unless_early false true true x y z f g h = g refl
unless_early false true false x y z f g h = h
unless_early false false e x y z f g h = f refl

filled-is_empty :
    (ps : List (String × String)) (is : List String) → is_empty is ≡ true → filled ps is ≡ ps
filled-is_empty ps [] h = filled-nil ps
filled-is_empty ps (i ∷ is) h = cc

-- Of a template and a concrete path that are made of texts and closed brackets, `specializeIndices` gives the template with its wildcard brackets, in order, holding what the brackets of the concrete path hold, while there are any; other brackets and all texts are kept. The selector's template makes no difference.
pub specialize_indices-written :
    (template concrete : List (String × String)) (rest end selector : String)
    → All IsPiece template
    → lacks b'[' rest ≡ true
    → All IsPiece concrete
    → lacks b'[' end ≡ true
    → specialize_indices (written template rest) (written concrete end) selector
      ≡ written (filled template (map (λ p. p.1) concrete)) rest
unfolding specialize_indices
specialize_indices-written template concrete rest end selector h k h' k' =
    let indices = map (λ p. p.1) concrete in
    rw (bracket_contents-written concrete end h' k') (
      unless_early (contains (written template rest) "[]") (contains (written template rest) "[*]")
        (is_empty indices) _ _ _
        (λ tame. ap (λ ps. written ps rest) (sym (filled-tame template rest indices tame)))
        (λ e. ap (λ ps. written ps rest) (sym (filled-is_empty template indices e)))
        (substitute_wildcards-written template rest indices h k))
