-- ===== src/Base/Splits.antt =====
-- A text that is split is given back by joining its parts.
use Prim.Native.Nat.{ℕ}
use Prim.Native.Char.{Char, code}
use Prim.Native.String.{String, ◌++◌}
use mathlib.Core.Path.{◌≡◌, refl, ap, sym, subst, ◌∙◌}
use mathlib.Core.Logic.{inl, inr}
use mathlib.Core.Bool.{false}
use mathlib.Core.List.{List, [], ◌∷◌}
use text.Mathlib.TextEquality.{Char-path}
use text.Mathlib.TextLemmas.{nil-append, cons-append}
use cross_validate.Base.Bools.{nat_eq, Bool-cases}
use cross_validate.Base.Equality.{nat_eq_iff}
use cross_validate.Base.Texts.{split_on, join, push_part, contains, has_prefix}
use cross_validate.Base.Lists.{All}

-- There is a first part.
pub split_on-parts :
    (sep : ℕ) (s : String) → (p : String) × ((ps : List String) × (split_on sep s ≡ p ∷ ps))
unfolding split_on
split_on-parts sep String.[] = ("", ([], refl))
split_on-parts sep (String.◌∷◌ c s) = elim (Bool-cases (nat_eq (code c) sep)) [
  | inl here ↦ ("", (split_on sep s, rw here refl))
  | inr other ↦
      let (p, (ps, e)) = split_on-parts sep s in (String.◌∷◌ c p, (ps, rw (other, e) refl))
]

join-push_part :
    (sep : String) (c : Char) (p : String) (ps : List String)
    → join sep (push_part c (p ∷ ps)) ≡ String.◌∷◌ c (join sep (p ∷ ps))
unfolding join
join-push_part sep c p [] = refl
join-push_part sep c p (q ∷ ps) = cons-append c p (sep ++ join sep (q ∷ ps))

slash-append : (s : String) → "/" ++ s ≡ String.◌∷◌ "/" s
slash-append s = cons-append "/" "" s ∙ ap (λ t. String.◌∷◌ "/" t) (nil-append s)

pub join-split_on : (s : String) → join "/" (split_on b'/' s) ≡ s
unfolding join split_on
join-split_on String.[] = refl
join-split_on (String.◌∷◌ c s) =
    let (p, (ps, e)) = split_on-parts b'/' s in
    let ih : join "/" (p ∷ ps) ≡ s = ap (join "/") (sym e) ∙ join-split_on s in
    elim (Bool-cases (nat_eq (code c) b'/')) [
      | inl here ↦
          let slash : c ≡ "/" = Char-path c "/" ((nat_eq_iff (code c) b'/').0 here) in
          rw (here, e)
            (nil-append ("/" ++ join "/" (p ∷ ps))
              ∙ slash-append (join "/" (p ∷ ps))
              ∙ (λ i. String.◌∷◌ (sym slash i) (ih i)))
      | inr other ↦ rw (other, e) (join-push_part "/" c p ps ∙ ap (λ t. String.◌∷◌ c t) ih)
    ]

-- The parts hold no separator.
abbrev pub LacksSlash : String → Type 0
LacksSlash s = contains s "/" ≡ false

LacksSlash-cons :
    (c : Char) (s : String)
    → nat_eq (code c) b'/' ≡ false
    → LacksSlash s
    → LacksSlash (String.◌∷◌ c s)
unfolding contains has_prefix
LacksSlash-cons c s other h = rw (other, h) refl

pub split_on-LacksSlash : (s : String) → All LacksSlash (split_on b'/' s)
unfolding split_on contains has_prefix
split_on-LacksSlash String.[] = (refl, tt)
split_on-LacksSlash (String.◌∷◌ c s) = elim (Bool-cases (nat_eq (code c) b'/')) [
  | inl here ↦ rw here (refl, split_on-LacksSlash s)
  | inr other ↦
      let (p, (ps, e)) = split_on-parts b'/' s in
      let lacking : All LacksSlash (p ∷ ps) = subst (All LacksSlash) e (split_on-LacksSlash s) in
      rw (other, e) (LacksSlash-cons c p other lacking.0, lacking.1)
]
