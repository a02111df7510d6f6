-- ===== src/Base/Cuts.antt =====
-- Searching in texts: `strings.Index` with the slices around the match, and `strings.TrimPrefix`.
use Prim.Native.Nat.{ℕ, suc, ◌+◌}
use Prim.Native.Char.{Char, code}
use Prim.Native.String.{String, [], ◌∷◌, ◌++◌}
use mathlib.Core.Path.{◌≡◌, refl, ap, sym, subst, ◌∙◌}
use text.Mathlib.TextLemmas.{nil-append, cons-append, append_assoc}
use mathlib.Core.Logic.{inl, inr}
use mathlib.Core.Bool.{Bool, true, false, ◌&&◌}
use mathlib.Core.Option
use mathlib.Core.Option.{Option, none, some}
use native.Mathlib.Omega.{arith}
use text.Mathlib.TextEquality.{Char-path}
use cross_validate.Base.Bools.{nat_eq, if◌then◌else◌, Bool-cases, and_left, and_right}
use cross_validate.Base.Equality.{nat_eq_iff}
use cross_validate.Base.Texts.{has_prefix, contains, add_before}

abbrev pub size : String → ℕ
size [] = 0
size (_ ∷ s) = suc (size s)

-- The text behind a prefix of the length of `p`.
drop_prefix : String → String → String
drop_prefix s [] = s
drop_prefix [] (_ ∷ _) = []
drop_prefix (_ ∷ s) (_ ∷ p) = drop_prefix s p

-- `strings.TrimPrefix(s, p)`
unfoldable pub trim_prefix : String → String → String
unfolding has_prefix drop_prefix
trim_prefix s p = if has_prefix s p then drop_prefix s p else s

-- The text before the first occurrence of `p` and the text behind it.
unfoldable pub cut : String → String → Option (String × String)
unfolding has_prefix drop_prefix
cut p [] = if has_prefix [] p then some ([], drop_prefix [] p) else none
cut p (c ∷ s) =
    let rest = add_before c (cut p s) in
    if has_prefix (c ∷ s) p then some ([], drop_prefix (c ∷ s) p) else rest

has_prefix-append : (s p : String) → has_prefix s p ≡ true → s ≡ p ++ drop_prefix s p
unfolding has_prefix drop_prefix
has_prefix-append s [] h = sym (nil-append s)
has_prefix-append [] (d ∷ p) h = cc
has_prefix-append (c ∷ s) (d ∷ p) h =
    let here : c ≡ d = Char-path c d ((nat_eq_iff (code c) (code d)).0 (and_left _ _ h)) in
    (λ i. here i ∷ has_prefix-append s p (and_right _ _ h) i)
    ∙ sym (cons-append d p (drop_prefix s p))

and_false :
    (a : Bool) {b b' : Bool} → (b ≡ false → b' ≡ false) → (a && b) ≡ false → (a && b') ≡ false
and_false true k h = k h
and_false false k h = refl

-- A prefix stays one when text is appended.
has_prefix-extend : (s p t : String) → has_prefix (s ++ t) p ≡ false → has_prefix s p ≡ false
unfolding has_prefix
has_prefix-extend s [] t h = cc
has_prefix-extend [] (d ∷ p) t h = refl
has_prefix-extend (c ∷ s) (d ∷ p) t h =
    let whole : has_prefix (c ∷ (s ++ t)) (d ∷ p) ≡ false = rw (cons-append c s t) at h in
    and_false (nat_eq (code c) (code d)) (has_prefix-extend s p t) whole

-- What a cut gives: the parts, and no earlier occurrence. `p` is `q ++ x`, so with `q` the text
-- before the match reaches to the last place at which a match could overlap.
abbrev pub IsCut : String → String → String → String × String → Type 0
IsCut p q s (before, after) = (s ≡ before ++ (p ++ after)) × (contains (before ++ q) p ≡ false)

module _ (p q x : String) (whole : p ≡ q ++ x) where
  overlap : (before after : String) → before ++ (p ++ after) ≡ (before ++ q) ++ (x ++ after)
  overlap before after =
      ap (λ t. before ++ (t ++ after)) whole
      ∙ ap (λ t. before ++ t) (append_assoc q x after)
      ∙ sym (append_assoc before q (x ++ after))

  IsCut-here :
      (s : String)
      → has_prefix s p ≡ true
      → contains q p ≡ false
      → IsCut p q s ([], drop_prefix s p)
  IsCut-here s h e =
      (has_prefix-append s p h ∙ sym (nil-append _), ap (λ t. contains t p) (nil-append q) ∙ e)

  IsCut-later :
      (c : Char) (s before after : String)
      → has_prefix (c ∷ s) p ≡ false
      → IsCut p q s (before, after)
      → IsCut p q (c ∷ s) (c ∷ before, after)
  unfolding contains
  IsCut-later c s before after h (e, lacks) =
      let front = cons-append c before q in
      let given : c ∷ s ≡ (c ∷ (before ++ q)) ++ (x ++ after) =
        ap (λ t. c ∷ t) (e ∙ overlap before after)
        ∙ sym (cons-append c (before ++ q) (x ++ after)) in
      let shorter =
        has_prefix-extend (c ∷ (before ++ q)) p (x ++ after)
          (subst (λ t. has_prefix t p ≡ false) given h) in
      (
        ap (λ t. c ∷ t) e ∙ sym (cons-append c before (p ++ after)),
        ap (λ t. contains t p) front ∙ rw (shorter, lacks) refl,
      )

  IsCut-add_before :
      (c : Char) (s : String) (o : Option (String × String)) (r : String × String)
      → has_prefix (c ∷ s) p ≡ false
      → ((r' : String × String) → o ≡ some r' → IsCut p q s r')
      → add_before c o ≡ some r
      → IsCut p q (c ∷ s) r
  IsCut-add_before c s none r h k e = cc
  IsCut-add_before c s (some (b, a)) r h k e =
      subst (IsCut p q (c ∷ s)) (Option.some_inj.0 e) (IsCut-later c s b a h (k (b, a) refl))

  -- A cut gives the text back, and has found the first occurrence.
  pub cut-IsCut :
      (s : String) (r : String × String)
      → contains q p ≡ false
      → has_prefix [] p ≡ false
      → cut p s ≡ some r
      → IsCut p q s r
  unfolding cut
  cut-IsCut [] r k n e = absurd (Option.none-ne-some _ (rw n at e))
  cut-IsCut (c ∷ s) r k n e = elim (Bool-cases (has_prefix (c ∷ s) p)) [
    | inl here ↦
        subst (IsCut p q (c ∷ s)) (Option.some_inj.0 (rw here at e)) (IsCut-here (c ∷ s) here k)
    | inr other ↦
        IsCut-add_before c s (cut p s) r other (λ r' h. cut-IsCut s r' k n h) (rw other at e)
  ]

add_before-none : (c : Char) (o : Option (String × String)) → add_before c o ≡ none → o ≡ none
add_before-none c none h = refl
add_before-none c (some (b, a)) h = cc

-- Without a cut there is no occurrence.
pub cut-none : (p s : String) → cut p s ≡ none → contains s p ≡ false
unfolding cut contains
cut-none p [] e = ground arith
cut-none p (c ∷ s) e = elim (Bool-cases (has_prefix (c ∷ s) p)) [
  | inl here ↦ absurd (Option.none-ne-some _ (sym (rw here at e)))
  | inr other ↦ rw (other, cut-none p s (add_before-none c _ (rw other at e))) refl
]

pub size-append : (s t : String) → size (s ++ t) ≡ size s + size t
size-append [] t = ap size (nil-append t) ∙ omega arith
size-append (c ∷ s) t = ap size (cons-append c s t) ∙ (let ih = size-append s t in omega arith)

-- What lies behind a match is shorter by the match at least.
pub cut-size :
    (p q s before after : String)
    → IsCut p q s (before, after)
    → size s ≡ size before + (size p + size after)
cut-size p q s before after (e, _) =
    ap size e ∙ size-append before (p ++ after) ∙ ap (λ n. size before + n) (size-append p after)

pub trim_prefix-append : (s p : String) → has_prefix s p ≡ true → s ≡ p ++ trim_prefix s p
unfolding trim_prefix
trim_prefix-append s p h = rw h (has_prefix-append s p h)

-- A text in front is a prefix, and what stands behind it is left.
nat_eq_self : (n : ℕ) → nat_eq n n ≡ true
nat_eq_self n = (nat_eq_iff n n).1 refl

pub has_prefix-front : (p t : String) → has_prefix (p ++ t) p ≡ true
unfolding has_prefix
has_prefix-front [] t = refl
has_prefix-front (c ∷ p) t =
    ap (λ s. has_prefix s (c ∷ p)) (cons-append c p t)
    ∙ rw (nat_eq_self (code c), has_prefix-front p t) refl

drop_prefix-front : (p t : String) → drop_prefix (p ++ t) p ≡ t
unfolding drop_prefix
drop_prefix-front [] t = nil-append t
drop_prefix-front (c ∷ p) t =
    ap (λ s. drop_prefix s (c ∷ p)) (cons-append c p t) ∙ drop_prefix-front p t

pub trim_prefix-front : (p t : String) → trim_prefix (p ++ t) p ≡ t
unfolding trim_prefix
trim_prefix-front p t = rw (has_prefix-front p t) (drop_prefix-front p t)

-- Where two texts in two parts are equal and the first parts are as long, the parts are equal.
pub append_cancel : (s t u v : String) → size s ≡ size t → s ++ u ≡ t ++ v → (s ≡ t) × (u ≡ v)
append_cancel [] [] u v h e = (refl, sym (nil-append u) ∙ e ∙ nil-append v)
append_cancel [] (d ∷ t) u v h e = absurd (omega arith)
append_cancel (c ∷ s) [] u v h e = absurd (omega arith)
append_cancel (c ∷ s) (d ∷ t) u v h e =
    let whole : c ∷ (s ++ u) ≡ d ∷ (t ++ v) = sym (cons-append c s u) ∙ e ∙ cons-append d t v in
    let (same, rest) = append_cancel s t u v (omega arith) (ap tail_of whole) in
    let head : c ≡ d = ap (head_of c) whole in ((λ i. head i ∷ same i), rest)
  where
    tail_of : String → String
    tail_of [] = []
    tail_of (_ ∷ s) = s

    head_of : Char → String → Char
    head_of c [] = c
    head_of c (d ∷ _) = d
