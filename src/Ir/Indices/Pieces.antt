-- ===== src/Ir/Indices/Pieces.antt =====
-- Templates as texts and brackets, and what the substitution does to them.
use cross_validate.Base.{
  ℕ, String, Bool, true, false, not, ◌&&◌, ◌||◌, List, [], ◌∷◌, map, All, none, some, if◌then◌else◌,
  ◌==◌, string_eq, nat_eq, ◌≡◌, refl, sym, ap, ◌∙◌, Bool-cases, inl, inr, arith, and_right,
}
use cross_validate.Ir.Indices.{bracket_contents, in_brackets, substitute_wildcards}
use text.Mathlib.TextLemmas.{nil-append, cons-append, append-nil, append_assoc}
use Prim.Native.Char.{Char, code}
use Prim.Native.String.{◌++◌}

-- No character has this code.
abbrev pub lacks : ℕ → String → Bool
lacks n String.[] = true
lacks n (String.◌∷◌ c s) = not (nat_eq (code c) n) && lacks n s

-- A text and the brackets behind it, by what they hold.
abbrev pub IsPiece : String × String → Type 0
IsPiece (before, inside) = (lacks b'[' before ≡ true) × (lacks b']' inside ≡ true)

-- The path of some pieces and the text behind them.
abbrev pub written : List (String × String) → String → String
written [] rest = rest
written ((before, inside) ∷ ps) rest =
    before ++ String.◌∷◌ "[" (inside ++ String.◌∷◌ "]" (written ps rest))

abbrev pub is_wild : String → Bool
is_wild inside = inside == "" || inside == "*"

-- Each wildcard takes the next index, while there is one.
abbrev pub filled : List (String × String) → List String → List (String × String)
filled [] indices = []
filled (p ∷ ps) [] = p ∷ ps
filled ((before, inside) ∷ ps) (i ∷ is) =
    if is_wild inside then (before, i) ∷ filled ps is else (before, inside) ∷ filled ps (i ∷ is)

-- The text that is read so far, with the next character.
pub one-append : (c : Char) (s : String) → String.◌∷◌ c String.[] ++ s ≡ String.◌∷◌ c s
one-append c s = cons-append c String.[] s ∙ ap (λ t. String.◌∷◌ c t) (nil-append s)

append-cons :
    (acc : String) (c : Char) (s : String)
    → (acc ++ String.◌∷◌ c String.[]) ++ s ≡ acc ++ String.◌∷◌ c s
append-cons acc c s =
    append_assoc acc (String.◌∷◌ c String.[]) s ∙ ap (λ t. acc ++ t) (one-append c s)

bracket_contents-outside :
    (t s : String) → lacks b'[' t ≡ true → bracket_contents none (t ++ s) ≡ bracket_contents none s
unfolding bracket_contents
bracket_contents-outside String.[] s h = ap (bracket_contents none) (nil-append s)
bracket_contents-outside (String.◌∷◌ c t) s h =
    ap (bracket_contents none) (cons-append c t s)
    ∙ (let other : nat_eq (code c) b'[' ≡ false = ground arith in
        rw (other, bracket_contents) (bracket_contents-outside t s (and_right _ _ h)))

bracket_contents-inside :
    (acc t s : String)
    → lacks b']' t ≡ true
    → bracket_contents (some acc) (t ++ String.◌∷◌ "]" s) ≡ (acc ++ t) ∷ bracket_contents none s
unfolding bracket_contents
bracket_contents-inside acc String.[] s h =
    ap (bracket_contents (some acc)) (nil-append (String.◌∷◌ "]" s))
    ∙ ap (λ t. t ∷ bracket_contents none s) (sym (append-nil acc))
bracket_contents-inside acc (String.◌∷◌ c t) s h =
    ap (bracket_contents (some acc)) (cons-append c t (String.◌∷◌ "]" s))
    ∙ (let other : nat_eq (code c) b']' ≡ false = ground arith in
        rw other (
          bracket_contents-inside (acc ++ String.◌∷◌ c String.[]) t s (and_right _ _ h)
          ∙ ap (λ u. u ∷ bracket_contents none s) (append-cons acc c t)))

substitute-outside :
    (t s : String) (is : List String)
    → lacks b'[' t ≡ true
    → substitute_wildcards none (t ++ s) is ≡ t ++ substitute_wildcards none s is
unfolding substitute_wildcards
substitute-outside String.[] s is h =
    ap (λ t. substitute_wildcards none t is) (nil-append s) ∙ sym (nil-append _)
substitute-outside (String.◌∷◌ c t) s is h =
    let other : nat_eq (code c) b'[' ≡ false = ground arith in
    ap (λ u. substitute_wildcards none u is) (cons-append c t s)
    ∙ rw other (
        ap (λ u. String.◌∷◌ c u) (substitute-outside t s is (and_right _ _ h))
        ∙ sym (cons-append c t (substitute_wildcards none s is)))

pub filled-nil : (ps : List (String × String)) → filled ps [] ≡ ps
filled-nil [] = refl
filled-nil (p ∷ ps) = refl

-- What brackets become, and which indices are left behind them.
abbrev after_brackets : String → String → List String → String
after_brackets inside s [] = in_brackets inside ++ substitute_wildcards none s []
after_brackets inside s (i ∷ is) =
    if is_wild inside
    then in_brackets i ++ substitute_wildcards none s is
    else in_brackets inside ++ substitute_wildcards none s (i ∷ is)

substitute-inside :
    (acc t s : String) (is : List String)
    → lacks b']' t ≡ true
    → substitute_wildcards (some acc) (t ++ String.◌∷◌ "]" s) is ≡ after_brackets (acc ++ t) s is
unfolding substitute_wildcards
substitute-inside acc String.[] s [] h =
    ap (λ u. substitute_wildcards (some acc) u []) (nil-append (String.◌∷◌ "]" s))
    ∙ ap (λ u. after_brackets u s []) (sym (append-nil acc))
substitute-inside acc String.[] s (i ∷ is) h =
    ap (λ u. substitute_wildcards (some acc) u (i ∷ is)) (nil-append (String.◌∷◌ "]" s))
    ∙ ap (λ u. after_brackets u s (i ∷ is)) (sym (append-nil acc))
substitute-inside acc (String.◌∷◌ c t) s [] h =
    let other : nat_eq (code c) b']' ≡ false = ground arith in
    ap (λ u. substitute_wildcards (some acc) u []) (cons-append c t (String.◌∷◌ "]" s))
    ∙ rw other (
        substitute-inside (acc ++ String.◌∷◌ c String.[]) t s [] (and_right _ _ h)
        ∙ ap (λ u. after_brackets u s []) (append-cons acc c t))
substitute-inside acc (String.◌∷◌ c t) s (i ∷ is) h =
    let other : nat_eq (code c) b']' ≡ false = ground arith in
    ap (λ u. substitute_wildcards (some acc) u (i ∷ is)) (cons-append c t (String.◌∷◌ "]" s))
    ∙ rw other (
        substitute-inside (acc ++ String.◌∷◌ c String.[]) t s (i ∷ is) (and_right _ _ h)
        ∙ ap (λ u. after_brackets u s (i ∷ is)) (append-cons acc c t))

substitute-piece :
    (before inside s : String) (is : List String)
    → IsPiece (before, inside)
    → substitute_wildcards none (before ++ String.◌∷◌ "[" (inside ++ String.◌∷◌ "]" s)) is
      ≡ before ++ after_brackets inside s is
unfolding substitute_wildcards
substitute-piece before inside s is (h, k) =
    substitute-outside before (String.◌∷◌ "[" (inside ++ String.◌∷◌ "]" s)) is h
    ∙ ap (λ t. before ++ t)
        (substitute-inside "" inside s is k ∙ ap (λ t. after_brackets t s is) (nil-append inside))

-- Brackets in front of a text.
pub in_brackets-append :
    (inside s : String) → in_brackets inside ++ s ≡ String.◌∷◌ "[" (inside ++ String.◌∷◌ "]" s)
in_brackets-append inside s =
    append_assoc "[" (inside ++ "]") s
    ∙ one-append "[" ((inside ++ "]") ++ s)
    ∙ ap (λ t. String.◌∷◌ "[" t)
        (append_assoc inside "]" s ∙ ap (λ t. inside ++ t) (one-append "]" s))

pub substitute_wildcards-written :
    (ps : List (String × String)) (rest : String) (is : List String)
    → All IsPiece ps
    → lacks b'[' rest ≡ true
    → substitute_wildcards none (written ps rest) is ≡ written (filled ps is) rest
unfolding substitute_wildcards
substitute_wildcards-written [] rest is h k =
    ap (λ t. substitute_wildcards none t is) (sym (append-nil rest))
    ∙ substitute-outside rest "" is k
    ∙ append-nil rest
substitute_wildcards-written ((before, inside) ∷ ps) rest [] h k =
    substitute-piece before inside (written ps rest) [] h.0
    ∙ ap (λ t. before ++ t)
        (in_brackets-append inside _
          ∙ ap (λ t. String.◌∷◌ "[" (inside ++ String.◌∷◌ "]" t))
              (substitute_wildcards-written ps rest [] h.1 k
                ∙ ap (λ qs. written qs rest) (filled-nil ps)))
substitute_wildcards-written ((before, inside) ∷ ps) rest (i ∷ is) h k =
    substitute-piece before inside (written ps rest) (i ∷ is) h.0
    ∙ elim (Bool-cases (is_wild inside)) [
      | inl wild ↦ rw wild (
          ap (λ t. before ++ t)
            (in_brackets-append i _
              ∙ ap (λ t. String.◌∷◌ "[" (i ++ String.◌∷◌ "]" t))
                  (substitute_wildcards-written ps rest is h.1 k)))
      | inr given ↦ rw given (
          ap (λ t. before ++ t)
            (in_brackets-append inside _
              ∙ ap (λ t. String.◌∷◌ "[" (inside ++ String.◌∷◌ "]" t))
                  (substitute_wildcards-written ps rest (i ∷ is) h.1 k)))
    ]

pub bracket_contents-written :
    (ps : List (String × String)) (rest : String)
    → All IsPiece ps
    → lacks b'[' rest ≡ true
    → bracket_contents none (written ps rest) ≡ map (λ p. p.1) ps
unfolding bracket_contents
bracket_contents-written [] rest h k =
    ap (bracket_contents none) (sym (append-nil rest)) ∙ bracket_contents-outside rest "" k
bracket_contents-written ((before, inside) ∷ ps) rest h k =
    bracket_contents-outside before _ h.0.0
    ∙ bracket_contents-inside "" inside (written ps rest) h.0.1
    ∙ (λ i. nil-append inside i ∷ bracket_contents-written ps rest h.1 k i)
