-- ===== src/Base/Texts.antt =====
-- The functions of Go's `strings` and `strconv` that the program calls, over characters. A string
-- is a list of characters, and the separators are ASCII, so positions in bytes and in characters
-- cut a text at the same places; comparing by code points orders texts as comparing by bytes does.
use Prim.Native.Nat.{ℕ, zero, suc, ◌+◌, ◌-◌, ◌*◌}
use Prim.Native.Char.{Char, code}
use Prim.Native.String
use Prim.Native.String.{String, [], ◌∷◌}
use mathlib.Core.Path.{◌≡◌, refl}
use mathlib.Core.Bool.{Bool, true, false, not, ◌&&◌, ◌||◌}
use mathlib.Core.Option.{Option, none, some}
use mathlib.Core.List.{List}
use native.Mathlib.Omega.{arith}
use cross_validate.Base.Bools.{ltb, leb, nat_eq, if◌then◌else◌}
use package.text.Mathlib.TextEquality.{eq_iff, Char-path}
use cross_validate.Base.Equality.{◌==◌, string_eq, nat_eq_iff}
use cross_validate.Base.Int.{ℤ, pos, negsuc}

-- `s < t`
unfoldable pub str_lt : String → String → Bool
str_lt [] [] = false
str_lt [] (_ ∷ _) = true
str_lt (_ ∷ _) [] = false
str_lt (c ∷ s) (d ∷ t) =
    if ltb (code c) (code d) then true else if ltb (code d) (code c) then false else str_lt s t

pub str_lt_asymm : (s t : String) → str_lt s t ≡ true → str_lt t s ≡ false
unfolding str_lt
str_lt_asymm [] [] h = refl
str_lt_asymm [] (d ∷ t) h = refl
str_lt_asymm (c ∷ s) [] h = cc
str_lt_asymm (c ∷ s) (d ∷ t) h = ground (arith, str_lt_asymm s t)

str_lt_tie : (s t : String) → str_lt s t ≡ false → str_lt t s ≡ false → s ≡ t
unfolding str_lt
str_lt_tie [] [] h k = refl
str_lt_tie [] (d ∷ t) h k = cc
str_lt_tie (c ∷ s) [] h k = cc
str_lt_tie (c ∷ s) (d ∷ t) h k =
    let same_code : nat_eq (code c) (code d) ≡ true = ground arith in
    let same : c ≡ d = Char-path c d ((nat_eq_iff (code c) (code d)).0 same_code) in
    let rest : s ≡ t = str_lt_tie s t (ground arith) (ground arith) in λ i. same i ∷ rest i

pub str_lt_total : (s t : String) → (s == t) ≡ false → str_lt t s ≡ false → str_lt s t ≡ true
str_lt_total s t other h = ground (arith, eq_iff s t, str_lt_tie s t)

-- One step of a comparison by several texts: `r` and `r'` compare the rest, both ways round.
pub by_text_asymm :
    (s t : String) (r r' : Bool)
    → (r ≡ true → r' ≡ false)
    → (if not (s == t) then str_lt s t else r) ≡ true
    → (if not (t == s) then str_lt t s else r') ≡ false
by_text_asymm s t r r' h k = ground (arith, eq_iff s t, eq_iff t s, str_lt_asymm s t)

-- `strings.HasPrefix(s, p)`
unfoldable pub has_prefix : String → String → Bool
has_prefix s [] = true
has_prefix [] (_ ∷ _) = false
has_prefix (c ∷ s) (d ∷ p) = nat_eq (code c) (code d) && has_prefix s p

-- `strings.Contains(s, p)`
unfoldable pub contains : String → String → Bool
unfolding has_prefix
contains [] p = has_prefix [] p
contains (c ∷ s) p = has_prefix (c ∷ s) p || contains s p

abbrev pub push_part : Char → List String → List String
push_part c List.[] = List.◌∷◌ (c ∷ []) List.[]
push_part c (List.◌∷◌ part parts) = List.◌∷◌ (c ∷ part) parts

-- `strings.Split(s, sep)` for a separator of one character
unfoldable pub split_on : ℕ → String → List String
split_on sep [] = List.◌∷◌ "" List.[]
split_on sep (c ∷ s) =
    let parts = split_on sep s in
    if nat_eq (code c) sep then List.◌∷◌ "" parts else push_part c parts

-- `strings.Join(parts, sep)`
unfoldable pub join : String → List String → String
join sep List.[] = ""
join sep (List.◌∷◌ part List.[]) = part
join sep (List.◌∷◌ part (List.◌∷◌ next parts)) =
    String.◌++◌ part (String.◌++◌ sep (join sep (List.◌∷◌ next parts)))

-- `fmt.Sprintf` on strings, and `+`.
abbrev pub text : List String → String
text List.[] = ""
text (List.◌∷◌ s ss) = String.◌++◌ s (text ss)

-- The text before the first occurrence of a character and the text behind it, if it occurs:
-- what `strings.Index` and two slices give.
abbrev pub add_before : Char → Option (String × String) → Option (String × String)
add_before c none = none
add_before c (some (before, after)) = some (c ∷ before, after)

unfoldable pub cut_at : ℕ → String → Option (String × String)
cut_at sep [] = none
cut_at sep (c ∷ s) =
    let rest = cut_at sep s in if nat_eq (code c) sep then some ("", s) else add_before c rest

-- `strings.LastIndex` with the slice behind it; the whole text where the character is absent.
unfoldable pub after_last : ℕ → String → String
after_last sep s = go s s
  where
    go : String → String → String
    go best [] = best
    go best (c ∷ t) = if nat_eq (code c) sep then go t t else go best t

-- `strconv.Itoa` of a number that is not negative: its digits.
abbrev pub is_digit : Char → Bool
is_digit c = leb b'0' (code c) && leb (code c) b'9'

digits_from : ℕ → String → Option ℕ
digits_from acc [] = some acc
digits_from acc (c ∷ s) =
    let rest = digits_from (10 * acc + (code c - b'0')) s in if is_digit c then rest else none

unsigned : String → Option ℕ
unfolding digits_from
unsigned [] = none
unsigned (c ∷ s) = digits_from 0 (c ∷ s)

abbrev pub in_range : (limit : ℕ) → (ℕ → ℤ) → Option ℕ → Option ℤ
in_range limit f none = none
in_range limit f (some n) = if leb n limit then some (f n) else none

abbrev pub negate : ℕ → ℤ
negate zero = pos 0
negate (suc n) = negsuc n

-- `strconv.Atoi` on a 64-bit machine: an optional sign, decimal digits, and the range of int64.
unfoldable pub atoi : String → Option ℤ
unfolding unsigned
atoi [] = none
atoi (c ∷ s) =
    if nat_eq (code c) b'-'
    then in_range 9223372036854775808 negate (unsigned s)
    else if nat_eq (code c) b'+'
    then in_range 9223372036854775807 pos (unsigned s)
    else in_range 9223372036854775807 pos (unsigned (c ∷ s))

-- `unicode.IsSpace`
abbrev pub is_space : Char → Bool
is_space c =
    let n = code c in
    leb 9 n && leb n 13
    || nat_eq n 32
    || nat_eq n 0x85
    || nat_eq n 0xa0
    || nat_eq n 0x1680
    || leb 0x2000 n && leb n 0x200a
    || nat_eq n 0x2028
    || nat_eq n 0x2029
    || nat_eq n 0x202f
    || nat_eq n 0x205f
    || nat_eq n 0x3000

trim_left : String → String
trim_left [] = []
trim_left (c ∷ s) = if is_space c then trim_left s else c ∷ s

trim_right : String → String
trim_right [] = []
trim_right (c ∷ s) = keep c (trim_right s)
  where
    keep : Char → String → String
    keep d [] = if is_space d then [] else d ∷ []
    keep d (e ∷ t) = d ∷ e ∷ t

-- `strings.TrimSpace`
unfoldable pub trim_space : String → String
unfolding trim_left trim_right
trim_space s = trim_left (trim_right s)
