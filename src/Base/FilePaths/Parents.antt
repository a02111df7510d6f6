-- ===== src/Base/FilePaths/Parents.antt =====
-- Going up with `filepath.Dir` makes a path shorter until it is "." or "/".
use Prim.Native.Char.{Char, code}
use Prim.Native.String.{String, ◌++◌}
use Prim.Native.Nat.{ℕ, suc, ◌+◌, ◌≤◌, ◌<◌}
use mathlib.Core.Path.{◌≡◌, refl, sym, ap, ◌∙◌, subst}
use mathlib.Core.Logic.{◌⊎◌, inl, inr}
use mathlib.Core.Bool.{Bool, true, false, ◌||◌}
use mathlib.Core.List.{List, [], ◌∷◌}
use native.Mathlib.Omega.{arith}
use package.text.Mathlib.TextLemmas.{append-nil}
use package.text.Mathlib.TextEquality.{eq_iff}
use cross_validate.Base.Bools.{if◌then◌else◌, nat_eq, Bool-cases}
use cross_validate.Base.Equality.{◌==◌, string_eq}
use cross_validate.Base.Texts.{split_on, join, has_prefix, push_part}
use cross_validate.Base.Cuts.{size, size-append}
use cross_validate.Base.FilePaths.{resolve_parts, clean, keep_slash, up_to_last, dir_name}
use cross_validate.Base.FilePaths.Weights.{
  weight, resolve_parts-weight, size-join, weight-split_on, blanks, weight-loads,
}

-- The text ends with a slash, or is empty.
abbrev Slashed : String → Type 0
Slashed String.[] = Unit
Slashed (String.◌∷◌ c String.[]) = nat_eq (code c) b'/' ≡ true
Slashed (String.◌∷◌ c (String.◌∷◌ d s)) = Slashed (String.◌∷◌ d s)

keep_slash-Slashed : (c : Char) (s : String) → Slashed s → Slashed (keep_slash c s)
keep_slash-Slashed c String.[] h = elim (Bool-cases (nat_eq (code c) b'/')) [
  | inl here ↦ rw here here
  | inr other ↦ rw other tt
]
keep_slash-Slashed c (String.◌∷◌ d s) h = h

up_to_last-Slashed : (s : String) → Slashed (up_to_last s)
unfolding up_to_last
up_to_last-Slashed String.[] = tt
up_to_last-Slashed (String.◌∷◌ c s) = keep_slash-Slashed c (up_to_last s) (up_to_last-Slashed s)

keep_slash-size : (c : Char) (s : String) → size (keep_slash c s) ≤ suc (size s)
keep_slash-size c String.[] = elim (Bool-cases (nat_eq (code c) b'/')) [
  | inl here ↦ rw here (omega arith)
  | inr other ↦ rw other (omega arith)
]
keep_slash-size c (String.◌∷◌ d s) = omega arith

up_to_last-size : (s : String) → size (up_to_last s) ≤ size s
unfolding up_to_last
up_to_last-size String.[] = omega arith
up_to_last-size (String.◌∷◌ c s) =
    let kept = keep_slash-size c (up_to_last s) in let ih = up_to_last-size s in omega arith

-- Behind the first part of such a text there is an empty one.
abbrev behind_first : List String → List String
behind_first [] = []
behind_first (_ ∷ ps) = ps

blanks-behind : (ps : List String) → blanks (behind_first ps) ≤ blanks ps
blanks-behind [] = omega arith
blanks-behind (p ∷ ps) = elim (Bool-cases (p == "")) [
  | inl e ↦ rw e (omega arith)
  | inr e ↦ rw e (omega arith)
]

behind-push :
    (c : Char) (ps : List String)
    → blanks (behind_first ps) ≤ blanks (behind_first (push_part c ps))
behind-push c [] = omega arith
behind-push c (p ∷ ps) = omega arith

split_on-Slashed :
    (c : Char) (s : String)
    → Slashed (String.◌∷◌ c s)
    → 1 ≤ blanks (behind_first (split_on b'/' (String.◌∷◌ c s)))
unfolding split_on
split_on-Slashed c String.[] h = rw h (omega arith)
split_on-Slashed c (String.◌∷◌ d s) h =
    let ih = split_on-Slashed d s h in
    elim (Bool-cases (nat_eq (code c) b'/')) [
      | inl here ↦
          rw here (let more = blanks-behind (split_on b'/' (String.◌∷◌ d s)) in omega arith)
      | inr other ↦
          rw other (let same = behind-push c (split_on b'/' (String.◌∷◌ d s)) in omega arith)
    ]

-- What is resolved of such a text; `n` is two where it begins with a slash.
resolved-weight :
    (rooted : Bool) (u : String) (n : ℕ)
    → n ≤ blanks (split_on b'/' u)
    → weight (resolve_parts rooted [] (split_on b'/' u)) + n ≤ suc (size u)
resolved-weight rooted u n h =
    let resolved = resolve_parts-weight rooted [] (split_on b'/' u) in
    let total = weight-split_on u in let parts = weight-loads (split_on b'/' u) in omega arith

IsTop : String → Type 0
IsTop s = (s ≡ ".") ⊎ (s ≡ "/")

true-ne-false : true ≡ false → ⊥
true-ne-false e = cc

join_nil : join "/" [] ≡ ""
unfolding join
join_nil = refl

unrooted-shorter :
    (ps : List String) (n : ℕ)
    → weight ps + 1 ≤ suc n
    → IsTop (if join "/" ps == "" then "." else join "/" ps)
      ⊎ (size (if join "/" ps == "" then "." else join "/" ps) < n)
unfolding IsTop
unrooted-shorter ps n h = elim (Bool-cases (join "/" ps == "")) [
  | inl e ↦ rw e (inl (inl refl))
  | inr e ↦ rw e (inr (by_parts ps h e))
]
  where
    by_parts :
        (ps : List String)
        → weight ps + 1 ≤ suc n
        → (join "/" ps == "") ≡ false
        → size (join "/" ps) < n
    by_parts [] h e =
        let blank : "" ≡ join "/" [] = sym join_nil in
        let same = ap (λ t. t == "") blank in absurd (true-ne-false (same ∙ e))
    by_parts (p ∷ ps) h e = let joined = size-join p ps in omega arith

rooted-shorter :
    (ps : List String) (n : ℕ)
    → weight ps + 2 ≤ suc n
    → IsTop ("/" ++ join "/" ps) ⊎ (size ("/" ++ join "/" ps) < n)
unfolding IsTop
rooted-shorter [] n h = inl (inr (ap (λ t. "/" ++ t) join_nil ∙ append-nil "/"))
rooted-shorter (p ∷ ps) n h =
    let joined = size-join p ps in
    let whole = size-append "/" (join "/" (p ∷ ps)) in inr (omega arith)

clean-rooted :
    (u : String)
    → has_prefix u "/" ≡ true
    → clean u ≡ "/" ++ join "/" (resolve_parts true [] (split_on b'/' u))
unfolding clean
clean-rooted u h = rw h refl

clean-unrooted :
    (u : String)
    → has_prefix u "/" ≡ false
    → clean u ≡ (
        if join "/" (resolve_parts false [] (split_on b'/' u)) == ""
        then "."
        else join "/" (resolve_parts false [] (split_on b'/' u)))
unfolding clean
clean-unrooted u h = rw h refl

-- A path that begins with a slash has an empty part in front.
rooted-blanks :
    (c : Char) (s : String)
    → has_prefix (String.◌∷◌ c s) "/" ≡ true
    → 1 ≤ blanks (behind_first (split_on b'/' (String.◌∷◌ c s)))
    → 2 ≤ blanks (split_on b'/' (String.◌∷◌ c s))
unfolding has_prefix split_on
rooted-blanks c s h behind =
    let here : nat_eq (code c) b'/' ≡ true = ground arith in
    let seen : 1 ≤ blanks (split_on b'/' s) = rw here at behind in rw here (omega arith)

clean-shorter :
    (c : Char) (s : String)
    → Slashed (String.◌∷◌ c s)
    → IsTop (clean (String.◌∷◌ c s)) ⊎ (size (clean (String.◌∷◌ c s)) < suc (size s))
clean-shorter c s h =
    let u = String.◌∷◌ c s in
    let behind = split_on-Slashed c s h in
    elim (Bool-cases (has_prefix (String.◌∷◌ c s) "/")) [
      | inr relative ↦
          let more = blanks-behind (split_on b'/' u) in
          subst (λ t. IsTop t ⊎ (size t < suc (size s))) (sym (clean-unrooted u relative))
            (unrooted-shorter (resolve_parts false [] (split_on b'/' u)) (suc (size s))
              (resolved-weight false u 1 (omega arith)))
      | inl rooted ↦
          subst (λ t. IsTop t ⊎ (size t < suc (size s))) (sym (clean-rooted u rooted))
            (rooted-shorter (resolve_parts true [] (split_on b'/' u)) (suc (size s))
              (resolved-weight true u 2 (rooted-blanks c s rooted behind)))
    ]

-- How far a path is from the top.
abbrev pub height : String → ℕ
height s = if s == "." || s == "/" then 0 else suc (size s)

top-height : (s : String) → IsTop s → height s ≡ 0
unfolding IsTop
top-height s (inl e) = ap height e
top-height s (inr e) = ap height e

height-size : (s : String) → height s ≤ suc (size s)
height-size s = ground arith

at_top : (s : String) → (s == "." || s == "/") ≡ true → dir_name s ≡ s
at_top s h = elim (Bool-cases (s == ".")) [
  | inl e ↦
      let here : s ≡ "." = (eq_iff s ".").0 e in
      subst (λ t. dir_name t ≡ t) (sym here) (unfold dir_name in refl)
  | inr other ↦
      let slash : (s == "/") ≡ true = ground arith in
      let here : s ≡ "/" = (eq_iff s "/").0 slash in
      subst (λ t. dir_name t ≡ t) (sym here) (unfold dir_name in refl)
]

clean-height : (u : String) (n : ℕ) → Slashed u → size u ≤ n → height (clean u) < suc n
unfolding IsTop
clean-height String.[] n h le =
    let top : height (clean "") ≡ 0 = top-height (clean "") (inl clean_nil) in omega arith
  where
    clean_nil : clean "" ≡ "."
    clean_nil = unfold clean in refl
clean-height (String.◌∷◌ c s) n h le = elim (clean-shorter c s h) [
  | inl top ↦ let low = top-height (clean (String.◌∷◌ c s)) top in omega arith
  | inr shorter ↦ let low = height-size (clean (String.◌∷◌ c s)) in omega arith
]

pub dir_name-height : (s : String) → (dir_name s ≡ s) ⊎ (height (dir_name s) < height s)
dir_name-height s = elim (Bool-cases (s == "." || s == "/")) [
  | inl top ↦ inl (at_top s top)
  | inr lower ↦
      let whole : height s ≡ suc (size s) = rw lower refl in
      let up : height (dir_name s) < suc (size s) =
        unfold dir_name in
        clean-height (up_to_last s) (size s) (up_to_last-Slashed s) (up_to_last-size s) in
      inr (omega arith)
]
