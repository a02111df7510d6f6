-- ===== src/Ir/Paths/Dotted.antt =====
-- `WalkPath` and `ReadPath` on dotted paths without brackets.
use Prim.Native.Char.{Char, code}
use Prim.Native.String
use text.Mathlib.TextEquality.{Char-path}
use text.Mathlib.TextLemmas.{nil-append, cons-append, append-nil, append_assoc, cons-ne-nil}
use cross_validate.Base.{
  ℕ, String, Bool, true, false, Option, none, some, map, List, [], ◌∷◌, ◌≡◌, ◌≢◌, refl, sym, ap,
  ◌∙◌, arith, eq_iff, nat_eq, nat_eq_iff, if◌then◌else◌, ◌>>=◌, ◌==◌, string_eq, any, All,
  Bool-cases, Option-cases, inl, inr,
}
use cross_validate.Base.Texts.{split_on, cut_at, push_part}
use cross_validate.Types.Values.{Value, obj, Raw, get, as_map}
use cross_validate.Ir.Paths.{
  key, PathHit, hit_of, at_key, parse_part, parse_parts, walk_segments, walk_path, read_segments,
  read_path,
}

abbrev pub NoBracket : String → Type 0
NoBracket String.[] = Unit
NoBracket (String.◌∷◌ c s) = (code c ≢ b'[') × NoBracket s

abbrev is_blank : String → Bool
is_blank p = p == ""

cut_at_of_NoBracket : (s : String) → NoBracket s → cut_at b'[' s ≡ none
unfolding cut_at
cut_at_of_NoBracket String.[] h = refl
cut_at_of_NoBracket (String.◌∷◌ c s) h = ground (arith, cut_at_of_NoBracket s h.1)

push_part-NoBracket :
    (c : Char) (ps : List String)
    → code c ≢ b'['
    → All NoBracket ps
    → All NoBracket (push_part c ps)
push_part-NoBracket c [] h k = ((h, tt), tt)
push_part-NoBracket c (p ∷ ps) h k = ((h, k.0), k.1)

split_on-NoBracket : (sep : ℕ) (s : String) → NoBracket s → All NoBracket (split_on sep s)
unfolding split_on
split_on-NoBracket sep String.[] h = (tt, tt)
split_on-NoBracket sep (String.◌∷◌ c s) h = elim (Bool-cases (nat_eq (code c) sep)) [
  | inl here ↦ rw here (tt, split_on-NoBracket sep s h.1)
  | inr other ↦ rw other (push_part-NoBracket c _ h.0 (split_on-NoBracket sep s h.1))
]

parse_part_of_NoBracket :
    (p : String) → NoBracket p → parse_part p ≡ (if is_blank p then none else some (key p ∷ []))
unfolding parse_part
parse_part_of_NoBracket p h = rw (cut_at_of_NoBracket p h)

parse_parts_of_NoBracket :
    (ps : List String)
    → All NoBracket ps
    → parse_parts ps ≡ (if any is_blank ps then none else some (map key ps))
unfolding parse_parts
parse_parts_of_NoBracket [] h = refl
parse_parts_of_NoBracket (p ∷ ps) h =
    rw (parse_part_of_NoBracket p h.0, parse_parts_of_NoBracket ps h.1) (ground arith)

bind-eq-none {ℓ κ} :
    {A : Type ℓ} {B : Type κ} (o : Option A) (f : A → Option B)
    → ((a : A) → f a ≡ none)
    → (o >>= f) ≡ none
bind-eq-none none f h = refl
bind-eq-none (some a) f h = h a

read_segments_of_blank :
    (v : Value) (ps : List String) → any is_blank ps ≡ true → read_segments v ps ≡ none
unfolding read_segments
read_segments_of_blank v [] h = cc
read_segments_of_blank v (p ∷ []) h = ground arith
read_segments_of_blank v (p ∷ q ∷ ps) h = elim (Bool-cases (is_blank p)) [
  | inl blank ↦ rw blank
  | inr named ↦
      let later : any is_blank (q ∷ ps) ≡ true = rw named at h in
      rw named (
        bind-eq-none (as_map v) _
          λ m. bind-eq-none (get p m) _ λ next. read_segments_of_blank next (q ∷ ps) later)
]

-- The concrete path that the walk has built behind `pre`.
abbrev built : String → List String → String
built pre [] = pre
built pre (p ∷ ps) = built (at_key pre p) ps

abbrev pub hits_of : String → Option Value → List PathHit
hits_of path none = []
hits_of path (some v) = hit_of path v

walk_segments-eq-read_segments :
    (p : String) (ps : List String) (pre : String) (v : Value)
    → any is_blank (p ∷ ps) ≡ false
    → walk_segments (map key (p ∷ ps)) pre v
      ≡ hits_of (built pre (p ∷ ps)) (read_segments v (p ∷ ps))
unfolding walk_segments read_segments
walk_segments-eq-read_segments p [] pre v h = elim (Option-cases (as_map v)) [
  | inl scalar ↦ rw (scalar, walk_segments) (ground arith)
  | inr (m, mapped) ↦ elim (Option-cases (get p m)) [
    | inl missing ↦ rw (mapped, missing, walk_segments) (ground arith)
    | inr (next, found) ↦ rw (mapped, found, walk_segments) (ground arith)
  ]
]
walk_segments-eq-read_segments p (q ∷ ps) pre v h = elim (Option-cases (as_map v)) [
  | inl scalar ↦ rw (scalar, walk_segments) (ground arith)
  | inr (m, mapped) ↦ elim (Option-cases (get p m)) [
    | inl missing ↦ rw (mapped, missing, walk_segments) (ground arith)
    | inr (next, found) ↦
        let ih = walk_segments-eq-read_segments q ps (at_key pre p) next (ground arith) in
        rw (mapped, found, walk_segments) (ground arith)
  ]
]

-- Joining the parts of a split gives the text back.
abbrev tail_text : List String → String
tail_text [] = ""
tail_text (p ∷ ps) = String.◌++◌ "." (String.◌++◌ p (tail_text ps))

abbrev glue : List String → String
glue [] = ""
glue (p ∷ ps) = String.◌++◌ p (tail_text ps)

abbrev IsNamed : String → Type 0
IsNamed String.[] = ⊥
IsNamed (String.◌∷◌ _ _) = Unit

is_blank_of_IsNamed : (s : String) → IsNamed s → is_blank s ≡ false
is_blank_of_IsNamed String.[] h = absurd h
is_blank_of_IsNamed (String.◌∷◌ c s) h = elim (Bool-cases (is_blank (String.◌∷◌ c s))) [
  | inl blank ↦ absurd (cons-ne-nil c s ((eq_iff _ _).0 blank))
  | inr named ↦ named
]

IsNamed-of_is_blank : (s : String) → is_blank s ≡ false → IsNamed s
IsNamed-of_is_blank String.[] h = cc
IsNamed-of_is_blank (String.◌∷◌ c s) h = tt

at_key_of_IsNamed :
    (pre p : String) → IsNamed pre → at_key pre p ≡ String.◌++◌ pre (String.◌++◌ "." p)
at_key_of_IsNamed pre p h = rw (is_blank_of_IsNamed pre h)

IsNamed-append : (s t : String) → IsNamed s → IsNamed (String.◌++◌ s t)
IsNamed-append String.[] t h = absurd h
IsNamed-append (String.◌∷◌ c s) t h = rw cons-append tt

built-eq-append :
    (pre : String) (ps : List String) → IsNamed pre → built pre ps ≡ String.◌++◌ pre (tail_text ps)
built-eq-append pre [] h = sym (append-nil pre)
built-eq-append pre (p ∷ ps) h = rw (at_key_of_IsNamed pre p h) (
    built-eq-append (String.◌++◌ pre (String.◌++◌ "." p)) ps (IsNamed-append pre _ h)
    ∙ simp (append_assoc))

push_part-glue :
    (c : Char) (ps : List String) → ps ≢ [] → glue (push_part c ps) ≡ String.◌∷◌ c (glue ps)
push_part-glue c [] h = absurd (h refl)
push_part-glue c (p ∷ ps) h = cons-append c p _

push_part-ne-nil : (c : Char) (ps : List String) → push_part c ps ≢ []
push_part-ne-nil c [] h = cc
push_part-ne-nil c (p ∷ ps) h = cc

split_on-ne-nil : (sep : ℕ) (s : String) → split_on sep s ≢ []
unfolding split_on
split_on-ne-nil sep String.[] h = cc
split_on-ne-nil sep (String.◌∷◌ c s) h = elim (Bool-cases (nat_eq (code c) sep)) [
  | inl here ↦ let e : "" ∷ split_on sep s ≡ [] = rw here at h in cc
  | inr other ↦ push_part-ne-nil c _ (rw other at h)
]

tail_text_lem : (ps : List String) → ps ≢ [] → tail_text ps ≡ String.◌++◌ "." (glue ps)
tail_text_lem [] h = absurd (h refl)
tail_text_lem (p ∷ ps) h = refl

dot-append :
    (c : Char) (s : String) → nat_eq (code c) b'.' ≡ true → String.◌++◌ "." s ≡ String.◌∷◌ c s
dot-append c s h =
    cons-append _ _ s
    ∙ rw nil-append (ap (λ d. String.◌∷◌ d s) (Char-path _ c (sym ((nat_eq_iff _ _).0 h))))

glue-split_on : (s : String) → glue (split_on b'.' s) ≡ s
unfolding split_on
glue-split_on String.[] = append-nil _
glue-split_on (String.◌∷◌ c s) = elim (Bool-cases (nat_eq (code c) b'.')) [
  | inl dot ↦
      rw (dot, nil-append, tail_text_lem _ (split_on-ne-nil b'.' s), glue-split_on s)
        (dot-append c s dot)
  | inr other ↦
      rw other (push_part-glue c _ (split_on-ne-nil b'.' s) ∙ ap (String.◌∷◌ c) (glue-split_on s))
]

built_of_parts : (ps : List String) → ps ≢ [] → any is_blank ps ≡ false → built "" ps ≡ glue ps
built_of_parts [] h k = absurd (h refl)
built_of_parts (p ∷ ps) h k = built-eq-append p ps (IsNamed-of_is_blank p (ground arith))

walk_parts :
    (ps : List String) (v : Value)
    → ps ≢ []
    → any is_blank ps ≡ false
    → walk_segments (map key ps) "" v ≡ hits_of (glue ps) (read_segments v ps)
walk_parts [] v h k = absurd (h refl)
walk_parts (p ∷ ps) v h k =
    walk_segments-eq-read_segments p ps "" v k
    ∙ ap (λ path. hits_of path (read_segments v (p ∷ ps))) (built_of_parts (p ∷ ps) h k)

-- On a path without "[" `WalkPath` has one hit, at the path itself with the value that `ReadPath`
-- finds, where that value is there and not null, and no hit otherwise.
pub walk_path-eq-read_path :
    (raw : Raw) (path : String)
    → NoBracket path
    → walk_path raw path ≡ hits_of path (read_path raw path)
unfolding walk_path read_path
walk_path-eq-read_path none path h = refl
walk_path-eq-read_path (some raw) path h = elim (Bool-cases (path == "")) [
  | inl empty ↦ rw empty
  | inr full ↦
      let parts = split_on b'.' path in
      let plain = parse_parts_of_NoBracket parts (split_on-NoBracket b'.' path h) in
      elim (Bool-cases (any is_blank parts)) [
        | inl blank ↦ rw (full, plain, blank, read_segments_of_blank (obj raw) parts blank)
        | inr named ↦
            rw (full, plain, named)
              (walk_parts parts (obj raw) (split_on-ne-nil b'.' path) named
                ∙ ap (λ p. hits_of p (read_segments (obj raw) parts)) (glue-split_on path))
      ]
]
