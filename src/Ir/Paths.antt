-- ===== src/Ir/Paths.antt =====
-- pkg/ir/path_walk.go: parsing a path, walking it with wildcards, and reading a dotted path.
pub mod Compare
pub mod Dotted
use cross_validate.Base.{
  ℕ, zero, suc, ◌+◌, ◌/◌, ◌%◌, String, Bool, true, false, Option, none, some, List, [], ◌∷◌, ◌++◌,
  flat_map, ltb, nat_eq, if◌then◌else◌, get_elem?, ◌>>=◌, ◌==◌, string_eq,
}
use cross_validate.Base.Int.{ℤ, pos, negsuc}
use cross_validate.Base.Texts.{split_on, cut_at, atoi}
use cross_validate.Types.Values.{Value, null, obj, Raw, get, as_map, as_list}
use Prim.Native.Char.{Char, code}
use Prim.Native.String

-- `strconv.Itoa`, for the indices of a list. A number has fewer digits than its successor has
-- units, which bounds the recursion.
abbrev digit : ℕ → String
digit n =
    elim (get_elem? {A = String} ("0" ∷ "1" ∷ "2" ∷ "3" ∷ "4" ∷ "5" ∷ "6" ∷ "7" ∷ "8" ∷ "9" ∷ [])
      n) [ none ↦ "" | some d ↦ d ]

itoa_from : ℕ → ℕ → String → String
itoa_from zero n acc = acc
itoa_from (suc f) n acc =
    let acc' = String.◌++◌ (digit (n % 10)) acc in
    let rest = itoa_from f (n / 10) acc' in if ltb n 10 then acc' else rest

unfoldable pub itoa : ℕ → String
unfolding itoa_from
itoa n = itoa_from (suc n) n ""

pub data PathSegment : Type 0 where
  key : String → PathSegment
  index : ℕ → PathSegment
  wildcard : PathSegment

-- The text between brackets.
bracket : String → Option PathSegment
unfolding atoi
bracket inside =
    if inside == ""
    then some wildcard
    else if inside == "*"
    then some wildcard
    else elim (atoi inside) [ some (pos n) ↦ some (index n) | _ ↦ none ]

abbrev push_segment : Option PathSegment → Option (List PathSegment) → Option (List PathSegment)
push_segment seg segs = do s ← seg; rest ← segs; some (s ∷ rest)

-- The loop over `rest`: outside of brackets (`none`) another "[" must follow, inside (`some`) the
-- text runs to the next "]".
brackets : Option String → String → Option (List PathSegment)
unfolding bracket
brackets none String.[] = some []
brackets none (String.◌∷◌ c s) =
    let inside = brackets (some "") s in if nat_eq (code c) b'[' then inside else none
brackets (some acc) String.[] = none
brackets (some acc) (String.◌∷◌ c s) =
    let closed = push_segment (bracket acc) (brackets none s) in
    let longer = brackets (some (String.◌++◌ acc (String.◌∷◌ c String.[]))) s in
    if nat_eq (code c) b']' then closed else longer

abbrev key_before : String → List PathSegment
key_before before = if before == "" then [] else key before ∷ []

-- One part between dots.
pub parse_part : String → Option (List PathSegment)
unfolding cut_at brackets
parse_part p = if p == "" then none else elim (cut_at b'[' p) [
  | none ↦ some (key p ∷ [])
  | some (before, after) ↦ do segs ← brackets (some "") after; some (key_before before ++ segs)
]

pub parse_parts : List String → Option (List PathSegment)
unfolding parse_part
parse_parts [] = some []
parse_parts (p ∷ ps) = do segs ← parse_part p; rest ← parse_parts ps; some (segs ++ rest)

-- `parsePath`
pub parse_path : String → Option (List PathSegment)
unfolding parse_parts split_on
parse_path path = parse_parts (split_on b'.' path)

pub record PathHit : Type 0 where
  pub path : String
  pub value : Value

abbrev numbered {ℓ} : {A : Type ℓ} → ℕ → List A → List (ℕ × A)
numbered i [] = []
numbered i (x ∷ xs) = (i, x) ∷ numbered (i + 1) xs

abbrev pub at_index : String → ℕ → String
at_index path i = String.◌++◌ path (String.◌++◌ "[" (String.◌++◌ (itoa i) "]"))

abbrev pub at_key : String → String → String
at_key path k = if path == "" then k else String.◌++◌ path (String.◌++◌ "." k)

abbrev pub hit_of : String → Value → List PathHit
hit_of path null = []
hit_of path v = record { path = path; value = v } ∷ []

-- `walkSegments`, on the segments that are left
pub walk_segments : List PathSegment → String → Value → List PathHit
unfolding itoa get flat_map
walk_segments [] path v = hit_of path v
walk_segments (wildcard ∷ segs) path v = elim (as_list v) [
  | none ↦ []
  | some xs ↦ flat_map (λ p. walk_segments segs (at_index path p.0) p.1) (numbered 0 xs)
]
walk_segments (index i ∷ segs) path v = elim (as_list v) [
  | none ↦ []
  | some xs ↦ elim (get_elem? xs i) [ none ↦ [] | some x ↦ walk_segments segs (at_index path i) x ]
]
walk_segments (key k ∷ segs) path v = elim (as_map v) [
  | none ↦ []
  | some m ↦ elim (get k m) [ none ↦ [] | some next ↦ walk_segments segs (at_key path k) next ]
]

-- `WalkPath`
unfoldable pub walk_path : Raw → String → List PathHit
unfolding walk_segments parse_path
walk_path none path = []
walk_path (some raw) path =
    if path == ""
    then []
    else elim (parse_path path) [ none ↦ [] | some segs ↦ walk_segments segs "" (obj raw) ]

-- The loop of `ReadPath`: the last segment's value is the result.
pub read_segments : Value → List String → Option Value
unfolding get
read_segments v [] = none
read_segments v (k ∷ []) = if k == "" then none else do m ← as_map v; get k m
read_segments v (k ∷ j ∷ ks) =
    if k == "" then none else do m ← as_map v; next ← get k m; read_segments next (j ∷ ks)

-- `ReadPath`; `none` where its second result is false
unfoldable pub read_path : Raw → String → Option Value
unfolding read_segments split_on
read_path none path = none
read_path (some raw) path =
    if path == "" then none else read_segments (obj raw) (split_on b'.' path)
