-- ===== src/Ir/Indices.antt =====
-- pkg/ir/trajectory_extract.go: the indices of a concrete path put into a template.
pub mod Pieces
pub mod Wildcards
use cross_validate.Base.{
  ℕ, zero, suc, String, Bool, true, false, not, ◌&&◌, ◌||◌, Option, none, some, List, [], ◌∷◌,
  is_empty, if◌then◌else◌, ◌==◌, string_eq, nat_eq,
}
use cross_validate.Base.Texts.{contains, text}
use Prim.Native.Char.{Char, code}
use Prim.Native.String

-- `extractBracketContents`: outside of brackets (`none`) the text is passed over up to the next "[",
-- inside (`some`, the text since the "[") it runs to the next "]"; brackets that stay open are left out.
pub bracket_contents : Option String → String → List String
bracket_contents none String.[] = []
bracket_contents (some acc) String.[] = []
bracket_contents none (String.◌∷◌ c s) =
    bracket_contents (if nat_eq (code c) b'[' then some "" else none) s
bracket_contents (some acc) (String.◌∷◌ c s) =
    let closed = acc ∷ bracket_contents none s in
    let longer = bracket_contents (some (String.◌++◌ acc (String.◌∷◌ c String.[]))) s in
    if nat_eq (code c) b']' then closed else longer

abbrev pub extract_bracket_contents : String → List String
unfolding bracket_contents
extract_bracket_contents = bracket_contents none

abbrev pub in_brackets : String → String
in_brackets inside = text ("[" ∷ inside ∷ "]" ∷ [])

-- `substituteWildcards`, with the same two states and the indices that are left. Brackets that stay
-- open are written as they are.
pub substitute_wildcards : Option String → String → List String → String
substitute_wildcards none String.[] indices = ""
substitute_wildcards (some acc) String.[] indices = String.◌∷◌ "[" acc
substitute_wildcards none (String.◌∷◌ c s) indices =
    let inside = substitute_wildcards (some "") s indices in
    let outside = String.◌∷◌ c (substitute_wildcards none s indices) in
    if nat_eq (code c) b'[' then inside else outside
substitute_wildcards (some acc) (String.◌∷◌ c s) [] =
    let closed = String.◌++◌ (in_brackets acc) (substitute_wildcards none s []) in
    let longer = substitute_wildcards (some (String.◌++◌ acc (String.◌∷◌ c String.[]))) s [] in
    if nat_eq (code c) b']' then closed else longer
substitute_wildcards (some acc) (String.◌∷◌ c s) (i ∷ is) =
    let filled = String.◌++◌ (in_brackets i) (substitute_wildcards none s is) in
    let closed = String.◌++◌ (in_brackets acc) (substitute_wildcards none s (i ∷ is)) in
    let longer =
      substitute_wildcards (some (String.◌++◌ acc (String.◌∷◌ c String.[]))) s (i ∷ is) in
    if nat_eq (code c) b']' then (if acc == "" || acc == "*" then filled else closed) else longer

-- `specializeIndices`; the third argument is not read.
unfoldable pub specialize_indices : String → String → String → String
unfolding contains bracket_contents substitute_wildcards
specialize_indices resolved_template concrete_selector selector_template =
    let indices = extract_bracket_contents concrete_selector in
    if not (contains resolved_template "[]") && not (contains resolved_template "[*]")
    then resolved_template
    else if is_empty indices
    then resolved_template
    else substitute_wildcards none resolved_template indices
