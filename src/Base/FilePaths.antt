-- ===== src/Base/FilePaths.antt =====
-- Paths of files on Unix: `filepath.Clean`, `Base`, `Dir` and `Join`.
pub mod Weights
pub mod Parents
use Prim.Native.Char.{Char, code}
use Prim.Native.String
use Prim.Native.String.{String}
use mathlib.Core.Path.{◌≡◌, refl}
use mathlib.Core.Bool.{Bool, ◌||◌}
use mathlib.Core.List.{List, [], ◌∷◌, reverse}
use cross_validate.Base.Bools.{if◌then◌else◌, nat_eq}
use cross_validate.Base.Equality.{◌==◌, string_eq}
use cross_validate.Base.Texts.{split_on, join, after_last, has_prefix}

-- One part of a path under `Clean`; the stack has its last part at the head.
abbrev climb : Bool → List String → List String
climb rooted [] = if rooted then [] else ".." ∷ []
climb rooted (top ∷ stack) = if top == ".." then ".." ∷ top ∷ stack else stack

abbrev resolve : Bool → List String → String → List String
resolve rooted stack part =
    if part == "" || part == "."
    then stack
    else if part == ".."
    then climb rooted stack
    else part ∷ stack

pub resolve_parts : Bool → List String → List String → List String
resolve_parts rooted stack [] = reverse stack
resolve_parts rooted stack (part ∷ parts) = resolve_parts rooted (resolve rooted stack part) parts

-- `filepath.Clean`
unfoldable pub clean : String → String
unfolding resolve_parts split_on join has_prefix
clean path =
    let rooted = has_prefix path "/" in
    let body = join "/" (resolve_parts rooted [] (split_on b'/' path)) in
    if rooted then String.◌++◌ "/" body else if body == "" then "." else body

drop_slashes : String → String
drop_slashes String.[] = ""
drop_slashes (String.◌∷◌ c s) = keep c (drop_slashes s)
  where
    keep : Char → String → String
    keep d String.[] = if nat_eq (code d) b'/' then "" else String.◌∷◌ d String.[]
    keep d (String.◌∷◌ e t) = String.◌∷◌ d (String.◌∷◌ e t)

-- `filepath.Base`
unfoldable pub base_name : String → String
unfolding drop_slashes after_last
base_name path =
    if path == ""
    then "."
    else (let last = after_last b'/' (drop_slashes path) in if last == "" then "/" else last)

-- The text up to the last `/`, with it.
abbrev keep_slash : Char → String → String
keep_slash d String.[] = if nat_eq (code d) b'/' then String.◌∷◌ d String.[] else ""
keep_slash d (String.◌∷◌ e t) = String.◌∷◌ d (String.◌∷◌ e t)

up_to_last : String → String
up_to_last String.[] = ""
up_to_last (String.◌∷◌ c s) = keep_slash c (up_to_last s)

-- `filepath.Dir`
unfoldable pub dir_name : String → String
unfolding clean up_to_last
dir_name path = clean (up_to_last path)

-- `filepath.Join` of two elements
unfoldable pub join_path : String → String → String
unfolding clean
join_path a b =
    if a == "" then (if b == "" then "" else clean b) else clean (String.◌++◌ a (String.◌++◌ "/" b))

joined : join_path "a/b" "../c/*" ≡ "a/c/*"
unfolding join_path
joined = refl

dirs : (dir_name "a/b/c.yaml" ≡ "a/b") × (dir_name "c.yaml" ≡ ".") × (dir_name "/c" ≡ "/")
unfolding dir_name
dirs = (refl, refl, refl)
