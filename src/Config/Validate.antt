-- ===== src/Config/Validate.antt =====
-- `validate` of pkg/config/load.go: the semantic checks of xpc.yaml.
pub mod Accepted
pub mod Resolved
use cross_validate.Base.{
  ℕ, zero, suc, String, Bool, true, false, not, ◌&&◌, ◌||◌, Option, none, some, List, [], ◌∷◌,
  length, ltb, nat_eq, any, is_empty, if◌then◌else◌, ◌==◌, string_eq,
}
use cross_validate.Base.Int.{ℤ, pos, int_eq}
use cross_validate.Base.Texts.{split_on, has_prefix, is_digit, trim_space}
use cross_validate.Base.Cuts.{trim_prefix}
use cross_validate.Types.World.{GroupKind}
use cross_validate.Config.Immutable.{ImmutableFieldEntry}
use cross_validate.Config.StateBearing.{StateBearingKindsConfig}
use Prim.Native.Char.{Char, code}
use Prim.Native.String

-- `Config`, with the sections that are checked.
pub record Config : Type 0 where
  pub version : ℤ
  pub immutable_fields : List ImmutableFieldEntry
  pub state_bearing_kinds : StateBearingKindsConfig

pub data Block : Type 0 where
  append suppress : Block

-- The errors, with the places and names in their messages.
pub data ConfigProblem : Type 0 where
  unsupported_version : ℤ → ConfigProblem
  gvk_required : ℕ → ConfigProblem
  paths_required too_many_segments reserved_for_core empty_path : ℕ → String → ConfigProblem
  kind_required kind_blank : Block → ℕ → ConfigProblem
  group_blank : Block → ℕ → String → ConfigProblem

-- `CurrentVersion`
abbrev pub current_version : ℤ
current_version = pos 1

-- `looksLikeVersion`
skip_digits : String → String
skip_digits String.[] = ""
skip_digits (String.◌∷◌ c s) =
    let rest = skip_digits s in if is_digit c then rest else String.◌∷◌ c s

all_digits : String → Bool
all_digits String.[] = true
all_digits (String.◌∷◌ c s) = is_digit c && all_digits s

abbrev is_numbered : String → String → Bool
is_numbered suffix s =
    let rest = trim_prefix s suffix in if rest == "" then false else all_digits rest

unfoldable pub looks_like_version : String → Bool
unfolding skip_digits all_digits has_prefix trim_prefix
looks_like_version (String.◌∷◌ c (String.◌∷◌ d s)) =
    if not (nat_eq (code c) b'v') || not (is_digit d)
    then false
    else (let rest = skip_digits s in
        if rest == ""
        then true
        else if has_prefix rest "alpha"
        then is_numbered "alpha" rest
        else if has_prefix rest "beta"
        then is_numbered "beta" rest
        else false)
looks_like_version _ = false

-- `len(parts) == 2 && !looksLikeVersion(parts[0])`
abbrev pub is_ungrouped : List String → Bool
is_ungrouped (first ∷ second ∷ []) = not (looks_like_version first)
is_ungrouped _ = false

-- A round of the loop over the immutable fields.
pub entry_problem : ℕ → ImmutableFieldEntry → Option ConfigProblem
unfolding split_on looks_like_version
entry_problem i entry =
    let parts = split_on b'/' entry.gvk in
    if entry.gvk == ""
    then some (gvk_required i)
    else if is_empty entry.paths
    then some (paths_required i entry.gvk)
    else if ltb 3 (length parts)
    then some (too_many_segments i entry.gvk)
    else if is_ungrouped parts
    then some (reserved_for_core i entry.gvk)
    else if any (λ p. p == "") entry.paths
    then some (empty_path i entry.gvk)
    else none

-- A round of the loops over the state-bearing kinds.
pub kind_problem : Block → ℕ → GroupKind → Option ConfigProblem
unfolding trim_space
kind_problem block i entry =
    if entry.kind == ""
    then some (kind_required block i)
    else if trim_space entry.kind == ""
    then some (kind_blank block i)
    else if not (entry.group == "") && trim_space entry.group == ""
    then some (group_blank block i entry.kind)
    else none

-- A loop that returns at the first problem.
abbrev pub first_problem {ℓ} :
    {A : Type ℓ} → (ℕ → A → Option ConfigProblem) → ℕ → List A → Option ConfigProblem
first_problem check i [] = none
first_problem check i (x ∷ xs) = elim (check i x) [
  | some p ↦ some p
  | none ↦ first_problem check (suc i) xs
]

abbrev or_next : Option ConfigProblem → Option ConfigProblem → Option ConfigProblem
or_next (some p) next = some p
or_next none next = next

pub sections_problem : Config → Option ConfigProblem
unfolding entry_problem kind_problem
sections_problem cfg = or_next (first_problem entry_problem 0 cfg.immutable_fields) (
    or_next (first_problem (kind_problem append) 0 cfg.state_bearing_kinds.append)
      (first_problem (kind_problem suppress) 0 cfg.state_bearing_kinds.suppress))

-- `validate`, with the configuration that it leaves.
pub data Validated : Type 0 where
  refused : ConfigProblem → Validated
  accepted : Config → Validated

abbrev accepted_unless : Option ConfigProblem → Config → Validated
accepted_unless none cfg = accepted cfg
accepted_unless (some p) cfg = refused p

abbrev pub with_version : Config → Config
with_version cfg =
    if int_eq cfg.version (pos 0) then record cfg { version = current_version } else cfg

unfoldable pub validate : Config → Validated
unfolding sections_problem
validate cfg =
    let cfg' = with_version cfg in
    if not (int_eq cfg'.version current_version)
    then refused (unsupported_version cfg'.version)
    else accepted_unless (sections_problem cfg') cfg'
