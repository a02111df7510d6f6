-- ===== src/AppSet/Template.antt =====
-- `substituteTemplate` of pkg/ir/appset_template.go: `{{ .key }}` placeholders.
pub mod Segments
use cross_validate.Base.{
  ℕ, zero, suc, String, Bool, true, false, Option, none, some, List, [], ◌∷◌, any, if◌then◌else◌,
  ◌==◌, string_eq, ◌>>=◌,
}
use cross_validate.Base.Texts.{contains, trim_space}
use cross_validate.Base.Cuts.{cut, trim_prefix, size}
use cross_validate.Base.Maps.{lookup}
use cross_validate.Types.Argo.{Params}
use Prim.Native.String

-- `unsupportedTemplateTokens`
abbrev pub unsupported_template_tokens : List String
unsupported_template_tokens =
    "{{range" ∷ "{{ range" ∷ "{{if" ∷ "{{ if" ∷ "{{with" ∷ "{{ with" ∷ "{{define" ∷ "{{ define"
    ∷ "{{block" ∷ "{{ block" ∷ "{{template" ∷ "{{ template" ∷ "|" ∷ "printf" ∷ []

pub is_unsupported : String → Bool
unfolding contains
is_unsupported s = any (λ tok. contains s tok) unsupported_template_tokens

-- What is written for the text between `{{` and `}}`: the value of its key, or the placeholder itself.
pub placeholder : Params → String → String
unfolding lookup trim_prefix trim_space
placeholder params inner = elim (lookup (trim_prefix (trim_space inner) ".") params) [
  | some v ↦ v
  | none ↦ String.◌++◌ "{{" (String.◌++◌ inner "}}")
]

-- The loop, on fuel: a round that goes on has passed two pairs of braces. Since `{{` has no `}`, the
-- search for `}}` may start behind it.
pub render : ℕ → Params → String → Option String
unfolding cut placeholder
render zero params s = none
render (suc fuel) params s = elim (cut "{{" s) [
  | none ↦ some s
  | some (before, after) ↦ elim (cut "}}" after) [
    | none ↦ some s
    | some (inner, rest) ↦ render fuel params rest >>= λ out.
        some (String.◌++◌ before (String.◌++◌ (placeholder params inner) out))
  ]
]

-- `substituteTemplate`; `none` where the text has syntax that is not supported.
unfoldable pub substitute_template : Params → String → Option String
unfolding is_unsupported render
substitute_template params s =
    if s == "" then some s else if is_unsupported s then none else render (suc (size s)) params s
