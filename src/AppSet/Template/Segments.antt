-- ===== src/AppSet/Template/Segments.antt =====
-- A template taken apart into its texts and placeholders.
use cross_validate.Base.{
  ℕ, zero, suc, ◌<◌, String, true, false, Option, none, some, [], ◌≡◌, refl, sym, ap, ◌∙◌, subst,
  arith, eq_iff, Bool-cases, Option-cases, inl, inr, ◌⊎◌, ◌==◌, string_eq,
}
use cross_validate.Base.Texts.{contains}
use cross_validate.Base.Cuts.{cut, size, IsCut, cut-IsCut, cut-none, cut-size}
use cross_validate.Types.Argo.{Params}
use cross_validate.AppSet.Template.{is_unsupported, placeholder, render, substitute_template}
use mathlib.Core.Option
use Prim.Native.String.{◌++◌}
use text.Mathlib.TextLemmas.{append_assoc}

-- The placeholders of a template with the texts before them, up to the text behind the last one.
pub data Segments : Type 0 where
  last : String → Segments
  hole : (before inner : String) → Segments → Segments

abbrev pub print : Segments → String
print (last s) = s
print (hole before inner rest) = before ++ (("{{" ++ (inner ++ "}}")) ++ print rest)

abbrev pub fill : Params → Segments → String
fill params (last s) = s
fill params (hole before inner rest) = before ++ (placeholder params inner ++ fill params rest)

-- A text ends at the first opening behind it, a placeholder at the first closing, and the last text has
-- no placeholder: its first opening, if any, is not closed.
abbrev pub NotClosed : String → Type 0
NotClosed s =
    (before after : String) → cut "{{" s ≡ some (before, after) → contains after "}}" ≡ false

abbrev pub IsCanonical : Segments → Type 0
IsCanonical (last s) = NotClosed s
IsCanonical (hole before inner rest) =
    (contains (before ++ "{") "{{" ≡ false)
    × (contains (inner ++ "}") "}}" ≡ false)
    × IsCanonical rest

-- The template `s` is made of `segs`, and the loop fills them.
abbrev Rendered : ℕ → String → Segments → Type 0
Rendered fuel s segs =
    (print segs ≡ s)
    × IsCanonical segs
    × ((params : Params) → render fuel params s ≡ some (fill params segs))

shorter :
    (fuel : ℕ) (s before after inner rest : String)
    → size s < suc fuel
    → IsCut "{{" "{" s (before, after)
    → IsCut "}}" "}" after (inner, rest)
    → size rest < fuel
shorter fuel s before after inner rest h cut1 cut2 =
    let outer = cut-size "{{" "{" s before after cut1 in
    let within = cut-size "}}" "}" after inner rest cut2 in omega arith

glue :
    (s before after inner rest t : String)
    → IsCut "{{" "{" s (before, after)
    → IsCut "}}" "}" after (inner, rest)
    → t ≡ rest
    → before ++ (("{{" ++ (inner ++ "}}")) ++ t) ≡ s
glue s before after inner rest t (e, _) (e', _) same =
    ap (λ u. before ++ u)
      (append_assoc "{{" (inner ++ "}}") t
        ∙ ap (λ u. "{{" ++ u)
            (append_assoc inner "}}" t ∙ ap (λ u. inner ++ ("}}" ++ u)) same ∙ sym e'))
    ∙ sym e

not_closed :
    (s b a before after : String)
    → cut "}}" after ≡ none
    → ◌≡◌ {A = Option (String × String)} (some (before, after)) (some (b, a))
    → contains a "}}" ≡ false
not_closed s b a before after e same =
    subst (λ q. contains q.1 "}}" ≡ false) (Option.some_inj.0 same) (cut-none "}}" after e)

take_apart : (fuel : ℕ) (s : String) → size s < fuel → (segs : Segments) × Rendered fuel s segs
unfolding render cut contains
take_apart zero s h = absurd (omega arith)
take_apart (suc fuel) s h = elim (Option-cases (cut "{{" s)) [
  | inl e ↦ (last s, (refl, (λ b a e'. cc), λ params. rw (e, render) refl))
  | inr ((before, after), e) ↦
      let opened = cut-IsCut "{{" "{" "{" refl s (before, after) refl refl e in
      elim (Option-cases (cut "}}" after)) [
        | inl e' ↦ (
          last s,
          (
            refl,
            (λ b a same. not_closed s b a before after e' (sym e ∙ same)),
            λ params. rw (e, e', render) refl,
          ),
        )
        | inr ((inner, rest), e') ↦
            let closed = cut-IsCut "}}" "}" "}" refl after (inner, rest) refl refl e' in
            let (segs, (printed, canonical, run)) =
              take_apart fuel rest (shorter fuel s before after inner rest h opened closed) in
            (
              hole before inner segs,
              (
                glue s before after inner rest (print segs) opened closed printed,
                (opened.1, closed.1, canonical),
                λ params. rw (e, e', run params, render) refl,
              ),
            )
      ]
]

refused :
    (params : Params) (s : String) → is_unsupported s ≡ true → substitute_template params s ≡ none
unfolding substitute_template is_unsupported contains
refused params s bad = elim (Bool-cases (s == "")) [
  | inl empty ↦ let void : is_unsupported s ≡ false = rw ((eq_iff s "").0 empty) refl in cc
  | inr more ↦ rw (more, bad) refl
]

supported :
    (params : Params) (s : String)
    → is_unsupported s ≡ false
    → substitute_template params s ≡ render (suc (size s)) params s
unfolding substitute_template render cut
supported params s good = elim (Bool-cases (s == "")) [
  | inl empty ↦ rw ((eq_iff s "").0 empty) refl
  | inr more ↦ rw (more, good) refl
]

-- A template either has syntax that is not supported and is refused, whatever the parameters are, or it is made of texts and placeholders that do not depend on the parameters, and the result is these texts with each placeholder replaced by the value of its key, or kept as it is if its key has no value.
pub substitute_template-fill :
    (s : String)
    → ((is_unsupported s ≡ true) × ((params : Params) → substitute_template params s ≡ none))
      ⊎ ((is_unsupported s ≡ false)
          × ((segs : Segments) × ((print segs ≡ s)
                × IsCanonical segs
                × ((params : Params) → substitute_template params s ≡ some (fill params segs)))))
unfolding substitute_template
substitute_template-fill s = elim (Bool-cases (is_unsupported s)) [
  | inl bad ↦ inl (bad, λ params. refused params s bad)
  | inr good ↦
      let (segs, (printed, canonical, run)) = take_apart (suc (size s)) s (omega arith) in
      inr (good, (segs, (printed, canonical, λ params. supported params s good ∙ run params)))
]

fill-nil : (segs : Segments) → fill [] segs ≡ print segs
unfolding placeholder
fill-nil (last s) = refl
fill-nil (hole before inner rest) = λ i. before ++ (("{{" ++ (inner ++ "}}")) ++ fill-nil rest i)

-- Without parameters a template that is supported is given back as it is.
pub substitute_template-nil :
    (s : String) → is_unsupported s ≡ false → substitute_template [] s ≡ some s
substitute_template-nil s h = elim (substitute_template-fill s) [
  | inl (bad, refusal) ↦ cc
  | inr (good, (segs, (printed, canonical, run))) ↦ run [] ∙ ap some (fill-nil segs ∙ printed)
]
