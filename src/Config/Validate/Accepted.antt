-- ===== src/Config/Validate/Accepted.antt =====
-- What holds of an xpc.yaml that `validate` accepts.
use cross_validate.Base.{
  ℕ, suc, String, Bool, true, false, not, ◌&&◌, Option, none, some, List, [], ◌∷◌, length, ltb, any,
  All, is_empty, if◌then◌else◌, ◌==◌, string_eq, ◌≡◌, ◌⊎◌, refl, sym, ap, subst, arith, inl, inr,
  Bool-cases, Option-cases,
}
use cross_validate.Base.Int.{int_eq, int_eq_iff}
use cross_validate.Base.Texts.{split_on, join, trim_space, contains, has_prefix}
use cross_validate.Base.Splits.{join-split_on, LacksSlash, split_on-LacksSlash}
use cross_validate.Types.World.{GroupKind}
use cross_validate.Config.Immutable.{ImmutableFieldEntry, Gvk, gvk_of_parts, split_gvk}
use cross_validate.Config.Validate.{
  Config, ConfigProblem, current_version, looks_like_version, is_ungrouped, entry_problem,
  kind_problem, first_problem, or_next, sections_problem, refused, accepted, accepted_unless,
  with_version, validate, append, suppress,
}
use Prim.Native.String.{◌++◌}
use mathlib.Core.Option

-- A GVK is a kind, a version and a kind, or a group, a version and a kind, with one "/" between.
abbrev pub IsGvk : String → Gvk → Type 0
IsGvk s gvk =
    ((s == "") ≡ false)
    × (LacksSlash gvk.group × LacksSlash gvk.version × LacksSlash gvk.kind)
    × (((s ≡ gvk.kind) × (gvk.version ≡ "") × (gvk.group ≡ ""))
        ⊎ (((s ≡ gvk.version ++ ("/" ++ gvk.kind))
              × (gvk.group ≡ "")
              × (looks_like_version gvk.version ≡ true))
            ⊎ (s ≡ gvk.group ++ ("/" ++ (gvk.version ++ ("/" ++ gvk.kind))))))

four_or_more : (n : ℕ) → ltb 3 (suc (suc (suc (suc n)))) ≡ true
four_or_more n = ground arith

LacksSlash-nil : LacksSlash ""
unfolding contains has_prefix
LacksSlash-nil = refl

gvk_of_parts-IsGvk :
    (parts : List String) (s : String)
    → join "/" parts ≡ s
    → All LacksSlash parts
    → (s == "") ≡ false
    → ltb 3 (length parts) ≡ false
    → is_ungrouped parts ≡ false
    → IsGvk s (gvk_of_parts parts)
unfolding join
gvk_of_parts-IsGvk [] s e lacking there few grouped =
    (there, (LacksSlash-nil, LacksSlash-nil, LacksSlash-nil), inl (sym e, refl, refl))
gvk_of_parts-IsGvk (kind ∷ []) s e lacking there few grouped =
    (there, (LacksSlash-nil, LacksSlash-nil, lacking.0), inl (sym e, refl, refl))
gvk_of_parts-IsGvk (version ∷ kind ∷ []) s e lacking there few grouped = (
  there,
  (LacksSlash-nil, lacking.0, lacking.1.0),
  inr (inl (sym e, refl, negated (looks_like_version version) grouped)),
)
  where
    negated : (b : Bool) → not b ≡ false → b ≡ true
    negated true h = refl
    negated false h = cc
gvk_of_parts-IsGvk (group ∷ version ∷ kind ∷ []) s e lacking there few grouped =
    (there, (lacking.0, lacking.1.0, lacking.1.1.0), inr (inr (sym e)))
gvk_of_parts-IsGvk (a ∷ b ∷ c ∷ d ∷ rest) s e lacking there few grouped =
    let many = four_or_more (length rest) in cc

-- A chain of `if … { return … }` that has returned nothing.
no_problem :
    (b : Bool) (p : ConfigProblem) (o : Option ConfigProblem)
    → (if b then some p else o) ≡ none
    → (b ≡ false) × (o ≡ none)
no_problem true p o e = cc
no_problem false p o e = (refl, e)

no-any : (p : String → Bool) (xs : List String) → any p xs ≡ false → All (λ x. p x ≡ false) xs
no-any p [] h = tt
no-any p (x ∷ xs) h = (ground arith, no-any p xs (ground arith))

first_problem-none {ℓ} :
    {A : Type ℓ} (check : ℕ → A → Option ConfigProblem) (P : A → Type 0)
    → ((i : ℕ) (x : A) → check i x ≡ none → P x)
    → (i : ℕ) (xs : List A) → first_problem check i xs ≡ none
    → All P xs
first_problem-none check P h i [] e = tt
first_problem-none check P h i (x ∷ xs) e = elim (Option-cases (check i x)) [
  | inl fine ↦ (h i x fine, first_problem-none check P h (suc i) xs (rw (fine, first_problem) at e))
  | inr (p, found) ↦ absurd (Option.none-ne-some _ (sym (rw (found, first_problem) at e)))
]

-- The GVK is well formed, there is a path, and no path is "".
abbrev pub IsGoodEntry : ImmutableFieldEntry → Type 0
IsGoodEntry e =
    IsGvk e.gvk (split_gvk e.gvk)
    × (is_empty e.paths ≡ false)
    × All (λ path. (path == "") ≡ false) e.paths

entry_problem-none : (i : ℕ) (e : ImmutableFieldEntry) → entry_problem i e ≡ none → IsGoodEntry e
unfolding entry_problem split_gvk
entry_problem-none i e h =
    let (there, h1) = no_problem _ _ _ h in
    let (paths, h2) = no_problem _ _ _ h1 in
    let (few, h3) = no_problem _ _ _ h2 in
    let (grouped, h4) = no_problem _ _ _ h3 in
    let (named, _) = no_problem _ _ _ h4 in
    (
      gvk_of_parts-IsGvk (split_on b'/' e.gvk) e.gvk (join-split_on e.gvk)
          (split_on-LacksSlash e.gvk) there few grouped,
      paths,
      no-any (λ p. p == "") e.paths named,
    )

-- The kind is not blank, and the group is "" or not blank.
abbrev pub IsGoodKind : GroupKind → Type 0
IsGoodKind gk =
    ((trim_space gk.kind == "") ≡ false)
    × ((not (gk.group == "") && trim_space gk.group == "") ≡ false)

kind_problem-none :
    (block : _) (i : ℕ) (gk : GroupKind) → kind_problem block i gk ≡ none → IsGoodKind gk
unfolding kind_problem
kind_problem-none block i gk h =
    let (_, h1) = no_problem _ _ _ h in
    let (kind, h2) = no_problem _ _ _ h1 in let (group, _) = no_problem _ _ _ h2 in (kind, group)

abbrev pub IsGoodConfig : Config → Type 0
IsGoodConfig cfg =
    (cfg.version ≡ current_version)
    × All IsGoodEntry cfg.immutable_fields
    × All IsGoodKind cfg.state_bearing_kinds.append
    × All IsGoodKind cfg.state_bearing_kinds.suppress

or_next-none : (o p : Option ConfigProblem) → or_next o p ≡ none → (o ≡ none) × (p ≡ none)
or_next-none none p e = (refl, e)
or_next-none (some q) p e = cc

sections_problem-none :
    (cfg : Config)
    → sections_problem cfg ≡ none
    → All IsGoodEntry cfg.immutable_fields
      × All IsGoodKind cfg.state_bearing_kinds.append
      × All IsGoodKind cfg.state_bearing_kinds.suppress
unfolding sections_problem
sections_problem-none cfg e =
    let (entries, rest) = or_next-none _ _ e in
    let (appends, suppresses) = or_next-none _ _ rest in
    (
      first_problem-none entry_problem IsGoodEntry entry_problem-none 0 _ entries,
      first_problem-none (kind_problem append) IsGoodKind (kind_problem-none append) 0 _ appends,
      first_problem-none (kind_problem suppress) IsGoodKind (kind_problem-none suppress) 0 _
          suppresses,
    )

accepted_inj : (cfg cfg' : Config) → accepted cfg ≡ accepted cfg' → cfg ≡ cfg'
accepted_inj cfg cfg' e = ap (λ v. elim v [ accepted c ↦ c | refused _ ↦ cfg ]) e

-- `validate` accepts a configuration only with version 1, for which an omitted version counts, and leaves the rest as it is; then each GVK is not "" and is a kind, a version that looks like one and a kind, or a group, a version and a kind, with one "/" between and no other, as `splitGVK` takes it apart, each immutable-fields entry has a path and no path that is "", and no kind of the state-bearing kinds is blank and no group of them blank but "".
pub validate-IsGoodConfig :
    (cfg cfg' : Config)
    → validate cfg ≡ accepted cfg'
    → (cfg' ≡ with_version cfg) × IsGoodConfig cfg'
unfolding validate
validate-IsGoodConfig cfg cfg' e =
    elim (Bool-cases (int_eq (with_version cfg).version current_version)) [
      | inr other ↦ let refusal : refused _ ≡ accepted cfg' = rw other at e in cc
      | inl one ↦
          let cfg1 = with_version cfg in
          let checked : accepted_unless (sections_problem cfg1) cfg1 ≡ accepted cfg' =
            rw one at e in
          elim (Option-cases (sections_problem cfg1)) [
            | inr (p, found) ↦ let refusal : refused p ≡ accepted cfg' = rw found at checked in cc
            | inl fine ↦
                let same : cfg1 ≡ cfg' = accepted_inj cfg1 cfg' (rw fine at checked) in
                let (entries, appends, suppresses) = sections_problem-none cfg1 fine in
                let good : IsGoodConfig cfg1 =
                  ((int_eq_iff cfg1.version current_version).0 one, entries, appends, suppresses) in
                (sym same, subst IsGoodConfig same good)
          ]
    ]
