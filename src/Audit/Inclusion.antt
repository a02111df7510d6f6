-- ===== src/Audit/Inclusion.antt =====
-- Which findings a proof includes.
use cross_validate.Base.{
  any-select, String, Bool, true, false, ◌||◌, ◌&&◌, Option, none, some, List, [], ◌∷◌, map,
  if◌then◌else◌, ◌==◌, string_eq, any, ◌≡◌, refl, sym, ◌∙◌, ap, arith, Bool-cases, inl, inr,
}
use cross_validate.Base.Maps.{lookup}
use cross_validate.Base.Sorting.{sort_by}
use cross_validate.Base.Texts.{str_lt}
use cross_validate.Types.World.{Diagnostic, or_empty}
use cross_validate.Config.Names.{contains_string}
use cross_validate.Audit.{
  RunSummary, ProofMetadata, Judgment, known_rule_ids, location, judgment_of, group, keys_of,
  add_observed, subtree_of, generate, includes, verify_inclusion,
}
use cross_validate.Audit.Groups.{
  any-sort_by, contains-add_observed, group_lem, has-group, has-keys_of, lookup-fill,
}

any-select_none {ℓ} :
    {A : Type ℓ} (p q : A → Bool) (xs : List A)
    → any q xs ≡ false
    → any (λ x. q x && p x) xs ≡ false
any-select_none p q [] e = refl
any-select_none p q (x ∷ xs) e = ground (arith, any-select_none p q xs)

module _ (sha256_hex : String → String) where
  any-judgments :
      (rule resource : String) (diags : List Diagnostic)
      → any (λ j. j.rule_id == rule && j.resource == resource) (map (judgment_of sha256_hex) diags)
        ≡ any (λ d. d.code == rule && location d == resource) diags
  unfolding judgment_of
  any-judgments rule resource [] = refl
  any-judgments rule resource (d ∷ diags) =
      ap (λ b. d.code == rule && location d == resource || b) (any-judgments rule resource diags)

  -- The rule IDs that get a subtree.
  has_rule :
      (rule : String) (js : List Judgment)
      → contains_string
          (sort_by str_lt (add_observed known_rule_ids (keys_of (group (λ j. j.rule_id) [] js))))
          rule
        ≡ (contains_string known_rule_ids rule || any (λ j. j.rule_id == rule) js)
  unfolding lookup
  has_rule rule js =
      any-sort_by str_lt (λ s. s == rule) _
      ∙ contains-add_observed known_rule_ids _ rule
      ∙ ap (λ b. contains_string known_rule_ids rule || b)
          (has-keys_of (group (λ j. j.rule_id) [] js) rule ∙ has-group (λ j. j.rule_id) rule [] js)

  group_judgments :
      (rule resource : String) (js : List Judgment)
      → any (λ j. j.resource == resource) (or_empty (lookup rule (group (λ j. j.rule_id) [] js)))
        ≡ any (λ j. j.rule_id == rule && j.resource == resource) js
  unfolding lookup
  group_judgments rule resource js =
      ap (any (λ j. j.resource == resource)) (group_lem (λ j. j.rule_id) rule [] js)
      ∙ any-select (λ j. j.resource == resource) (λ j. j.rule_id == rule) js

  included :
      (rule resource : String) (js : List Judgment) (known : Bool)
      → includes resource (
          if known || any (λ j. j.rule_id == rule) js
          then some (subtree_of sha256_hex (group (λ j. j.rule_id) [] js) rule)
          else none)
        ≡ any (λ j. j.rule_id == rule && j.resource == resource) js
  unfolding subtree_of
  included rule resource js true = group_judgments rule resource js
  included rule resource js false = elim (Bool-cases (any (λ j. j.rule_id == rule) js)) [
    | inl seen ↦ rw seen (group_judgments rule resource js)
    | inr unseen ↦
        rw unseen
          (sym (any-select_none (λ j. j.resource == resource) (λ j. j.rule_id == rule) js unseen))
  ]

  -- The proof that `Generate` gives includes exactly the rules and places of the diagnostics: a rule
  -- at a place is included if and only if there is a diagnostic with the rule's code at that place.
  pub verify_inclusion-generate :
      (marshal : ProofMetadata → String) (diags : List Diagnostic) (summary : Option RunSummary)
      (ir_digest snapshot_digest ruleset_digest now rule resource : String)
      → verify_inclusion
          (generate sha256_hex marshal diags summary ir_digest snapshot_digest ruleset_digest now)
          rule
          resource
        ≡ any (λ d. d.code == rule && location d == resource) diags
  unfolding verify_inclusion generate lookup
  verify_inclusion-generate marshal diags summary ir_digest snapshot_digest ruleset_digest now rule
        resource =
      let js = map (judgment_of sha256_hex) diags in
      let groups = group (λ j. j.rule_id) [] js in
      ap (includes resource) (
        lookup-fill sha256_hex groups []
          (sort_by str_lt (add_observed known_rule_ids (keys_of groups))) rule)
      ∙ ap (λ b. includes resource (if b then some (subtree_of sha256_hex groups rule) else none))
          (has_rule rule js)
      ∙ included rule resource js (contains_string known_rule_ids rule)
      ∙ any-judgments rule resource diags
