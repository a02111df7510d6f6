-- ===== src/Plan/Destructive/Agreed.antt =====
-- R26 on a removed resource against the facts that R23 reads of it.
use cross_validate.Base.{
  String, Bool, true, false, ◌||◌, ◌&&◌, not, Option, none, some, List, [], ◌∷◌, map, any,
  if◌then◌else◌, ◌==◌, string_eq, ◌≡◌, ◌≢◌, ◌↔◌, refl, sym, ap, ◌∙◌, eq_iff, Bool-cases,
  Option-cases, inl, inr, ◌>>=◌,
}
use mathlib.Core.Option
use cross_validate.Types.World.{
  ResourceInfo, GroupKind, BypassKeySet, allow_delete, has_key, Diagnostic,
}
use cross_validate.Types.Values.{Raw, get, as_string}
use cross_validate.Types.Facts.{CpDeletionPolicyFact}
use cross_validate.Ir.Groups.{group_from_api_version}
use cross_validate.Ir.Extract.{get_map}
use cross_validate.Ir.Extract.Adoption.{slash_key, source_kinds, deletion_policy_fact}
use cross_validate.Plan.Diff.{ResourceChange, resource_identity}
use cross_validate.Plan.Manifest.{
  has_bypass_annotation, read_deletion_policy, has_cascade_finalizer,
  preserve_resources_on_deletion,
}
use cross_validate.Plan.Destructive.{
  is_state_bearing, state_bearing_set, resolved_kinds, group_kind_key, is_application,
  destructive_delete, cascade_risk, destructive_round,
}

any-map {ℓ κ} :
    {A : Type ℓ} {B : Type κ} (p : B → Bool) (f : A → B) (xs : List A)
    → any p (map f xs) ≡ any (λ x. p (f x)) xs
any-map p f [] = refl
any-map p f (x ∷ xs) = ap (λ b. p (f x) || b) (any-map p f xs)

same_kinds : (kinds : Option (List GroupKind)) → resolved_kinds kinds ≡ source_kinds kinds
same_kinds none = refl
same_kinds (some kinds) = refl

-- Both packages take a resource for state-bearing alike.
is_state_bearing-any :
    (kinds : Option (List GroupKind)) (res : ResourceInfo)
    → is_state_bearing kinds (resource_identity res)
      ≡ any
          (λ gk.
            slash_key gk.group gk.kind
            == slash_key (group_from_api_version res.api_version) res.kind)
          (source_kinds kinds)
unfolding state_bearing_set
is_state_bearing-any kinds res =
    any-map (λ k. k == group_kind_key (group_from_api_version res.api_version) res.kind)
      (λ gk. group_kind_key gk.group gk.kind) (resolved_kinds kinds)
    ∙ ap
        (any (λ gk.
          slash_key gk.group gk.kind
          == slash_key (group_from_api_version res.api_version) res.kind))
        (same_kinds kinds)

-- The fact of a resource, with the policy that R26 reads.
abbrev fact_of : BypassKeySet → ResourceInfo → CpDeletionPolicyFact
fact_of keys res = record {
  group = group_from_api_version res.api_version;
  kind = res.kind;
  name = res.name;
  namespace = res.namespace;
  deletion_policy = read_deletion_policy res.raw;
  bypass = has_key keys res.annotations allow_delete;
  source = res.source;
}

same_policy :
    (raw : Raw)
    → (elim (do spec ← get_map raw "spec"; dp ← get "deletionPolicy" spec; as_string dp)
        as (λ _. String) [ none ↦ "" | some dp ↦ dp ])
      ≡ read_deletion_policy raw
unfolding read_deletion_policy
same_policy none = refl
same_policy (some fs) = elim (Option-cases (get_map (some fs) "spec")) [
  | inl absent ↦ rw absent refl
  | inr (spec, there) ↦
      rw there (elim (Option-cases (do dp ← get "deletionPolicy" spec; as_string dp)) [
        | inl unset ↦ rw unset refl
        | inr (dp, set) ↦ rw set refl
      ])
]

deletion_policy_fact-if :
    (kinds : Option (List GroupKind)) (keys : BypassKeySet) (res : ResourceInfo)
    → deletion_policy_fact (source_kinds kinds) keys res
      ≡ (if is_state_bearing kinds (resource_identity res) then some (fact_of keys res) else none)
unfolding deletion_policy_fact
deletion_policy_fact-if kinds keys res =
    rw (is_state_bearing-any kinds res)
      (elim (Bool-cases (
        any
          (λ gk.
            slash_key gk.group gk.kind
            == slash_key (group_from_api_version res.api_version) res.kind)
          (source_kinds kinds))) [
            | inl bears ↦
                rw bears (λ i.
                  some (record (fact_of keys res) { deletion_policy = same_policy res.raw i }))
            | inr other ↦ rw other refl
          ])

-- The diagnostics of the two branches differ in their code.
cascade-destructive :
    (c : ResourceChange) (keys : BypassKeySet)
    → some (cascade_risk c) ≢ some (destructive_delete c keys)
unfolding cascade_risk destructive_delete
cascade-destructive c keys e =
    let code = ap (λ (d : Diagnostic). d.code) (Option.some_inj.0 e) in cc

destructive_branch :
    (bypass bears orphan app : Bool) (d c : Diagnostic) (cascades : Bool)
    → some c ≢ some d
    → ((if bypass
          then none
          else if bears
          then (if orphan then none else some d)
          else if app
          then (if cascades then some c else none)
          else none)
        ≡ some d)
      ↔ ((bears ≡ true) × (bypass ≡ false) × (orphan ≡ false))
destructive_branch true bears orphan app d c cascades apart =
    (λ e. absurd (Option.none-ne-some _ e), λ h. let (_, given, _) = h in cc)
destructive_branch false true true app d c cascades apart =
    (λ e. absurd (Option.none-ne-some _ e), λ h. let (_, _, given) = h in cc)
destructive_branch false true false app d c cascades apart = (λ e. (refl, refl, refl), λ h. refl)
destructive_branch false false orphan true d c true apart =
    (λ e. absurd (apart e), λ h. let (given, _, _) = h in cc)
destructive_branch false false orphan true d c false apart =
    (λ e. absurd (Option.none-ne-some _ e), λ h. let (given, _, _) = h in cc)
destructive_branch false false orphan false d c cascades apart =
    (λ e. absurd (Option.none-ne-some _ e), λ h. let (given, _, _) = h in cc)

round-branch :
    (keys : BypassKeySet) (kinds : Option (List GroupKind)) (c : ResourceChange)
    → (destructive_round keys kinds c ≡ some (destructive_delete c keys)) ↔ (
        (is_state_bearing kinds c.identity ≡ true)
        × (has_bypass_annotation allow_delete c.base_raw keys ≡ false)
        × ((read_deletion_policy c.base_raw == "Orphan") ≡ false))
unfolding destructive_round
round-branch keys kinds c =
    destructive_branch (has_bypass_annotation allow_delete c.base_raw keys)
      (is_state_bearing kinds c.identity) (read_deletion_policy c.base_raw == "Orphan")
      (is_application c.identity) (destructive_delete c keys) (cascade_risk c)
      (has_cascade_finalizer c.base_raw && not (preserve_resources_on_deletion c.base_raw))
      (cascade-destructive c keys)

false-ne-true : false ≡ true → ⊥
false-ne-true e = cc

unequal : (s : String) → s ≢ "Orphan" → (s == "Orphan") ≡ false
unequal s d = elim (Bool-cases (s == "Orphan")) [
  | inl e ↦ absurd (d ((eq_iff s "Orphan").0 e))
  | inr other ↦ other
]

-- What a fact says, when there is one.
given_fact :
    (b : Bool) (x f : CpDeletionPolicyFact)
    → (if b then some x else none) ≡ some f
    → (b ≡ true) × (x ≡ f)
given_fact true x f e = (refl, Option.some_inj.0 e)
given_fact false x f e = absurd (Option.none-ne-some _ e)

-- For the removal of a resource whose annotations silence R26 exactly if they silence R23, R26 reports a destructive delete exactly if R23's fact about the resource is there, is not silenced and has another policy than Orphan.
pub destructive_round-fact :
    (keys : BypassKeySet) (kinds : Option (List GroupKind)) (res : ResourceInfo)
    (c : ResourceChange)
    → c.identity ≡ resource_identity res
    → c.base_raw ≡ res.raw
    → has_bypass_annotation allow_delete res.raw keys ≡ has_key keys res.annotations allow_delete
    → (destructive_round keys kinds c ≡ some (destructive_delete c keys)) ↔ (
        (f : CpDeletionPolicyFact) × ((deletion_policy_fact (source_kinds kinds) keys res ≡ some f)
          × (f.bypass ≡ false)
          × (f.deletion_policy ≢ "Orphan")))
destructive_round-fact keys kinds res c identity raw alike =
    let (reported, report) = round-branch keys kinds c in
    (
      λ e.
          let (bears, silent, policy) = reported e in
          (
            fact_of keys res,
            (
              deletion_policy_fact-if kinds keys res
                  ∙ ap (λ b. if b then some (fact_of keys res) else none)
                      (ap (is_state_bearing kinds) (sym identity) ∙ bears),
              sym alike ∙ ap (λ r. has_bypass_annotation allow_delete r keys) (sym raw) ∙ silent,
              λ orphan. false-ne-true (
                  sym policy
                  ∙ ap (λ r. read_deletion_policy r == "Orphan") raw
                  ∙ (eq_iff (read_deletion_policy res.raw) "Orphan").1 orphan),
            ),
          ),
      λ h.
          let (f, (there, silent, other)) = h in
          let (bears, same) =
            given_fact (is_state_bearing kinds (resource_identity res)) (fact_of keys res) f
              (sym (deletion_policy_fact-if kinds keys res) ∙ there) in
          report (
            ap (is_state_bearing kinds) identity ∙ bears,
            ap (λ r. has_bypass_annotation allow_delete r keys) raw
                ∙ alike
                ∙ ap (λ (g : CpDeletionPolicyFact). g.bypass) same
                ∙ silent,
            ap (λ r. read_deletion_policy r == "Orphan") raw
                ∙ unequal (read_deletion_policy res.raw) (λ e.
                  other (ap (λ (g : CpDeletionPolicyFact). g.deletion_policy) (sym same) ∙ e)),
          ),
    )
