-- ===== src/Ir/Enrich/Again.antt =====
-- Enriching again.
use cross_validate.Base.{
  ℕ, String, Bool, true, Option, none, some, List, [], if◌then◌else◌, ◌==◌, string_eq, ◌>>=◌, ◌≡◌,
  refl, ap, ◌∙◌, Bool-cases, inl, inr, is_empty, subst,
}
use mathlib.Core.Option
use cross_validate.Base.Maps.{insert, lookup-insert, has}
use cross_validate.Types.World.{ResourceInfo}
use cross_validate.Types.Values.{Value}
use cross_validate.Config.Immutable.{resolve_immutable_fields}
use cross_validate.Config.StateBearing.{resolve_state_bearing_kinds, state_bearing_kinds_registry}
use cross_validate.Config.Names.{EnvLabelConfig, resolve_prod_patterns, resolve_carveouts}
use cross_validate.Config.Bypass.{resolve_allow_delete_keys, resolve_allow_immutable_change_keys}
use cross_validate.Schemas.Index.{
  SchemaWorld, ResourceFieldFact, SchemaIndex, build_schema_index, validate_resources,
  enrich_field_validation,
}
use cross_validate.Ir.Enrich.State.{
  Registries, Knobs, Facts, FactWorld, no_facts, with_facts, with_field_facts, with_schema_world,
}
use cross_validate.Ir.Enrich.{
  knob_or, carveout_rule, default_carveouts_in, default_env_label_in, ensure_knob_defaults,
  enriched_facts, enrich_trajectory_data, enrich_fields, re_enrich,
}

knob_or-again {ℓ} : {A : Type ℓ} (o : Option A) (d : A) → knob_or (knob_or o d) d ≡ knob_or o d
knob_or-again none d = refl
knob_or-again (some a) d = refl

carveouts-again :
    (m : Option (List (String × List String))) (names : List String)
    → default_carveouts_in (default_carveouts_in m names) names ≡ default_carveouts_in m names
unfolding default_carveouts_in
carveouts-again none names = refl
carveouts-again (some m) names = elim (Bool-cases (has carveout_rule m)) [
  | inl there ↦ rw (there, default_carveouts_in) (rw there refl)
  | inr absent ↦
      let there : has carveout_rule (insert carveout_rule names m) ≡ true =
        rw (lookup-insert carveout_rule carveout_rule names m) refl in
      rw (absent, default_carveouts_in) (rw there refl)
]

env_label-again :
    (env : EnvLabelConfig)
    → default_env_label_in (default_env_label_in env) ≡ default_env_label_in env
unfolding default_env_label_in
env_label-again env = elim (Bool-cases (env.key == "")) [
  | inl blank ↦ rw (blank, default_env_label_in) refl
  | inr set ↦ rw (set, default_env_label_in) (rw set refl)
]

knobs-again :
    (registries : Registries) (k : Knobs)
    → ensure_knob_defaults registries (ensure_knob_defaults registries k)
      ≡ ensure_knob_defaults registries k
unfolding ensure_knob_defaults
knobs-again registries k = λ i. record {
  immutable_fields =
      knob_or-again k.immutable_fields (resolve_immutable_fields none registries.immutable_fields)
        i;
  state_bearing_kinds =
      knob_or-again k.state_bearing_kinds
        (resolve_state_bearing_kinds none state_bearing_kinds_registry) i;
  env_label = env_label-again k.env_label i;
  prod_patterns = knob_or-again k.prod_patterns (resolve_prod_patterns none) i;
  bypass_keys = record {
    allow_delete = knob_or-again k.bypass_keys.allow_delete (resolve_allow_delete_keys none) i;
    allow_immutable_change =
        knob_or-again k.bypass_keys.allow_immutable_change
          (resolve_allow_immutable_change_keys none) i;
  };
  name_carveouts = carveouts-again k.name_carveouts (resolve_carveouts none) i;
}

index-again : (w : SchemaWorld) → build_schema_index (build_schema_index w).1 ≡ build_schema_index w
unfolding build_schema_index
index-again w = by_cache w.schema_index
  where
    world_with : Option SchemaIndex → SchemaWorld
    world_with o = record { xrds = w.xrds; crds = w.crds; schemas = w.schemas; schema_index = o }

    by_cache :
        (o : Option SchemaIndex)
        → build_schema_index (build_schema_index (world_with o)).1
          ≡ build_schema_index (world_with o)
    by_cache none = refl
    by_cache (some index) = refl

-- The World that enriching gives, with the field facts of its resources.
abbrev enriched : Registries → FactWorld → List ResourceFieldFact → FactWorld
enriched registries w facts =
    let v = enrich_trajectory_data registries (with_facts no_facts w) in
    with_schema_world (build_schema_index w.schema_world).1
      (with_facts (with_field_facts facts v.facts) v)

enriched-again :
    (registries : Registries) (w : FactWorld) (facts : List ResourceFieldFact)
    → enriched registries (enriched registries w facts) facts ≡ enriched registries w facts
unfolding enrich_trajectory_data
enriched-again registries w facts =
    let same = knobs-again registries w.knobs in
    λ i. record {
      world = w.world;
      schema_world = (index-again w.schema_world i).1;
      knobs = same i;
      selector_mappings = registries.selectors;
      late_init_mappings = registries.late_inits;
      canonical_form_mappings = registries.canonical_forms;
      facts = with_field_facts facts (enriched_facts registries w.world (same i) no_facts);
    }

module _ (beyond : ℕ → Bool) (quote : String → String) (show : Value → String) where
  re_enrich-enriched :
      (registries : Registries) (w : FactWorld)
      → re_enrich beyond quote show registries w ≡ (
          enrich_field_validation beyond quote show w.schema_world w.world.resources >>= λ facts.
          some (enriched registries w facts))
  unfolding re_enrich enrich_fields enrich_trajectory_data
  re_enrich-enriched registries w = refl

  validation-again :
      (s : SchemaWorld) (resources : List ResourceInfo)
      → enrich_field_validation beyond quote show (build_schema_index s).1 resources
        ≡ enrich_field_validation beyond quote show s resources
  unfolding enrich_field_validation
  validation-again s resources =
      ap (λ b. if is_empty b.0 then some [] else validate_resources beyond quote show b.0 resources)
        (index-again s)

  -- Enriching a World again gives the same: facts that the World held before make no difference, and where it ends without a panic, doing it once more changes nothing.
  pub re_enrich-again :
      (registries : Registries) (w : FactWorld) (held : Facts)
      → (re_enrich beyond quote show registries (with_facts held w)
          ≡ re_enrich beyond quote show registries w)
        × ((w' : FactWorld)
            → re_enrich beyond quote show registries w ≡ some w'
            → re_enrich beyond quote show registries w' ≡ some w')
  unfolding re_enrich enrich_fields
  re_enrich-again registries w held = (
    refl,
    λ w' e.
        once (enrich_field_validation beyond quote show w.schema_world w.world.resources) w' refl e,
  )
    where
      once :
          (o : Option (List ResourceFieldFact)) (w' : FactWorld)
          → enrich_field_validation beyond quote show w.schema_world w.world.resources ≡ o
          → (o >>= λ facts. some (enriched registries w facts)) ≡ some w'
          → re_enrich beyond quote show registries w' ≡ some w'
      once none w' given e = absurd (Option.none-ne-some _ e)
      once (some facts) w' given e =
          let same : enriched registries w facts ≡ w' = Option.some_inj.0 e in
          subst (λ v. re_enrich beyond quote show registries v ≡ some v) same
            (rw (validation-again w.schema_world w.world.resources ∙ given)
              (ap some (enriched-again registries w facts)))
