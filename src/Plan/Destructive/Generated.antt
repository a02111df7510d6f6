-- ===== src/Plan/Destructive/Generated.antt =====
-- R26 on the Applications that an ApplicationSet generates.
use cross_validate.Base.{
  String, Bool, false, Option, none, some, List, [], ◌≡◌, refl, ap, ◌∙◌, ◌==◌, string_eq, Memᴰ,
  Bool-cases, inl, inr,
}
use cross_validate.Base.Lists.Places.{All-mem}
use cross_validate.Types.Argo.{ArgoApplication, ArgoApplicationSet}
use cross_validate.Types.World.{BypassKeySet, GroupKind, allow_delete}
use cross_validate.AppSet.Generators.{ExpansionContext}
use cross_validate.AppSet.Instantiate.{expand_app_set}
use cross_validate.AppSet.Instantiate.Fields.{IsBare, expand_app_set-IsBare}
use cross_validate.Plan.Diff.{ResourceChange, indexed_application, argo_app_virtual_raw}
use cross_validate.Plan.Manifest.{has_cascade_finalizer, has_bypass_annotation}
use cross_validate.Plan.Destructive.{destructive_round, is_state_bearing, is_application}

no_finalizer :
    (app : ArgoApplication)
    → app.finalizers ≡ []
    → app.annotations ≡ []
    → has_cascade_finalizer (some (argo_app_virtual_raw app)) ≡ false
unfolding has_cascade_finalizer argo_app_virtual_raw
no_finalizer app h k = elim (Bool-cases (app.namespace == "")) [
  | inl same ↦ rw (h, k, same) refl
  | inr other ↦ rw (h, k, other) refl
]

not_at_risk :
    (c : ResourceChange) (keys : BypassKeySet) (kinds : Option (List GroupKind))
    → is_state_bearing kinds c.identity ≡ false
    → has_cascade_finalizer c.base_raw ≡ false
    → destructive_round keys kinds c ≡ none
unfolding destructive_round
not_at_risk c keys kinds h k =
    rw (h, k)
      (elim (Bool-cases (has_bypass_annotation allow_delete c.base_raw keys)) [
        | inl bypassed ↦ rw bypassed refl
        | inr other ↦ elim (Bool-cases (is_application c.identity)) [
          | inl app ↦ rw (other, app) refl
          | inr res ↦ rw (other, res) refl
        ]
      ])

-- R26 gives no diagnostic for the removal of an Application that an ApplicationSet generates, unless Applications are configured as state-bearing: whatever finalizers the template has, the generated Application has none.
pub r26_generated :
    (glob : String → Option (List String)) (is_dir : String → Bool) (quote : String → String)
    (set : ArgoApplicationSet) (ctx : ExpansionContext) (app : ArgoApplication) (c : ResourceChange)
    (keys : BypassKeySet) (kinds : Option (List GroupKind))
    → Memᴰ app (expand_app_set glob is_dir quote set ctx).applications
    → c.base_raw ≡ (indexed_application app).raw
    → is_state_bearing kinds c.identity ≡ false
    → destructive_round keys kinds c ≡ none
unfolding indexed_application
r26_generated glob is_dir quote set ctx app c keys kinds member same other =
    let bare = All-mem (IsBare set) (expand_app_set-IsBare glob is_dir quote set ctx) member in
    not_at_risk c keys kinds other (ap has_cascade_finalizer same ∙ no_finalizer app bare.0 bare.1)
