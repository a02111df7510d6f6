-- ===== src/Trajectory/Steps.antt =====
-- The steps of an Application: their waves, the delta of each, and the state after each.
use cross_validate.Base.{
  any-select, String, Bool, true, false, ◌&&◌, ◌||◌, not, List, [], ◌∷◌, map, ◌==◌, any, ◌≡◌, refl,
  sym, subst, ap, ◌∙◌, arith,
}
use cross_validate.Base.Int.{ℤ, integer_eq, ltb_ℤ, ltb_ℤ_asymm, ltb_ℤ_total}
use cross_validate.Base.Maps.{lookup}
use cross_validate.Base.Sorting.{sort_by}
use cross_validate.Base.Sorting.Strict.{IsChain, sort_by-IsChain, any-sort_by}
use cross_validate.Types.World.{ResourceInfo, ArgoApplication}
use cross_validate.Trajectory.{
  ResourceKey, key_instance, key_of, key_less, Step, hook_deletes, scope_to_app, or_new,
  fill_buckets, waves, in_state, create_all, step_of, steps_from, simulate_app,
}
use cross_validate.Trajectory.Waves.{
  in_wave, creates-fill_buckets, deletes-fill_buckets, in_state-create_all, in_state-delete_all,
}
use cross_validate.Trajectory.Buckets.{
  fill_buckets-IsMap, any-waves-fill_buckets, Distinct, Distinct-sym, Pairwise-waves,
  created-create_all, deleted-delete_all,
}

-- A resource of the wave has the key, or one with a deleting hook has.
abbrev pub wave_creates : List ResourceInfo → ℤ → ResourceKey → Bool
wave_creates scope w k = any (λ r. in_wave w r && key_of r == k) scope

abbrev pub wave_deletes : List ResourceInfo → ℤ → ResourceKey → Bool
wave_deletes scope w k = any (λ r. (in_wave w r && hook_deletes r) && key_of r == k) scope

-- A step after a state: its wave creates the keys of its resources that were not in the state, then
-- deletes those of its resources with a deleting hook.
abbrev pub IsStep : String → List ResourceInfo → List ResourceKey → Step → Type 0
IsStep app_name scope before s =
    (s.app_name ≡ app_name)
    × ((k : ResourceKey)
        → (in_state k s.delta.created ≡ (wave_creates scope s.wave k && not (in_state k before)))
          × (in_state k s.delta.deleted ≡ wave_deletes scope s.wave k)
          × (in_state k s.state ≡ (
              (in_state k before || wave_creates scope s.wave k)
              && not (wave_deletes scope s.wave k))))

-- Each step is one after the state of the step before it.
abbrev pub Follows : String → List ResourceInfo → List ResourceKey → List Step → Type 0
Follows app_name scope before [] = Unit
Follows app_name scope before (s ∷ ss) =
    IsStep app_name scope before s × Follows app_name scope s.state ss

-- The waves increase strictly.
abbrev pub IsEarlier : ℤ → ℤ → Type 0
IsEarlier v w = ltb_ℤ v w ≡ true

any_weaker :
    (p q h : ResourceInfo → Bool) (rs : List ResourceInfo)
    → any (λ r. (p r && h r) && q r) rs ≡ true
    → any (λ r. p r && q r) rs ≡ true
any_weaker p q h [] e = e
any_weaker p q h (r ∷ rs) e = let ih = any_weaker p q h rs in ground arith

-- What is deleted was there, or has been created in the same wave.
deleted_was_there : (b c d : Bool) → (d ≡ true → c ≡ true) → ((b || c) && d) ≡ d
deleted_was_there b c true h = rw (h refl) (ground arith)
deleted_was_there b c false h = ground arith

module _ (app_name : String) (scope : List ResourceInfo) where
  bucket_creates :
      (w : ℤ) (k : ResourceKey)
      → any (λ r. key_of r == k) (or_new (lookup w (fill_buckets [] scope))).creates
        ≡ wave_creates scope w k
  unfolding lookup
  bucket_creates w k =
      ap (any (λ r. key_of r == k)) (creates-fill_buckets w scope [])
      ∙ any-select (λ r. key_of r == k) (in_wave w) scope

  bucket_deletes :
      (w : ℤ) (k : ResourceKey)
      → any (λ r. key_of r == k) (or_new (lookup w (fill_buckets [] scope))).deletes
        ≡ wave_deletes scope w k
  unfolding lookup
  bucket_deletes w k =
      ap (any (λ r. key_of r == k)) (deletes-fill_buckets w scope [])
      ∙ any-select (λ r. key_of r == k) (λ r. in_wave w r && hook_deletes r) scope

  -- The state between the creations and the deletions of a wave.
  in_state-created :
      (before : List ResourceKey) (w : ℤ) (k : ResourceKey)
      → in_state k (create_all [] before (or_new (lookup w (fill_buckets [] scope))).creates).1
        ≡ (in_state k before || wave_creates scope w k)
  in_state-created before w k =
      in_state-create_all k (or_new (lookup w (fill_buckets [] scope))).creates [] before
      ∙ ap (λ c. in_state k before || c) (bucket_creates w k)

  step_of-IsStep :
      (before : List ResourceKey) (w : ℤ)
      → IsStep app_name scope before (step_of app_name (fill_buckets [] scope) before w)
  unfolding step_of
  step_of-IsStep before w = (
    refl,
    λ k.
        let b = or_new (lookup w (fill_buckets [] scope)) in
        let made = create_all [] before b.creates in
        let was_there =
          deleted_was_there (in_state k before) (wave_creates scope w k) (wave_deletes scope w k)
            (any_weaker (in_wave w) (λ r. key_of r == k) hook_deletes scope) in
        (
          any-sort_by key_less (λ j. j == k) _
              ∙ created-create_all k b.creates [] before
              ∙ ap (λ c. c && not (in_state k before)) (bucket_creates w k),
          any-sort_by key_less (λ j. j == k) _
              ∙ deleted-delete_all k b.deletes [] made.1
              ∙ ap (λ s. s && any (λ r. key_of r == k) b.deletes) (in_state-created before w k)
              ∙ ap (λ d. (in_state k before || wave_creates scope w k) && d) (bucket_deletes w k)
              ∙ was_there,
          in_state-delete_all k b.deletes [] made.1
              ∙ ap (λ s. s && not (any (λ r. key_of r == k) b.deletes))
                  (in_state-created before w k)
              ∙ ap (λ d. (in_state k before || wave_creates scope w k) && not d)
                  (bucket_deletes w k),
        ),
  )

  steps_from-Follows :
      (before : List ResourceKey) (ws : List ℤ)
      → Follows app_name scope before (steps_from app_name (fill_buckets [] scope) before ws)
  unfolding steps_from
  steps_from-Follows before [] = tt
  steps_from-Follows before (w ∷ ws) = (
    step_of-IsStep before w,
    steps_from-Follows (step_of app_name (fill_buckets [] scope) before w).state ws,
  )

  waves-steps_from :
      (before : List ResourceKey) (ws : List ℤ)
      → map (λ s. s.wave) (steps_from app_name (fill_buckets [] scope) before ws) ≡ ws
  unfolding steps_from
  waves-steps_from before [] = refl
  waves-steps_from before (w ∷ ws) =
      ap (λ vs. w ∷ vs)
        (waves-steps_from (step_of app_name (fill_buckets [] scope) before w).state ws)

-- Each step of an Application has its name, and there is one step for each wave that a resource in scope has, and no other, in increasing order of the waves. From the empty cluster on, a step creates the keys of its wave's resources in scope that were not in the state before it, and deletes the keys of those of these resources that have a deleting hook, created by it or not; the state after it holds what was there before or belongs to its wave, without what it deletes.
pub simulate_app-Follows :
    (app : ArgoApplication) (resources : List ResourceInfo)
    → let scope = scope_to_app app resources in
      let steps = simulate_app app resources in
      Follows app.name scope [] steps
      × IsChain IsEarlier (map (λ s. s.wave) steps)
      × ((w : ℤ) → any (λ v. v == w) (map (λ s. s.wave) steps) ≡ any (in_wave w) scope)
unfolding simulate_app lookup
simulate_app-Follows app resources =
    let scope = scope_to_app app resources in
    let ws = waves (fill_buckets [] scope) in
    let same = waves-steps_from app.name scope [] (sort_by ltb_ℤ ws) in
    (
      steps_from-Follows app.name scope [] (sort_by ltb_ℤ ws),
      subst (IsChain IsEarlier) (sym same) (
          sort_by-IsChain ltb_ℤ Distinct Distinct-sym IsEarlier
            (λ v w less other. ltb_ℤ_total w v less (Distinct-sym v w other)) ltb_ℤ_asymm ws
            (Pairwise-waves (fill_buckets [] scope) (fill_buckets-IsMap scope [] tt))),
      λ w.
          ap (any (λ v. v == w)) same
          ∙ any-sort_by ltb_ℤ (λ v. v == w) ws
          ∙ any-waves-fill_buckets w scope,
    )
