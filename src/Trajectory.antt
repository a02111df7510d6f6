-- ===== src/Trajectory.antt =====
-- pkg/trajectory: the simulated contents of the cluster after each sync wave. A set of keys is a list
-- of keys; `in_state` is its membership.
pub mod Waves
pub mod Buckets
pub mod Steps
use cross_validate.Base.{
  String, Bool, true, false, ◌&&◌, ◌||◌, not, Option, none, some, List, [], ◌∷◌, ◌++◌, flat_map,
  if◌then◌else◌, ◌==◌, Eq, string_eq, any, select, ◌≡◌, ◌↔◌, arith, eq_iff,
}
use cross_validate.Base.Int.{ℤ, ltb_ℤ, integer_eq}
use cross_validate.Base.Maps.{lookup, insert}
use cross_validate.Base.Sorting.{sort_by}
use cross_validate.Base.Texts.{str_lt}
use cross_validate.Types.World.{ResourceInfo, ArgoApplication, World, text_at}
use cross_validate.Ir.Groups.{parse_sync_wave}

pub record ResourceKey : Type 0 where
  pub api_version : String
  pub kind : String
  pub namespace : String
  pub name : String

abbrev pub key_eq : ResourceKey → ResourceKey → Bool
key_eq a b =
    a.api_version == b.api_version
    && (a.kind == b.kind && (a.namespace == b.namespace && a.name == b.name))

pub key_eq_iff : (a b : ResourceKey) → (key_eq a b ≡ true) ↔ (a ≡ b)
key_eq_iff a b = (
  λ h. ground (
    arith,
    eq_iff a.api_version b.api_version,
    eq_iff a.kind b.kind,
    eq_iff a.namespace b.namespace,
    eq_iff a.name b.name,
  ),
  λ h. ground (
    arith,
    eq_iff a.api_version b.api_version,
    eq_iff a.kind b.kind,
    eq_iff a.namespace b.namespace,
    eq_iff a.name b.name,
  ),
)

instance abbrev pub key_instance : Eq ResourceKey
key_instance = record { beq = key_eq; beq_iff = key_eq_iff }

-- `KeyOf`
abbrev pub key_of : ResourceInfo → ResourceKey
key_of r = record {
  api_version = r.api_version;
  kind = r.kind;
  namespace = r.namespace;
  name = r.name;
}

-- `Delta.Updated` is always nil and left out.
pub record Delta : Type 0 where
  pub created : List ResourceKey
  pub deleted : List ResourceKey

pub record Step : Type 0 where
  pub app_name : String
  pub wave : ℤ
  pub delta : Delta
  pub state : List ResourceKey

pub record WaveBucket : Type 0 where
  pub creates : List ResourceInfo
  pub deletes : List ResourceInfo

-- `hookDeletes`
pub hook_deletes : ResourceInfo → Bool
unfolding text_at
hook_deletes r =
    let policy = text_at "argocd.argoproj.io/hook-delete-policy" r.annotations in
    policy == "HookSucceeded" || policy == "HookFailed"

-- `scopeToApp`
pub scope_to_app : ArgoApplication → List ResourceInfo → List ResourceInfo
scope_to_app app resources =
    let ns = app.destination.namespace in
    if ns == "" then resources else select (λ r. r.namespace == "" || r.namespace == ns) resources

-- `orNew`
abbrev pub or_new : Option WaveBucket → WaveBucket
or_new none = record { creates = []; deletes = [] }
or_new (some b) = b

abbrev pub wave_of : ResourceInfo → ℤ
wave_of r = parse_sync_wave r.annotations

-- The bucket of a resource's wave with the resource added.
abbrev pub add_resource : ResourceInfo → WaveBucket → WaveBucket
add_resource r b = record {
  creates = b.creates ++ r ∷ [];
  deletes = if hook_deletes r then b.deletes ++ r ∷ [] else b.deletes;
}

-- The first loop of `simulateApp`.
pub fill_buckets : List (ℤ × WaveBucket) → List ResourceInfo → List (ℤ × WaveBucket)
unfolding lookup insert hook_deletes parse_sync_wave
fill_buckets out [] = out
fill_buckets out (r ∷ rs) =
    fill_buckets (insert (wave_of r) (add_resource r (or_new (lookup (wave_of r) out))) out) rs

abbrev pub waves : List (ℤ × WaveBucket) → List ℤ
waves [] = []
waves ((w, _) ∷ m) = w ∷ waves m

abbrev pub in_state : ResourceKey → List ResourceKey → Bool
in_state k state = any (λ j. j == k) state

-- The loop over the creations of a wave, with the created keys and the state.
pub create_all :
    List ResourceKey → List ResourceKey → List ResourceInfo → List ResourceKey × List ResourceKey
create_all created state [] = (created, state)
create_all created state (r ∷ rs) =
    let seen = in_state (key_of r) state in
    create_all (if seen then created else created ++ key_of r ∷ [])
      (if seen then state else state ++ key_of r ∷ []) rs

-- The loop over its deletions.
pub delete_all :
    List ResourceKey → List ResourceKey → List ResourceInfo → List ResourceKey × List ResourceKey
delete_all deleted state [] = (deleted, state)
delete_all deleted state (r ∷ rs) =
    let seen = in_state (key_of r) state in
    delete_all (if seen then deleted ++ key_of r ∷ [] else deleted)
      (if seen then select (λ j. not (j == key_of r)) state else state) rs

-- The order of `sortKeys`.
pub key_less : ResourceKey → ResourceKey → Bool
unfolding str_lt
key_less a b =
    if not (a.kind == b.kind)
    then str_lt a.kind b.kind
    else if not (a.namespace == b.namespace)
    then str_lt a.namespace b.namespace
    else str_lt a.name b.name

-- One round of the loop over the sorted waves.
pub step_of : String → List (ℤ × WaveBucket) → List ResourceKey → ℤ → Step
unfolding lookup create_all delete_all sort_by key_less
step_of app_name buckets state w =
    let b = or_new (lookup w buckets) in
    let made = create_all [] state b.creates in
    let gone = delete_all [] (made.1) b.deletes in
    record {
      app_name = app_name;
      wave = w;
      delta = record { created = sort_by key_less (made.0); deleted = sort_by key_less (gone.0) };
      state = gone.1;
    }

pub steps_from : String → List (ℤ × WaveBucket) → List ResourceKey → List ℤ → List Step
unfolding step_of
steps_from app_name buckets state [] = []
steps_from app_name buckets state (w ∷ ws) =
    step_of app_name buckets state w
    ∷ steps_from app_name buckets (step_of app_name buckets state w).state ws

-- `simulateApp`
unfoldable pub simulate_app : ArgoApplication → List ResourceInfo → List Step
unfolding scope_to_app fill_buckets steps_from sort_by
simulate_app app resources =
    let buckets = fill_buckets [] (scope_to_app app resources) in
    steps_from app.name buckets [] (sort_by ltb_ℤ (waves buckets))

-- `Simulate` of a world
pub simulate : World → List Step
unfolding simulate_app sort_by str_lt flat_map
simulate w =
    flat_map (λ app. simulate_app app w.resources)
      (sort_by (λ a b. str_lt a.name b.name) w.argo_apps)
