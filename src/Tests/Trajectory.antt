-- ===== src/Tests/Trajectory.antt =====
-- pkg/trajectory on a job with a deleting hook in wave 0 and a service in wave 1.
use cross_validate.Base.{false, none, [], ◌∷◌, map, any, ◌==◌, ◌≡◌, refl}
use cross_validate.Base.Int.{ℤ, pos, integer_eq}
use cross_validate.Base.Sorting.Strict.{IsChain}
use cross_validate.Types.Argo.{ArgoSyncPolicy}
use cross_validate.Types.World.{ResourceInfo, ArgoApplication}
use cross_validate.Plan.Diff.{no_source}
use cross_validate.Trajectory.{key_of, scope_to_app, simulate_app}
use cross_validate.Trajectory.Steps.{Follows, IsEarlier, simulate_app-Follows}
use cross_validate.Trajectory.Waves.{in_wave}

abbrev job : ResourceInfo
job = record {
  api_version = "batch/v1";
  kind = "Job";
  name = "migrate";
  namespace = "web";
  annotations = ("argocd.argoproj.io/hook-delete-policy", "HookSucceeded") ∷ [];
  source = no_source;
  raw = none;
  owning_app = "";
}

abbrev service : ResourceInfo
service = record {
  api_version = "v1";
  kind = "Service";
  name = "web";
  namespace = "web";
  annotations = ("argocd.argoproj.io/sync-wave", "1") ∷ [];
  source = no_source;
  raw = none;
  owning_app = "";
}

abbrev pub no_policy : ArgoSyncPolicy
no_policy = record {
  automated = none;
  sync_options = record {
    replace = false;
    server_side_apply = false;
    prune = false;
    prune_last = false;
    create_namespace = false;
    apply_out_of_sync_only = false;
    validate = false;
    fail_on_shared_resource = false;
    respect_ignore_differences = false;
  };
  retry = none;
  preserve_resources_on_deletion = false;
}

abbrev app : ArgoApplication
app = record {
  name = "web";
  namespace = "argocd";
  source = no_source;
  destination = record { server = ""; name = ""; namespace = "web" };
  project = "";
  tracking_mode = "annotation";
  sync_waves = [];
  sources = [];
  sync_policy = no_policy;
  ignore_differences = [];
  hooks = [];
  finalizers = [];
  annotations = [];
}

two_steps :
    simulate_app app (service ∷ job ∷ [])
    ≡ record {
      app_name = "web";
      wave = pos 0;
      delta = record { created = key_of job ∷ []; deleted = key_of job ∷ [] };
      state = [];
    }
      ∷ record {
        app_name = "web";
        wave = pos 1;
        delta = record { created = key_of service ∷ []; deleted = [] };
        state = key_of service ∷ [];
      }
      ∷ []
unfolding simulate_app
two_steps = refl

simulate_app-Follows_example :
    Follows "web" (scope_to_app app (service ∷ job ∷ [])) [] (simulate_app app (service ∷ job ∷ []))
    × IsChain IsEarlier (map (λ s. s.wave) (simulate_app app (service ∷ job ∷ [])))
    × ((w : ℤ)
        → any (λ v. v == w) (map (λ s. s.wave) (simulate_app app (service ∷ job ∷ [])))
          ≡ any (in_wave w) (scope_to_app app (service ∷ job ∷ [])))
simulate_app-Follows_example = simulate_app-Follows app (service ∷ job ∷ [])
