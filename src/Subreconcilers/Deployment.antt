-- ===== src/Subreconcilers/Deployment.antt =====
-- internal/controller/subreconcilers/deployment.go: the desired Deployment. `resource.MustParse`
-- panics on a text that is no quantity, so the builder answers `none` for a panic.
pub mod Environment
pub mod Rollout
use mathlib.Core.Option
use kubernetes_operators.Common.{
  String, Bool, true, false, not, ◌&&◌, ◌||◌, Option, none, some, List, [], ◌∷◌, map, ◌==◌,
  if◌then◌else◌, concat, lookup, Labels, insert,
}
use kubernetes_operators.Common.Int.{ℤ, pos, ltb_ℤ, eqb_ℤ, atoi, to_int32}
use kubernetes_operators.Common.Sorting.{sort}
use kubernetes_operators.Api.Meta.{named}
use kubernetes_operators.Api.V1alpha1.{
  PlatformApplication, PlatformApplicationSpec, ResourceSpec, RolloutSpec, HealthChecksSpec,
}
use kubernetes_operators.Cluster.Objects.{
  IntOrString, int, str, Container, ResourceRequirements, Probe, EnvVar, RollingUpdate,
  DeploymentStrategy, DeploymentSpec, Object, deployment,
}
use kubernetes_operators.Subreconcilers.Labels.{common_labels, merge_labels, selector_labels}

infixl 10 ◌>>=◌
abbrev ◌>>=◌ : {A B : Type 0} → Option A → (A → Option B) → Option B
none >>= f = none
some a >>= f = f a

-- `if text != "" { list[name] = resource.MustParse(text) }`
unfoldable pub put_quantity : (String → Bool) → String → String → Labels → Option Labels
put_quantity quantity_ok name text list =
    if text == ""
    then some list
    else if quantity_ok text
    then some (insert name text list)
    else none

-- One half of the resource block: the map stays nil if both texts are empty.
unfoldable pub resource_list : (String → Bool) → ResourceSpec → Option (Option Labels)
resource_list quantity_ok r =
    if not (r.cpu == "") || not (r.memory == "")
    then (do
      cpus ← put_quantity quantity_ok "cpu" r.cpu []
      both ← put_quantity quantity_ok "memory" r.memory cpus
      some (some both))
    else some none

unfoldable pub resource_requirements :
    (String → Bool) → ResourceSpec → ResourceSpec → Option ResourceRequirements
resource_requirements quantity_ok requests limits = do
  rs ← resource_list quantity_ok requests
  ls ← resource_list quantity_ok limits
  some (record { requests = rs; limits = ls })

-- The replica count of the Deployment: never less than one.
unfoldable pub deployment_replicas : ℤ → ℤ
deployment_replicas min = if ltb_ℤ min (pos 1) then pos 1 else min

unfoldable pub probe_port : ℤ → HealthChecksSpec → ℤ
probe_port service_port h = if eqb_ℤ h.port (pos 0) then service_port else h.port

abbrev or_text : String → String → String
or_text s d = if s == "" then d else s

unfoldable pub liveness_probe : ℤ → HealthChecksSpec → Probe
liveness_probe port h = record {
  path = or_text h.liveness_path "/healthz";
  probe_port = int port;
  initial_delay_seconds = pos 15;
  period_seconds = pos 20;
  timeout_seconds = pos 5;
  failure_threshold = pos 3;
}

unfoldable pub readiness_probe : ℤ → HealthChecksSpec → Probe
readiness_probe port h = record {
  path = or_text h.readiness_path "/readyz";
  probe_port = int port;
  initial_delay_seconds = pos 5;
  period_seconds = pos 10;
  timeout_seconds = pos 3;
  failure_threshold = pos 3;
}

-- The keys in the order in which the map is ranged over.
unfoldable pub keys : Labels → List String
keys m = map (λ e. e.0) m

-- `m[k]` of a Go map: the empty text on a missing key.
unfoldable pub get : Labels → String → String
get m k = elim (lookup k m) [ none ↦ "" | some v ↦ v ]

-- The environment variables, by sorted keys.
unfoldable pub env_vars : Labels → List EnvVar
env_vars m = map (λ k. record { env_name = k; env_value = get m k }) (sort (keys m))

-- A rollout bound: a number if the text is one, cut to 32 bits, else the text itself.
unfoldable pub rollout_bound : String → Option IntOrString
rollout_bound s =
    if s == ""
    then none
    else elim (atoi s) [ some n ↦ some (int (to_int32 n)) | none ↦ some (str s) ]

unfoldable pub strategy : RolloutSpec → DeploymentStrategy
strategy r =
    if r.strategy == "Recreate"
    then record { strategy_type = "Recreate"; rolling_update = none }
    else if not (r.max_unavailable == "") || not (r.max_surge == "")
    then record {
      strategy_type = "RollingUpdate";
      rolling_update = some (record {
        max_unavailable = rollout_bound r.max_unavailable;
        max_surge = rollout_bound r.max_surge;
      });
    }
    else record { strategy_type = "RollingUpdate"; rolling_update = none }

unfoldable pub container : PlatformApplication → ResourceRequirements → Container
container app resources =
    let spec = app.spec in
    let port = probe_port spec.service.port spec.health_checks in
    record {
      container_name = app.object_meta.name;
      image = concat (spec.image.repository ∷ ":" ∷ spec.image.tag ∷ []);
      image_pull_policy = spec.image.pull_policy;
      ports =
          record { port_name = "http"; container_port = spec.service.port; protocol = "TCP" } ∷ [];
      security_context = record {
        run_as_non_root = true;
        read_only_root_filesystem = true;
        allow_privilege_escalation = false;
        drop_capabilities = "ALL" ∷ [];
      };
      resources = resources;
      liveness_probe = liveness_probe port spec.health_checks;
      readiness_probe = readiness_probe port spec.health_checks;
      env = env_vars spec.configuration;
      volume_mounts = record { mount_name = "tmp"; mount_path = "/tmp" } ∷ [];
    }

-- The labels of the Deployment and of its pods.
unfoldable pub pod_labels : PlatformApplication → Labels
pod_labels app = merge_labels (
    common_labels app.object_meta.name
    ∷ (("app.kubernetes.io/instance", app.object_meta.name)
        ∷ ("app.kubernetes.io/version", app.spec.image.tag)
        ∷ [])
    ∷ [])

unfoldable pub build_desired_deployment : (String → Bool) → PlatformApplication → Option Object
build_desired_deployment quantity_ok app = do
  resources ←
      resource_requirements quantity_ok app.spec.resources.requests app.spec.resources.limits
  some (record {
    type_meta = record { api_version = "apps/v1"; kind = "Deployment" };
    meta = named app.object_meta.name app.object_meta.namespace (pod_labels app);
    body =
        deployment
          (record {
            replicas = deployment_replicas app.spec.replicas.min;
            match_labels = selector_labels app.object_meta.name;
            strategy = strategy app.spec.rollout;
            template_labels = pod_labels app;
            pod = record {
              pod_run_as_non_root = true;
              seccomp_profile = "RuntimeDefault";
              containers = container app resources ∷ [];
              empty_dir_volumes = "tmp" ∷ [];
            };
          })
          (pos 0);
  })
