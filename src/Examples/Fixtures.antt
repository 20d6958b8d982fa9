-- ===== src/Examples/Fixtures.antt =====
-- One application, in two versions, and clients of a small cluster whose state is a clock.
use kubernetes_operators.Common.{
  ℕ, zero, suc, ◌+◌, String, Bool, true, false, none, some, List, [], ◌∷◌, ◌==◌, if◌then◌else◌,
}
use kubernetes_operators.Common.Int.{pos}
use kubernetes_operators.Errors.{Error, foreign, wrapped, reconcile, ApiErrors}
use kubernetes_operators.Api.Meta.{TypeMeta, ObjectMeta, named}
use kubernetes_operators.Api.V1alpha1.{
  PlatformApplication, PlatformApplicationSpec, PlatformApplicationStatus, ResourceSpec,
}
use kubernetes_operators.Api.V1beta1 as Beta
use kubernetes_operators.Api.V1 as Stable
use kubernetes_operators.Cluster.Objects.{Object, ObjectKey, deployment}
use kubernetes_operators.Cluster.Client.{Client, Result, success, failure}
use kubernetes_operators.Cluster.Exec.{World}
use kubernetes_operators.Fakeclient.{FaultError}

abbrev no_resource : ResourceSpec
no_resource = record { cpu = ""; memory = "" }

abbrev pub shop_spec : PlatformApplicationSpec
shop_spec = record {
  image = record { repository = "registry/shop"; tag = "1.2"; pull_policy = "" };
  replicas = record { min = pos 2; max = pos 0 };
  service = record { port = pos 8080; type = "" };
  configuration = ("B", "2") ∷ ("A", "1") ∷ [];
  autoscaling = record { enabled = true; target_cpu_utilization = pos 0 };
  gateway = record {
    enabled = true;
    host = "shop.example";
    gateway_ref = "edge/main";
    path_prefix = "";
  };
  observability = record { metrics = false };
  security = record { network_policy = false };
  resources = record { requests = record { cpu = "100m"; memory = "" }; limits = no_resource };
  health_checks = record { liveness_path = ""; readiness_path = ""; port = pos 0 };
  rollout = record { strategy = ""; max_unavailable = "1"; max_surge = "25%" };
}

abbrev pub shop_meta : ObjectMeta
shop_meta = record (named "shop" "prod" []) {
  generation = pos 7;
  finalizers = "platform.example.io/cleanup" ∷ [];
}

abbrev pub no_status : PlatformApplicationStatus
no_status = record {
  observed_generation = pos 0;
  ready_replicas = pos 0;
  url = "";
  conditions = [];
  deployed_version = "";
}

abbrev pub no_type : TypeMeta
no_type = record { api_version = ""; kind = "" }

abbrev pub shop : PlatformApplication
shop = record { type_meta = no_type; object_meta = shop_meta; spec = shop_spec; status = no_status }

abbrev pub shop_key : ObjectKey
shop_key = record { key_name = "shop"; key_namespace = "prod" }

abbrev pub leaving_shop : PlatformApplication
leaving_shop = record shop { object_meta = record shop_meta { deletion_timestamp = some 5 } }

abbrev pub new_shop : PlatformApplication
new_shop = record shop { object_meta = record shop_meta { finalizers = [] } }

-- The same application at the hub, with fields that v1alpha1 does not have.
abbrev pub hub_shop : Beta.PlatformApplication ℕ
hub_shop = record {
  type_meta = no_type;
  object_meta = shop_meta;
  spec = record {
    image = record { repository = "registry/shop"; tag = "1.2"; pull_policy = "" };
    replicas = record { min = pos 2; max = pos 0 };
    service = record { port = pos 8080; type = "" };
    configuration = ("B", "2") ∷ [];
    env_from = 1 ∷ 2 ∷ [];
    pod_annotations = ("team", "web") ∷ [];
    autoscaling = record { enabled = true; target_cpu_utilization = pos 0 };
    gateway = record { enabled = false; host = ""; gateway_ref = ""; path_prefix = "" };
    observability = record { metrics = false };
    security = record { network_policy = false };
    resources = record {
      requests = record { cpu = "100m"; memory = "" };
      limits = record { cpu = ""; memory = "" };
    };
    health_checks = record { liveness_path = ""; readiness_path = ""; port = pos 0 };
    rollout = record { strategy = ""; max_unavailable = "1"; max_surge = "" };
  };
  status = record {
    observed_generation = pos 0;
    ready_replicas = pos 0;
    url = "";
    conditions = [];
    deployed_version = "";
  };
}

abbrev pub stable_shop : Stable.PlatformApplication ℕ
stable_shop = record {
  type_meta = no_type;
  object_meta = shop_meta;
  spec = record {
    image = record { repository = "registry/shop"; tag = "1.3"; pull_policy = "" };
    replicas = record { min = pos 2; max = pos 4 };
    service = record { port = pos 8080; type = "" };
    configuration = [];
    env_from = 3 ∷ [];
    pod_annotations = ("team", "web") ∷ [];
    autoscaling = record { enabled = true; target_cpu_utilization = pos 0 };
    gateway = record { enabled = false; host = ""; gateway_ref = ""; path_prefix = "" };
    observability = record { metrics = false };
    security = record { network_policy = false };
    resources = record {
      requests = record { cpu = ""; memory = "" };
      limits = record { cpu = ""; memory = "" };
    };
    health_checks = record { liveness_path = ""; readiness_path = ""; port = pos 0 };
    rollout = record { strategy = ""; max_unavailable = ""; max_surge = "" };
  };
  status = record {
    observed_generation = pos 0;
    ready_replicas = pos 0;
    url = "";
    conditions = [];
    deployed_version = "";
  };
}

-- What the API server answers in the examples.
pub data Fault : Type 0 where
  clash missing refused : Fault
  injection : FaultError → Fault

abbrev is_clash : Error Fault → Bool
is_clash (foreign clash) = true
is_clash (foreign _) = false
is_clash (wrapped m e) = is_clash e
is_clash (reconcile k r n e) = is_clash e

abbrev is_missing : Error Fault → Bool
is_missing (foreign missing) = true
is_missing (foreign _) = false
is_missing (wrapped m e) = is_missing e
is_missing (reconcile k r n e) = is_missing e

abbrev is_refused : Error Fault → Bool
is_refused (foreign refused) = true
is_refused (foreign _) = false
is_refused (wrapped m e) = is_refused e
is_refused (reconcile k r n e) = is_refused e

abbrev pub fault_errors : ApiErrors Fault
fault_errors = record {
  is_conflict = is_clash;
  is_server_timeout = λ _. false;
  is_timeout = λ _. false;
  is_too_many_requests = λ _. false;
  is_service_unavailable = λ _. false;
  is_internal_error = λ _. false;
  is_not_found = is_missing;
  is_forbidden = is_refused;
  is_invalid = λ _. false;
  is_bad_request = λ _. false;
  foreign_text = λ _. "fault";
}

abbrev pub has : String → List String → Bool
has f [] = false
has f (g ∷ l) = if g == f then true else has f l

abbrev pub without : String → List String → List String
without f [] = []
without f (g ∷ l) = if g == f then without f l else g ∷ without f l

-- The object that every read finds: a Deployment with two ready replicas.
abbrev pub found : Object
found = record {
  type_meta = record { api_version = "apps/v1"; kind = "Deployment" };
  meta = named "shop" "prod" [];
  body =
      deployment
        (record {
          replicas = pos 2;
          match_labels = [];
          strategy = record { strategy_type = "RollingUpdate"; rolling_update = none };
          template_labels = [];
          pod = record {
            pod_run_as_non_root = true;
            seccomp_profile = "RuntimeDefault";
            containers = [];
            empty_dir_volumes = [];
          };
        })
        (pos 2);
}

-- Every call but a deletion succeeds, and whatever is read is as desired.
abbrev pub steady : Client Fault ℕ
steady = record {
  errors = fault_errors;
  get = λ r k s. (success found, s);
  create = λ o s. (success tt, suc s);
  patch = λ o s. (success tt, suc s);
  delete = λ r k s. (failure (foreign missing), s);
  get_app = λ k s. (success shop, s);
  update_app = λ a s. (success tt, suc s);
  update_status = λ a s. (success tt, suc s);
  now = λ s. (s, suc s);
  wait = λ n s. (none, s + n);
  deep_equal = λ a b. true;
  set_controller_reference = λ m o. success o;
  contains_finalizer = λ m f. has f m.finalizers;
  add_finalizer = λ m f. record m { finalizers = f ∷ m.finalizers };
  remove_finalizer = λ m f. record m { finalizers = without f m.finalizers };
  quantity_ok = λ s. s == "100m";
}

-- The first patch meets a conflict, the next ones succeed.
abbrev first_clashes : ℕ → Result Fault Unit × ℕ
first_clashes zero = (failure (foreign clash), 1)
first_clashes (suc s) = (success tt, suc (suc s))

abbrev pub contended : Client Fault ℕ
contended = record steady { deep_equal = λ a b. false; patch = λ o s. first_clashes s }

-- Patches are forbidden.
abbrev pub forbidding : Client Fault ℕ
forbidding = record steady {
  deep_equal = λ a b. false;
  patch = λ o s. (failure (foreign refused), suc s);
}

-- No object can be given an owner.
abbrev pub orphaning : Client Fault ℕ
orphaning = record steady { set_controller_reference = λ m o. failure (foreign refused) }

abbrev pub start_world : World ℕ
start_world = record { api = 0; log = [] }
