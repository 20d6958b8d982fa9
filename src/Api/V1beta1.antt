-- ===== src/Api/V1beta1.antt =====
-- api/v1beta1/platformapplication_types.go: the hub and storage version. `E` is
-- `corev1.EnvFromSource`, which the operator only carries along.
pub mod Webhook
use kubernetes_operators.Common.{String, Bool, List, Labels}
use kubernetes_operators.Common.Int.{ℤ}
use kubernetes_operators.Api.Meta.{TypeMeta, ObjectMeta, Condition}

pub record ImageSpec : Type 0 where
  pub repository : String
  pub tag : String
  pub pull_policy : String

pub record ReplicasSpec : Type 0 where
  pub min : ℤ
  pub max : ℤ

pub record ServiceSpec : Type 0 where
  pub port : ℤ
  pub type : String

pub record AutoscalingSpec : Type 0 where
  pub enabled : Bool
  pub target_cpu_utilization : ℤ

pub record GatewaySpec : Type 0 where
  pub enabled : Bool
  pub host : String
  pub gateway_ref : String
  pub path_prefix : String

pub record ObservabilitySpec : Type 0 where
  pub metrics : Bool

pub record SecuritySpec : Type 0 where
  pub network_policy : Bool

pub record ResourceSpec : Type 0 where
  pub cpu : String
  pub memory : String

pub record ResourcesSpec : Type 0 where
  pub requests : ResourceSpec
  pub limits : ResourceSpec

pub record HealthChecksSpec : Type 0 where
  pub liveness_path : String
  pub readiness_path : String
  pub port : ℤ

pub record RolloutSpec : Type 0 where
  pub strategy : String
  pub max_unavailable : String
  pub max_surge : String

pub record PlatformApplicationSpec (E : Type 0) : Type 0 where
  pub image : ImageSpec
  pub replicas : ReplicasSpec
  pub service : ServiceSpec
  pub configuration : Labels
  pub env_from : List E
  pub pod_annotations : Labels
  pub autoscaling : AutoscalingSpec
  pub gateway : GatewaySpec
  pub observability : ObservabilitySpec
  pub security : SecuritySpec
  pub resources : ResourcesSpec
  pub health_checks : HealthChecksSpec
  pub rollout : RolloutSpec

pub record PlatformApplicationStatus : Type 0 where
  pub observed_generation : ℤ
  pub ready_replicas : ℤ
  pub url : String
  pub conditions : List Condition
  pub deployed_version : String

pub record PlatformApplication (E : Type 0) : Type 0 where
  pub type_meta : TypeMeta
  pub object_meta : ObjectMeta
  pub spec : PlatformApplicationSpec E
  pub status : PlatformApplicationStatus
