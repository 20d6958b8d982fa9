-- ===== src/Api/V1alpha1.antt =====
-- api/v1alpha1/platformapplication_types.go: the version that the controller reads and writes.
-- A nil map or slice is the empty list, a missing text the empty text, a missing number 0.
pub mod Webhook
pub mod Conversion
pub mod Admission
pub mod RoundTrip
pub mod HubWebhooks
use kubernetes_operators.Common.{String, Bool, List, Labels}
use kubernetes_operators.Common.Int.{ℤ}
use kubernetes_operators.Api.Meta.{TypeMeta, ObjectMeta, Condition}

pub record ImageSpec : Type 0 where
  pub repository : String
  pub tag : String
  pub pull_policy : String

pub record ReplicasSpec : Type 0 where
  pub min : ℤ
  pub max : ℤ

pub record ServiceSpec : Type 0 where
  pub port : ℤ
  pub type : String

pub record AutoscalingSpec : Type 0 where
  pub enabled : Bool
  pub target_cpu_utilization : ℤ

pub record GatewaySpec : Type 0 where
  pub enabled : Bool
  pub host : String
  pub gateway_ref : String
  pub path_prefix : String

pub record ObservabilitySpec : Type 0 where
  pub metrics : Bool

pub record SecuritySpec : Type 0 where
  pub network_policy : Bool

pub record ResourceSpec : Type 0 where
  pub cpu : String
  pub memory : String

pub record ResourcesSpec : Type 0 where
  pub requests : ResourceSpec
  pub limits : ResourceSpec

pub record HealthChecksSpec : Type 0 where
  pub liveness_path : String
  pub readiness_path : String
  pub port : ℤ

pub record RolloutSpec : Type 0 where
  pub strategy : String
  pub max_unavailable : String
  pub max_surge : String

pub record PlatformApplicationSpec : Type 0 where
  pub image : ImageSpec
  pub replicas : ReplicasSpec
  pub service : ServiceSpec
  pub configuration : Labels
  pub autoscaling : AutoscalingSpec
  pub gateway : GatewaySpec
  pub observability : ObservabilitySpec
  pub security : SecuritySpec
  pub resources : ResourcesSpec
  pub health_checks : HealthChecksSpec
  pub rollout : RolloutSpec

pub record PlatformApplicationStatus : Type 0 where
  pub observed_generation : ℤ
  pub ready_replicas : ℤ
  pub url : String
  pub conditions : List Condition
  pub deployed_version : String

pub record PlatformApplication : Type 0 where
  pub type_meta : TypeMeta
  pub object_meta : ObjectMeta
  pub spec : PlatformApplicationSpec
  pub status : PlatformApplicationStatus

-- The condition types.
abbrev pub condition_ready : String
condition_ready = "Ready"

abbrev pub condition_progressing : String
condition_progressing = "Progressing"

abbrev pub condition_degraded : String
condition_degraded = "Degraded"

abbrev pub condition_configuration_valid : String
condition_configuration_valid = "ConfigurationValid"
