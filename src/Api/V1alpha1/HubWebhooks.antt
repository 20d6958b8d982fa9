-- ===== src/Api/V1alpha1/HubWebhooks.antt =====
-- The webhooks of api/v1alpha1 and api/v1beta1 on the two sides of the conversion to the hub.
use kubernetes_operators.Common.{◌≡◌, refl, arith}
use kubernetes_operators.Api.V1alpha1.{
  PlatformApplication, ReplicasSpec, AutoscalingSpec, GatewaySpec,
}
use kubernetes_operators.Api.V1beta1.{PlatformApplication as Hub}
use kubernetes_operators.Api.V1beta1 as Types
use kubernetes_operators.Api.V1alpha1.Conversion.{convert_to}
use kubernetes_operators.Api.V1alpha1.Webhook.{
  default, validate_platform_application, warnings, default_max, default_target, default_prefix,
  or_default, max_below_min, no_replica, port_out_of_range,
}
use kubernetes_operators.Api.V1beta1.Webhook as Beta

-- The hub's copies of the three sub-structs with conditional defaults.
abbrev hub_replicas : ReplicasSpec → Types.ReplicasSpec
hub_replicas s = record { min = s.min; max = s.max }

abbrev hub_autoscaling : AutoscalingSpec → Types.AutoscalingSpec
hub_autoscaling s = record {
  enabled = s.enabled;
  target_cpu_utilization = s.target_cpu_utilization;
}

abbrev hub_gateway : GatewaySpec → Types.GatewaySpec
hub_gateway s = record {
  enabled = s.enabled;
  host = s.host;
  gateway_ref = s.gateway_ref;
  path_prefix = s.path_prefix;
}

default_max_hub :
    (s : ReplicasSpec) → Beta.default_max (hub_replicas s) ≡ hub_replicas (default_max s)
unfolding default_max Beta.default_max
default_max_hub s = ground arith

default_target_hub :
    (s : AutoscalingSpec)
    → Beta.default_target (hub_autoscaling s) ≡ hub_autoscaling (default_target s)
unfolding default_target Beta.default_target
default_target_hub s = ground arith

default_prefix_hub :
    (s : GatewaySpec) → Beta.default_prefix (hub_gateway s) ≡ hub_gateway (default_prefix s)
unfolding default_prefix Beta.default_prefix
default_prefix_hub s = ground arith

module _ {E : Type 0} where
  -- Converting to the hub and then defaulting and validating there gives the object, the error and
  -- the warnings that v1alpha1's webhooks give before the conversion.
  pub webhooks_agree :
      (a : PlatformApplication) (h : Hub E)
      → (Beta.default (convert_to a h) ≡ convert_to (default a) h)
        × (Beta.validate_platform_application (convert_to a h) ≡ validate_platform_application a)
  webhooks_agree a h = (defaults, validations)
    where
      defaults : Beta.default (convert_to a h) ≡ convert_to (default a) h
      defaults =
          unfold convert_to default or_default Beta.default Beta.or_default in
          let out = Beta.default (convert_to a h) in
          λ i. record out {
            spec = record out.spec {
              replicas = default_max_hub a.spec.replicas i;
              autoscaling = default_target_hub a.spec.autoscaling i;
              gateway = default_prefix_hub a.spec.gateway i;
            };
          }

      validations :
          Beta.validate_platform_application (convert_to a h) ≡ validate_platform_application a
      validations =
          unfold convert_to validate_platform_application warnings max_below_min no_replica
            port_out_of_range Beta.validate_platform_application Beta.warnings Beta.max_below_min
            Beta.no_replica Beta.port_out_of_range in
          refl
