-- ===== src/Deepcopy/V1/Flat.antt =====
-- api/v1/zz_generated.deepcopy.go: the structs without a reference.
use kubernetes_operators.Common.{Option}
use kubernetes_operators.Api.V1.{
  AutoscalingSpec, GatewaySpec, HealthChecksSpec, ImageSpec, ObservabilitySpec, ReplicasSpec,
  ResourceSpec, RolloutSpec, SecuritySpec, ServiceSpec, ResourcesSpec,
}
use kubernetes_operators.Deepcopy.Heap.{Alloc, give, deep_copy}
use kubernetes_operators.Deepcopy.Copies.{flat}

-- `*out = *in`
module _ {C : Type 0} where
  unfoldable pub copy_autoscaling_spec : Option AutoscalingSpec → Alloc C (Option AutoscalingSpec)
  unfolding deep_copy
  copy_autoscaling_spec = deep_copy flat

  unfoldable pub copy_gateway_spec : Option GatewaySpec → Alloc C (Option GatewaySpec)
  unfolding deep_copy
  copy_gateway_spec = deep_copy flat

  unfoldable pub copy_health_checks_spec :
      Option HealthChecksSpec → Alloc C (Option HealthChecksSpec)
  unfolding deep_copy
  copy_health_checks_spec = deep_copy flat

  unfoldable pub copy_image_spec : Option ImageSpec → Alloc C (Option ImageSpec)
  unfolding deep_copy
  copy_image_spec = deep_copy flat

  unfoldable pub copy_observability_spec :
      Option ObservabilitySpec → Alloc C (Option ObservabilitySpec)
  unfolding deep_copy
  copy_observability_spec = deep_copy flat

  unfoldable pub copy_replicas_spec : Option ReplicasSpec → Alloc C (Option ReplicasSpec)
  unfolding deep_copy
  copy_replicas_spec = deep_copy flat

  unfoldable pub copy_resource_spec : Option ResourceSpec → Alloc C (Option ResourceSpec)
  unfolding deep_copy
  copy_resource_spec = deep_copy flat

  unfoldable pub copy_rollout_spec : Option RolloutSpec → Alloc C (Option RolloutSpec)
  unfolding deep_copy
  copy_rollout_spec = deep_copy flat

  unfoldable pub copy_security_spec : Option SecuritySpec → Alloc C (Option SecuritySpec)
  unfolding deep_copy
  copy_security_spec = deep_copy flat

  unfoldable pub copy_service_spec : Option ServiceSpec → Alloc C (Option ServiceSpec)
  unfolding deep_copy
  copy_service_spec = deep_copy flat

  resources_spec_into : ResourcesSpec → Alloc C ResourcesSpec
  resources_spec_into s = give (record s { requests = s.requests; limits = s.limits })

  unfoldable pub copy_resources_spec : Option ResourcesSpec → Alloc C (Option ResourcesSpec)
  unfolding resources_spec_into deep_copy
  copy_resources_spec = deep_copy resources_spec_into
