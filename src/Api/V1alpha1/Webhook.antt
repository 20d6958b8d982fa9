-- ===== src/Api/V1alpha1/Webhook.antt =====
-- api/v1alpha1/webhook_platformapplication.go: the defaulter and the validator.
-- An error is its text; a warning too.
use kubernetes_operators.Common.{
  String, ◌&&◌, ◌||◌, Bool, List, [], ◌∷◌, ◌++◌, ◌==◌, if◌then◌else◌, concat, ◌⊎◌, inl, inr,
}
use kubernetes_operators.Common.Int.{pos, ltb_ℤ, eqb_ℤ, show_int}
use kubernetes_operators.Api.V1alpha1.{
  PlatformApplication, ReplicasSpec, ServiceSpec, AutoscalingSpec, GatewaySpec,
}

unfoldable pub or_default : String → String → String
or_default s d = if s == "" then d else s

unfoldable pub default_max : ReplicasSpec → ReplicasSpec
default_max r = if eqb_ℤ r.max (pos 0) then record r { max = r.min } else r

unfoldable pub default_target : AutoscalingSpec → AutoscalingSpec
default_target a =
    if a.enabled && eqb_ℤ a.target_cpu_utilization (pos 0)
    then record a { target_cpu_utilization = pos 80 }
    else a

unfoldable pub default_prefix : GatewaySpec → GatewaySpec
default_prefix g = if g.enabled && g.path_prefix == "" then record g { path_prefix = "/" } else g

-- The tests of the validator on whole sub-structs.
unfoldable pub max_below_min : ReplicasSpec → Bool
max_below_min r = ltb_ℤ (pos 0) r.max && ltb_ℤ r.max r.min

unfoldable pub no_replica : ReplicasSpec → Bool
no_replica r = ltb_ℤ r.min (pos 1)

unfoldable pub port_out_of_range : ServiceSpec → Bool
port_out_of_range s = ltb_ℤ s.port (pos 1) || ltb_ℤ (pos 65535) s.port

-- `Default`, which never fails.
unfoldable pub default : PlatformApplication → PlatformApplication
default r =
    let s = r.spec in
    record r {
      spec = record s {
        image = record s.image { pull_policy = or_default s.image.pull_policy "IfNotPresent" };
        replicas = default_max s.replicas;
        service = record s.service { type = or_default s.service.type "ClusterIP" };
        autoscaling = default_target s.autoscaling;
        health_checks = record s.health_checks {
          liveness_path = or_default s.health_checks.liveness_path "/healthz";
          readiness_path = or_default s.health_checks.readiness_path "/readyz";
        };
        rollout = record s.rollout { strategy = or_default s.rollout.strategy "RollingUpdate" };
        gateway = default_prefix s.gateway;
      };
    }

-- The warnings, in the order in which they are appended.
unfoldable pub warnings : PlatformApplication → List String
warnings r =
    (if r.spec.autoscaling.enabled && eqb_ℤ r.spec.replicas.min r.spec.replicas.max
      then "autoscaling is enabled but min and max replicas are equal; HPA will have no effect" ∷ []
      else [])
    ++ (if r.spec.gateway.enabled && r.spec.gateway.host == ""
        then "gateway is enabled but no host is configured; HTTPRoute will match all hosts" ∷ []
        else [])

-- `validatePlatformApplication`: the first failing test's error, or the warnings.
unfoldable pub validate_platform_application : PlatformApplication → String ⊎ List String
validate_platform_application r =
    if max_below_min r.spec.replicas
    then inl (
        concat (
          "spec.replicas.min ("
          ∷ show_int r.spec.replicas.min
          ∷ ") must be <= spec.replicas.max ("
          ∷ show_int r.spec.replicas.max
          ∷ ")"
          ∷ []))
    else if no_replica r.spec.replicas
    then inl (concat ("spec.replicas.min must be >= 1, got " ∷ show_int r.spec.replicas.min ∷ []))
    else if r.spec.image.repository == ""
    then inl "spec.image.repository must not be empty"
    else if r.spec.image.tag == ""
    then inl "spec.image.tag must not be empty"
    else if port_out_of_range r.spec.service
    then inl (
        concat (
          "spec.service.port must be between 1 and 65535, got "
          ∷ show_int r.spec.service.port
          ∷ []))
    else inr (warnings r)

unfoldable pub validate_create : PlatformApplication → String ⊎ List String
validate_create r = validate_platform_application r

-- The old object is not looked at.
unfoldable pub validate_update : PlatformApplication → PlatformApplication → String ⊎ List String
validate_update _ r = validate_platform_application r

unfoldable pub validate_delete : PlatformApplication → String ⊎ List String
validate_delete _ = inr []
