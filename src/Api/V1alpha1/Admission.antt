-- ===== src/Api/V1alpha1/Admission.antt =====
-- What passes the v1alpha1 webhooks (api/v1alpha1/webhook_platformapplication.go).
use kubernetes_operators.Common.{
  String, ◌≡◌, ◌≢◌, ◌⊎◌, inl, inr, ◌↔◌, List, arith, eq_iff, false, ◌==◌,
}
use kubernetes_operators.Common.Int.{pos, ◌≤ℤ◌}
use kubernetes_operators.Api.V1alpha1.{
  PlatformApplication, PlatformApplicationSpec, ReplicasSpec, ServiceSpec, AutoscalingSpec,
  GatewaySpec,
}
use kubernetes_operators.Api.V1alpha1.Webhook.{
  default, validate_platform_application, default_max, default_target, default_prefix, or_default,
  max_below_min, no_replica, port_out_of_range,
}

-- A specification that the validator should accept, in words of its own.
pub record IsAdmissible (s : PlatformApplicationSpec) : Type 0 where
  pub has_replica : pos 1 ≤ℤ s.replicas.min
  pub max_unset_or_ge_min : (s.replicas.max ≤ℤ pos 0) ⊎ (s.replicas.min ≤ℤ s.replicas.max)
  pub has_repository : s.image.repository ≢ ""
  pub has_tag : s.image.tag ≢ ""
  pub port_from : pos 1 ≤ℤ s.service.port
  pub port_to : s.service.port ≤ℤ pos 65535

-- The validator accepts: it returns warnings and no error.
abbrev pub Accepts : String ⊎ List String → Type 0
Accepts (inl e) = ⊥
Accepts (inr w) = Unit

-- The validator accepts when none of its tests fires.
Accepts-tests :
    (r : PlatformApplication)
    → Accepts (validate_platform_application r) ↔ (
        (max_below_min r.spec.replicas ≡ false)
        × (no_replica r.spec.replicas ≡ false)
        × ((r.spec.image.repository == "") ≡ false)
        × ((r.spec.image.tag == "") ≡ false)
        × (port_out_of_range r.spec.service ≡ false))
unfolding validate_platform_application
Accepts-tests r = ground arith

replicas_tests :
    (s : ReplicasSpec)
    → ((max_below_min s ≡ false) × (no_replica s ≡ false))
      ↔ (((s.max ≤ℤ pos 0) ⊎ (s.min ≤ℤ s.max)) × (pos 1 ≤ℤ s.min))
unfolding max_below_min no_replica
replicas_tests s = ground arith

port_test :
    (s : ServiceSpec) → (port_out_of_range s ≡ false) ↔ ((pos 1 ≤ℤ s.port) × (s.port ≤ℤ pos 65535))
unfolding port_out_of_range
port_test s = ground arith

empty_test : (s : String) → ((s == "") ≡ false) ↔ (s ≢ "")
empty_test s = ground (arith, eq_iff s "")

-- The validator accepts an application exactly when its specification is admissible: at least one
-- replica, a maximum that is unset (0 or less) or not below the minimum, an image repository and a
-- tag that are not empty, and a port from 1 to 65535.
pub Accepts-iff :
    (r : PlatformApplication) → Accepts (validate_platform_application r) ↔ IsAdmissible r.spec
Accepts-iff r = (
  λ h.
      let (a, b, c, d, e) = (Accepts-tests r).0 h in
      record {
        has_replica = ((replicas_tests r.spec.replicas).0 (a, b)).1;
        max_unset_or_ge_min = ((replicas_tests r.spec.replicas).0 (a, b)).0;
        has_repository = (empty_test r.spec.image.repository).0 c;
        has_tag = (empty_test r.spec.image.tag).0 d;
        port_from = ((port_test r.spec.service).0 e).0;
        port_to = ((port_test r.spec.service).0 e).1;
      },
  λ h.
      let (a, b) = (replicas_tests r.spec.replicas).1 (h.max_unset_or_ge_min, h.has_replica) in
      (Accepts-tests r).1 (
        a,
        b,
        (empty_test r.spec.image.repository).1 h.has_repository,
        (empty_test r.spec.image.tag).1 h.has_tag,
        (port_test r.spec.service).1 (h.port_from, h.port_to),
      ),
)

or_default_idem : (s d : String) → or_default (or_default s d) d ≡ or_default s d
unfolding or_default
or_default_idem s d = ground arith

default_max_idem : (s : ReplicasSpec) → default_max (default_max s) ≡ default_max s
unfolding default_max
default_max_idem s = ground arith

default_target_idem : (s : AutoscalingSpec) → default_target (default_target s) ≡ default_target s
unfolding default_target
default_target_idem s = ground arith

default_prefix_idem : (s : GatewaySpec) → default_prefix (default_prefix s) ≡ default_prefix s
unfolding default_prefix
default_prefix_idem s = ground arith

-- Defaulting twice is defaulting once.
pub default_idem : (r : PlatformApplication) → default (default r) ≡ default r
unfolding default
default_idem r = simp (or_default_idem, default_max_idem, default_target_idem, default_prefix_idem)

default_max_tests :
    (s : ReplicasSpec)
    → ((max_below_min (default_max s) ≡ false) × (no_replica (default_max s) ≡ false))
      ↔ ((max_below_min s ≡ false) × (no_replica s ≡ false))
unfolding default_max max_below_min no_replica
default_max_tests s = ground arith

-- The validator accepts what the defaulter filled in exactly when it accepts what was given.
pub Accepts-default :
    (r : PlatformApplication)
    → Accepts (validate_platform_application (default r))
      ↔ Accepts (validate_platform_application r)
unfolding default
Accepts-default r = (
  λ h.
      let (a, b, c, d, e) = (Accepts-tests (default r)).0 h in
      let (a', b') = (default_max_tests r.spec.replicas).0 (a, b) in
      (Accepts-tests r).1 (a', b', c, d, unfold port_out_of_range in e),
  λ h.
      let (a, b, c, d, e) = (Accepts-tests r).0 h in
      let (a', b') = (default_max_tests r.spec.replicas).1 (a, b) in
      (Accepts-tests (default r)).1 (a', b', c, d, unfold port_out_of_range in e),
)

or_default-ne-empty : (s d : String) → d ≢ "" → or_default s d ≢ ""
unfolding or_default
or_default-ne-empty s d h = ground (arith, eq_iff s "")

default_max_ge :
    (s : ReplicasSpec)
    → pos 0 ≤ℤ s.max
    → max_below_min (default_max s) ≡ false
    → (default_max s).min ≤ℤ (default_max s).max
unfolding default_max max_below_min
default_max_ge s h a = ground arith

-- Through both webhooks, in the order in which the API server calls them, an application whose
-- maximum was not negative has 1 ≤ min ≤ max, and its pull policy, service type, probe paths and
-- rollout strategy are not empty.
pub admitted_bounds :
    (r : PlatformApplication)
    → pos 0 ≤ℤ r.spec.replicas.max
    → Accepts (validate_platform_application (default r))
    → (pos 1 ≤ℤ (default r).spec.replicas.min)
      × ((default r).spec.replicas.min ≤ℤ (default r).spec.replicas.max)
      × ((default r).spec.image.pull_policy ≢ "")
      × ((default r).spec.service.type ≢ "")
      × ((default r).spec.health_checks.liveness_path ≢ "")
      × ((default r).spec.health_checks.readiness_path ≢ "")
      × ((default r).spec.rollout.strategy ≢ "")
unfolding default
admitted_bounds r h a = (
  ((Accepts-iff (default r)).0 a).has_replica,
  default_max_ge r.spec.replicas h ((Accepts-tests (default r)).0 a).0,
  or_default-ne-empty _ _ (ground (arith, eq_iff "IfNotPresent" "")),
  or_default-ne-empty _ _ (ground (arith, eq_iff "ClusterIP" "")),
  or_default-ne-empty _ _ (ground (arith, eq_iff "/healthz" "")),
  or_default-ne-empty _ _ (ground (arith, eq_iff "/readyz" "")),
  or_default-ne-empty _ _ (ground (arith, eq_iff "RollingUpdate" "")),
)
