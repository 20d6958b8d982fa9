-- ===== src/Subreconcilers/Scaling.antt =====
-- Replica counts across the built objects.
use kubernetes_operators.Common.{String, ◌≡◌, Bool, Option, none, some, ap, arith, ◌⊎◌}
use kubernetes_operators.Common.Int.{ℤ, pos, ◌≤ℤ◌}
use kubernetes_operators.Api.V1alpha1.{PlatformApplication}
use kubernetes_operators.Api.V1alpha1.Webhook.{default, validate_platform_application}
use kubernetes_operators.Api.V1alpha1.Admission.{Accepts, admitted_bounds}
use kubernetes_operators.Cluster.Objects.{Object, Body, deployment, hpa}
use kubernetes_operators.Subreconcilers.Deployment.{deployment_replicas, build_desired_deployment}
use kubernetes_operators.Subreconcilers.Hpa.{hpa_max, build_desired_hpa}

-- The replicas that a Deployment asks for, and the bounds between which an HPA moves them.
abbrev pub replicas_of : Body → Option ℤ
replicas_of (deployment s n) = some s.replicas
replicas_of _ = none

abbrev pub bounds_of : Body → Option (ℤ × ℤ)
bounds_of (hpa s) = some (s.min_replicas, s.max_replicas)
bounds_of _ = none

hpa_max_bounds : (min max : ℤ) → (min ≤ℤ hpa_max min max) × (max ≤ℤ hpa_max min max)
unfolding hpa_max
hpa_max_bounds min max = ground arith

hpa_max_exact : (min max : ℤ) → min ≤ℤ max → hpa_max min max ≡ max
unfolding hpa_max
hpa_max_exact min max h = ground arith

deployment_replicas_exact : (min : ℤ) → pos 1 ≤ℤ min → deployment_replicas min ≡ min
unfolding deployment_replicas
deployment_replicas_exact min h = ground arith

replicas_of_built :
    (quantity_ok : String → Bool) (app : PlatformApplication) {dep : Object}
    → build_desired_deployment quantity_ok app ≡ some dep
    → replicas_of dep.body ≡ some (deployment_replicas app.spec.replicas.min)
unfolding build_desired_deployment
replicas_of_built quantity_ok app h = ground arith

-- Of an application that passed both webhooks, whose maximum was not negative, the Deployment asks
-- for the minimum of the specification and the HPA moves between its minimum and its maximum: none
-- of the corrections in the builders takes effect.
pub admitted_scaling :
    (quantity_ok : String → Bool) (r : PlatformApplication) {dep : Object}
    → pos 0 ≤ℤ r.spec.replicas.max
    → Accepts (validate_platform_application (default r))
    → build_desired_deployment quantity_ok (default r) ≡ some dep
    → (replicas_of dep.body ≡ some (default r).spec.replicas.min)
      × (bounds_of (build_desired_hpa (default r)).body
          ≡ some ((default r).spec.replicas.min, (default r).spec.replicas.max))
admitted_scaling quantity_ok r h a b =
    let bounds = admitted_bounds r h a in
    (
      rw (replicas_of_built quantity_ok (default r) b)
          (ap some (deployment_replicas_exact (default r).spec.replicas.min bounds.0)),
      unfold build_desired_hpa in
          ap (λ (m : ℤ). some ((default r).spec.replicas.min, m))
            (hpa_max_exact (default r).spec.replicas.min (default r).spec.replicas.max bounds.1),
    )

-- Whatever the specification says of autoscaling, the built Deployment fixes its replica count: at
-- the least number that the HPA allows, or at one where that is lower. So applying it undoes what
-- the HPA has scaled up.
pub deployment_pins_replicas :
    (quantity_ok : String → Bool) (app : PlatformApplication) {dep : Object}
    → build_desired_deployment quantity_ok app ≡ some dep
    → (n : ℤ) × (replicas_of dep.body ≡ some n)
      × (pos 1 ≤ℤ n)
      × (app.spec.replicas.min ≤ℤ n)
      × ((n ≡ app.spec.replicas.min) ⊎ (n ≡ pos 1))
deployment_pins_replicas quantity_ok app h = (
  deployment_replicas app.spec.replicas.min,
  replicas_of_built quantity_ok app h,
  unfold deployment_replicas in ground arith,
  unfold deployment_replicas in ground arith,
  unfold deployment_replicas in ground arith,
)
