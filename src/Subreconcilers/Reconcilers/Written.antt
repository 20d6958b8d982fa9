-- ===== src/Subreconcilers/Reconcilers/Written.antt =====
-- The children that every application has, on a server that versions what it stores.
use kubernetes_operators.Common.{◌≡◌, ◌≢◌, refl, arith}
use kubernetes_operators.Api.V1alpha1.{PlatformApplication}
use kubernetes_operators.Cluster.Objects.{Object}
use kubernetes_operators.Cluster.Client.{Client}
use kubernetes_operators.Cluster.Exec.{World, ok, or_panic, bind-inv}
use kubernetes_operators.Subreconcilers.Apply.{ApplyResult, unchanged}
use kubernetes_operators.Subreconcilers.Apply.Writes.{IsVersioned, apply-changed}
use kubernetes_operators.Subreconcilers.Deployment.{build_desired_deployment}
use kubernetes_operators.Subreconcilers.Service.{build_desired_service}
use kubernetes_operators.Subreconcilers.Reconcilers.{reconcile_deployment, reconcile_service}

module _ {F S : Type 0} (c : Client F S) where
  deployment_without_version :
      (app : PlatformApplication) (w : World S) (dep : Object)
      → (or_panic {F = F} (build_desired_deployment c.quantity_ok app) w).0 ≡ ok dep
      → dep.meta.resource_version ≡ ""
  unfolding build_desired_deployment or_panic
  deployment_without_version app w dep b = ground arith

  -- Where the API server gives every object that it stores a resource version, which DeepEqual
  -- compares and a controller reference leaves alone, reconciling the Deployment or the Service of an
  -- application never ends with "unchanged": each success has created or patched the object.
  pub children_are_written :
      IsVersioned c
      → (app : PlatformApplication) (w : World S) (r : ApplyResult)
      → ((reconcile_deployment c app w).0 ≡ ok r → r ≢ unchanged)
        × ((reconcile_service c app w).0 ≡ ok r → r ≢ unchanged)
  unfolding reconcile_deployment reconcile_service
  children_are_written h app w r = (
    λ e.
        let (dep, b, rest) =
          bind-inv (or_panic (build_desired_deployment c.quantity_ok app)) _ w e in
        apply-changed c h app.object_meta dep _ r (deployment_without_version app w dep b) rest,
    apply-changed c h app.object_meta (build_desired_service app) w r
        (unfold build_desired_service in refl),
  )
