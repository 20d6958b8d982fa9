-- ===== src/Subreconcilers/Reconcilers/Wanted.antt =====
-- The optional children, by what the application asks for.
use kubernetes_operators.Common.{
  ◌≡◌, refl, inl, inr, Bool, true, false, not, Bool-cases, arith, if◌then◌else◌,
}
use kubernetes_operators.Common.Int.{pos, leb_ℤ}
use kubernetes_operators.Api.V1alpha1.{PlatformApplication}
use kubernetes_operators.Cluster.Objects.{Object, ObjectRef, resource_of}
use kubernetes_operators.Cluster.Client.{Client}
use kubernetes_operators.Cluster.Exec.{World, Exec, pure, raise, call, attempt, emit, ◌>>=◌}
use kubernetes_operators.Metrics.{observe_resource_apply}
use kubernetes_operators.Subreconcilers.Apply.{ApplyResult, key_of, apply, delete_if_exists}
use kubernetes_operators.Subreconcilers.Hpa.{build_desired_hpa}
use kubernetes_operators.Subreconcilers.Networking.{
  build_desired_http_route, build_desired_network_policy,
}
use kubernetes_operators.Subreconcilers.Pdb.{build_desired_pdb}
use kubernetes_operators.Subreconcilers.ServiceMonitor.{build_desired_service_monitor}
use kubernetes_operators.Subreconcilers.Reconcilers.{
  delete_child, delete_hpa_if_exists, delete_http_route_if_exists, delete_network_policy_if_exists,
  delete_pdb_if_exists, delete_service_monitor_if_exists, reconcile_hpa, reconcile_http_route,
  reconcile_network_policy, reconcile_pdb, reconcile_service_monitor,
}

module _ {F S : Type 0} (c : Client F S) where
  -- The cluster after the deletion of one object, whatever the deletion answers.
  abbrev pub gone : Object → S → S
  gone o s = (c.delete (resource_of o.body) (key_of o) s).1

  -- The cluster after a child was applied or deleted.
  abbrev pub follows : PlatformApplication → Bool → Object → World S → S
  follows app wanted o w = if wanted then (apply c app.object_meta o w).1.api else gone o w.api

  delete_child-api :
      (ref : ObjectRef) (w : World S)
      → (delete_child c ref w).1.api ≡ (c.delete ref.ref_resource ref.ref_key w.api).1
  unfolding delete_child delete_if_exists ◌>>=◌ attempt call pure raise emit observe_resource_apply
  delete_child-api ref w = ground arith

  -- The choice between the two branches.
  chosen :
      (app : PlatformApplication) (wanted : Bool) (o : Object) (w : World S)
      (delete : Exec F S ApplyResult)
      → (delete w).1.api ≡ gone o w.api
      → ((if not wanted then delete else apply c app.object_meta o) w).1.api
        ≡ follows app wanted o w
  chosen app true o w delete h = refl
  chosen app false o w delete h = h

  -- The five optional children: each is applied where the specification asks for it, by a switch
  -- or by a minimum above one replica; otherwise the one call deletes the very object that would
  -- be applied, of the same resource, name and namespace, so that turning a feature off removes
  -- what turning it on made.
  pub deletes_what_it_applies :
      (app : PlatformApplication) (w : World S)
      → ((reconcile_hpa c app w).1.api
          ≡ follows app app.spec.autoscaling.enabled (build_desired_hpa app) w)
        × ((reconcile_http_route c app w).1.api
            ≡ follows app app.spec.gateway.enabled (build_desired_http_route app) w)
        × ((reconcile_network_policy c app w).1.api
            ≡ follows app app.spec.security.network_policy (build_desired_network_policy app) w)
        × ((reconcile_pdb c app w).1.api
            ≡ follows app (not (leb_ℤ app.spec.replicas.min (pos 1))) (build_desired_pdb app) w)
        × ((reconcile_service_monitor c app w).1.api
            ≡ follows app app.spec.observability.metrics (build_desired_service_monitor app) w)
  unfolding reconcile_hpa reconcile_http_route reconcile_network_policy reconcile_pdb
      reconcile_service_monitor delete_hpa_if_exists delete_http_route_if_exists
      delete_network_policy_if_exists delete_pdb_if_exists delete_service_monitor_if_exists
      build_desired_hpa build_desired_http_route build_desired_network_policy build_desired_pdb
      build_desired_service_monitor
  deletes_what_it_applies app w = (
    chosen app app.spec.autoscaling.enabled _ w _ (delete_child-api _ w),
    chosen app app.spec.gateway.enabled _ w _ (delete_child-api _ w),
    chosen app app.spec.security.network_policy _ w _ (delete_child-api _ w),
    elim (Bool-cases (leb_ℤ app.spec.replicas.min (pos 1))) [
      | inl k ↦ rw k (delete_child-api _ w)
      | inr k ↦ rw k
    ],
    chosen app app.spec.observability.metrics _ w _ (delete_child-api _ w),
  )
