-- ===== src/Subreconcilers/Reconcilers.antt =====
-- The `Reconcile…` functions of internal/controller/subreconcilers/: each applies its object, or
-- deletes it where the application does not ask for it.
pub mod Wanted
pub mod Written
use kubernetes_operators.Common.{String, [], ◌∷◌, not, if◌then◌else◌}
use kubernetes_operators.Common.Int.{pos, leb_ℤ}
use kubernetes_operators.Api.V1alpha1.{PlatformApplication}
use kubernetes_operators.Cluster.Objects.{
  ObjectRef, Resource, hpas, http_routes, network_policies, pdbs, service_monitors,
}
use kubernetes_operators.Cluster.Client.{Client}
use kubernetes_operators.Cluster.Exec.{Exec, pure, or_panic, ◌>>=◌, ◌>>◌}
use kubernetes_operators.Subreconcilers.Apply.{ApplyResult, unchanged, apply, delete_if_exists}
use kubernetes_operators.Subreconcilers.Deployment.{build_desired_deployment}
use kubernetes_operators.Subreconcilers.Service.{build_desired_service}
use kubernetes_operators.Subreconcilers.Hpa.{build_desired_hpa}
use kubernetes_operators.Subreconcilers.Networking.{
  build_desired_http_route, network_policy_name, build_desired_network_policy,
}
use kubernetes_operators.Subreconcilers.Pdb.{pdb_name, build_desired_pdb}
use kubernetes_operators.Subreconcilers.ServiceMonitor.{monitor_name, build_desired_service_monitor}

-- The object to delete; the typed ones have no kind in their type metadata.
abbrev pub ref_to : Resource → String → String → PlatformApplication → ObjectRef
ref_to resource kind name app = record {
  ref_resource = resource;
  ref_kind = kind;
  ref_key = record { key_name = name; key_namespace = app.object_meta.namespace };
}

module _ {F S : Type 0} (c : Client F S) where
  -- The `delete…IfExists` functions: the answer is "unchanged" also after a deletion.
  unfoldable pub delete_child : ObjectRef → Exec F S ApplyResult
  delete_child ref = do delete_if_exists c ref; pure unchanged

  unfoldable pub delete_hpa_if_exists : PlatformApplication → Exec F S ApplyResult
  delete_hpa_if_exists app = delete_child (ref_to hpas "" app.object_meta.name app)

  unfoldable pub delete_http_route_if_exists : PlatformApplication → Exec F S ApplyResult
  delete_http_route_if_exists app = delete_child (ref_to http_routes "" app.object_meta.name app)

  unfoldable pub delete_network_policy_if_exists : PlatformApplication → Exec F S ApplyResult
  delete_network_policy_if_exists app =
      delete_child (ref_to network_policies "" (network_policy_name app.object_meta.name) app)

  unfoldable pub delete_pdb_if_exists : PlatformApplication → Exec F S ApplyResult
  delete_pdb_if_exists app = delete_child (ref_to pdbs "" (pdb_name app.object_meta.name) app)

  unfoldable pub delete_service_monitor_if_exists : PlatformApplication → Exec F S ApplyResult
  delete_service_monitor_if_exists app =
      delete_child
        (ref_to service_monitors "ServiceMonitor" (monitor_name app.object_meta.name) app)

  unfoldable pub reconcile_deployment : PlatformApplication → Exec F S ApplyResult
  reconcile_deployment app = do
    desired ← or_panic (build_desired_deployment c.quantity_ok app)
    apply c app.object_meta desired

  unfoldable pub reconcile_service : PlatformApplication → Exec F S ApplyResult
  reconcile_service app = apply c app.object_meta (build_desired_service app)

  unfoldable pub reconcile_hpa : PlatformApplication → Exec F S ApplyResult
  reconcile_hpa app =
      if not app.spec.autoscaling.enabled
      then delete_hpa_if_exists app
      else apply c app.object_meta (build_desired_hpa app)

  unfoldable pub reconcile_http_route : PlatformApplication → Exec F S ApplyResult
  reconcile_http_route app =
      if not app.spec.gateway.enabled
      then delete_http_route_if_exists app
      else apply c app.object_meta (build_desired_http_route app)

  unfoldable pub reconcile_network_policy : PlatformApplication → Exec F S ApplyResult
  reconcile_network_policy app =
      if not app.spec.security.network_policy
      then delete_network_policy_if_exists app
      else apply c app.object_meta (build_desired_network_policy app)

  unfoldable pub reconcile_pdb : PlatformApplication → Exec F S ApplyResult
  reconcile_pdb app =
      if leb_ℤ app.spec.replicas.min (pos 1)
      then delete_pdb_if_exists app
      else apply c app.object_meta (build_desired_pdb app)

  unfoldable pub reconcile_service_monitor : PlatformApplication → Exec F S ApplyResult
  reconcile_service_monitor app =
      if not app.spec.observability.metrics
      then delete_service_monitor_if_exists app
      else apply c app.object_meta (build_desired_service_monitor app)
