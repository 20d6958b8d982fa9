-- ===== src/Subreconcilers/Selectors.antt =====
-- Which of the built objects select which others: Kubernetes selects by labels alone.
use kubernetes_operators.Common.{
  String, ◌≡◌, refl, Option, none, some, [], Bool, arith, lookup, insert, Labels, Selects,
}
use kubernetes_operators.Api.V1alpha1.{PlatformApplication}
use kubernetes_operators.Cluster.Objects.{
  Object, Body, deployment, service, network_policy, pdb, service_monitor,
}
use kubernetes_operators.Subreconcilers.Labels.{
  common_labels, merge_labels, selector_labels, write_all,
}
use kubernetes_operators.Subreconcilers.Deployment.{pod_labels, build_desired_deployment}
use kubernetes_operators.Subreconcilers.Service.{build_desired_service}
use kubernetes_operators.Subreconcilers.Networking.{build_desired_network_policy}
use kubernetes_operators.Subreconcilers.Pdb.{build_desired_pdb}
use kubernetes_operators.Subreconcilers.ServiceMonitor.{build_desired_service_monitor}

-- The selector by which an object finds pods, or services in the case of a ServiceMonitor.
abbrev pub selector_of : Body → Option Labels
selector_of (deployment s n) = some s.match_labels
selector_of (service s) = some s.selector
selector_of (network_policy s) = some s.pod_selector
selector_of (pdb s) = some s.pdb_selector
selector_of (service_monitor s) = some s.monitor_selector
selector_of _ = none

abbrev pub template_labels_of : Body → Labels
template_labels_of (deployment s n) = s.template_labels
template_labels_of _ = []

-- An object selects what carries these labels.
abbrev pub Finds : Object → Labels → Type 0
Finds o labels = (sel : Labels) × (selector_of o.body ≡ some sel) × Selects sel labels

pod_labels_found :
    (app : PlatformApplication) → Selects (selector_labels app.object_meta.name) (pod_labels app)
unfolding selector_labels pod_labels merge_labels common_labels write_all lookup insert
pod_labels_found app = (refl, (refl, tt))

template_of_built :
    (quantity_ok : String → Bool) (app : PlatformApplication) {dep : Object}
    → build_desired_deployment quantity_ok app ≡ some dep
    → (template_labels_of dep.body ≡ pod_labels app)
      × (selector_of dep.body ≡ some (selector_labels app.object_meta.name))
unfolding build_desired_deployment
template_of_built quantity_ok app h = ground arith

-- The pods of the built Deployment are selected by the Deployment itself, by the Service, by the
-- NetworkPolicy and by the PodDisruptionBudget.
pub pods_are_found :
    (quantity_ok : String → Bool) (app : PlatformApplication) {dep : Object}
    → build_desired_deployment quantity_ok app ≡ some dep
    → let pods = template_labels_of dep.body in
      Finds dep pods
      × Finds (build_desired_service app) pods
      × Finds (build_desired_network_policy app) pods
      × Finds (build_desired_pdb app) pods
pods_are_found quantity_ok app {dep} h =
    let (t, s) = template_of_built quantity_ok app h in
    let found : Selects (selector_labels app.object_meta.name) (template_labels_of dep.body) =
      rw t (pod_labels_found app) in
    (
      (selector_labels app.object_meta.name, s, found),
      (selector_labels app.object_meta.name, unfold build_desired_service in refl, found),
      (selector_labels app.object_meta.name, unfold build_desired_network_policy in refl, found),
      (selector_labels app.object_meta.name, unfold build_desired_pdb in refl, found),
    )

-- No ServiceMonitor that is built selects the Service that is built for the same application, or
-- for any other: the Service carries no label "app.kubernetes.io/instance".
pub service_not_monitored :
    (app other : PlatformApplication)
    → ¬ Finds (build_desired_service_monitor app) (build_desired_service other).meta.labels
unfolding build_desired_service_monitor build_desired_service selector_labels common_labels lookup
service_not_monitored app other (sel, e, found) = ground arith
