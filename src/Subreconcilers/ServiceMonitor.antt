-- ===== src/Subreconcilers/ServiceMonitor.antt =====
-- internal/controller/subreconcilers/servicemonitor.go: the desired ServiceMonitor, which the code
-- builds as an unstructured object.
use kubernetes_operators.Common.{String, [], ◌∷◌, concat}
use kubernetes_operators.Api.Meta.{named}
use kubernetes_operators.Api.V1alpha1.{PlatformApplication}
use kubernetes_operators.Cluster.Objects.{Object, service_monitor}
use kubernetes_operators.Subreconcilers.Labels.{common_labels, selector_labels}

unfoldable pub monitor_name : String → String
monitor_name app_name = concat (app_name ∷ "-monitor" ∷ [])

unfoldable pub build_desired_service_monitor : PlatformApplication → Object
build_desired_service_monitor app = record {
  type_meta = record { api_version = "monitoring.coreos.com/v1"; kind = "ServiceMonitor" };
  meta =
      named (monitor_name app.object_meta.name) app.object_meta.namespace
        (common_labels app.object_meta.name);
  body = service_monitor (record {
    monitor_selector = selector_labels app.object_meta.name;
    endpoints =
        record { endpoint_port = "http"; endpoint_path = "/metrics"; interval = "30s" } ∷ [];
  });
}
