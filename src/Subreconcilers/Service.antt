-- ===== src/Subreconcilers/Service.antt =====
-- internal/controller/subreconcilers/service.go: the desired Service.
use kubernetes_operators.Common.{[], ◌∷◌, ◌==◌, if◌then◌else◌}
use kubernetes_operators.Api.Meta.{named}
use kubernetes_operators.Api.V1alpha1.{PlatformApplication}
use kubernetes_operators.Cluster.Objects.{str, Object, service}
use kubernetes_operators.Subreconcilers.Labels.{common_labels, selector_labels}

unfoldable pub build_desired_service : PlatformApplication → Object
build_desired_service app = record {
  type_meta = record { api_version = "v1"; kind = "Service" };
  meta = named app.object_meta.name app.object_meta.namespace (common_labels app.object_meta.name);
  body = service (record {
    service_type = if app.spec.service.type == "" then "ClusterIP" else app.spec.service.type;
    selector = selector_labels app.object_meta.name;
    service_ports =
        record {
          service_port_name = "http";
          service_port = app.spec.service.port;
          target_port = str "http";
          service_protocol = "TCP";
        }
        ∷ [];
  });
}
