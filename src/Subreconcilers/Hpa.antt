-- ===== src/Subreconcilers/Hpa.antt =====
-- internal/controller/subreconcilers/hpa.go: the desired HorizontalPodAutoscaler.
use kubernetes_operators.Common.{if◌then◌else◌}
use kubernetes_operators.Common.Int.{ℤ, pos, ltb_ℤ, eqb_ℤ}
use kubernetes_operators.Api.Meta.{named}
use kubernetes_operators.Api.V1alpha1.{PlatformApplication}
use kubernetes_operators.Cluster.Objects.{Object, hpa}
use kubernetes_operators.Subreconcilers.Labels.{common_labels}

-- The maximum, raised to the minimum where it lies below.
unfoldable pub hpa_max : ℤ → ℤ → ℤ
hpa_max min_replicas max_replicas =
    if ltb_ℤ max_replicas min_replicas then min_replicas else max_replicas

unfoldable pub build_desired_hpa : PlatformApplication → Object
build_desired_hpa app = record {
  type_meta = record { api_version = "autoscaling/v2"; kind = "HorizontalPodAutoscaler" };
  meta = named app.object_meta.name app.object_meta.namespace (common_labels app.object_meta.name);
  body = hpa (record {
    target_api_version = "apps/v1";
    target_kind = "Deployment";
    target_name = app.object_meta.name;
    min_replicas = app.spec.replicas.min;
    max_replicas = hpa_max app.spec.replicas.min app.spec.replicas.max;
    metric = "cpu";
    average_utilization =
        if eqb_ℤ app.spec.autoscaling.target_cpu_utilization (pos 0)
        then pos 80
        else app.spec.autoscaling.target_cpu_utilization;
  });
}
