-- ===== src/Api/V1/Conversion.antt =====
-- api/v1/platformapplication_conversion.go: to and from the hub, v1beta1, field by field.
use kubernetes_operators.Api.V1.{PlatformApplication}
use kubernetes_operators.Api.V1beta1.{PlatformApplication as Hub}

module _ {E : Type 0} where
  -- What the destination held before is overwritten, but for its `TypeMeta`.
  unfoldable pub convert_to : PlatformApplication E → Hub E → Hub E
  convert_to src dst = record {
    type_meta = dst.type_meta;
    object_meta = src.object_meta;
    spec = record {
      image = record {
        repository = src.spec.image.repository;
        tag = src.spec.image.tag;
        pull_policy = src.spec.image.pull_policy;
      };
      replicas = record { min = src.spec.replicas.min; max = src.spec.replicas.max };
      service = record { port = src.spec.service.port; type = src.spec.service.type };
      configuration = src.spec.configuration;
      env_from = src.spec.env_from;
      pod_annotations = src.spec.pod_annotations;
      autoscaling = record {
        enabled = src.spec.autoscaling.enabled;
        target_cpu_utilization = src.spec.autoscaling.target_cpu_utilization;
      };
      gateway = record {
        enabled = src.spec.gateway.enabled;
        host = src.spec.gateway.host;
        gateway_ref = src.spec.gateway.gateway_ref;
        path_prefix = src.spec.gateway.path_prefix;
      };
      observability = record { metrics = src.spec.observability.metrics };
      security = record { network_policy = src.spec.security.network_policy };
      resources = record {
        requests = record {
          cpu = src.spec.resources.requests.cpu;
          memory = src.spec.resources.requests.memory;
        };
        limits = record {
          cpu = src.spec.resources.limits.cpu;
          memory = src.spec.resources.limits.memory;
        };
      };
      health_checks = record {
        liveness_path = src.spec.health_checks.liveness_path;
        readiness_path = src.spec.health_checks.readiness_path;
        port = src.spec.health_checks.port;
      };
      rollout = record {
        strategy = src.spec.rollout.strategy;
        max_unavailable = src.spec.rollout.max_unavailable;
        max_surge = src.spec.rollout.max_surge;
      };
    };
    status = record {
      observed_generation = src.status.observed_generation;
      ready_replicas = src.status.ready_replicas;
      url = src.status.url;
      conditions = src.status.conditions;
      deployed_version = src.status.deployed_version;
    };
  }

  unfoldable pub convert_from : PlatformApplication E → Hub E → PlatformApplication E
  convert_from dst src = record {
    type_meta = dst.type_meta;
    object_meta = src.object_meta;
    spec = record {
      image = record {
        repository = src.spec.image.repository;
        tag = src.spec.image.tag;
        pull_policy = src.spec.image.pull_policy;
      };
      replicas = record { min = src.spec.replicas.min; max = src.spec.replicas.max };
      service = record { port = src.spec.service.port; type = src.spec.service.type };
      configuration = src.spec.configuration;
      env_from = src.spec.env_from;
      pod_annotations = src.spec.pod_annotations;
      autoscaling = record {
        enabled = src.spec.autoscaling.enabled;
        target_cpu_utilization = src.spec.autoscaling.target_cpu_utilization;
      };
      gateway = record {
        enabled = src.spec.gateway.enabled;
        host = src.spec.gateway.host;
        gateway_ref = src.spec.gateway.gateway_ref;
        path_prefix = src.spec.gateway.path_prefix;
      };
      observability = record { metrics = src.spec.observability.metrics };
      security = record { network_policy = src.spec.security.network_policy };
      resources = record {
        requests = record {
          cpu = src.spec.resources.requests.cpu;
          memory = src.spec.resources.requests.memory;
        };
        limits = record {
          cpu = src.spec.resources.limits.cpu;
          memory = src.spec.resources.limits.memory;
        };
      };
      health_checks = record {
        liveness_path = src.spec.health_checks.liveness_path;
        readiness_path = src.spec.health_checks.readiness_path;
        port = src.spec.health_checks.port;
      };
      rollout = record {
        strategy = src.spec.rollout.strategy;
        max_unavailable = src.spec.rollout.max_unavailable;
        max_surge = src.spec.rollout.max_surge;
      };
    };
    status = record {
      observed_generation = src.status.observed_generation;
      ready_replicas = src.status.ready_replicas;
      url = src.status.url;
      conditions = src.status.conditions;
      deployed_version = src.status.deployed_version;
    };
  }
