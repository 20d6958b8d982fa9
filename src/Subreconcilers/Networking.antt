-- ===== src/Subreconcilers/Networking.antt =====
-- internal/controller/subreconcilers/networking.go: the desired HTTPRoute and NetworkPolicy.
pub mod Gateway
use kubernetes_operators.Common.{
  String, Option, none, some, List, [], ◌∷◌, ◌==◌, if◌then◌else◌, concat, split_slash,
}
use kubernetes_operators.Api.Meta.{named}
use kubernetes_operators.Api.V1alpha1.{PlatformApplication}
use kubernetes_operators.Cluster.Objects.{int, ParentReference, Object, http_route, network_policy}
use kubernetes_operators.Subreconcilers.Labels.{common_labels, selector_labels}

-- The parent gateway of a reference "namespace/name"; a text with no '/' names none.
unfoldable pub parent_refs : String → List ParentReference
parent_refs gateway_ref = if gateway_ref == "" then [] else elim (split_slash gateway_ref) [
  | none ↦ []
  | some (namespace, name) ↦
      record {
        parent_group = "gateway.networking.k8s.io";
        parent_kind = "Gateway";
        parent_namespace = namespace;
        parent_name = name;
      }
      ∷ []
]

unfoldable pub build_desired_http_route : PlatformApplication → Object
build_desired_http_route app = record {
  type_meta = record { api_version = "gateway.networking.k8s.io/v1"; kind = "HTTPRoute" };
  meta = named app.object_meta.name app.object_meta.namespace (common_labels app.object_meta.name);
  body = http_route (record {
    path_match_type = "PathPrefix";
    path_value = if app.spec.gateway.path_prefix == "" then "/" else app.spec.gateway.path_prefix;
    backend = record {
      backend_group = "";
      backend_kind = "Service";
      backend_name = app.object_meta.name;
      backend_port = app.spec.service.port;
    };
    hostnames = if app.spec.gateway.host == "" then [] else app.spec.gateway.host ∷ [];
    parent_refs = parent_refs app.spec.gateway.gateway_ref;
  });
}

unfoldable pub network_policy_name : String → String
network_policy_name app_name = concat (app_name ∷ "-netpol" ∷ [])

-- One ingress rule for the service port, and one empty egress rule, which allows everything.
unfoldable pub build_desired_network_policy : PlatformApplication → Object
build_desired_network_policy app = record {
  type_meta = record { api_version = "networking.k8s.io/v1"; kind = "NetworkPolicy" };
  meta =
      named (network_policy_name app.object_meta.name) app.object_meta.namespace
        (common_labels app.object_meta.name);
  body = network_policy (record {
    pod_selector = selector_labels app.object_meta.name;
    policy_types = "Ingress" ∷ "Egress" ∷ [];
    ingress =
        (record { policy_protocol = "TCP"; policy_port = int app.spec.service.port } ∷ []) ∷ [];
    egress = [] ∷ [];
  });
}
