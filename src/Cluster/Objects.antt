-- ===== src/Cluster/Objects.antt =====
-- The Kubernetes objects that the operator builds, with the fields that it sets. A pointer that is
-- always set is its value.
use kubernetes_operators.Common.{String, Bool, Option, List, Labels}
use kubernetes_operators.Common.Int.{ℤ, pos}
use kubernetes_operators.Api.Meta.{TypeMeta, ObjectMeta}

-- `intstr.IntOrString`
pub data IntOrString : Type 0 where
  int : ℤ → IntOrString
  str : String → IntOrString

pub record ContainerPort : Type 0 where
  pub port_name : String
  pub container_port : ℤ
  pub protocol : String

pub record SecurityContext : Type 0 where
  pub run_as_non_root : Bool
  pub read_only_root_filesystem : Bool
  pub allow_privilege_escalation : Bool
  pub drop_capabilities : List String

-- Quantities are the texts that they were parsed from; a nil map is `none`.
pub record ResourceRequirements : Type 0 where
  pub requests : Option Labels
  pub limits : Option Labels

pub record Probe : Type 0 where
  pub path : String
  pub probe_port : IntOrString
  pub initial_delay_seconds : ℤ
  pub period_seconds : ℤ
  pub timeout_seconds : ℤ
  pub failure_threshold : ℤ

pub record EnvVar : Type 0 where
  pub env_name : String
  pub env_value : String

pub record VolumeMount : Type 0 where
  pub mount_name : String
  pub mount_path : String

pub record Container : Type 0 where
  pub container_name : String
  pub image : String
  pub image_pull_policy : String
  pub ports : List ContainerPort
  pub security_context : SecurityContext
  pub resources : ResourceRequirements
  pub liveness_probe : Probe
  pub readiness_probe : Probe
  pub env : List EnvVar
  pub volume_mounts : List VolumeMount

pub record RollingUpdate : Type 0 where
  pub max_unavailable : Option IntOrString
  pub max_surge : Option IntOrString

pub record DeploymentStrategy : Type 0 where
  pub strategy_type : String
  pub rolling_update : Option RollingUpdate

-- `emptyDir` volumes, by their names.
pub record PodSpec : Type 0 where
  pub pod_run_as_non_root : Bool
  pub seccomp_profile : String
  pub containers : List Container
  pub empty_dir_volumes : List String

pub record DeploymentSpec : Type 0 where
  pub replicas : ℤ
  pub match_labels : Labels
  pub strategy : DeploymentStrategy
  pub template_labels : Labels
  pub pod : PodSpec

pub record ServicePort : Type 0 where
  pub service_port_name : String
  pub service_port : ℤ
  pub target_port : IntOrString
  pub service_protocol : String

pub record ServiceSpec : Type 0 where
  pub service_type : String
  pub selector : Labels
  pub service_ports : List ServicePort

pub record HpaSpec : Type 0 where
  pub target_api_version : String
  pub target_kind : String
  pub target_name : String
  pub min_replicas : ℤ
  pub max_replicas : ℤ
  pub metric : String
  pub average_utilization : ℤ

pub record ParentReference : Type 0 where
  pub parent_group : String
  pub parent_kind : String
  pub parent_namespace : String
  pub parent_name : String

pub record BackendRef : Type 0 where
  pub backend_group : String
  pub backend_kind : String
  pub backend_name : String
  pub backend_port : ℤ

-- One rule with one path match and one backend.
pub record HttpRouteSpec : Type 0 where
  pub path_match_type : String
  pub path_value : String
  pub backend : BackendRef
  pub hostnames : List String
  pub parent_refs : List ParentReference

pub record NetworkPolicyPort : Type 0 where
  pub policy_protocol : String
  pub policy_port : IntOrString

-- Ingress rules are lists of ports, egress rules too; an empty list allows every port.
pub record NetworkPolicySpec : Type 0 where
  pub pod_selector : Labels
  pub policy_types : List String
  pub ingress : List (List NetworkPolicyPort)
  pub egress : List (List NetworkPolicyPort)

pub record PdbSpec : Type 0 where
  pub pdb_max_unavailable : IntOrString
  pub pdb_selector : Labels

pub record Endpoint : Type 0 where
  pub endpoint_port : String
  pub endpoint_path : String
  pub interval : String

pub record ServiceMonitorSpec : Type 0 where
  pub monitor_selector : Labels
  pub endpoints : List Endpoint

-- The Go types of the child resources.
pub data Resource : Type 0 where
  deployments services hpas http_routes network_policies pdbs service_monitors : Resource

pub data Body : Type 0 where
  deployment : DeploymentSpec → (ready_replicas : ℤ) → Body
  service : ServiceSpec → Body
  hpa : HpaSpec → Body
  http_route : HttpRouteSpec → Body
  network_policy : NetworkPolicySpec → Body
  pdb : PdbSpec → Body
  service_monitor : ServiceMonitorSpec → Body

abbrev pub resource_of : Body → Resource
resource_of (deployment s n) = deployments
resource_of (service s) = services
resource_of (hpa s) = hpas
resource_of (http_route s) = http_routes
resource_of (network_policy s) = network_policies
resource_of (pdb s) = pdbs
resource_of (service_monitor s) = service_monitors

-- `dep.Status.ReadyReplicas`
abbrev pub ready_replicas_of : Body → ℤ
ready_replicas_of (deployment s n) = n
ready_replicas_of _ = pos 0

-- A `client.Object` of one of those types.
pub record Object : Type 0 where
  pub type_meta : TypeMeta
  pub meta : ObjectMeta
  pub body : Body

pub record ObjectKey : Type 0 where
  pub key_name : String
  pub key_namespace : String

-- The object that a deletion names: its Go type, the kind in its type metadata, and its key.
pub record ObjectRef : Type 0 where
  pub ref_resource : Resource
  pub ref_kind : String
  pub ref_key : ObjectKey
