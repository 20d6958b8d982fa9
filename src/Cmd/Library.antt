-- ===== src/Cmd/Library.antt =====
-- controller-runtime and the operating system as cmd/main.go and `SetupWithManager` use them: `K` is
-- a client configuration, `M` a manager, `V` an event recorder.
use kubernetes_operators.Common.{String, Bool, Option, List}
use kubernetes_operators.Common.Int.{ℤ}
use kubernetes_operators.Cluster.Client.{Result}
use kubernetes_operators.Cmd.Process.{Proc}

-- `ctrl.Options`
pub record ManagerOptions : Type 0 where
  pub scheme : List String
  pub metrics_bind_address : String
  pub health_probe_bind_address : String
  pub pprof_bind_address : String
  pub leader_election : Bool
  pub leader_election_id : String
  pub webhook_port : ℤ

-- `PlatformApplicationReconciler`; its client and its scheme are the manager's. A recorder that is
-- nil is `none`.
pub record Reconciler (V : Type 0) : Type 0 where
  pub recorder : Option V
  pub concurrency : ℤ

-- The versions that have a defaulter and a validator.
pub data ApiVersion : Type 0 where
  v1alpha1 v1beta1 : ApiVersion

-- What the builder of the controller was told.
pub record ControllerOptions : Type 0 where
  pub for_type : String
  pub owns : List String
  pub name : String
  pub max_concurrent_reconciles : ℤ

pub record Runtime (F S K M V : Type 0) : Type 0 where
  pub getenv : String → String
  pub get_config_or_die : Proc S K
  pub new_manager : K → ManagerOptions → S → Result F M × S
  pub event_recorder : M → String → S → V × S
  pub complete_controller : M → ControllerOptions → Reconciler V → S → Result F Unit × S
  pub complete_webhook : M → ApiVersion → S → Result F Unit × S
  pub add_healthz_check : M → String → S → Result F Unit × S
  pub add_readyz_check : M → String → S → Result F Unit × S
  pub start : M → S → Result F Unit × S
