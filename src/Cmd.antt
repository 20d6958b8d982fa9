-- ===== src/Cmd.antt =====
-- cmd/main.go: the flags, the order in which the parts of the operator are set up, and how the
-- process ends. Log lines are not modelled; a text of flags that does not parse ends in `flag`.
pub mod Process
pub mod Library
pub mod Setup
pub mod Plan
use kubernetes_operators.Common.{
  String, Bool, true, false, not, Option, some, ◌==◌, if◌then◌else◌, List, [], ◌∷◌,
}
use kubernetes_operators.Common.Int.{ℤ, pos}
use kubernetes_operators.Tracing.{Otel, Config, init, shutdown_provider}
use kubernetes_operators.Cluster.Exec.{pure, call, reads}
use Process.{Proc, Ending, or_exit, finally, ignoring, ◌>>=◌, ◌>>◌}
use Library.{Runtime, ManagerOptions, Reconciler, ApiVersion, v1alpha1, v1beta1}
use Setup.{setup_with_manager}

-- The variables that the flags are bound to.
pub record Flags : Type 0 where
  pub metrics_addr : String
  pub probe_addr : String
  pub pprof_addr : String
  pub enable_leader_election : Bool
  pub leader_election_id : String
  pub concurrent_reconciles : ℤ
  pub enable_tracing : Bool
  pub tracing_exporter : String
  pub tracing_endpoint : String

abbrev pub default_flags : Flags
default_flags = record {
  metrics_addr = ":8080";
  probe_addr = ":8081";
  pprof_addr = "";
  enable_leader_election = false;
  leader_election_id = "platform-operator.example.io";
  concurrent_reconciles = pos 1;
  enable_tracing = false;
  tracing_exporter = "none";
  tracing_endpoint = "localhost:4317";
}

-- The groups of types that `init` adds to the scheme, in their order.
abbrev pub scheme_groups : List String
scheme_groups =
    "client-go" ∷ "platform.example.io/v1alpha1" ∷ "platform.example.io/v1beta1"
    ∷ "gateway.networking.k8s.io/v1" ∷ []

abbrev pub tracing_config : Flags → Config
tracing_config f = record {
  enabled = f.enable_tracing;
  exporter = f.tracing_exporter;
  endpoint = f.tracing_endpoint;
  service_name = "platform-operator";
  insecure = true;
}

abbrev pub manager_options : Flags → ManagerOptions
manager_options f = record {
  scheme = scheme_groups;
  metrics_bind_address = f.metrics_addr;
  health_probe_bind_address = f.probe_addr;
  pprof_bind_address = f.pprof_addr;
  leader_election = f.enable_leader_election;
  leader_election_id = f.leader_election_id;
  webhook_port = pos 9443;
}

module _ {F S P R X N K M V : Type 0} (o : Otel F S P R X N) (r : Runtime F S K M V) where
  -- The two webhooks, unless the environment switches them off.
  unfoldable pub set_up_webhooks : M → Proc S Unit
  set_up_webhooks mgr =
      if not (r.getenv "ENABLE_WEBHOOKS" == "false")
      then (do
        or_exit (call (r.complete_webhook mgr v1alpha1))
        or_exit (call (r.complete_webhook mgr v1beta1)))
      else or_exit {F = F} (pure tt)

  -- From the controller to the end of `main`.
  unfoldable pub managed : Flags → M → V → Proc S Unit
  unfolding set_up_webhooks
  managed f mgr recorder = do
    or_exit (
        setup_with_manager r mgr
          (record { recorder = some recorder; concurrency = f.concurrent_reconciles }))
    set_up_webhooks mgr
    or_exit (call (r.add_healthz_check mgr "healthz"))
    or_exit (call (r.add_readyz_check mgr "readyz"))
    or_exit (call (r.start mgr))

  unfoldable pub run_manager : Flags → M → Proc S Unit
  unfolding managed
  run_manager f mgr = do
    recorder ← or_exit {F = F} (reads (r.event_recorder mgr "platform-operator"))
    managed f mgr recorder

  -- After the tracer provider.
  unfoldable pub serve : Flags → Proc S Unit
  unfolding run_manager
  serve f = do
    config ← r.get_config_or_die
    mgr ← or_exit (call (r.new_manager config (manager_options f)))
    run_manager f mgr

  unfoldable pub main : Flags → Proc S Unit
  unfolding serve
  main f = do
    tp ← or_exit (init o (tracing_config f))
    finally (ignoring (shutdown_provider o tp)) (serve f)
