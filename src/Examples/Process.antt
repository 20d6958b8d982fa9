-- ===== src/Examples/Process.antt =====
-- Tracing and the process, with an OpenTelemetry that remembers the global provider.
use kubernetes_operators.Common.{ℕ, String, ◌≡◌, refl, true, Option, none, some, []}
use kubernetes_operators.Errors.{foreign}
use kubernetes_operators.Cluster.Client.{success, failure}
use kubernetes_operators.Cluster.Exec.{World, call, reads, pure, ◌>>=◌}
use kubernetes_operators.Tracing.{Otel, Config, TracerProvider, default_config, init, init_noop}
use kubernetes_operators.Tracing.Installed.{IsGlobal, Installs, init-Installs}
use kubernetes_operators.Cmd.Process.{running}
use kubernetes_operators.Cmd.Library.{Runtime}
use kubernetes_operators.Cmd.Plan.{follow, plan, ends, main-Follows}
use kubernetes_operators.Cmd.{default_flags, main}

-- The state is the global provider; provider 0 does nothing.
abbrev plain_otel : Otel String (Option ℕ) ℕ Unit Unit Unit
plain_otel = record {
  noop_provider = 0;
  new_resource = λ service version s. (success tt, s);
  new_otlp_exporter = λ options s. (success tt, s);
  new_stdout_exporter = λ s. (success tt, s);
  new_provider = λ exporter res s. (1, s);
  set_tracer_provider = λ p s. (tt, some p);
  shutdown = λ p s. (success tt, none);
  start_span = λ tracer name attrs s. (tt, s);
  current_span = λ s. (tt, s);
  add_event = λ span name attrs s. (tt, s);
  errorf = λ message. message;
}

-- A manager that cannot start.
abbrev failing_runtime : Runtime String (Option ℕ) Unit Unit Unit
failing_runtime = record {
  getenv = λ name. "";
  get_config_or_die = λ w. (running tt, w);
  new_manager = λ config options s. (success tt, s);
  event_recorder = λ mgr name s. (tt, s);
  complete_controller = λ mgr options rec s. (success tt, s);
  complete_webhook = λ mgr version s. (success tt, s);
  add_healthz_check = λ mgr name s. (success tt, s);
  add_readyz_check = λ mgr name s. (success tt, s);
  start = λ mgr s. (failure (foreign "lost the lease"), s);
}

abbrev no_provider : World (Option ℕ)
no_provider = record { api = none; log = [] }

abbrev noop_world : World (Option ℕ)
noop_world = record { api = some 0; log = [] }

abbrev noop_tracer : TracerProvider String (Option ℕ) ℕ
noop_tracer = record { provider = 0; shutdown = some (λ s. (success tt, s)) }

plain_otel-IsGlobal : IsGlobal plain_otel (λ s. s)
plain_otel-IsGlobal = record {
  set = λ p s. refl;
  resource = λ a b s. refl;
  otlp = λ cfg s. refl;
  stdout = λ s. refl;
  provider = λ x r s. refl;
}

abbrev jaeger : Config
jaeger = record default_config { enabled = true; exporter = "jaeger" }

init-Installs_example :
    Installs plain_otel (λ s. s) jaeger no_provider (init plain_otel jaeger no_provider)
init-Installs_example = init-Installs plain_otel (λ s. s) plain_otel-IsGlobal jaeger no_provider

main-Follows_example :
    main plain_otel failing_runtime default_flags no_provider
    ≡ ends plain_otel failing_runtime noop_tracer
        (follow (plan plain_otel failing_runtime default_flags tt tt) noop_world)
unfolding init init_noop call reads pure ◌>>=◌
main-Follows_example =
    main-Follows plain_otel failing_runtime default_flags no_provider noop_world noop_world
      noop_world noop_tracer tt tt refl refl refl
