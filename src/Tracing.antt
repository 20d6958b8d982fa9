-- ===== src/Tracing.antt =====
-- internal/tracing/tracing.go. OpenTelemetry is a parameter: its constructors, the global provider
-- and the spans are part of the state `S` that its functions are called on. Contexts are not
-- modelled.
pub mod Installed
pub mod Correlation
use kubernetes_operators.Common.{
  String, Bool, false, not, ◌||◌, Option, none, some, List, [], ◌∷◌, ◌==◌, ◌++◌, if◌then◌else◌,
  concat,
}
use kubernetes_operators.Common.Int.{ℤ, show_int}
use kubernetes_operators.Errors.{Error, foreign, wrapped}
use kubernetes_operators.Cluster.Client.{Result, success, failure}
use kubernetes_operators.Cluster.Exec.{Exec, pure, raise, call, reads, attempt, ◌>>=◌, ◌>>◌}

abbrev pub tracer_name : String
tracer_name = "github.com/example/platform-operator"

abbrev pub exporter_otlp : String
exporter_otlp = "otlp"

abbrev pub exporter_stdout : String
exporter_stdout = "stdout"

abbrev pub exporter_none : String
exporter_none = "none"

pub record Config : Type 0 where
  pub enabled : Bool
  pub exporter : String
  pub endpoint : String
  pub service_name : String
  pub insecure : Bool

abbrev pub default_config : Config
default_config = record {
  enabled = false;
  exporter = exporter_none;
  endpoint = "";
  service_name = "platform-operator";
  insecure = false;
}

pub data OtlpOption : Type 0 where
  with_endpoint : String → OtlpOption
  with_insecure : OtlpOption

-- `attribute.KeyValue`
pub data KeyValue : Type 0 where
  text : (key value : String) → KeyValue
  int64 : (key : String) → ℤ → KeyValue

abbrev pub otlp_options : Config → List OtlpOption
otlp_options cfg =
    if cfg.insecure
    then with_endpoint cfg.endpoint ∷ with_insecure ∷ []
    else with_endpoint cfg.endpoint ∷ []

abbrev pub reconcile_attributes : String → String → ℤ → List KeyValue
reconcile_attributes name namespace generation =
    text "reconcile.resource" name
    ∷ text "reconcile.namespace" namespace
    ∷ int64 "reconcile.generation" generation
    ∷ []

abbrev pub sub_reconcile_attributes : String → String → String → List KeyValue
sub_reconcile_attributes resource app_name namespace =
    text "subreconcile.resource" resource
    ∷ text "subreconcile.app" app_name
    ∷ text "subreconcile.namespace" namespace
    ∷ []

unfoldable pub correlation_id : String → String → ℤ → String
correlation_id namespace name generation =
    concat (namespace ∷ "/" ∷ name ∷ "@" ∷ show_int generation ∷ [])

-- OpenTelemetry: `P` is a tracer provider, `R` a resource, `X` an exporter, `N` a span.
pub record Otel (F S P R X N : Type 0) : Type 0 where
  pub noop_provider : P
  pub new_resource : (service version : String) → S → Result F R × S
  pub new_otlp_exporter : List OtlpOption → S → Result F X × S
  pub new_stdout_exporter : S → Result F X × S
  pub new_provider : X → R → S → P × S
  pub set_tracer_provider : P → S → Unit {0} × S
  pub shutdown : P → S → Result F Unit × S
  pub start_span : (tracer name : String) → List KeyValue → S → N × S
  pub current_span : S → N × S
  pub add_event : N → (name : String) → List KeyValue → S → Unit {0} × S
  pub errorf : String → F

-- A provider with what ends it; nil is `none`.
pub record TracerProvider (F S P : Type 0) : Type 0 where
  pub provider : P
  pub shutdown : Option (S → Result F Unit × S)

module _ {F S A : Type 0} where
  -- `if err != nil { return nil, fmt.Errorf("message: %w", err) }`
  unfoldable pub or_wrapped : String → Exec F S A → Exec F S A
  or_wrapped message m = do
    got ← attempt m
    elim got [ failure e ↦ raise (wrapped message e) | success a ↦ pure a ]

module _ {F S P R X N : Type 0} (o : Otel F S P R X N) where
  -- The `switch` on the exporter.
  unfoldable pub new_exporter : Config → Exec F S X
  unfolding or_wrapped
  new_exporter cfg =
      if cfg.exporter == exporter_otlp
      then or_wrapped "creating OTLP exporter" (call (o.new_otlp_exporter (otlp_options cfg)))
      else if cfg.exporter == exporter_stdout
      then or_wrapped "creating stdout exporter" (call o.new_stdout_exporter)
      else raise (foreign (o.errorf (concat ("unknown trace exporter: " ∷ cfg.exporter ∷ []))))

  unfoldable pub init_noop : Exec F S (TracerProvider F S P)
  init_noop = do
    reads (o.set_tracer_provider o.noop_provider)
    pure (record { provider = o.noop_provider; shutdown = some (λ s. (success tt, s)) })

  unfoldable pub install : Config → R → Exec F S (TracerProvider F S P)
  unfolding new_exporter
  install cfg res = do
    exporter ← new_exporter cfg
    tp ← reads (o.new_provider exporter res)
    reads (o.set_tracer_provider tp)
    pure (record { provider = tp; shutdown = some (o.shutdown tp) })

  unfoldable pub init_exporting : Config → Exec F S (TracerProvider F S P)
  unfolding install or_wrapped
  init_exporting cfg = do
    res ← or_wrapped "creating OTel resource" (call (o.new_resource cfg.service_name "0.1.0"))
    install cfg res

  -- `Init`
  unfoldable pub init : Config → Exec F S (TracerProvider F S P)
  unfolding init_noop init_exporting
  init cfg =
      if not cfg.enabled || (cfg.exporter == exporter_none) then init_noop else init_exporting cfg

  unfoldable pub shutdown_provider : TracerProvider F S P → Exec F S Unit
  shutdown_provider tp = elim tp.shutdown [ none ↦ pure tt | some f ↦ call f ]

  unfoldable pub start_span : String → List KeyValue → Exec F S N
  start_span name attrs =
      reads (o.start_span tracer_name name (text "service.name" "platform-operator" ∷ attrs))

  unfoldable pub span_from_context : Exec F S N
  span_from_context = reads o.current_span

  unfoldable pub reconcile_span : String → String → ℤ → Exec F S N
  unfolding start_span correlation_id
  reconcile_span name namespace generation = start_span "reconcile.PlatformApplication" (
      text "reconcile.name" name
      ∷ text "reconcile.namespace" namespace
      ∷ int64 "reconcile.generation" generation
      ∷ text "reconcile.correlation_id" (correlation_id namespace name generation)
      ∷ [])

  unfoldable pub sub_reconcile_span : String → String → String → Exec F S N
  unfolding start_span
  sub_reconcile_span resource app_name namespace =
      start_span (concat ("subreconcile." ∷ resource ∷ []))
        (sub_reconcile_attributes resource app_name namespace)

  unfoldable pub record_resource_event : N → String → String → List KeyValue → Exec F S Unit
  record_resource_event span resource operation attrs =
      reads (o.add_event span (concat ("resource." ∷ resource ∷ "." ∷ operation ∷ [])) attrs)
