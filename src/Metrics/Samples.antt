-- ===== src/Metrics/Samples.antt =====
-- Which collector of internal/metrics/metrics.go a sample of the log belongs to, and the values of
-- its labels.
use kubernetes_operators.Common.{
  ℕ, String, ◌≡◌, Bool, true, Option, none, some, List, [], ◌∷◌, ◌==◌, ltb, ◌&&◌, if◌then◌else◌,
  length,
}
use kubernetes_operators.Cluster.Exec as Exec
use kubernetes_operators.Cluster.Exec.{Effect}
use kubernetes_operators.Metrics.Collectors.{
  Kind, histogram, Collector, reconcile_total, reconcile_errors_total, reconcile_duration_seconds,
  sub_reconcile_total, sub_reconcile_duration_seconds, resource_apply_total,
  reconcile_requeue_total, status_update_total, api_call_duration_seconds, noop_apply_total,
  active_reconcilers, registered,
}

-- The receiver and the arguments of `WithLabelValues` in the call that records the sample.
abbrev pub sample : Effect → Option (Collector × List String)
sample (Exec.reconcile_total result) = some (reconcile_total, result ∷ [])
sample (Exec.reconcile_duration result) = some (reconcile_duration_seconds, result ∷ [])
sample (Exec.errors_total error_type error_class) =
    some (reconcile_errors_total, error_type ∷ error_class ∷ [])
sample (Exec.sub_reconcile_total resource result) =
    some (sub_reconcile_total, resource ∷ result ∷ [])
sample (Exec.sub_reconcile_duration resource) = some (sub_reconcile_duration_seconds, resource ∷ [])
sample (Exec.resource_apply_total resource outcome) =
    some (resource_apply_total, resource ∷ outcome ∷ [])
sample (Exec.requeue_total reason) = some (reconcile_requeue_total, reason ∷ [])
sample (Exec.status_update_total result) = some (status_update_total, result ∷ [])
sample (Exec.api_call_duration operation resource) =
    some (api_call_duration_seconds, operation ∷ resource ∷ [])
sample (Exec.noop_apply_total resource) = some (noop_apply_total, resource ∷ [])
sample Exec.active_inc = some (active_reconcilers, [])
sample Exec.active_dec = some (active_reconcilers, [])
sample _ = none

-- The collector of a name, in a list of them.
abbrev pub collector_of : String → List Collector → Option Collector
collector_of name [] = none
collector_of name (k ∷ rest) = if k.name == name then some k else collector_of name rest

abbrev increasing : List ℕ → Bool
increasing [] = true
increasing (a ∷ []) = true
increasing (a ∷ b ∷ l) = ltb a b && increasing (b ∷ l)

abbrev has_buckets : Kind → Bool
has_buckets (histogram buckets) = increasing buckets
has_buckets _ = true

-- What the registry, `WithLabelValues` and a histogram rely on.
pub record Fits (k : Collector) (values : List String) : Type 0 where
  pub registered_once : collector_of k.name registered ≡ some k
  pub one_value_each : length values ≡ length k.labels
  pub buckets : has_buckets k.kind ≡ true

abbrev pub FitsAny : Option (Collector × List String) → Type 0
FitsAny none = Unit
FitsAny (some (k, values)) = Fits k values
