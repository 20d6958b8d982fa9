-- ===== src/Metrics.antt =====
-- internal/metrics/metrics.go: the functions that record samples. A counter's value is the number
-- of its samples in the log; the durations that histograms observe are not modelled.
pub mod Collectors
pub mod Samples
use kubernetes_operators.Common.{String}
use kubernetes_operators.Cluster.Exec.{
  Exec, reconcile_total, reconcile_duration, errors_total, sub_reconcile_total,
  sub_reconcile_duration, resource_apply_total, api_call_duration, noop_apply_total, emit, ◌>>◌,
}

module _ {F S : Type 0} where
  unfoldable pub observe_reconcile : String → Exec F S Unit
  observe_reconcile result = do emit (reconcile_total result); emit (reconcile_duration result)

  unfoldable pub observe_sub_reconcile : String → String → Exec F S Unit
  observe_sub_reconcile resource result = do
    emit (sub_reconcile_total resource result)
    emit (sub_reconcile_duration resource)

  unfoldable pub observe_resource_apply : String → String → Exec F S Unit
  observe_resource_apply resource outcome = emit (resource_apply_total resource outcome)

  unfoldable pub observe_error : String → String → Exec F S Unit
  observe_error error_type error_class = emit (errors_total error_type error_class)

  unfoldable pub observe_api_call : String → String → Exec F S Unit
  observe_api_call operation resource = emit (api_call_duration operation resource)

  unfoldable pub observe_noop_apply : String → Exec F S Unit
  observe_noop_apply resource = emit (noop_apply_total resource)
