-- ===== src/Steps.antt =====
-- The parts of internal/controller/platformapplication_controller.go that `Reconcile` is made of:
-- its delays, in milliseconds, and what it returns.
pub mod Reporting
pub mod Children
pub mod Endings
pub mod Finalizing
use kubernetes_operators.Common.{
  ℕ, String, Bool, not, ◌&&◌, Option, none, some, List, [], ◌∷◌, ◌==◌, if◌then◌else◌, concat,
}
use kubernetes_operators.Common.Int.{ℤ, ltb_ℤ, leb_ℤ, show_int}
use kubernetes_operators.Errors.{
  Error, wrapped, transient, permanent, conflict, unknown, unset, ReconcileErrorClass,
  ReconcileError, as_error, class_text, as_reconcile_error, classify, classify_or_wrap, error_text,
}
use kubernetes_operators.Api.V1alpha1.{PlatformApplication, PlatformApplicationStatus}
use kubernetes_operators.Status.{set_ready, set_progressing, set_degraded, set_configuration_valid}
use kubernetes_operators.Cluster.Objects.{ObjectKey, Object, deployments, ready_replicas_of}
use kubernetes_operators.Cluster.Client.{Client, Result, success, failure}
use kubernetes_operators.Cluster.Exec.{
  Exec, active_inc, active_dec, event, requeue_total, status_update_total, span_start, span_error,
  span_ok, span_end, pure, raise, call, reads, attempt, emit, ◌>>=◌, ◌>>◌, deferring,
}
use kubernetes_operators.Metrics.{observe_reconcile, observe_sub_reconcile, observe_error}
use kubernetes_operators.Subreconcilers.Apply.{ApplyResult}
use kubernetes_operators.Subreconcilers.Reconcilers.{
  reconcile_deployment, reconcile_service, reconcile_hpa, reconcile_http_route,
  reconcile_network_policy, reconcile_pdb, reconcile_service_monitor,
}

abbrev pub finalizer_name : String
finalizer_name = "platform.example.io/cleanup"

abbrev pub requeue_delay : ℕ
requeue_delay = 30000

abbrev pub conflict_requeue_delay : ℕ
conflict_requeue_delay = 1000

abbrev pub progress_check_delay : ℕ
progress_check_delay = 10000

-- `5 * time.Minute`
abbrev pub permanent_requeue_delay : ℕ
permanent_requeue_delay = 300000

-- What `Reconcile` returns: `ctrl.Result` with its delay (0 for none), and the error.
pub record Return (F : Type 0) : Type 0 where
  pub requeue_after : ℕ
  pub error : Option (Error F)

abbrev pub finished : {F : Type 0} → Return F
finished = record { requeue_after = 0; error = none }

abbrev pub after : {F : Type 0} → ℕ → Return F
after delay = record { requeue_after = delay; error = none }

abbrev pub failed : {F : Type 0} → Error F → Return F
failed e = record { requeue_after = 0; error = some e }

abbrev pub with_status :
    PlatformApplication
    → (PlatformApplicationStatus → PlatformApplicationStatus)
    → PlatformApplication
with_status app f = record app { status = f app.status }
