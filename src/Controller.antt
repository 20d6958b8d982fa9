-- ===== src/Controller.antt =====
-- internal/controller/platformapplication_controller.go: one call of `Reconcile`, made of its steps.
-- The log messages are not modelled.
pub mod Phase
pub mod Errors
pub mod Keeping
pub mod Gauge
pub mod Deletion
pub mod Requeue
pub mod InSync
pub mod Converges
pub mod Lifecycle
pub mod Reachable
pub mod Budget
use kubernetes_operators.Common.{
  ℕ, String, Bool, not, ◌&&◌, Option, none, some, List, [], ◌∷◌, ◌==◌, if◌then◌else◌, concat,
}
use kubernetes_operators.Common.Int.{ℤ, ltb_ℤ, leb_ℤ, show_int}
use kubernetes_operators.Errors.{
  Error, wrapped, transient, permanent, conflict, unknown, unset, ReconcileErrorClass,
  ReconcileError, as_error, class_text, as_reconcile_error, classify, classify_or_wrap, error_text,
}
use kubernetes_operators.Api.V1alpha1.{PlatformApplication, PlatformApplicationStatus}
use kubernetes_operators.Status.{set_ready, set_progressing, set_degraded, set_configuration_valid}
use kubernetes_operators.Cluster.Objects.{ObjectKey, Object, deployments, ready_replicas_of}
use kubernetes_operators.Cluster.Client.{Client, Result, success, failure}
use kubernetes_operators.Cluster.Exec.{
  Exec, active_inc, active_dec, event, requeue_total, status_update_total, span_start, span_error,
  span_ok, span_end, pure, raise, call, reads, attempt, emit, ◌>>=◌, ◌>>◌, deferring,
}
use kubernetes_operators.Metrics.{observe_reconcile, observe_sub_reconcile, observe_error}
use kubernetes_operators.Subreconcilers.Apply.{ApplyResult}
use kubernetes_operators.Subreconcilers.Reconcilers.{
  reconcile_deployment, reconcile_service, reconcile_hpa, reconcile_http_route,
  reconcile_network_policy, reconcile_pdb, reconcile_service_monitor,
}
use kubernetes_operators.Steps.{
  finalizer_name, requeue_delay, conflict_requeue_delay, progress_check_delay,
  permanent_requeue_delay, Return, finished, after, failed, with_status,
}
use kubernetes_operators.Steps.Reporting.{
  set_url, set_observed, conditions_at, conditions_result, set_conditions, update_deployment_status,
  start,
}
use kubernetes_operators.Steps.Children.{
  run_sub_reconciler, run_all, sub_reconcilers, reconcile_resources,
}
use kubernetes_operators.Steps.Endings.{
  handle_class, handle_error_result, status_failed, finish, fetch_failed,
}
use kubernetes_operators.Steps.Finalizing.{is_zero, handle_deletion, add_finalizer_to}

module _ {F S : Type 0} (c : Client F S) where
  -- The update of the status, and what follows it.
  unfoldable pub publish : PlatformApplication → Result F Unit → Return F → Exec F S (Return F)
  publish app reconcile_err result = do
    written ← attempt (call (c.update_status app))
    elim written [ failure e ↦ status_failed c e | success _ ↦ finish c app reconcile_err result ]

  -- Steps 4 and 5, after the children.
  unfoldable pub report : PlatformApplication → Result F Unit → Exec F S (Return F)
  report app reconcile_err = do
    counted ← update_deployment_status c (set_observed app)
    (conditioned, result) ← set_conditions c counted reconcile_err
    publish (set_url conditioned) reconcile_err result

  -- Steps 3 to 5.
  unfoldable pub reconcile_live : PlatformApplication → Exec F S (Return F)
  reconcile_live app = do
    started ← start c app
    reconcile_err ← attempt (reconcile_resources c started)
    report started reconcile_err

  unfoldable pub reconcile_fetched : PlatformApplication → Exec F S (Return F)
  reconcile_fetched app =
      if not (is_zero app.object_meta.deletion_timestamp)
      then handle_deletion c app
      else if not (c.contains_finalizer app.object_meta finalizer_name)
      then add_finalizer_to c app
      else reconcile_live app

  unfoldable pub reconcile_body : ObjectKey → Exec F S (Return F)
  reconcile_body key = do
    got ← attempt (call (c.get_app key))
    elim got [ failure e ↦ fetch_failed c e | success app ↦ reconcile_fetched app ]

  -- `Reconcile`, with its deferred calls.
  unfoldable pub reconcile : ObjectKey → Exec F S (Return F)
  reconcile key = do
    emit active_inc
    deferring (emit active_dec) (do
      emit (span_start "reconcile.PlatformApplication")
      deferring (emit span_end) (reconcile_body key))
