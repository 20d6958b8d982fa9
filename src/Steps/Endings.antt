-- ===== src/Steps/Endings.antt =====
-- How `Reconcile` ends: after an error of the children, of the status update or of the fetch, and after
-- a success (internal/controller/platformapplication_controller.go).
use kubernetes_operators.Common.{none, some, [], ◌∷◌, if◌then◌else◌, concat}
use kubernetes_operators.Common.Int.{ltb_ℤ}
use kubernetes_operators.Errors.{
  Error, transient, permanent, conflict, ReconcileErrorClass, ReconcileError, as_error, class_text,
  as_reconcile_error, classify, error_text,
}
use kubernetes_operators.Api.V1alpha1.{PlatformApplication}
use kubernetes_operators.Cluster.Client.{Client, Result, success, failure}
use kubernetes_operators.Cluster.Exec.{
  Exec, event, requeue_total, status_update_total, pure, emit, ◌>>◌,
}
use kubernetes_operators.Metrics.{observe_reconcile, observe_error}
use kubernetes_operators.Steps.{
  requeue_delay, conflict_requeue_delay, progress_check_delay, permanent_requeue_delay, Return,
  finished, after, failed,
}

module _ {F S : Type 0} (c : Client F S) where
  -- The `switch` on the class of a `*ReconcileError`.
  unfoldable pub handle_class :
      PlatformApplication → Error F → ReconcileError F → ReconcileErrorClass → Exec F S (Return F)
  handle_class app reconcile_err r conflict = do
    emit (requeue_total "conflict")
    pure (after conflict_requeue_delay)
  handle_class app reconcile_err r permanent = do
    emit (
        event "Warning" "PermanentError" (
          concat (
            "Permanent error (manual intervention required): "
            ∷ error_text c.errors (as_error r)
            ∷ [])))
    pure (after permanent_requeue_delay)
  handle_class app reconcile_err r transient = do
    emit (requeue_total "transient")
    pure (record { requeue_after = requeue_delay; error = some reconcile_err })
  handle_class app reconcile_err r _ = do
    observe_reconcile "error"
    observe_error "unknown" "unknown"
    emit (requeue_total "unknown")
    pure (record { requeue_after = requeue_delay; error = some reconcile_err })

  unfoldable pub handle_error_result : PlatformApplication → Error F → Exec F S (Return F)
  handle_error_result app reconcile_err = elim (as_reconcile_error reconcile_err) [
    | some r ↦ do
      observe_reconcile "error"
      observe_error r.kind (class_text r.class)
      handle_class app reconcile_err r r.class
    | none ↦ do
      observe_reconcile "error"
      observe_error "unknown" "unknown"
      emit (requeue_total "unknown")
      pure (record { requeue_after = requeue_delay; error = some reconcile_err })
  ]

  -- A failed update of the status.
  unfoldable pub status_failed : Error F → Exec F S (Return F)
  status_failed e = do
    emit (status_update_total "error")
    if c.errors.is_conflict e
        then (do
          emit (status_update_total "conflict")
          emit (requeue_total "status_conflict")
          pure (after conflict_requeue_delay))
        else pure (failed e)

  -- Step 5: what follows a successful update of the status.
  unfoldable pub finish : PlatformApplication → Result F Unit → Return F → Exec F S (Return F)
  finish app (failure e) result = do emit (status_update_total "success"); handle_error_result app e
  finish app (success _) result = do
    emit (status_update_total "success")
    observe_reconcile "success"
    if ltb_ℤ app.status.ready_replicas app.spec.replicas.min
        then (do emit (requeue_total "replicas_not_ready"); pure (after progress_check_delay))
        else pure result

  -- A fetch that failed; an application that is gone needs nothing.
  unfoldable pub fetch_failed : Error F → Exec F S (Return F)
  fetch_failed e = if c.errors.is_not_found e then pure finished else (do
    observe_error "fetch_error" (class_text (classify c.errors (some e)))
    pure (failed e))
