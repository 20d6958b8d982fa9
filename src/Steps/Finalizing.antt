-- ===== src/Steps/Finalizing.antt =====
-- The finalizer and the deletion (internal/controller/platformapplication_controller.go).
use kubernetes_operators.Common.{ℕ, Bool, true, Option, none, some, eqb, not, if◌then◌else◌}
use kubernetes_operators.Errors.{wrapped}
use kubernetes_operators.Api.V1alpha1.{PlatformApplication}
use kubernetes_operators.Cluster.Client.{Client, success, failure}
use kubernetes_operators.Cluster.Exec.{Exec, event, pure, call, attempt, emit, ◌>>=◌, ◌>>◌}
use kubernetes_operators.Steps.{
  finalizer_name, conflict_requeue_delay, Return, finished, after, failed,
}

-- `IsZero` of a timestamp: it is missing, or the zero time.
unfoldable pub is_zero : Option ℕ → Bool
is_zero none = true
is_zero (some t) = eqb t 0

module _ {F S : Type 0} (c : Client F S) where
  unfoldable pub handle_deletion : PlatformApplication → Exec F S (Return F)
  handle_deletion app =
      if not (c.contains_finalizer app.object_meta finalizer_name) then pure finished else (do
        result ← attempt (
            call (
              c.update_app
                (record app { object_meta = c.remove_finalizer app.object_meta finalizer_name })))
        elim result [
          | failure e ↦ pure (
              if c.errors.is_conflict e
              then after conflict_requeue_delay
              else failed (wrapped "removing finalizer" e))
          | success _ ↦ do
            emit (event "Normal" "Deleting" "Finalizer removed, deletion will proceed")
            pure finished
        ])

  -- The first reconciliation of an application only adds the finalizer.
  unfoldable pub add_finalizer_to : PlatformApplication → Exec F S (Return F)
  add_finalizer_to app = do
    result ← attempt (
        call (
          c.update_app
            (record app { object_meta = c.add_finalizer app.object_meta finalizer_name })))
    elim result [
      | failure e ↦ pure (failed (wrapped "adding finalizer" e))
      | success _ ↦ pure finished
    ]
