-- ===== src/Steps/Reporting.antt =====
-- What `Reconcile` writes into the status (internal/controller/platformapplication_controller.go).
use kubernetes_operators.Common.{ℕ, String, not, ◌&&◌, [], ◌∷◌, ◌==◌, if◌then◌else◌, concat}
use kubernetes_operators.Common.Int.{leb_ℤ, show_int}
use kubernetes_operators.Errors.{error_text}
use kubernetes_operators.Api.V1alpha1.{PlatformApplication, PlatformApplicationStatus}
use kubernetes_operators.Status.{set_ready, set_progressing, set_degraded, set_configuration_valid}
use kubernetes_operators.Cluster.Objects.{deployments, ready_replicas_of}
use kubernetes_operators.Cluster.Client.{Client, Result, success, failure}
use kubernetes_operators.Cluster.Exec.{Exec, pure, call, reads, attempt, ◌>>=◌}
use kubernetes_operators.Steps.{progress_check_delay, Return, finished, after, with_status}

-- "Only %d/%d replicas ready" and the like.
abbrev counts : String → PlatformApplication → String → String
counts before app rest =
    concat (
      before
      ∷ show_int app.status.ready_replicas
      ∷ "/"
      ∷ show_int app.spec.replicas.min
      ∷ rest
      ∷ [])

-- `app.Status.URL` is written only with an enabled gateway and a host.
unfoldable pub set_url : PlatformApplication → PlatformApplication
set_url app =
    if app.spec.gateway.enabled && not (app.spec.gateway.host == "")
    then with_status app (λ s. record s { url = concat ("https://" ∷ app.spec.gateway.host ∷ []) })
    else app

-- The generation and the version that this reconciliation has seen.
unfoldable pub set_observed : PlatformApplication → PlatformApplication
set_observed app = with_status app (λ s. record s {
  observed_generation = app.object_meta.generation;
  deployed_version = app.spec.image.tag;
})

module _ {F S : Type 0} (c : Client F S) where
  -- The status that `setConditions` leaves, at the times of its three calls of `SetCondition`.
  unfoldable pub conditions_at :
      ℕ → ℕ → ℕ → PlatformApplication → Result F Unit → PlatformApplicationStatus
  conditions_at t u v app (failure e) =
      set_ready v "False" "ReconcileError" "Reconciliation failed" (
        set_degraded u "True" "ReconcileError" (error_text c.errors e)
          (set_progressing t "False" "ReconcileError" (error_text c.errors e) app.status))
  conditions_at t u v app (success _) =
      if leb_ℤ app.spec.replicas.min app.status.ready_replicas
      then set_ready v "True" "Available" "Application is available" (
          set_degraded u "False" "Healthy" "Application is healthy" (
            set_progressing t "False" "Deployed" "All resources reconciled successfully"
              app.status))
      else set_ready v "False" "InsufficientReplicas" (counts "Only " app " replicas ready") (
          set_degraded u "False" "Deploying" "Deployment is rolling out" (
            set_progressing t "True" "Deploying" (counts "Waiting for " app " replicas")
              app.status))

  -- The result of `setConditions`.
  unfoldable pub conditions_result : PlatformApplication → Result F Unit → Return F
  conditions_result app (failure e) = finished
  conditions_result app (success _) =
      if leb_ℤ app.spec.replicas.min app.status.ready_replicas
      then finished
      else after progress_check_delay

  unfoldable pub set_conditions :
      PlatformApplication → Result F Unit → Exec F S (PlatformApplication × Return F)
  set_conditions app reconcile_err = do
    t ← reads c.now
    u ← reads c.now
    v ← reads c.now
    pure (
      record app { status = conditions_at t u v app reconcile_err },
      conditions_result app reconcile_err,
    )

  -- On an error the status keeps the count that it had.
  unfoldable pub update_deployment_status : PlatformApplication → Exec F S PlatformApplication
  update_deployment_status app = do
    got ← attempt (
        call (
          c.get deployments (record {
            key_name = app.object_meta.name;
            key_namespace = app.object_meta.namespace;
          })))
    elim got [
      | failure e ↦ pure app
      | success dep ↦
          pure (with_status app (λ s. record s { ready_replicas = ready_replicas_of dep.body }))
    ]

  -- The two conditions that are set before the children are reconciled.
  unfoldable pub start : PlatformApplication → Exec F S PlatformApplication
  start app = do
    t ← reads c.now
    u ← reads c.now
    pure (
        with_status app (λ s.
          set_configuration_valid u "True" "Valid" "Configuration is valid"
            (set_progressing t "True" "Reconciling" "Reconciliation in progress" s)))
