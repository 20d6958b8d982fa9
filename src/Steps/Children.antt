-- ===== src/Steps/Children.antt =====
-- `reconcileResources` (internal/controller/platformapplication_controller.go).
use kubernetes_operators.Common.{String, List, [], ◌∷◌, concat}
use kubernetes_operators.Errors.{wrapped, as_error, class_text, classify_or_wrap, error_text}
use kubernetes_operators.Api.V1alpha1.{PlatformApplication}
use kubernetes_operators.Cluster.Client.{Client, success, failure}
use kubernetes_operators.Cluster.Exec.{
  Exec, event, span_start, span_error, span_ok, span_end, pure, raise, attempt, emit, ◌>>=◌, ◌>>◌,
}
use kubernetes_operators.Metrics.{observe_sub_reconcile, observe_error}
use kubernetes_operators.Subreconcilers.Apply.{ApplyResult}
use kubernetes_operators.Subreconcilers.Reconcilers.{
  reconcile_deployment, reconcile_service, reconcile_hpa, reconcile_http_route,
  reconcile_network_policy, reconcile_pdb, reconcile_service_monitor,
}

module _ {F S : Type 0} (c : Client F S) where
  -- One turn of the loop of `reconcileResources`.
  unfoldable pub run_sub_reconciler :
      PlatformApplication → String → Exec F S ApplyResult → Exec F S Unit
  run_sub_reconciler app name fn = do
    emit (span_start (concat ("subreconcile." ∷ name ∷ [])))
    result ← attempt fn
    elim result [
      | failure e ↦
          let classified = classify_or_wrap c.errors e app.object_meta.name name in
          do
            emit (span_error (error_text c.errors e))
            emit span_end
            observe_sub_reconcile name "error"
            observe_error name (class_text classified.class)
            emit (
                event "Warning" "ReconcileFailed" (
                  concat (
                    "Failed to reconcile "
                    ∷ name
                    ∷ ": "
                    ∷ error_text c.errors (as_error classified)
                    ∷ [])))
            raise (wrapped (concat ("reconciling " ∷ name ∷ [])) (as_error classified))
      | success _ ↦ do emit span_ok; emit span_end; observe_sub_reconcile name "success"
    ]

  unfoldable pub run_all :
      PlatformApplication → List (String × Exec F S ApplyResult) → Exec F S Unit
  run_all app [] = pure tt
  run_all app ((name, fn) ∷ rest) =
      let others = run_all app rest in do run_sub_reconciler app name fn; others

  -- The table of `reconcileResources`.
  unfoldable pub sub_reconcilers : PlatformApplication → List (String × Exec F S ApplyResult)
  sub_reconcilers app =
      ("Deployment", reconcile_deployment c app)
      ∷ ("Service", reconcile_service c app)
      ∷ ("HPA", reconcile_hpa c app)
      ∷ ("HTTPRoute", reconcile_http_route c app)
      ∷ ("NetworkPolicy", reconcile_network_policy c app)
      ∷ ("PodDisruptionBudget", reconcile_pdb c app)
      ∷ ("ServiceMonitor", reconcile_service_monitor c app)
      ∷ []

  unfoldable pub reconcile_resources : PlatformApplication → Exec F S Unit
  reconcile_resources app = run_all app (sub_reconcilers app)
