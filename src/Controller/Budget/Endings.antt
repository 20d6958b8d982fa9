-- ===== src/Controller/Budget/Endings.antt =====
-- What the ways to end `Reconcile` and a turn of its loop cost beside the calls that they are given
-- (internal/controller/platformapplication_controller.go).
use kubernetes_operators.Common.{ℕ, String, Option, none, some}
use kubernetes_operators.Errors.{
  Error, ReconcileErrorClass, ReconcileError, transient, permanent, conflict, as_reconcile_error,
}
use kubernetes_operators.Api.V1alpha1.{PlatformApplication}
use kubernetes_operators.Cluster.Client.{Client, Result, success, failure}
use kubernetes_operators.Cluster.Exec.{Exec, pure, emit, ◌>>◌}
use kubernetes_operators.Errors.{class_text}
use kubernetes_operators.Cluster.Exec.{requeue_total}
use kubernetes_operators.Metrics.{observe_reconcile, observe_sub_reconcile, observe_error}
use kubernetes_operators.Subreconcilers.Apply.{ApplyResult}
use kubernetes_operators.Steps.{Return, requeue_delay}
use kubernetes_operators.Steps.Children.{run_sub_reconciler}
use kubernetes_operators.Steps.Endings.{handle_class, handle_error_result, status_failed, finish}
use kubernetes_operators.Cluster.Costs.{Costs, Costs-attempt, Costs-after, Costs-before, free_rules}

module _ {F S : Type 0} (c : Client F S) (spent : S → ℕ) where
  handle_class-Costs :
      (app : PlatformApplication) (e : Error F) (r : ReconcileError F) (k : ReconcileErrorClass)
      → Costs spent 0 (handle_class c app e r k)
  unfolding handle_class observe_reconcile observe_error
  handle_class-Costs app e r conflict = search free_rules
  handle_class-Costs app e r permanent = search free_rules
  handle_class-Costs app e r transient = search free_rules
  handle_class-Costs app e r _ = search free_rules

  handle_error_result-Costs :
      (app : PlatformApplication) (e : Error F) → Costs spent 0 (handle_error_result c app e)
  unfolding handle_error_result observe_reconcile observe_error
  handle_error_result-Costs app e = by (as_reconcile_error e)
    where
      by :
          (o : Option (ReconcileError F))
          → Costs spent 0 (elim o as (λ _. Exec F S (Return F)) [
            | some r ↦ do
              observe_reconcile "error"
              observe_error r.kind (class_text r.class)
              handle_class c app e r r.class
            | none ↦ do
              observe_reconcile "error"
              observe_error "unknown" "unknown"
              emit (requeue_total "unknown")
              pure (record { requeue_after = requeue_delay; error = some e })
          ])
      by none = search free_rules
      by (some r) =
          Costs-after _ _ (search free_rules)
            λ _. Costs-after _ _ (search free_rules) λ _. handle_class-Costs app e r r.class

  pub finish-Costs :
      (app : PlatformApplication) (r : Result F Unit) (result : Return F)
      → Costs spent 0 (finish c app r result)
  unfolding finish observe_reconcile
  finish-Costs app (failure e) result =
      Costs-after _ _ (search free_rules) λ _. handle_error_result-Costs app e
  finish-Costs app (success x) result = search free_rules depth 7

  pub status_failed-Costs : (e : Error F) → Costs spent 0 (status_failed c e)
  unfolding status_failed
  status_failed-Costs e = search free_rules depth 7

  pub run_sub_reconciler-Costs :
      (n : ℕ) (app : PlatformApplication) (name : String) (fn : Exec F S ApplyResult)
      → Costs spent n fn
      → Costs spent n (run_sub_reconciler c app name fn)
  unfolding run_sub_reconciler observe_sub_reconcile observe_error
  run_sub_reconciler-Costs n app name fn h = Costs-after _ _ (search free_rules) λ _.
      Costs-before _ _ (Costs-attempt _ h)
        (elim [ success r ↦ search free_rules | failure e ↦ search free_rules depth 9 ])
