-- ===== src/Controller/Keeping.antt =====
-- What `Reconcile` keeps of the world, outside of its updates of the application itself.
pub mod Rules
pub mod Children
use kubernetes_operators.Common.{
  ℕ, zero, suc, ◌+◌, String, ◌≡◌, refl, Bool, true, false, Option, none, some, List, [], ◌∷◌, ◌++◌,
  arith, if◌then◌else◌, not,
}
use kubernetes_operators.Common.Int.{pos, leb_ℤ, ltb_ℤ}
use kubernetes_operators.Errors.{
  Error, ReconcileErrorClass, ReconcileError, transient, permanent, conflict, unknown, unset,
  as_reconcile_error,
}
use kubernetes_operators.Api.Meta.{ObjectMeta}
use kubernetes_operators.Api.V1alpha1.{PlatformApplication}
use kubernetes_operators.Cluster.Objects.{Object, ObjectKey, ObjectRef}
use kubernetes_operators.Cluster.Client.{Client, Result, success, failure}
use kubernetes_operators.Cluster.Exec.{
  Effect, active_inc, active_dec, World, Outcome, ok, err, Exec, pure, raise, or_panic, call, reads,
  attempt, emit, ◌>>=◌, ◌>>◌, deferring,
}
use kubernetes_operators.Cluster.Keeps.{
  Keeps, Keeps-pure, Keeps-raise, Keeps-or_panic, Keeps-call, Keeps-reads, Keeps-attempt, Keeps-if,
  Keeps-bind, Keeps-deferring, keeps_rules,
}
use kubernetes_operators.Errors.{wrapped, class_text}
use kubernetes_operators.Cluster.Exec.{requeue_total, span_start, span_end}
use kubernetes_operators.Metrics.{
  observe_reconcile, observe_sub_reconcile, observe_error, observe_resource_apply, observe_api_call,
  observe_noop_apply,
}
use kubernetes_operators.Subreconcilers.Apply.{
  ApplyResult, create_new, update_existing, apply_once, back_off, give_up, conclude, apply_from,
  max_apply_retries, apply, delete_if_exists,
}
use kubernetes_operators.Subreconcilers.Reconcilers.{
  delete_child, delete_hpa_if_exists, delete_http_route_if_exists, delete_network_policy_if_exists,
  delete_pdb_if_exists, delete_service_monitor_if_exists, reconcile_deployment, reconcile_service,
  reconcile_hpa, reconcile_http_route, reconcile_network_policy, reconcile_pdb,
  reconcile_service_monitor,
}
use kubernetes_operators.Steps.{Return, finalizer_name, requeue_delay}
use kubernetes_operators.Steps.Children.{
  run_sub_reconciler, run_all, sub_reconcilers, reconcile_resources,
}
use kubernetes_operators.Steps.Reporting.{set_conditions, update_deployment_status, start}
use kubernetes_operators.Steps.Endings.{
  handle_class, handle_error_result, status_failed, finish, fetch_failed,
}
use kubernetes_operators.Steps.Finalizing.{is_zero, handle_deletion, add_finalizer_to}
use kubernetes_operators.Controller.{
  publish, report, reconcile_live, reconcile_fetched, reconcile_body, reconcile,
}
use kubernetes_operators.Controller.Keeping.Rules.{Allows, AllKeep, Keeps-emit, allowed_rules}
use kubernetes_operators.Controller.Keeping.Children.{sub_reconcilers-Keeps}

module _ {F S : Type 0} {c : Client F S} {P : World S → Type 0} (q : Allows c P) where
  run_sub_reconciler-Keeps :
      (app : PlatformApplication) (name : String) (fn : Exec F S ApplyResult)
      → Keeps P fn
      → Keeps P (run_sub_reconciler c app name fn)
  unfolding run_sub_reconciler observe_sub_reconcile observe_error
  run_sub_reconciler-Keeps app name fn k = Keeps-bind _ _ (search allowed_rules) λ _.
      Keeps-bind _ _ (Keeps-attempt _ k)
        (elim [ success r ↦ search allowed_rules | failure e ↦ search allowed_rules depth 9 ])

  run_all-Keeps :
      (app : PlatformApplication) (l : List (String × Exec F S ApplyResult))
      → AllKeep P l
      → Keeps P (run_all c app l)
  unfolding run_all
  run_all-Keeps app [] h = Keeps-pure _
  run_all-Keeps app ((name, fn) ∷ rest) h =
      Keeps-bind _ _ (run_sub_reconciler-Keeps app name fn h.0) λ _. run_all-Keeps app rest h.1

  handle_class-Keeps :
      (app : PlatformApplication) (e : Error F) (r : ReconcileError F) (k : ReconcileErrorClass)
      → Keeps P (handle_class c app e r k)
  unfolding handle_class observe_reconcile observe_error
  handle_class-Keeps app e r conflict = search allowed_rules
  handle_class-Keeps app e r permanent = search allowed_rules
  handle_class-Keeps app e r transient = search allowed_rules
  handle_class-Keeps app e r _ = search allowed_rules

  handle_error_result-Keeps :
      (app : PlatformApplication) (e : Error F) → Keeps P (handle_error_result c app e)
  unfolding handle_error_result observe_reconcile observe_error
  handle_error_result-Keeps app e = by (as_reconcile_error e)
    where
      by :
          (o : Option (ReconcileError F))
          → Keeps P (elim o as (λ _. Exec F S (Return F)) [
            | some r ↦ do
              observe_reconcile "error"
              observe_error r.kind (class_text r.class)
              handle_class c app e r r.class
            | none ↦ do
              observe_reconcile "error"
              observe_error "unknown" "unknown"
              emit (requeue_total "unknown")
              pure (record { requeue_after = requeue_delay; error = some e })
          ])
      by none = search allowed_rules
      by (some r) =
          Keeps-bind _ _ (search allowed_rules)
            λ _. Keeps-bind _ _ (search allowed_rules) λ _. handle_class-Keeps app e r r.class

  finish-Keeps :
      (app : PlatformApplication) (r : Result F Unit) (result : Return F)
      → Keeps P (finish c app r result)
  unfolding finish observe_reconcile
  finish-Keeps app (failure e) result =
      Keeps-bind _ _ (search allowed_rules) λ _. handle_error_result-Keeps app e
  finish-Keeps app (success x) result = search allowed_rules depth 7

  update_deployment_status-Keeps :
      (app : PlatformApplication) → Keeps P (update_deployment_status c app)
  unfolding update_deployment_status
  update_deployment_status-Keeps app =
      Keeps-bind _ _ (search allowed_rules)
        (elim [ success u ↦ search allowed_rules | failure e ↦ search allowed_rules ])

  status_failed-Keeps : (e : Error F) → Keeps P (status_failed c e)
  unfolding status_failed
  status_failed-Keeps e = search allowed_rules depth 7

  pub reconcile_live-Keeps : (app : PlatformApplication) → Keeps P (reconcile_live c app)
  unfolding reconcile_live reconcile_resources start set_conditions report publish
  reconcile_live-Keeps app = Keeps-bind _ _ (search allowed_rules) λ started.
      Keeps-bind _ _ (Keeps-attempt _ (run_all-Keeps started _ (sub_reconcilers-Keeps q started)))
        λ r. Keeps-bind _ _ (update_deployment_status-Keeps _) λ counted.
          Keeps-bind _ _ (search allowed_rules depth 7) λ (conditioned, result).
            Keeps-bind _ _ (search allowed_rules)
              (elim [ success u ↦ finish-Keeps _ r result | failure e ↦ status_failed-Keeps e ])
