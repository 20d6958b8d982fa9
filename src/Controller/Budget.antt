-- ===== src/Controller/Budget.antt =====
-- How many calls one `Reconcile` makes and how long it waits
-- (internal/controller/platformapplication_controller.go).
pub mod Children
pub mod Endings
use kubernetes_operators.Common.{
  ◌≤◌, ◌*◌, ◌+◌, arith, not, ap, ℕ, zero, suc, ◌+◌, String, ◌≡◌, refl, Bool, true, false, Option,
  none, some, List, [], ◌∷◌, ◌++◌, arith, if◌then◌else◌, not,
}
use kubernetes_operators.Common.Int.{pos, leb_ℤ, ltb_ℤ}
use kubernetes_operators.Errors.{
  Error, ReconcileErrorClass, ReconcileError, transient, permanent, conflict, unknown, unset,
  as_reconcile_error,
}
use kubernetes_operators.Api.Meta.{ObjectMeta}
use kubernetes_operators.Api.V1alpha1.{PlatformApplication}
use kubernetes_operators.Cluster.Objects.{Object, ObjectKey, ObjectRef}
use kubernetes_operators.Cluster.Client.{Client, Result, success, failure}
use kubernetes_operators.Cluster.Exec.{
  Effect, active_inc, active_dec, World, Outcome, ok, err, Exec, pure, raise, or_panic, call, reads,
  attempt, emit, ◌>>=◌, ◌>>◌, deferring,
}
use kubernetes_operators.Errors.{wrapped, class_text}
use kubernetes_operators.Cluster.Exec.{requeue_total, span_start, span_end}
use kubernetes_operators.Metrics.{
  observe_reconcile, observe_sub_reconcile, observe_error, observe_resource_apply, observe_api_call,
  observe_noop_apply,
}
use kubernetes_operators.Subreconcilers.Apply.{ApplyResult}
use kubernetes_operators.Steps.{Return, finalizer_name, requeue_delay}
use kubernetes_operators.Steps.Children.{
  run_sub_reconciler, run_all, sub_reconcilers, reconcile_resources,
}
use kubernetes_operators.Steps.Reporting.{set_conditions, update_deployment_status, start}
use kubernetes_operators.Steps.Endings.{
  handle_class, handle_error_result, status_failed, finish, fetch_failed,
}
use kubernetes_operators.Steps.Finalizing.{is_zero, handle_deletion, add_finalizer_to}
use kubernetes_operators.Controller.{
  publish, report, reconcile_live, reconcile_fetched, reconcile_body, reconcile,
}
use kubernetes_operators.Cluster.Exec.{World}
use kubernetes_operators.Cluster.Costs.{
  Costs, Costs-pure, Costs-call, Costs-reads, Costs-attempt, Costs-if, Costs-at_most, Costs-bind,
  Costs-after, Costs-before, Costs-deferring, free_rules,
}
use kubernetes_operators.Controller.Budget.Children.{
  Charges, apply_cost, AllCost, sub_reconcilers-Costs,
}
use kubernetes_operators.Controller.Budget.Endings.{
  finish-Costs, status_failed-Costs, run_sub_reconciler-Costs,
}

module _ {F S : Type 0} (c : Client F S) (spent : S → ℕ) (k : ℕ) (price : ℕ → ℕ)
    (q : Charges c spent k price) where
  abbrev one : ℕ
  one = apply_cost c spent k price q

  abbrev run_cost : List (String × Exec F S ApplyResult) → ℕ
  run_cost [] = 0
  run_cost (x ∷ rest) = one + run_cost rest

  run_all-Costs :
      (app : PlatformApplication) (l : List (String × Exec F S ApplyResult))
      → AllCost c spent k price q l
      → Costs spent (run_cost l) (run_all c app l)
  unfolding run_all
  run_all-Costs app [] h = Costs-pure _
  run_all-Costs app ((name, fn) ∷ rest) h =
      Costs-bind _ _ _ _ (run_sub_reconciler-Costs c spent one app name fn h.0)
        λ _. run_all-Costs app rest h.1

  start-Costs : (app : PlatformApplication) → Costs spent 0 (start c app)
  unfolding start
  start-Costs app =
      Costs-after _ _ (Costs-reads _ q.now_costs)
        λ t. Costs-after _ _ (Costs-reads _ q.now_costs) λ u. Costs-pure _

  set_conditions-Costs :
      (app : PlatformApplication) (r : Result F Unit) → Costs spent 0 (set_conditions c app r)
  unfolding set_conditions
  set_conditions-Costs app r = Costs-after _ _ (Costs-reads _ q.now_costs) λ t.
      Costs-after _ _ (Costs-reads _ q.now_costs)
        λ u. Costs-after _ _ (Costs-reads _ q.now_costs) λ v. Costs-pure _

  update_deployment_status-Costs :
      (app : PlatformApplication) → Costs spent k (update_deployment_status c app)
  unfolding update_deployment_status
  update_deployment_status-Costs app =
      Costs-before _ _ (Costs-attempt _ (Costs-call _ (q.get_costs _ _)))
        (elim [ success u ↦ search free_rules | failure e ↦ search free_rules ])

  publish-Costs :
      (app : PlatformApplication) (r : Result F Unit) (result : Return F)
      → Costs spent k (publish c app r result)
  unfolding publish
  publish-Costs app r result =
      Costs-before _ _ (Costs-attempt _ (Costs-call _ (q.update_status_costs app))) (elim [
        | success u ↦ finish-Costs c spent app r result
        | failure e ↦ status_failed-Costs c spent e
      ])

  report-Costs :
      (app : PlatformApplication) (r : Result F Unit) → Costs spent (k + k) (report c app r)
  unfolding report
  report-Costs app r = Costs-bind _ _ _ _ (update_deployment_status-Costs _) λ counted.
      Costs-after _ _ (set_conditions-Costs counted r)
        λ (conditioned, result). publish-Costs _ r result

  -- What the children and the report cost.
  abbrev live_cost : ℕ
  live_cost = 7 * one + (k + k)

  reconcile_live-Costs : (app : PlatformApplication) → Costs spent live_cost (reconcile_live c app)
  unfolding reconcile_live reconcile_resources
  reconcile_live-Costs app = Costs-after _ _ (start-Costs app) λ started.
      Costs-bind _ _ _ _
        (Costs-attempt _ (
          Costs-at_most _ _
            (run_all-Costs started _ (sub_reconcilers-Costs c spent k price q started))
            (unfold sub_reconcilers in omega arith)))
        λ r. report-Costs started r

  handle_deletion-Costs : (app : PlatformApplication) → Costs spent k (handle_deletion c app)
  unfolding handle_deletion
  handle_deletion-Costs app =
      Costs-if (not (c.contains_finalizer app.object_meta finalizer_name)) _ _ (Costs-pure _) (
        Costs-before _ _ (Costs-attempt _ (Costs-call _ (q.update_app_costs _)))
          (elim [ success u ↦ search free_rules | failure e ↦ search free_rules ]))

  add_finalizer_to-Costs : (app : PlatformApplication) → Costs spent k (add_finalizer_to c app)
  unfolding add_finalizer_to
  add_finalizer_to-Costs app =
      Costs-before _ _ (Costs-attempt _ (Costs-call _ (q.update_app_costs _)))
        (elim [ success u ↦ search free_rules | failure e ↦ search free_rules ])

  reconcile_fetched-Costs :
      (app : PlatformApplication) → Costs spent live_cost (reconcile_fetched c app)
  unfolding reconcile_fetched
  reconcile_fetched-Costs app =
      Costs-if (not (is_zero app.object_meta.deletion_timestamp)) _ _
        (Costs-at_most k _ (handle_deletion-Costs app) (omega arith))
        (Costs-if (not (c.contains_finalizer app.object_meta finalizer_name)) _ _
          (Costs-at_most k _ (add_finalizer_to-Costs app) (omega arith)) (reconcile_live-Costs app))

  reconcile_body-Costs : (key : ObjectKey) → Costs spent (k + live_cost) (reconcile_body c key)
  unfolding reconcile_body fetch_failed observe_error
  reconcile_body-Costs key =
      Costs-bind _ _ _ _ (Costs-attempt _ (Costs-call _ (q.get_app_costs key)))
        (elim [ success app ↦ reconcile_fetched-Costs app | failure e ↦ search free_rules ])

  reconcile-Costs : (key : ObjectKey) → Costs spent (k + live_cost) (reconcile c key)
  unfolding reconcile
  reconcile-Costs key = Costs-after _ _ (search free_rules) λ _.
      Costs-deferring _ _ (search free_rules) (
        Costs-after _ _ (search free_rules)
          λ _. Costs-deferring _ _ (search free_rules) (reconcile_body-Costs key))

module _ {F S : Type 0} (c : Client F S) where
  -- Where `calls` counts the calls of the API server and `waited` the milliseconds that were waited,
  -- one `Reconcile`, however it ends, makes 59 calls at most and waits 4900 ms at most.
  pub reconcile_bounded :
      (calls waited : S → ℕ)
      → Charges c calls 1 (λ n. 0)
      → Charges c waited 0 (λ n. n)
      → (key : ObjectKey) (w : World S)
      → (calls (reconcile c key w).1.api ≤ calls w.api + 59)
        × (waited (reconcile c key w).1.api ≤ waited w.api + 4900)
  reconcile_bounded calls waited counts times key w = (
    (reconcile-Costs c calls 1 (λ n. 0) counts key).at w,
    (reconcile-Costs c waited 0 (λ n. n) times key).at w,
  )
