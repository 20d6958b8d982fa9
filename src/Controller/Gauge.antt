-- ===== src/Controller/Gauge.antt =====
-- The gauge of active reconcile workers.
pub mod Counts
use kubernetes_operators.Common.{
  ℕ, zero, suc, ◌+◌, String, ◌≡◌, refl, Bool, true, false, Option, none, some, List, [], ◌∷◌, ◌++◌,
  arith, if◌then◌else◌, not,
}
use kubernetes_operators.Common.Int.{pos, leb_ℤ, ltb_ℤ}
use kubernetes_operators.Errors.{
  Error, ReconcileErrorClass, ReconcileError, transient, permanent, conflict, unknown, unset,
  as_reconcile_error,
}
use kubernetes_operators.Api.Meta.{ObjectMeta}
use kubernetes_operators.Api.V1alpha1.{PlatformApplication}
use kubernetes_operators.Cluster.Objects.{Object, ObjectKey, ObjectRef}
use kubernetes_operators.Cluster.Client.{Client, Result, success, failure}
use kubernetes_operators.Cluster.Exec.{
  Effect, active_inc, active_dec, World, Outcome, ok, err, Exec, pure, raise, or_panic, call, reads,
  attempt, emit, ◌>>=◌, ◌>>◌, deferring,
}
use kubernetes_operators.Cluster.Keeps.{
  Keeps, Keeps-pure, Keeps-raise, Keeps-or_panic, Keeps-call, Keeps-reads, Keeps-attempt, Keeps-if,
  Keeps-bind, Keeps-deferring, keeps_rules,
}
use kubernetes_operators.Errors.{wrapped, class_text}
use kubernetes_operators.Cluster.Exec.{requeue_total, span_start, span_end}
use kubernetes_operators.Metrics.{
  observe_reconcile, observe_sub_reconcile, observe_error, observe_resource_apply, observe_api_call,
  observe_noop_apply,
}
use kubernetes_operators.Subreconcilers.Apply.{
  ApplyResult, create_new, update_existing, apply_once, back_off, give_up, conclude, apply_from,
  max_apply_retries, apply, delete_if_exists,
}
use kubernetes_operators.Subreconcilers.Reconcilers.{
  delete_child, delete_hpa_if_exists, delete_http_route_if_exists, delete_network_policy_if_exists,
  delete_pdb_if_exists, delete_service_monitor_if_exists, reconcile_deployment, reconcile_service,
  reconcile_hpa, reconcile_http_route, reconcile_network_policy, reconcile_pdb,
  reconcile_service_monitor,
}
use kubernetes_operators.Steps.{Return, finalizer_name, requeue_delay}
use kubernetes_operators.Steps.Children.{
  run_sub_reconciler, run_all, sub_reconcilers, reconcile_resources,
}
use kubernetes_operators.Steps.Reporting.{set_conditions, update_deployment_status, start}
use kubernetes_operators.Steps.Endings.{
  handle_class, handle_error_result, status_failed, finish, fetch_failed,
}
use kubernetes_operators.Steps.Finalizing.{is_zero, handle_deletion, add_finalizer_to}
use kubernetes_operators.Controller.{
  publish, report, reconcile_live, reconcile_fetched, reconcile_body, reconcile,
}
use kubernetes_operators.Controller.Keeping.{reconcile_live-Keeps}
use kubernetes_operators.Controller.Gauge.Counts.{
  incs, decs, Gauge, Moved, incs-append, decs-append, Gauge-emit, Gauge-call, Gauge-Allows,
  gauge_rules,
}

module _ {F S : Type 0} (c : Client F S) {i d : ℕ} where
  handle_deletion-Gauge : (app : PlatformApplication) → Keeps (Moved i d) (handle_deletion c app)
  unfolding handle_deletion
  handle_deletion-Gauge app =
      Keeps-if (not (c.contains_finalizer app.object_meta finalizer_name)) _ _ (Keeps-pure _) (
        Keeps-bind _ _ (search gauge_rules)
          (elim [ success u ↦ search gauge_rules | failure e ↦ search gauge_rules ]))

  add_finalizer_to-Gauge : (app : PlatformApplication) → Keeps (Moved i d) (add_finalizer_to c app)
  unfolding add_finalizer_to
  add_finalizer_to-Gauge app =
      Keeps-bind _ _ (search gauge_rules)
        (elim [ success u ↦ search gauge_rules | failure e ↦ search gauge_rules ])

  reconcile_fetched-Gauge :
      (app : PlatformApplication) → Keeps (Moved i d) (reconcile_fetched c app)
  unfolding reconcile_fetched
  reconcile_fetched-Gauge app =
      Keeps-if (not (is_zero app.object_meta.deletion_timestamp)) _ _ (handle_deletion-Gauge app) (
        Keeps-if (not (c.contains_finalizer app.object_meta finalizer_name)) _ _
          (add_finalizer_to-Gauge app) (reconcile_live-Keeps (Gauge-Allows c) app))

  reconcile_body-Gauge : (key : ObjectKey) → Keeps (Moved i d) (reconcile_body c key)
  unfolding reconcile_body fetch_failed observe_error
  reconcile_body-Gauge key =
      Keeps-bind _ _ (search gauge_rules)
        (elim [ success app ↦ reconcile_fetched-Gauge app | failure e ↦ search gauge_rules ])

-- The log after the first deferred call is set up.
up : (l : List Effect) → Gauge (suc (incs l)) (decs l) (l ++ active_inc ∷ [])
unfolding incs decs
up l =
    (omega (arith, incs-append l (active_inc ∷ [])), omega (arith, decs-append l (active_inc ∷ [])))

module _ {F S : Type 0} (c : Client F S) where
  -- What runs between the two moves of the gauge.
  traced_body : ObjectKey → Exec F S (Return F)
  traced_body key = do
    emit (span_start "reconcile.PlatformApplication")
    deferring (emit span_end) (reconcile_body c key)

  worked : (key : ObjectKey) (i d : ℕ) → Keeps (Moved i d) (traced_body key)
  unfolding traced_body
  worked key i d =
      Keeps-bind _ _ (search gauge_rules)
        λ _. Keeps-deferring _ _ (search gauge_rules) (reconcile_body-Gauge c key)

  -- However a call of `Reconcile` ends, with a result, an error or a panic in a builder: it has
  -- raised the gauge of active workers once and lowered it once.
  pub reconcile-Gauge :
      (key : ObjectKey) (w : World S)
      → Gauge (suc (incs w.log)) (suc (decs w.log)) (reconcile c key w).1.log
  unfolding reconcile traced_body ◌>>=◌ deferring emit incs decs
  reconcile-Gauge key w =
      let inside : Gauge (suc (incs w.log)) (decs w.log) (traced.1).log =
        (worked key (suc (incs w.log)) (decs w.log)).at began (up w.log) in
      (
        omega (arith, incs-append (traced.1).log (active_dec ∷ []), inside.0),
        omega (arith, decs-append (traced.1).log (active_dec ∷ []), inside.1),
      )
    where
      began : World S
      began = record w { log = w.log ++ active_inc ∷ [] }

      traced : Outcome F (Return F) × World S
      traced = traced_body key began
