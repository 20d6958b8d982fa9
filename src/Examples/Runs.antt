-- ===== src/Examples/Runs.antt =====
-- Runs of `Reconcile` on the clients of the fixtures.
use kubernetes_operators.Common.{ℕ, suc, ◌≡◌, refl, true, not, ◌&&◌, some, if◌then◌else◌}
use kubernetes_operators.Common.Int.{pos, leb_ℤ}
use kubernetes_operators.Errors.{Error, foreign, as_reconcile_error, ReconcileError}
use kubernetes_operators.Errors.Classes.{IsActionable}
use kubernetes_operators.Api.V1alpha1.{
  PlatformApplication, condition_ready, condition_progressing, condition_degraded,
}
use kubernetes_operators.Cluster.Client.{Client, success}
use kubernetes_operators.Cluster.Exec.{
  World, Outcome, ok, err, raise, attempt, emit, or_panic, ◌>>=◌,
}
use kubernetes_operators.Metrics.{observe_sub_reconcile, observe_error}
use kubernetes_operators.Subreconcilers.Apply.{apply}
use kubernetes_operators.Subreconcilers.Apply.Outcomes.{IsPlain}
use kubernetes_operators.Subreconcilers.Deployment.{
  put_quantity, resource_list, resource_requirements, build_desired_deployment,
}
use kubernetes_operators.Subreconcilers.Hpa.{build_desired_hpa}
use kubernetes_operators.Subreconcilers.Networking.{
  build_desired_http_route, build_desired_network_policy,
}
use kubernetes_operators.Subreconcilers.Pdb.{build_desired_pdb}
use kubernetes_operators.Subreconcilers.ServiceMonitor.{build_desired_service_monitor}
use kubernetes_operators.Subreconcilers.Reconcilers.{
  reconcile_deployment, reconcile_hpa, reconcile_http_route, reconcile_network_policy,
  reconcile_pdb, reconcile_service_monitor,
}
use kubernetes_operators.Subreconcilers.Reconcilers.Wanted.{follows, deletes_what_it_applies}
use kubernetes_operators.Steps.{progress_check_delay, finished, after}
use kubernetes_operators.Steps.Reporting.{conditions_at, conditions_result}
use kubernetes_operators.Steps.Children.{
  reconcile_resources, run_all, sub_reconcilers, run_sub_reconciler,
}
use kubernetes_operators.Steps.Endings.{handle_error_result}
use kubernetes_operators.Controller.{reconcile}
use kubernetes_operators.Controller.Gauge.Counts.{incs, decs, Gauge}
use kubernetes_operators.Controller.Gauge.{reconcile-Gauge}
use kubernetes_operators.Status.Conditions.{find}
use kubernetes_operators.Api.Meta.{Condition}
use kubernetes_operators.Controller.Phase.{reported, bool_text, has_replicas, conditions_by_outcome}
use kubernetes_operators.Controller.Phase.Restamped.{started_status, progressing_always_restamped}
use kubernetes_operators.Controller.Errors.{decided, child_errors_are_decided}
use kubernetes_operators.Controller.Requeue.{IsSettled, reconcile_live-IsSettled}
use kubernetes_operators.Examples.Steady.{shop_finishes}
use kubernetes_operators.Examples.Fixtures.{
  shop_key, shop, no_status, Fault, clash, steady, orphaning, start_world,
}

deletes_what_it_applies_example :
    ((reconcile_hpa steady shop start_world).1.api
      ≡ follows steady shop shop.spec.autoscaling.enabled (build_desired_hpa shop) start_world)
    × ((reconcile_http_route steady shop start_world).1.api
        ≡ follows steady shop shop.spec.gateway.enabled (build_desired_http_route shop) start_world)
    × ((reconcile_network_policy steady shop start_world).1.api
        ≡ follows steady shop shop.spec.security.network_policy
            (build_desired_network_policy shop)
            start_world)
    × ((reconcile_pdb steady shop start_world).1.api
        ≡ follows steady shop
            (not (leb_ℤ shop.spec.replicas.min (pos 1)))
            (build_desired_pdb shop)
            start_world)
    × ((reconcile_service_monitor steady shop start_world).1.api
        ≡ follows steady shop shop.spec.observability.metrics
            (build_desired_service_monitor shop)
            start_world)
deletes_what_it_applies_example = deletes_what_it_applies steady shop start_world

reconcile-Gauge_example :
    Gauge
      (suc (incs start_world.log))
      (suc (decs start_world.log))
      (reconcile steady shop_key start_world).1.log
reconcile-Gauge_example = reconcile-Gauge steady shop_key start_world

-- The steady client with another application to fetch.
abbrev fetching : PlatformApplication → Client Fault ℕ
fetching app = record steady { get_app = λ k s. (success app, s) }

abbrev counted_shop : PlatformApplication
counted_shop = record shop { status = record no_status { ready_replicas = pos 1 } }

conditions_by_outcome_example :
    let s = conditions_at steady 1 2 3 counted_shop (success tt) in
    (reported condition_ready s ≡ some (bool_text (true && has_replicas counted_shop)))
    × (reported condition_progressing s
        ≡ some (bool_text (true && not (has_replicas counted_shop))))
    × (reported condition_degraded s ≡ some (bool_text (not true)))
    × (conditions_result steady counted_shop (success tt) ≡ (
        if true && not (has_replicas counted_shop) then after progress_check_delay else finished))
conditions_by_outcome_example = conditions_by_outcome steady 1 2 3 counted_shop (success tt)

abbrev started_shop : PlatformApplication
started_shop = record shop { status = started_status 1 2 no_status }

progressing_always_restamped_example :
    (d : Condition) × (find condition_progressing
        (conditions_at steady 3 4 5 started_shop (success tt)).conditions
      ≡ some d)
    × (d.last_transition_time ≡ 3)
progressing_always_restamped_example =
    progressing_always_restamped steady 1 2 3 4 5 started_shop no_status (success tt) refl

orphaning_plain : IsPlain orphaning
orphaning_plain = record {
  get_plain = λ r k s. tt;
  create_plain = λ o s. tt;
  patch_plain = λ o s. tt;
  delete_plain = λ r k s. tt;
  owner_plain = λ m o. tt;
  wait_plain = λ n s e h. cc;
}

-- The error of a list of children.
abbrev error_of : Outcome Fault Unit → Error Fault
error_of (err e) = e
error_of _ = foreign clash

abbrev orphan_error : Error Fault
orphan_error = error_of (reconcile_resources orphaning shop start_world).0

orphaned : (reconcile_resources orphaning shop start_world).0 ≡ err orphan_error
unfolding reconcile_resources run_all sub_reconcilers run_sub_reconciler reconcile_deployment
    build_desired_deployment resource_requirements resource_list put_quantity or_panic apply
    observe_sub_reconcile observe_error ◌>>=◌ attempt raise emit
orphaned = refl

child_errors_are_decided_example :
    (r : ReconcileError Fault) × (as_reconcile_error orphan_error ≡ some r)
    × IsActionable r.class
    × ((handle_error_result orphaning shop orphan_error start_world).0
        ≡ ok (decided orphaning_plain orphan_error r.class))
child_errors_are_decided_example =
    child_errors_are_decided orphaning_plain shop start_world start_world orphan_error orphaned

reconcile_live-IsSettled_example :
    (started published : PlatformApplication) × (v : World ℕ) × (s : ℕ) × (started.spec ≡ shop.spec)
    × ((reconcile_resources steady started v).0 ≡ ok tt)
    × IsSettled steady shop published
    × ((steady.update_status published s).0 ≡ success tt)
reconcile_live-IsSettled_example = reconcile_live-IsSettled steady shop start_world shop_finishes
