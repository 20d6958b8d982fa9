-- ===== src/Controller/Keeping/Children.antt =====
-- What the sub-reconcilers keep.
use kubernetes_operators.Common.{ℕ, zero, suc, none, some, not}
use kubernetes_operators.Common.Int.{pos, leb_ℤ}
use kubernetes_operators.Errors.{Error}
use kubernetes_operators.Api.Meta.{ObjectMeta}
use kubernetes_operators.Api.V1alpha1.{PlatformApplication}
use kubernetes_operators.Cluster.Objects.{Object, ObjectRef}
use kubernetes_operators.Cluster.Client.{Client, Result, success, failure}
use kubernetes_operators.Cluster.Exec.{World, Exec, raise}
use kubernetes_operators.Cluster.Keeps.{
  Keeps, Keeps-pure, Keeps-raise, Keeps-or_panic, Keeps-attempt, Keeps-if, Keeps-bind,
}
use kubernetes_operators.Errors.{wrapped}
use kubernetes_operators.Metrics.{observe_resource_apply, observe_api_call, observe_noop_apply}
use kubernetes_operators.Subreconcilers.Apply.{
  ApplyResult, create_new, update_existing, apply_once, back_off, give_up, conclude, apply_from,
  max_apply_retries, apply, delete_if_exists,
}
use kubernetes_operators.Subreconcilers.Reconcilers.{
  delete_child, delete_hpa_if_exists, delete_http_route_if_exists, delete_network_policy_if_exists,
  delete_pdb_if_exists, delete_service_monitor_if_exists, reconcile_deployment, reconcile_service,
  reconcile_hpa, reconcile_http_route, reconcile_network_policy, reconcile_pdb,
  reconcile_service_monitor,
}
use kubernetes_operators.Steps.Children.{sub_reconcilers}
use kubernetes_operators.Controller.Keeping.Rules.{Allows, AllKeep, allowed_rules}

module _ {F S : Type 0} {c : Client F S} {P : World S → Type 0} (q : Allows c P) where
  create_new-Keeps : (desired : Object) → Keeps P (create_new c desired)
  unfolding create_new observe_api_call
  create_new-Keeps desired =
      Keeps-bind _ _ (search allowed_rules)
        (elim [ success u ↦ search allowed_rules | failure e ↦ search allowed_rules ])

  update_existing-Keeps : (desired existing : Object) → Keeps P (update_existing c desired existing)
  unfolding update_existing observe_api_call observe_noop_apply
  update_existing-Keeps desired existing =
      Keeps-if (c.deep_equal existing desired) _ _ (search allowed_rules) (
        Keeps-bind _ _ (search allowed_rules)
          (elim [ success u ↦ search allowed_rules | failure e ↦ search allowed_rules ]))

  apply_once-Keeps : (desired : Object) → Keeps P (apply_once c desired)
  unfolding apply_once
  apply_once-Keeps desired = Keeps-bind _ _ (search allowed_rules) (elim [
    | success existing ↦ update_existing-Keeps desired existing
    | failure e ↦ Keeps-if (c.errors.is_not_found e) _ _ (create_new-Keeps desired) (Keeps-raise _)
  ])

  back_off-Keeps : (n : ℕ) → Keeps P (back_off c n)
  unfolding back_off
  back_off-Keeps zero = search allowed_rules
  back_off-Keeps (suc n) =
      Keeps-bind _ _ (search allowed_rules)
        (elim [ none ↦ search allowed_rules | some e ↦ search allowed_rules ])

  give_up-Keeps : (desired : Object) (e : Error F) → Keeps P (give_up c desired e)
  unfolding give_up observe_resource_apply
  give_up-Keeps desired e = search allowed_rules

  conclude-Keeps :
      (desired : Object) (r : Result F ApplyResult) (f : Error F → Exec F S ApplyResult)
      → ((e : Error F) → Keeps P (f e))
      → Keeps P (conclude c desired r f)
  unfolding conclude observe_resource_apply
  conclude-Keeps desired (success r) f h = search allowed_rules
  conclude-Keeps desired (failure e) f h = h e

  apply_from-Keeps : (left n : ℕ) (desired : Object) → Keeps P (apply_from c left n desired)
  unfolding apply_from
  apply_from-Keeps zero n desired = Keeps-bind _ _ (back_off-Keeps n) λ _.
      Keeps-bind _ _ (Keeps-attempt _ (apply_once-Keeps desired))
        λ r. conclude-Keeps desired r _ (give_up-Keeps desired)
  apply_from-Keeps (suc left) n desired = Keeps-bind _ _ (back_off-Keeps n) λ _.
      Keeps-bind _ _ (Keeps-attempt _ (apply_once-Keeps desired)) λ r.
        conclude-Keeps desired r _ λ e.
          Keeps-if (c.errors.is_conflict e) _ _ (apply_from-Keeps left (suc n) desired)
            (give_up-Keeps desired e)

  pub apply-Keeps : (owner : ObjectMeta) (desired : Object) → Keeps P (apply c owner desired)
  unfolding apply
  apply-Keeps owner desired = owned (c.set_controller_reference owner desired)
    where
      owned :
          (r : Result F Object)
          → Keeps P (elim r as (λ _. Exec F S ApplyResult) [
            | failure e ↦ raise (wrapped "setting controller reference" e)
            | success owned ↦ apply_from c max_apply_retries 0 owned
          ])
      owned (success o) = apply_from-Keeps max_apply_retries 0 o
      owned (failure e) = Keeps-raise _

  pub delete_child-Keeps : (ref : ObjectRef) → Keeps P (delete_child c ref)
  unfolding delete_child delete_if_exists observe_resource_apply
  delete_child-Keeps ref =
      Keeps-bind _ _
        (Keeps-bind _ _ (search allowed_rules)
          (elim [ success u ↦ search allowed_rules | failure e ↦ search allowed_rules ]))
        λ _. Keeps-pure _

module _ {F S : Type 0} {c : Client F S} {P : World S → Type 0} (q : Allows c P) where
  pub sub_reconcilers-Keeps : (app : PlatformApplication) → AllKeep P (sub_reconcilers c app)
  unfolding sub_reconcilers reconcile_deployment reconcile_service reconcile_hpa
      reconcile_http_route reconcile_network_policy reconcile_pdb reconcile_service_monitor
      delete_hpa_if_exists delete_http_route_if_exists delete_network_policy_if_exists
      delete_pdb_if_exists delete_service_monitor_if_exists
  sub_reconcilers-Keeps app =
      let meta = app.object_meta in
      (
        Keeps-bind _ _ (Keeps-or_panic _) (λ desired. apply-Keeps q meta desired),
        (
          apply-Keeps q meta _,
          (
            Keeps-if (not app.spec.autoscaling.enabled) _ _ (delete_child-Keeps q _)
                (apply-Keeps q meta _),
            (
              Keeps-if (not app.spec.gateway.enabled) _ _ (delete_child-Keeps q _)
                  (apply-Keeps q meta _),
              (
                Keeps-if (not app.spec.security.network_policy) _ _ (delete_child-Keeps q _)
                    (apply-Keeps q meta _),
                (
                  Keeps-if (leb_ℤ app.spec.replicas.min (pos 1)) _ _ (delete_child-Keeps q _)
                      (apply-Keeps q meta _),
                  (
                    Keeps-if (not app.spec.observability.metrics) _ _ (delete_child-Keeps q _)
                        (apply-Keeps q meta _),
                    tt,
                  ),
                ),
              ),
            ),
          ),
        ),
      )
