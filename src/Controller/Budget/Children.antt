-- ===== src/Controller/Budget/Children.antt =====
-- What the sub-reconcilers cost (internal/controller/subreconcilers).
use kubernetes_operators.Common.{
  ℕ, zero, suc, ◌+◌, ◌*◌, ◌^◌, ◌≤◌, Bool, String, none, some, not, List, [], ◌∷◌, arith,
  if◌then◌else◌,
}
use kubernetes_operators.Common.Int.{pos, leb_ℤ}
use kubernetes_operators.Errors.{Error, wrapped}
use kubernetes_operators.Api.Meta.{ObjectMeta}
use kubernetes_operators.Api.V1alpha1.{PlatformApplication}
use kubernetes_operators.Cluster.Objects.{Object, ObjectKey, ObjectRef, Resource}
use kubernetes_operators.Cluster.Client.{Client, Result, success, failure}
use kubernetes_operators.Cluster.Exec.{Exec, raise}
use kubernetes_operators.Cluster.Costs.{
  Costs, Costs-pure, Costs-raise, Costs-or_panic, Costs-call, Costs-reads, Costs-attempt, Costs-if,
  Costs-at_most, Costs-bind, Costs-after, Costs-before, free_rules,
}
use kubernetes_operators.Metrics.{observe_resource_apply, observe_api_call, observe_noop_apply}
use kubernetes_operators.Subreconcilers.Apply.{
  ApplyResult, create_new, update_existing, apply_once, back_off, give_up, conclude, apply_from,
  max_apply_retries, retry_base_delay, apply, delete_if_exists,
}
use kubernetes_operators.Subreconcilers.Reconcilers.{
  delete_child, delete_hpa_if_exists, delete_http_route_if_exists, delete_network_policy_if_exists,
  delete_pdb_if_exists, delete_service_monitor_if_exists, reconcile_deployment, reconcile_service,
  reconcile_hpa, reconcile_http_route, reconcile_network_policy, reconcile_pdb,
  reconcile_service_monitor,
}
use kubernetes_operators.Steps.Children.{sub_reconcilers}

module _ {F S : Type 0} (c : Client F S) (spent : S → ℕ) (k : ℕ) (price : ℕ → ℕ) where
  -- Every call of the API server costs `k` at most, and to wait `n` milliseconds `price n`.
  pub record Charges : Type 0 where
    pub get_costs : (r : Resource) (key : ObjectKey) (s : S) → spent (c.get r key s).1 ≤ spent s + k
    pub create_costs : (o : Object) (s : S) → spent (c.create o s).1 ≤ spent s + k
    pub patch_costs : (o : Object) (s : S) → spent (c.patch o s).1 ≤ spent s + k
    pub delete_costs :
        (r : Resource) (key : ObjectKey) (s : S) → spent (c.delete r key s).1 ≤ spent s + k
    pub get_app_costs : (key : ObjectKey) (s : S) → spent (c.get_app key s).1 ≤ spent s + k
    pub update_app_costs :
        (a : PlatformApplication) (s : S) → spent (c.update_app a s).1 ≤ spent s + k
    pub update_status_costs :
        (a : PlatformApplication) (s : S) → spent (c.update_status a s).1 ≤ spent s + k
    pub now_costs : (s : S) → spent (c.now s).1 ≤ spent s + 0
    pub wait_costs : (n : ℕ) (s : S) → spent (c.wait n s).1 ≤ spent s + price n

  -- What the wait before a round costs.
  abbrev delay_cost : ℕ → ℕ
  delay_cost zero = 0
  delay_cost (suc n) = price (retry_base_delay * 2 ^ n)

  -- What the rounds from the round `n` cost.
  abbrev rounds_cost : ℕ → ℕ → ℕ
  rounds_cost zero n = delay_cost n + (k + k)
  rounds_cost (suc left) n = delay_cost n + ((k + k) + rounds_cost left (suc n))

  module _ (q : Charges) where
    create_new-Costs : (desired : Object) → Costs spent k (create_new c desired)
    unfolding create_new observe_api_call
    create_new-Costs desired =
        Costs-before _ _ (Costs-attempt _ (Costs-call _ (q.create_costs desired)))
          (elim [ success u ↦ search free_rules | failure e ↦ search free_rules ])

    update_existing-Costs :
        (desired existing : Object) → Costs spent k (update_existing c desired existing)
    unfolding update_existing observe_api_call observe_noop_apply
    update_existing-Costs desired existing =
        Costs-if (c.deep_equal existing desired) _ _ (search free_rules) (
          Costs-before _ _ (Costs-attempt _ (Costs-call _ (q.patch_costs desired)))
            (elim [ success u ↦ search free_rules | failure e ↦ search free_rules ]))

    apply_once-Costs : (desired : Object) → Costs spent (k + k) (apply_once c desired)
    unfolding apply_once
    apply_once-Costs desired =
        Costs-bind k k _ _ (Costs-attempt _ (Costs-call _ (q.get_costs _ _))) (elim [
          | success existing ↦ update_existing-Costs desired existing
          | failure e ↦
              Costs-if (c.errors.is_not_found e) _ _ (create_new-Costs desired) (Costs-raise _)
        ])

    back_off-Costs : (n : ℕ) → Costs spent (delay_cost n) (back_off c n)
    unfolding back_off
    back_off-Costs zero = search free_rules
    back_off-Costs (suc n) =
        Costs-before _ _ (Costs-reads _ (q.wait_costs (retry_base_delay * 2 ^ n)))
          (elim [ none ↦ search free_rules | some e ↦ search free_rules ])

    give_up-Costs : (desired : Object) (e : Error F) → Costs spent 0 (give_up c desired e)
    unfolding give_up observe_resource_apply
    give_up-Costs desired e = search free_rules

    conclude-Costs :
        (n : ℕ) (desired : Object) (r : Result F ApplyResult) (f : Error F → Exec F S ApplyResult)
        → ((e : Error F) → Costs spent n (f e))
        → Costs spent n (conclude c desired r f)
    unfolding conclude observe_resource_apply
    conclude-Costs n desired (success r) f h = search free_rules
    conclude-Costs n desired (failure e) f h = h e

    apply_from-Costs :
        (left n : ℕ) (desired : Object)
        → Costs spent (rounds_cost left n) (apply_from c left n desired)
    unfolding apply_from
    apply_from-Costs zero n desired = Costs-bind _ _ _ _ (back_off-Costs n) λ _.
        Costs-before _ _ (Costs-attempt _ (apply_once-Costs desired))
          λ r. conclude-Costs 0 desired r _ (give_up-Costs desired)
    apply_from-Costs (suc left) n desired = Costs-bind _ _ _ _ (back_off-Costs n) λ _.
        Costs-bind _ _ _ _ (Costs-attempt _ (apply_once-Costs desired)) λ r.
          conclude-Costs (rounds_cost left (suc n)) desired r _ λ e.
            Costs-if (c.errors.is_conflict e) _ _ (apply_from-Costs left (suc n) desired)
              (Costs-at_most 0 _ (give_up-Costs desired e) (omega arith))

    -- What one `Apply` costs.
    abbrev pub apply_cost : ℕ
    apply_cost = rounds_cost max_apply_retries 0

    pub apply-Costs :
        (owner : ObjectMeta) (desired : Object) → Costs spent apply_cost (apply c owner desired)
    unfolding apply
    apply-Costs owner desired = owned (c.set_controller_reference owner desired)
      where
        owned :
            (r : Result F Object)
            → Costs spent apply_cost (elim r as (λ _. Exec F S ApplyResult) [
              | failure e ↦ raise (wrapped "setting controller reference" e)
              | success owned ↦ apply_from c max_apply_retries 0 owned
            ])
        owned (success o) = apply_from-Costs max_apply_retries 0 o
        owned (failure e) = Costs-raise _

    delete_child-Costs : (ref : ObjectRef) → Costs spent apply_cost (delete_child c ref)
    unfolding delete_child delete_if_exists observe_resource_apply
    delete_child-Costs ref =
        Costs-at_most k _
          (Costs-before _ _
            (Costs-before _ _ (Costs-attempt _ (Costs-call _ (q.delete_costs _ _)))
              (elim [ success u ↦ search free_rules | failure e ↦ search free_rules ]))
            λ _. Costs-pure _)
          (omega arith)

    -- Every entry of the table of sub-reconcilers costs one `Apply` at most.
    abbrev pub AllCost : List (String × Exec F S ApplyResult) → Type 0
    AllCost [] = Unit
    AllCost ((name, fn) ∷ rest) = Costs spent apply_cost fn × AllCost rest

    optional-Costs :
        (unwanted : Bool) (app : PlatformApplication) (ref : ObjectRef) (o : Object)
        → Costs spent apply_cost
            (if unwanted then delete_child c ref else apply c app.object_meta o)
    optional-Costs unwanted app ref o =
        Costs-if unwanted _ _ (delete_child-Costs ref) (apply-Costs app.object_meta o)

    pub sub_reconcilers-Costs : (app : PlatformApplication) → AllCost (sub_reconcilers c app)
    unfolding sub_reconcilers reconcile_deployment reconcile_service reconcile_hpa
        reconcile_http_route reconcile_network_policy reconcile_pdb reconcile_service_monitor
        delete_hpa_if_exists delete_http_route_if_exists delete_network_policy_if_exists
        delete_pdb_if_exists delete_service_monitor_if_exists
    sub_reconcilers-Costs app =
        let optional =
          λ (unwanted : Bool) (ref : ObjectRef) (o : Object). optional-Costs unwanted app ref o in
        (
          Costs-after _ _ (Costs-or_panic _) (λ desired. apply-Costs app.object_meta desired),
          (
            apply-Costs app.object_meta _,
            (
              optional (not app.spec.autoscaling.enabled) _ _,
              (
                optional (not app.spec.gateway.enabled) _ _,
                (
                  optional (not app.spec.security.network_policy) _ _,
                  (
                    optional (leb_ℤ app.spec.replicas.min (pos 1)) _ _,
                    (optional (not app.spec.observability.metrics) _ _, tt),
                  ),
                ),
              ),
            ),
          ),
        )
