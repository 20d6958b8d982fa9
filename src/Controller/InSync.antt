-- ===== src/Controller/InSync.antt =====
-- Reconciling children that are as they should be already.
pub mod Actions
use kubernetes_operators.Common.{
  ℕ, String, ◌≡◌, refl, ap, sym, ◌∙◌, inl, inr, ◌⊎◌, Bool, true, false, not, Bool-cases, Option,
  none, some, List, [], ◌∷◌, ◌++◌, arith, if◌then◌else◌,
}
use mathlib.Core.Path.{subst}
use kubernetes_operators.Common.Int.{pos, leb_ℤ}
use kubernetes_operators.Errors.{Error}
use kubernetes_operators.Api.Meta.{ObjectMeta}
use kubernetes_operators.Api.V1alpha1.{PlatformApplication}
use kubernetes_operators.Cluster.Objects.{Object, ObjectKey, ObjectRef, Resource, resource_of}
use kubernetes_operators.Cluster.Client.{Client, Result, success, failure}
use kubernetes_operators.Cluster.Exec.{
  Effect, World, Outcome, ok, Exec, pure, or_panic, call, attempt, emit, ◌>>=◌, bind-ok, attempt-ok,
}
use kubernetes_operators.Metrics.{observe_resource_apply, observe_noop_apply, observe_sub_reconcile}
use kubernetes_operators.Subreconcilers.Apply.{
  ApplyResult, unchanged, key_of, update_existing, apply_once, back_off, conclude, apply_from,
  apply, delete_if_exists,
}
use kubernetes_operators.Subreconcilers.Deployment.{build_desired_deployment}
use kubernetes_operators.Subreconcilers.Service.{build_desired_service}
use kubernetes_operators.Subreconcilers.Hpa.{build_desired_hpa}
use kubernetes_operators.Subreconcilers.Networking.{
  build_desired_http_route, build_desired_network_policy,
}
use kubernetes_operators.Subreconcilers.Pdb.{build_desired_pdb}
use kubernetes_operators.Subreconcilers.ServiceMonitor.{build_desired_service_monitor}
use kubernetes_operators.Subreconcilers.Reconcilers.{
  delete_child, delete_hpa_if_exists, delete_http_route_if_exists, delete_network_policy_if_exists,
  delete_pdb_if_exists, delete_service_monitor_if_exists, reconcile_deployment, reconcile_service,
  reconcile_hpa, reconcile_http_route, reconcile_network_policy, reconcile_pdb,
  reconcile_service_monitor,
}
use kubernetes_operators.Steps.Children.{
  run_sub_reconciler, run_all, sub_reconcilers, reconcile_resources,
}
use kubernetes_operators.Controller.InSync.Actions.{Quiet, Quiet-bind, Quiet-attempt, Quiet-emit}

module _ {F S : Type 0} (c : Client F S) (app : PlatformApplication) (P : S → Type 0) where
  -- In every such state the object, with its owner, is there and equal in meaning.
  pub record IsSynced (o : Object) : Type 0 where
    pub owned : Object
    pub is_owned : c.set_controller_reference app.object_meta o ≡ success owned
    pub existing : S → Object
    pub is_there :
        (s : S) → P s → (c.get (resource_of owned.body) (key_of owned) s).0 ≡ success (existing s)
    pub is_equal : (s : S) → P s → c.deep_equal (existing s) owned ≡ true
    pub read_keeps : (s : S) → P s → P (c.get (resource_of owned.body) (key_of owned) s).1

  -- In every such state the object is not there.
  pub record IsAbsent (o : Object) : Type 0 where
    pub error : S → Error F
    pub is_gone : (s : S) → P s → (c.delete (resource_of o.body) (key_of o) s).0 ≡ failure (error s)
    pub is_not_found : (s : S) → P s → c.errors.is_not_found (error s) ≡ true
    pub delete_keeps : (s : S) → P s → P (c.delete (resource_of o.body) (key_of o) s).1

  abbrev pub IsAsWanted : Bool → Object → Type 0
  IsAsWanted true o = IsSynced o
  IsAsWanted false o = IsAbsent o

  apply-Quiet : (o : Object) → IsSynced o → Quiet P (apply c app.object_meta o)
  unfolding apply apply_from back_off apply_once update_existing conclude observe_resource_apply
      observe_noop_apply ◌>>=◌ attempt call pure emit
  apply-Quiet o h = record {
    at = λ w p.
        let get = c.get (resource_of h.owned.body) (key_of h.owned) w.api in
        let seen : (apply c app.object_meta o w).1.api ≡ get.1 =
          ground (arith, h.is_owned, h.is_there w.api p, h.is_equal w.api p) in
        (
          unchanged,
          (apply c app.object_meta o w).1,
          ground (arith, h.is_owned, h.is_there w.api p, h.is_equal w.api p),
          rw seen (h.read_keeps w.api p),
        );
  }

  delete_child-Quiet :
      (o : Object) (kind : String)
      → IsAbsent o
      → Quiet P (
          delete_child c
            (record { ref_resource = resource_of o.body; ref_kind = kind; ref_key = key_of o }))
  unfolding delete_child delete_if_exists ◌>>=◌ attempt call pure
  delete_child-Quiet o kind h = record {
    at = λ w p. (
      unchanged,
      record w { api = (c.delete (resource_of o.body) (key_of o) w.api).1 },
      ground (arith, h.is_gone w.api p, h.is_not_found w.api p),
      h.delete_keeps w.api p,
    );
  }

  -- An optional child, by the test for not wanting it.
  optional-Quiet :
      (unwanted : Bool) (o : Object) (kind : String)
      → IsAsWanted (not unwanted) o
      → Quiet P (
          if unwanted
          then delete_child c
              (record { ref_resource = resource_of o.body; ref_kind = kind; ref_key = key_of o })
          else apply c app.object_meta o)
  optional-Quiet true o kind h = delete_child-Quiet o kind h
  optional-Quiet false o kind h = apply-Quiet o h

  wanted_twice :
      (wanted : Bool) (o : Object) → IsAsWanted wanted o → IsAsWanted (not (not wanted)) o
  wanted_twice true o h = h
  wanted_twice false o h = h

  run_sub_reconciler-Quiet :
      (name : String) (fn : Exec F S ApplyResult)
      → Quiet P fn
      → Quiet P (run_sub_reconciler c app name fn)
  unfolding run_sub_reconciler observe_sub_reconcile
  run_sub_reconciler-Quiet name fn h = Quiet-bind _ _ (Quiet-emit _) λ _. Quiet-attempt fn _ h λ r.
      Quiet-bind _ _ (Quiet-emit _)
        λ _. Quiet-bind _ _ (Quiet-emit _) λ _. Quiet-bind _ _ (Quiet-emit _) λ _. Quiet-emit _

  AllQuiet : List (String × Exec F S ApplyResult) → Type 0
  AllQuiet [] = Unit
  AllQuiet ((name, fn) ∷ rest) = Quiet P fn × AllQuiet rest

  run_all-Quiet :
      (l : List (String × Exec F S ApplyResult)) → AllQuiet l → Quiet P (run_all c app l)
  unfolding run_all AllQuiet pure
  run_all-Quiet [] h = record { at = λ w p. (tt, w, refl, p) }
  run_all-Quiet ((name, fn) ∷ rest) h =
      Quiet-bind _ _ (run_sub_reconciler-Quiet name fn h.0) λ _. run_all-Quiet rest h.1

  deployment-Quiet :
      (dep : Object)
      → build_desired_deployment c.quantity_ok app ≡ some dep
      → IsSynced dep
      → Quiet P (reconcile_deployment c app)
  unfolding reconcile_deployment or_panic
  deployment-Quiet dep b h = record {
    at = λ w p.
        let (a, v, e, q) = (apply-Quiet dep h).at w p in (a, v, bind-ok _ _ w w dep (rw b) ∙ e, q);
  }

  children-Quiet :
      (dep : Object)
      → build_desired_deployment c.quantity_ok app ≡ some dep
      → IsSynced dep
      → IsSynced (build_desired_service app)
      → IsAsWanted app.spec.autoscaling.enabled (build_desired_hpa app)
      → IsAsWanted app.spec.gateway.enabled (build_desired_http_route app)
      → IsAsWanted app.spec.security.network_policy (build_desired_network_policy app)
      → IsAsWanted (not (leb_ℤ app.spec.replicas.min (pos 1))) (build_desired_pdb app)
      → IsAsWanted app.spec.observability.metrics (build_desired_service_monitor app)
      → AllQuiet (sub_reconcilers c app)
  unfolding AllQuiet sub_reconcilers reconcile_service reconcile_hpa reconcile_http_route
      reconcile_network_policy reconcile_pdb reconcile_service_monitor delete_hpa_if_exists
      delete_http_route_if_exists delete_network_policy_if_exists delete_pdb_if_exists
      delete_service_monitor_if_exists build_desired_hpa build_desired_http_route
      build_desired_network_policy build_desired_pdb build_desired_service_monitor
  children-Quiet dep b d s h r n p m = (
    deployment-Quiet dep b d,
    (
      apply-Quiet _ s,
      (
        optional-Quiet (not app.spec.autoscaling.enabled) _ _
            (wanted_twice app.spec.autoscaling.enabled _ h),
        (
          optional-Quiet (not app.spec.gateway.enabled) _ _
              (wanted_twice app.spec.gateway.enabled _ r),
          (
            optional-Quiet (not app.spec.security.network_policy) _ _
                (wanted_twice app.spec.security.network_policy _ n),
            (
              optional-Quiet (leb_ℤ app.spec.replicas.min (pos 1)) _ _ p,
              (
                optional-Quiet (not app.spec.observability.metrics) _ _
                    (wanted_twice app.spec.observability.metrics _ m),
                tt,
              ),
            ),
          ),
        ),
      ),
    ),
  )

  -- Reconciling is idempotent. Let `P` hold of states of the cluster in which every child that the
  -- application asks for is there and equal in meaning, and every other one is not there, and let
  -- these reads and these deletions that find nothing keep `P`. From such a state the children
  -- are reconciled without an error into such a state, with no assumption on what creating or
  -- patching would do to it.
  pub reconcile_resources-in_sync :
      (dep : Object) (w : World S)
      → build_desired_deployment c.quantity_ok app ≡ some dep
      → IsSynced dep
      → IsSynced (build_desired_service app)
      → IsAsWanted app.spec.autoscaling.enabled (build_desired_hpa app)
      → IsAsWanted app.spec.gateway.enabled (build_desired_http_route app)
      → IsAsWanted app.spec.security.network_policy (build_desired_network_policy app)
      → IsAsWanted (not (leb_ℤ app.spec.replicas.min (pos 1))) (build_desired_pdb app)
      → IsAsWanted app.spec.observability.metrics (build_desired_service_monitor app)
      → P w.api
      → ((reconcile_resources c app w).0 ≡ ok tt) × P (reconcile_resources c app w).1.api
  unfolding reconcile_resources
  reconcile_resources-in_sync dep w b d s h r n p m k =
      let (a, v, e, q) = (run_all-Quiet _ (children-Quiet dep b d s h r n p m)).at w k in
      (ap (λ x. x.0) e, subst (λ x. P x.1.api) (sym e) q)
