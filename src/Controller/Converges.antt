-- ===== src/Controller/Converges.antt =====
-- Reconciling the children on a cluster that answers every call, from any state of it.
pub mod Server
pub mod Wants
use kubernetes_operators.Common.{
  String, ◌≡◌, ◌≢◌, refl, ap, sym, ◌∙◌, Bool, true, false, not, some, Option, List, [], ◌∷◌, ◌++◌,
  arith, if◌then◌else◌, concat,
}
use mathlib.Core.Path.{subst}
use kubernetes_operators.Common.Int.{pos, leb_ℤ}
use kubernetes_operators.Api.V1alpha1.{PlatformApplication}
use kubernetes_operators.Cluster.Objects.{Object, ObjectKey, Resource, resource_of, deployments}
use kubernetes_operators.Cluster.Client.{Client, success}
use kubernetes_operators.Cluster.Exec.{
  World, ok, Exec, pure, or_panic, attempt, emit, span_start, ◌>>=◌, bind-ok,
}
use kubernetes_operators.Metrics.{observe_sub_reconcile}
use kubernetes_operators.Subreconcilers.Apply.{ApplyResult, key_of, apply}
use kubernetes_operators.Subreconcilers.Deployment.{build_desired_deployment}
use kubernetes_operators.Subreconcilers.Service.{build_desired_service}
use kubernetes_operators.Subreconcilers.Hpa.{build_desired_hpa}
use kubernetes_operators.Subreconcilers.Networking.{
  build_desired_http_route, build_desired_network_policy,
}
use kubernetes_operators.Subreconcilers.Pdb.{build_desired_pdb}
use kubernetes_operators.Subreconcilers.ServiceMonitor.{build_desired_service_monitor}
use kubernetes_operators.Subreconcilers.Reconcilers.{
  delete_child, delete_hpa_if_exists, delete_http_route_if_exists, delete_network_policy_if_exists,
  delete_pdb_if_exists, delete_service_monitor_if_exists, reconcile_deployment, reconcile_service,
  reconcile_hpa, reconcile_http_route, reconcile_network_policy, reconcile_pdb,
  reconcile_service_monitor,
}
use kubernetes_operators.Steps.Children.{
  run_sub_reconciler, run_all, sub_reconcilers, reconcile_resources,
}
use kubernetes_operators.Controller.Converges.Server.{
  Store, rank, Elsewhere, IsThere, IsGone, IsServer, Settled, Settles, Settled-from, apply-Settles,
  delete_child-Settles,
}
use kubernetes_operators.Controller.Converges.Wants.{
  Want, about, wants, Away, AreDistinct, Fits, AllFit, AllSettle,
}

module _ {F S : Type 0} (c : Client F S) (holds : S → Store)
    (Carries : Object → Object → Type 0) where
  module _ (app : PlatformApplication) where
    run_sub_reconciler-Settles :
        (name : String) (r : Resource) (G : (ObjectKey → Option Object) → Type 0)
        (fn : Exec F S ApplyResult)
        → Settles c holds Carries r G fn
        → Settles c holds Carries r G (run_sub_reconciler c app name fn)
    unfolding run_sub_reconciler observe_sub_reconcile ◌>>=◌ attempt emit
    run_sub_reconciler-Settles name r G fn h = record {
      at = λ w.
          let (a, v, e, g, rest) =
            h.at (emit {F = F} (span_start (concat ("subreconcile." ∷ name ∷ []))) w).1 in
          Settled-from c holds Carries r G (run_sub_reconciler c app name fn) w tt v.api
            (ground (arith, e)) (ground (arith, e)) g rest;
    }

    run_all-Fits :
        (ts : List Want) (l : List (String × Exec F S ApplyResult))
        → AllSettle c holds Carries ts l
        → AreDistinct ts
        → (w : World S)
        → (v : World S) × (run_all c app l w ≡ (ok tt, v))
          × AllFit c holds Carries v.api ts
          × ((q : Resource) → Away q ts → holds v.api q ≡ holds w.api q)
    unfolding run_all pure
    run_all-Fits [] [] h d w = (w, refl, tt, λ q a. refl)
    run_all-Fits [] (e ∷ l) h d w = absurd h
    run_all-Fits (t ∷ ts) [] h d w = absurd h
    run_all-Fits (t ∷ ts) ((name, fn) ∷ l) h d w =
        let (a, v, e, g, rest) =
          (run_sub_reconciler-Settles name (about t) (Fits c holds Carries t.wanted t.object) fn
              h.0).at
            w in
        let (u, e', fits, kept) = run_all-Fits ts l h.1 d.1 v in
        (
          u,
          bind-ok _ _ w v a e ∙ e',
          (
            subst (λ (x : ObjectKey → Option Object). Fits c holds Carries t.wanted t.object x)
                (sym (kept (about t) d.0)) g,
            fits,
          ),
          λ q away. kept q away.1 ∙ rest q away.0,
        )

    optional-Settles :
        IsServer c holds Carries
        → (unwanted : Bool) (o : Object) (kind : String)
        → Settles c holds Carries (resource_of o.body) (Fits c holds Carries (not unwanted) o) (
            if unwanted
            then delete_child c
                (record { ref_resource = resource_of o.body; ref_kind = kind; ref_key = key_of o })
            else apply c app.object_meta o)
    optional-Settles server true o kind = delete_child-Settles c holds Carries server _ kind _
    optional-Settles server false o kind = apply-Settles c holds Carries server app.object_meta o

    wanted_twice :
        {A : Type 0} (wanted : Bool) (o : Object) (m : Exec F S A)
        → Settles c holds Carries (resource_of o.body) (Fits c holds Carries (not (not wanted)) o) m
        → Settles c holds Carries (resource_of o.body) (Fits c holds Carries wanted o) m
    wanted_twice true o m h = h
    wanted_twice false o m h = h

    deployment-Settles :
        IsServer c holds Carries
        → (dep : Object) → build_desired_deployment c.quantity_ok app ≡ some dep
        → Settles c holds Carries
            (resource_of dep.body)
            (Fits c holds Carries true dep)
            (reconcile_deployment c app)
    unfolding reconcile_deployment or_panic
    deployment-Settles server dep b = record {
      at = λ w.
          let (a, v, e, g, rest) =
            (apply-Settles c holds Carries server app.object_meta dep).at w in
          (a, v, bind-ok _ _ w w dep (rw b) ∙ e, g, rest);
    }

    children-Settle :
        IsServer c holds Carries
        → (dep : Object) → build_desired_deployment c.quantity_ok app ≡ some dep
        → AllSettle c holds Carries (wants app dep) (sub_reconcilers c app)
    unfolding sub_reconcilers reconcile_service reconcile_hpa reconcile_http_route
        reconcile_network_policy reconcile_pdb reconcile_service_monitor delete_hpa_if_exists
        delete_http_route_if_exists delete_network_policy_if_exists delete_pdb_if_exists
        delete_service_monitor_if_exists build_desired_hpa build_desired_http_route
        build_desired_network_policy build_desired_pdb build_desired_service_monitor
    children-Settle server dep b = (
      deployment-Settles server dep b,
      (
        apply-Settles c holds Carries server app.object_meta (build_desired_service app),
        (
          wanted_twice app.spec.autoscaling.enabled _ _ (
              optional-Settles server (not app.spec.autoscaling.enabled) (build_desired_hpa app) _),
          (
            wanted_twice app.spec.gateway.enabled _ _ (
                optional-Settles server (not app.spec.gateway.enabled)
                  (build_desired_http_route app) _),
            (
              wanted_twice app.spec.security.network_policy _ _ (
                  optional-Settles server (not app.spec.security.network_policy)
                    (build_desired_network_policy app) _),
              (
                optional-Settles server (leb_ℤ app.spec.replicas.min (pos 1))
                    (build_desired_pdb app) _,
                (
                  wanted_twice app.spec.observability.metrics _ _ (
                      optional-Settles server (not app.spec.observability.metrics)
                        (build_desired_service_monitor app) _),
                  tt,
                ),
              ),
            ),
          ),
        ),
      ),
    )

    built-deployment :
        (dep : Object)
        → build_desired_deployment c.quantity_ok app ≡ some dep
        → resource_of dep.body ≡ deployments
    unfolding build_desired_deployment
    built-deployment dep b = ground arith

    wants-AreDistinct :
        (dep : Object) → resource_of dep.body ≡ deployments → AreDistinct (wants app dep)
    unfolding build_desired_service build_desired_hpa build_desired_http_route
        build_desired_network_policy build_desired_pdb build_desired_service_monitor
    wants-AreDistinct dep e = rw e (omega arith)

    -- Where no call fails and nobody else writes, and the Deployment can be built, reconciling the
    -- children from any state of the cluster ends without an error in a state in which the Deployment,
    -- the Service and each optional child that the application asks for are there and carry what was
    -- built for them, and each optional child that it does not ask for is not there.
    pub reconcile_resources-converges :
        (dep : Object) (w : World S)
        → IsServer c holds Carries
        → build_desired_deployment c.quantity_ok app ≡ some dep
        → (v : World S) × (reconcile_resources c app w ≡ (ok tt, v))
          × AllFit c holds Carries v.api (wants app dep)
    unfolding reconcile_resources
    reconcile_resources-converges dep w server b =
        let (v, e, fits, kept) =
          run_all-Fits (wants app dep) (sub_reconcilers c app) (children-Settle server dep b)
            (wants-AreDistinct dep (built-deployment dep b)) w in
        (v, e, fits)
