-- ===== src/Controller/Lifecycle.antt =====
-- Whole calls of `Reconcile` on a cluster that answers every call.
pub mod Reported
use kubernetes_operators.Common.{
  ℕ, ◌≡◌, ◌⊎◌, refl, ap, sym, ◌∙◌, inl, inr, true, none, some, Bool-cases, [], ◌∷◌, ◌++◌, List,
  arith,
}
use mathlib.Core.Path.{subst}
use kubernetes_operators.Common.Int.{ltb_ℤ, leb_ℤ}
use kubernetes_operators.Api.V1alpha1.{PlatformApplication, PlatformApplicationStatus}
use kubernetes_operators.Metrics.{observe_reconcile}
use kubernetes_operators.Cluster.Objects.{Object, ObjectKey, deployments}
use kubernetes_operators.Cluster.Client.{Client, success, failure, Result-cases}
use kubernetes_operators.Cluster.Exec.{
  World, Outcome, ok, Exec, pure, call, reads, attempt, emit, ◌>>=◌, bind-ok, attempt-ok,
}
use kubernetes_operators.Subreconcilers.Deployment.{build_desired_deployment, pod_labels, container}
use kubernetes_operators.Subreconcilers.Service.{build_desired_service}
use kubernetes_operators.Subreconcilers.Hpa.{build_desired_hpa}
use kubernetes_operators.Subreconcilers.Networking.{
  build_desired_http_route, build_desired_network_policy,
}
use kubernetes_operators.Subreconcilers.Pdb.{build_desired_pdb}
use kubernetes_operators.Subreconcilers.ServiceMonitor.{build_desired_service_monitor}
use kubernetes_operators.Steps.{
  Return, finished, after, progress_check_delay, finalizer_name, with_status,
}
use kubernetes_operators.Steps.Reporting.{
  set_url, set_observed, conditions_at, conditions_result, set_conditions, update_deployment_status,
  start,
}
use kubernetes_operators.Steps.Children.{reconcile_resources}
use kubernetes_operators.Steps.Endings.{finish}
use kubernetes_operators.Steps.Finalizing.{is_zero}
use kubernetes_operators.Controller.{publish, report, reconcile_live, reconcile_fetched, reconcile}
use kubernetes_operators.Controller.Deletion.{at_fetch, reconcile-fetched}
use kubernetes_operators.Controller.Converges.Server.{Store, IsServer}
use kubernetes_operators.Controller.Converges.{reconcile_resources-converges}
use kubernetes_operators.Controller.Converges.Wants.{Want, about, wants, Fits, AllFit}
use kubernetes_operators.Controller.Lifecycle.Reported.{KeepsChildren, report-Ends}

module _ {F S : Type 0} (c : Client F S) (holds : S → Store)
    (Carries : Object → Object → Type 0) where
  AllFit-same :
      (s t : S) (ts : List Want)
      → holds t ≡ holds s
      → AllFit c holds Carries s ts
      → AllFit c holds Carries t ts
  AllFit-same s t [] e fits = tt
  AllFit-same s t (x ∷ ts) e fits = (
    subst (λ (h : Store). Fits c holds Carries x.wanted x.object (h (about x))) (sym e) fits.0,
    AllFit-same s t ts e fits.1,
  )

  -- The status makes no difference to the children.
  same_children :
      (app : PlatformApplication) (st : PlatformApplicationStatus) (dep : Object)
      → (build_desired_deployment c.quantity_ok (record app { status = st })
          ≡ build_desired_deployment c.quantity_ok app)
        × (wants (record app { status = st }) dep ≡ wants app dep)
  unfolding build_desired_deployment pod_labels container build_desired_service build_desired_hpa
      build_desired_http_route build_desired_network_policy build_desired_pdb
      build_desired_service_monitor
  same_children app st dep = (refl, refl)

  -- A return without an error, with every child as it should be.
  abbrev pub Converged : PlatformApplication → Object → Exec F S (Return F) → World S → Type 0
  Converged app dep m w =
      (r : Return F) × ((m w).0 ≡ ok r)
      × ((r ≡ finished) ⊎ (r ≡ after progress_check_delay))
      × AllFit c holds Carries (m w).1.api (wants app dep)

  reported-Converged :
      KeepsChildren c holds
      → (app : PlatformApplication) (st : PlatformApplicationStatus) (dep : Object) (v : World S)
      → AllFit c holds Carries v.api (wants (record app { status = st }) dep)
      → Converged app dep (report c (record app { status = st }) (success tt)) v
  reported-Converged law app st dep v fits =
      let (r, e, k, kept) = report-Ends c holds law (record app { status = st }) v in
      (
        r,
        e,
        k,
        AllFit-same v.api _ (wants app dep) kept (
            subst (λ (ts : List Want). AllFit c holds Carries v.api ts) (same_children app st dep).1
              fits),
      )

  children-Converged :
      IsServer c holds Carries
      → KeepsChildren c holds
      → (app : PlatformApplication) (st : PlatformApplicationStatus) (dep : Object) (w : World S)
      → build_desired_deployment c.quantity_ok app ≡ some dep
      → let app' : PlatformApplication = record app { status = st } in
        Converged app dep (attempt (reconcile_resources c app') >>= report c app') w
  children-Converged server law app st dep w b =
      let app' : PlatformApplication = record app { status = st } in
      let (v, e, fits) =
        reconcile_resources-converges c holds Carries app' dep w server
          ((same_children app st dep).0 ∙ b) in
      subst (λ (x : Outcome F (Return F) × World S). Converged app dep (λ u. x) w)
        (sym (attempt-ok (reconcile_resources c app') (report c app') w v tt e))
        (reported-Converged law app st dep v fits)

  reconcile_live-Converged :
      IsServer c holds Carries
      → KeepsChildren c holds
      → (app : PlatformApplication) (dep : Object) (w : World S)
      → build_desired_deployment c.quantity_ok app ≡ some dep
      → Converged app dep (reconcile_live c app) w
  unfolding reconcile_live start reads pure ◌>>=◌
  reconcile_live-Converged server law app dep w b =
      children-Converged server law app _ dep (record w { api = (c.now (c.now w.api).1).1 }) b

  fetched-Converged :
      IsServer c holds Carries
      → KeepsChildren c holds
      → (app : PlatformApplication) (dep : Object) (w : World S)
      → is_zero app.object_meta.deletion_timestamp ≡ true
      → c.contains_finalizer app.object_meta finalizer_name ≡ true
      → build_desired_deployment c.quantity_ok app ≡ some dep
      → Converged app dep (reconcile_fetched c app) w
  unfolding reconcile_fetched
  fetched-Converged server law app dep w d f b =
      rw d (rw f (reconcile_live-Converged server law app dep w b))

  -- Where no call fails and nobody else writes, and the Deployment can be built, one `Reconcile` that
  -- fetches an application with the finalizer that is not being deleted returns without an error, with
  -- at most a check of the progress asked for, from any state of the cluster. It leaves the
  -- Deployment, the Service and each optional child that the application asks for there, carrying
  -- what was built for them, and each optional child that it does not ask for not there.
  pub reconcile-Converged :
      IsServer c holds Carries
      → KeepsChildren c holds
      → (key : ObjectKey) (app : PlatformApplication) (dep : Object) (w : World S)
      → (c.get_app key w.api).0 ≡ success app
      → is_zero app.object_meta.deletion_timestamp ≡ true
      → c.contains_finalizer app.object_meta finalizer_name ≡ true
      → build_desired_deployment c.quantity_ok app ≡ some dep
      → Converged app dep (reconcile c key) w
  reconcile-Converged server law key app dep w g d f b =
      let (a, q) = reconcile-fetched c key app w g in
      let (r, e, k, fits) = fetched-Converged server law app dep (at_fetch c key w) d f b in
      (r, a ∙ e, k, AllFit-same _ _ (wants app dep) (ap holds q) fits)
