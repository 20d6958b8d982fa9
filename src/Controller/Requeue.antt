-- ===== src/Controller/Requeue.antt =====
-- When `Reconcile` asks for nothing further: no error and no later check.
mod Published
use kubernetes_operators.Common.{
  ℕ, String, ◌≡◌, refl, sym, ap, ◌∙◌, inl, inr, true, not, Bool-cases, Option-cases, some, [], ◌∷◌,
  arith, ◌==◌, ◌&&◌, concat,
}
use kubernetes_operators.Common.Int.{ℤ, leb_ℤ}
use kubernetes_operators.Errors.{
  Error, ReconcileError, ReconcileErrorClass, transient, permanent, conflict, as_reconcile_error,
}
use kubernetes_operators.Api.V1alpha1.{PlatformApplication, condition_ready}
use kubernetes_operators.Status.{set_progressing, set_condition, set_ready, set_degraded}
use kubernetes_operators.Cluster.Objects.{Object, deployments, ready_replicas_of}
use kubernetes_operators.Cluster.Client.{Client, Result, success, failure, Result-cases}
use kubernetes_operators.Cluster.Exec.{
  World, Outcome, ok, err, panic, attempted, Exec, pure, call, reads, attempt, emit, ◌>>=◌,
  bind-inv,
}
use kubernetes_operators.Metrics.{observe_reconcile, observe_error}
use kubernetes_operators.Steps.{Return, finished, with_status}
use kubernetes_operators.Steps.Reporting.{
  set_url, set_observed, conditions_at, set_conditions, update_deployment_status, start,
}
use kubernetes_operators.Steps.Children.{reconcile_resources}
use kubernetes_operators.Steps.Endings.{handle_class, handle_error_result, status_failed, finish}
use kubernetes_operators.Controller.{reconcile_live, publish, report}
use kubernetes_operators.Controller.Phase.{
  bool_text, succeeded, reported, has_replicas, conditions_by_outcome,
}
use kubernetes_operators.Controller.Requeue.Published.{
  counted_lem, conditions_at-only, published_lem,
}

attempted_ok : {F : Type 0} (o : Outcome F Unit) → attempted o ≡ ok (success tt) → o ≡ ok tt
attempted_ok (ok tt) h = refl
attempted_ok (err e) h = cc
attempted_ok panic h = cc

module _ {F S : Type 0} (c : Client F S) where
  class_asks :
      (app : PlatformApplication) (e : Error F) (r : ReconcileError F) (k : ReconcileErrorClass)
      (w : World S)
      → (handle_class c app e r k w).0 ≡ ok finished
      → ⊥
  unfolding handle_class observe_reconcile observe_error ◌>>=◌ emit pure
  class_asks app e r conflict w h = ground (arith, h)
  class_asks app e r permanent w h = ground (arith, h)
  class_asks app e r transient w h = ground (arith, h)
  class_asks app e r _ w h = ground (arith, h)

  -- An error of the children never ends in a return that asks for nothing.
  handled_asks :
      (app : PlatformApplication) (e : Error F) (w : World S)
      → (handle_error_result c app e w).0 ≡ ok finished
      → ⊥
  unfolding handle_error_result observe_reconcile observe_error ◌>>=◌ emit pure
  handled_asks app e w h = elim (Option-cases (as_reconcile_error e)) [
    | inl p ↦ ground (arith, p, h)
    | inr (r, p) ↦ class_asks app e r r.class _ (rw (p, handle_error_result) at h)
  ]

  status_failed_asks : (e : Error F) (w : World S) → (status_failed c e w).0 ≡ ok finished → ⊥
  unfolding status_failed ◌>>=◌ emit pure
  status_failed_asks e w h = elim (Bool-cases (c.errors.is_conflict e)) [
    | inl k ↦ ground (arith, k, h)
    | inr k ↦ ground (arith, k, h)
  ]

  finish_settles :
      (app : PlatformApplication) (r : Result F Unit) (t : Return F) (w : World S)
      → (finish c app r t w).0 ≡ ok finished
      → (r ≡ success tt) × (has_replicas app ≡ true)
  unfolding finish observe_reconcile ◌>>=◌ emit pure
  finish_settles app (failure e) t w h = absurd (handled_asks app e _ h)
  finish_settles app (success tt) t w h = elim (Bool-cases (has_replicas app)) [
    | inl k ↦ (refl, k)
    | inr k ↦ ground (arith, k, h)
  ]

  attempt_ok :
      (m : Exec F S Unit) (w : World S) → (attempt m w).0 ≡ ok (success tt) → (m w).0 ≡ ok tt
  unfolding attempt
  attempt_ok m w h = attempted_ok (m w).0 h

  -- What has been written when nothing more is asked for.
  pub record IsSettled (app published : PlatformApplication) : Type 0 where
    pub same_spec : published.spec ≡ app.spec
    pub same_meta : published.object_meta ≡ app.object_meta
    pub observed : published.status.observed_generation ≡ app.object_meta.generation
    pub version : published.status.deployed_version ≡ app.spec.image.tag
    pub replicas : leb_ℤ app.spec.replicas.min published.status.ready_replicas ≡ true
    pub ready : reported condition_ready published.status ≡ some "True"

  publish_settles :
      (app : PlatformApplication) (r : Result F Unit) (t : Return F) (w : World S)
      → (publish c app r t w).0 ≡ ok finished
      → (r ≡ success tt) × (has_replicas app ≡ true) × ((c.update_status app w.api).0 ≡ success tt)
  unfolding publish ◌>>=◌ attempt call
  publish_settles app r t w h = elim (Result-cases (c.update_status app w.api).0) [
    | inl (tt, u) ↦ let (k, l) = finish_settles app r t _ (rw u at h) in (k, l, u)
    | inr (e, u) ↦ absurd (status_failed_asks e _ (rw u at h))
  ]

  settles :
      (t u v : ℕ) (app published : PlatformApplication) (n : ℤ) (url : String) (r : Result F Unit)
      → let counted = with_status (set_observed app) (λ s. record s { ready_replicas = n }) in
        published
          ≡ with_status counted (λ s. record s {
            url = url;
            conditions = (conditions_at c t u v counted r).conditions;
          })
        → r ≡ success tt
        → has_replicas published ≡ true
        → IsSettled app published
  unfolding set_observed
  settles t u v app published n url r e k h =
      let counted = with_status (set_observed app) (λ s. record s { ready_replicas = n }) in
      let enough : has_replicas counted ≡ true = sym (ap has_replicas e) ∙ h in
      record {
        same_spec = ap (λ p. p.spec) e;
        same_meta = ap (λ p. p.object_meta) e;
        observed = ap (λ p. p.status.observed_generation) e;
        version = ap (λ p. p.status.deployed_version) e;
        replicas = ap (λ p. leb_ℤ p.spec.replicas.min published.status.ready_replicas) (sym e) ∙ h;
        ready =
            ap (λ p. reported condition_ready p.status) e
            ∙ (conditions_by_outcome c t u v counted r).0
            ∙ ap (λ b. some (bool_text (b && has_replicas counted))) (ap succeeded k)
            ∙ ap (λ b. some (bool_text b)) enough;
      }

  report_settles :
      (app : PlatformApplication) (r : Result F Unit) (w : World S)
      → (report c app r w).0 ≡ ok finished
      → (r ≡ success tt)
        × (published : PlatformApplication) × (s : S) × IsSettled app published
        × ((c.update_status published s).0 ≡ success tt)
  unfolding report set_conditions reads pure ◌>>=◌
  report_settles app r w h =
      let (n, e) = counted_lem c (set_observed app) w in
      let (k, l, m) = publish_settles _ r _ _ (rw e at h) in
      let (url, p) =
        published_lem c _ _ _
          (with_status (set_observed app) (λ s. record s { ready_replicas = n })) r in
      (k, _, _, settles _ _ _ app _ n url r p k l, m)

  -- `Reconcile`, on a live application with its finalizer, ends without an error and without a
  -- request for another run only when the application is settled: every child has been
  -- reconciled, and a status has been written that observes the generation and the version of the
  -- specification, reports Ready, and counts at least the minimum of ready replicas.
  pub reconcile_live-IsSettled :
      (app : PlatformApplication) (w : World S)
      → (reconcile_live c app w).0 ≡ ok finished
      → (started published : PlatformApplication) × (v : World S) × (s : S) × (started.spec
          ≡ app.spec)
        × ((reconcile_resources c started v).0 ≡ ok tt)
        × IsSettled app published
        × ((c.update_status published s).0 ≡ success tt)
  unfolding reconcile_live start reads pure ◌>>=◌
  reconcile_live-IsSettled app w h =
      let (r, a, k) = bind-inv (attempt (reconcile_resources c _)) (report c _) _ h in
      let (q, published, s, settled, written) = report_settles _ r _ k in
      (
        _,
        published,
        _,
        s,
        refl,
        attempt_ok (reconcile_resources c _) _ (a ∙ ap ok q),
        record {
          same_spec = settled.same_spec;
          same_meta = settled.same_meta;
          observed = settled.observed;
          version = settled.version;
          replicas = settled.replicas;
          ready = settled.ready;
        },
        written,
      )
