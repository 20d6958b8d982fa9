-- ===== src/Controller/Lifecycle/Reported.antt =====
-- What follows the children in `Reconcile` (internal/controller/platformapplication_controller.go),
-- on a cluster that answers every call.
use kubernetes_operators.Common.{◌≡◌, ◌⊎◌, refl, ◌∙◌, inl, inr, Bool-cases}
use kubernetes_operators.Common.Int.{ltb_ℤ, leb_ℤ}
use kubernetes_operators.Api.V1alpha1.{PlatformApplication}
use kubernetes_operators.Metrics.{observe_reconcile}
use kubernetes_operators.Cluster.Objects.{ObjectKey, deployments}
use kubernetes_operators.Cluster.Client.{Client, success, Result-cases}
use kubernetes_operators.Cluster.Exec.{World, ok, Exec, pure, call, reads, attempt, emit, ◌>>=◌}
use kubernetes_operators.Steps.{Return, finished, after, progress_check_delay}
use kubernetes_operators.Steps.Reporting.{
  set_url, set_observed, conditions_result, set_conditions, update_deployment_status,
}
use kubernetes_operators.Steps.Endings.{finish}
use kubernetes_operators.Controller.{publish, report}
use kubernetes_operators.Controller.Converges.Server.{Store}

module _ {F S : Type 0} (c : Client F S) (holds : S → Store) where
  -- The calls about the application itself and the clock leave the children alone, and the status
  -- is written.
  pub record KeepsChildren : Type 0 where
    pub get_app_keeps : (k : ObjectKey) (s : S) → holds (c.get_app k s).1 ≡ holds s
    pub get_keeps : (k : ObjectKey) (s : S) → holds (c.get deployments k s).1 ≡ holds s
    pub status_written :
        (a : PlatformApplication) (s : S)
        → ((c.update_status a s).0 ≡ success tt) × (holds (c.update_status a s).1 ≡ holds s)
    pub now_keeps : (s : S) → holds (c.now s).1 ≡ holds s

  -- A return without an error, which may ask for a check of the progress, with the children as they
  -- were before.
  abbrev pub Ends : Exec F S (Return F) → World S → Type 0
  Ends m w =
      (r : Return F) × ((m w).0 ≡ ok r)
      × ((r ≡ finished) ⊎ (r ≡ after progress_check_delay))
      × (holds (m w).1.api ≡ holds w.api)

  finish-Ends :
      (app : PlatformApplication) (t : Return F) (w : World S)
      → (t ≡ finished) ⊎ (t ≡ after progress_check_delay)
      → Ends (finish c app (success tt) t) w
  unfolding finish observe_reconcile ◌>>=◌ emit pure
  finish-Ends app t w h =
      elim (Bool-cases (ltb_ℤ app.status.ready_replicas app.spec.replicas.min)) [
        | inl k ↦ rw k (after progress_check_delay, refl, inr refl, refl)
        | inr k ↦ rw k (t, refl, h, refl)
      ]

  publish-Ends :
      KeepsChildren
      → (app : PlatformApplication) (t : Return F) (w : World S)
      → (t ≡ finished) ⊎ (t ≡ after progress_check_delay)
      → Ends (publish c app (success tt) t) w
  unfolding publish ◌>>=◌ attempt call
  publish-Ends law app t w h =
      let (done, same) = law.status_written app w.api in
      let (r, e, k, kept) =
        finish-Ends app t (record w { api = (c.update_status app w.api).1 }) h in
      rw done (r, e, k, kept ∙ same)

  result_ends :
      (app : PlatformApplication)
      → (conditions_result c app (success tt) ≡ finished)
        ⊎ (conditions_result c app (success tt) ≡ after progress_check_delay)
  unfolding conditions_result
  result_ends app = elim (Bool-cases (leb_ℤ app.spec.replicas.min app.status.ready_replicas)) [
    | inl k ↦ rw k (inl refl)
    | inr k ↦ rw k (inr refl)
  ]

  conditioned-Ends :
      KeepsChildren
      → (app : PlatformApplication) (w : World S)
      → Ends (set_conditions c app (success tt) >>= λ p. publish c (set_url p.0) (success tt) p.1) w
  unfolding set_conditions ◌>>=◌ reads pure
  conditioned-Ends law app w =
      let s = (c.now w.api).1 in
      let t = (c.now s).1 in
      let u = (c.now t).1 in
      let (r, e, k, kept) =
        publish-Ends law _ (conditions_result c app (success tt)) (record w { api = u })
          (result_ends app) in
      (r, e, k, kept ∙ law.now_keeps t ∙ law.now_keeps s ∙ law.now_keeps w.api)

  pub report-Ends :
      KeepsChildren → (app : PlatformApplication) (w : World S) → Ends (report c app (success tt)) w
  unfolding report update_deployment_status ◌>>=◌ attempt call pure set_observed set_conditions
  report-Ends law app w =
      let key : ObjectKey = record {
        key_name = app.object_meta.name;
        key_namespace = app.object_meta.namespace;
      } in
      let w' = record w { api = (c.get deployments key w.api).1 } in
      elim (Result-cases (c.get deployments key w.api).0) [
        | inl (dep, g) ↦
            let (r, e, k, kept) = conditioned-Ends law _ w' in
            rw g (r, e, k, kept ∙ law.get_keeps key w.api)
        | inr (x, g) ↦
            let (r, e, k, kept) = conditioned-Ends law _ w' in
            rw g (r, e, k, kept ∙ law.get_keeps key w.api)
      ]
