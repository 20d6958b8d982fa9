-- ===== src/Controller/Requeue/Published.antt =====
-- What the report writes into the status (internal/controller/platformapplication_controller.go).
use kubernetes_operators.Common.{
  ℕ, String, ◌≡◌, refl, ap, inl, inr, not, Bool-cases, [], ◌∷◌, ◌==◌, ◌&&◌, concat,
}
use kubernetes_operators.Common.Int.{ℤ}
use kubernetes_operators.Api.V1alpha1.{PlatformApplication}
use kubernetes_operators.Status.{set_progressing, set_condition, set_ready, set_degraded}
use kubernetes_operators.Cluster.Objects.{Object, deployments, ready_replicas_of}
use kubernetes_operators.Cluster.Client.{Client, Result, success, failure}
use kubernetes_operators.Cluster.Exec.{World, ok, pure, call, attempt, ◌>>=◌}
use kubernetes_operators.Steps.{with_status}
use kubernetes_operators.Steps.Reporting.{set_url, conditions_at, update_deployment_status}
use kubernetes_operators.Controller.Phase.{has_replicas}

module _ {F S : Type 0} (c : Client F S) where
  pub counted_lem :
      (app : PlatformApplication) (w : World S)
      → (n : ℤ) × ((update_deployment_status c app w).0
          ≡ ok (with_status app (λ s. record s { ready_replicas = n })))
  unfolding update_deployment_status ◌>>=◌ attempt call pure
  counted_lem app w =
      by
        (c.get deployments
          (record { key_name = app.object_meta.name; key_namespace = app.object_meta.namespace })
          w.api).0
        refl
    where
      by :
          (r : Result F Object)
          → (c.get deployments
              (record {
                key_name = app.object_meta.name;
                key_namespace = app.object_meta.namespace;
              })
              w.api).0
            ≡ r
          → (n : ℤ) × ((update_deployment_status c app w).0
              ≡ ok (with_status app (λ s. record s { ready_replicas = n })))
      by (success dep) g = (ready_replicas_of dep.body, rw g)
      by (failure e) g = (app.status.ready_replicas, rw g)

  pub conditions_at-only :
      (t u v : ℕ) (app : PlatformApplication) (r : Result F Unit)
      → conditions_at c t u v app r
        ≡ record app.status { conditions = (conditions_at c t u v app r).conditions }
  unfolding conditions_at set_ready set_degraded set_progressing set_condition
  conditions_at-only t u v app (failure e) = refl
  conditions_at-only t u v app (success x) = elim (Bool-cases (has_replicas app)) [
    | inl k ↦ rw k
    | inr k ↦ rw k
  ]

  -- What is written is the counted application with its new conditions, and perhaps a URL.
  pub published_lem :
      (t u v : ℕ) (app : PlatformApplication) (r : Result F Unit)
      → (url : String) × (set_url (record app { status = conditions_at c t u v app r })
          ≡ with_status app
              (λ s. record s { url = url; conditions = (conditions_at c t u v app r).conditions }))
  unfolding set_url
  published_lem t u v app r =
      elim (Bool-cases (app.spec.gateway.enabled && not (app.spec.gateway.host == ""))) [
        | inl k ↦ (
          concat ("https://" ∷ app.spec.gateway.host ∷ []),
          rw k (
              ap
                (λ s. record app {
                  status = record s { url = concat ("https://" ∷ app.spec.gateway.host ∷ []) };
                })
                (conditions_at-only t u v app r)),
        )
        | inr k ↦ (
          app.status.url,
          rw k (ap (λ s. record app { status = s }) (conditions_at-only t u v app r)),
        )
      ]
