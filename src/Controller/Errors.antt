-- ===== src/Controller/Errors.antt =====
-- How reconciliation errors come to be classified, and what the class decides.
use kubernetes_operators.Common.{String, ◌≡◌, refl, some, List, [], ◌∷◌, arith, not}
use kubernetes_operators.Common.Int.{pos, leb_ℤ}
use kubernetes_operators.Errors.{
  Error, ReconcileErrorClass, permanent, conflict, ReconcileError, as_reconcile_error,
  classify_or_wrap,
}
use kubernetes_operators.Errors.Classes.{IsActionable, HasActionable, classify_or_wrap-IsActionable}
use kubernetes_operators.Api.V1alpha1.{PlatformApplication}
use kubernetes_operators.Cluster.Objects.{ObjectRef}
use kubernetes_operators.Cluster.Client.{Client, success, failure}
use kubernetes_operators.Cluster.Exec.{World, ok, err, Exec, pure, emit, ◌>>=◌}
use kubernetes_operators.Cluster.Raises.{
  Raises, Raises-pure, Raises-raise, Raises-or_panic, Raises-bind, Raises-bind-attempt, Raises-if,
  Raises-emit, raises_rules,
}
use kubernetes_operators.Metrics.{observe_reconcile, observe_sub_reconcile, observe_error}
use kubernetes_operators.Subreconcilers.Apply.{ApplyResult}
use kubernetes_operators.Subreconcilers.Apply.Outcomes.{
  IsPlain, apply-plain, delete_if_exists-plain,
}
use kubernetes_operators.Subreconcilers.Reconcilers.{
  delete_child, delete_hpa_if_exists, delete_http_route_if_exists, delete_network_policy_if_exists,
  delete_pdb_if_exists, delete_service_monitor_if_exists, reconcile_deployment, reconcile_service,
  reconcile_hpa, reconcile_http_route, reconcile_network_policy, reconcile_pdb,
  reconcile_service_monitor,
}
use kubernetes_operators.Steps.{
  Return, after, requeue_delay, conflict_requeue_delay, permanent_requeue_delay,
}
use kubernetes_operators.Steps.Children.{
  run_sub_reconciler, run_all, sub_reconcilers, reconcile_resources,
}
use kubernetes_operators.Steps.Endings.{handle_class, handle_error_result}

-- The chain holds a `*ReconcileError` with an actionable class.
abbrev pub IsClassified : {F : Type 0} → Error F → Type 0
IsClassified {F} e = (r : ReconcileError F) × (as_reconcile_error e ≡ some r) × IsActionable r.class

module _ {F S : Type 0} {c : Client F S} (plain : IsPlain c) where
  delete_child-plain : (ref : ObjectRef) → Raises HasActionable (delete_child c ref)
  unfolding delete_child
  delete_child-plain ref = Raises-bind _ _ (delete_if_exists-plain plain ref) (λ _. Raises-pure _)

  children-plain :
      (app : PlatformApplication)
      → Raises HasActionable (reconcile_deployment c app)
        × Raises HasActionable (reconcile_service c app)
        × Raises HasActionable (reconcile_hpa c app)
        × Raises HasActionable (reconcile_http_route c app)
        × Raises HasActionable (reconcile_network_policy c app)
        × Raises HasActionable (reconcile_pdb c app)
        × Raises HasActionable (reconcile_service_monitor c app)
  unfolding reconcile_deployment reconcile_service reconcile_hpa reconcile_http_route
      reconcile_network_policy reconcile_pdb reconcile_service_monitor delete_hpa_if_exists
      delete_http_route_if_exists delete_network_policy_if_exists delete_pdb_if_exists
      delete_service_monitor_if_exists
  children-plain app = (
    Raises-bind _ _ (Raises-or_panic _) (λ desired. apply-plain plain app.object_meta desired),
    apply-plain plain app.object_meta _,
    Raises-if (not app.spec.autoscaling.enabled) _ _ (delete_child-plain _)
        (apply-plain plain app.object_meta _),
    Raises-if (not app.spec.gateway.enabled) _ _ (delete_child-plain _)
        (apply-plain plain app.object_meta _),
    Raises-if (not app.spec.security.network_policy) _ _ (delete_child-plain _)
        (apply-plain plain app.object_meta _),
    Raises-if (leb_ℤ app.spec.replicas.min (pos 1)) _ _ (delete_child-plain _)
        (apply-plain plain app.object_meta _),
    Raises-if (not app.spec.observability.metrics) _ _ (delete_child-plain _)
        (apply-plain plain app.object_meta _),
  )

  -- The error that ends the loop, and all that is recorded before it.
  run_sub_reconciler-IsClassified :
      (app : PlatformApplication) (name : String) (fn : Exec F S ApplyResult)
      → Raises HasActionable fn
      → Raises IsClassified (run_sub_reconciler c app name fn)
  unfolding run_sub_reconciler observe_sub_reconcile observe_error
  run_sub_reconciler-IsClassified app name fn h = Raises-bind _ _ (Raises-emit _) λ _.
      Raises-bind-attempt HasActionable _ _ h (elim [
        | success u ↦ λ _. search raises_rules
        | failure e ↦ λ p. Raises-bind _ _ (Raises-emit _) λ _. Raises-bind _ _ (Raises-emit _) λ _.
            Raises-bind _ _ (search raises_rules) λ _. Raises-bind _ _ (Raises-emit _) λ _.
              Raises-bind _ _ (Raises-emit _) λ _. Raises-raise _ (
                classify_or_wrap c.errors e app.object_meta.name name,
                unfold as_reconcile_error in refl,
                classify_or_wrap-IsActionable c.errors e app.object_meta.name name p,
              )
      ])

  -- Every entry of the table of sub-reconcilers ends with such errors only.
  abbrev ArePlain : List (String × Exec F S ApplyResult) → Type 0
  ArePlain [] = Unit
  ArePlain ((name, fn) ∷ rest) = Raises HasActionable fn × ArePlain rest

  run_all-IsClassified :
      (app : PlatformApplication) (l : List (String × Exec F S ApplyResult))
      → ArePlain l
      → Raises IsClassified (run_all c app l)
  unfolding run_all
  run_all-IsClassified app [] h = Raises-pure _
  run_all-IsClassified app ((name, fn) ∷ rest) h =
      Raises-bind _ _ (run_sub_reconciler-IsClassified app name fn h.0)
        λ _. run_all-IsClassified app rest h.1

  resources-IsClassified :
      (app : PlatformApplication) → Raises IsClassified (reconcile_resources c app)
  unfolding reconcile_resources sub_reconcilers
  resources-IsClassified app =
      let (a, b, d, e, f, g, h) = children-plain app in
      run_all-IsClassified app _ (a, (b, (d, (e, (f, (g, (h, tt)))))))

  -- What the class of the error makes `Reconcile` return.
  abbrev pub decided : Error F → ReconcileErrorClass → Return F
  decided e conflict = after conflict_requeue_delay
  decided e permanent = after permanent_requeue_delay
  decided e _ = record { requeue_after = requeue_delay; error = some e }

  decided-of_class :
      (app : PlatformApplication) (e : Error F) (w : World S) (r : ReconcileError F)
      → as_reconcile_error e ≡ some r
      → IsActionable r.class
      → (handle_error_result c app e w).0 ≡ ok (decided e r.class)
  unfolding handle_error_result handle_class observe_reconcile observe_error ◌>>=◌ emit pure
  decided-of_class app e w r p h = ground arith

  -- Whatever goes wrong with a child resource, where the client's own errors are plain: the error
  -- of `reconcileResources` holds a `*ReconcileError` whose class is transient, permanent or
  -- conflict, and this class decides what `Reconcile` returns: a conflict asks for a retry after
  -- one second and a permanent error for one after five minutes, both without an error, and a
  -- transient one hands the error on. So the branch for unknown errors is never reached.
  pub child_errors_are_decided :
      (app : PlatformApplication) (w v : World S) (e : Error F)
      → (reconcile_resources c app w).0 ≡ err e
      → (r : ReconcileError F) × (as_reconcile_error e ≡ some r)
        × IsActionable r.class
        × ((handle_error_result c app e v).0 ≡ ok (decided e r.class))
  child_errors_are_decided app w v e h =
      let (r, p, a) = classified in (r, p, a, decided-of_class app e v r p a)
    where
      classified : IsClassified e
      classified = rw h at ((resources-IsClassified app).at w)
