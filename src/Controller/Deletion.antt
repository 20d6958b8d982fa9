-- ===== src/Controller/Deletion.antt =====
-- The finalizer and the end of a deletion.
use kubernetes_operators.Common.{true, ◌≡◌, false, arith, if◌then◌else◌}
use kubernetes_operators.Errors.{wrapped}
use kubernetes_operators.Api.V1alpha1.{PlatformApplication}
use kubernetes_operators.Cluster.Client.{Client, Result, success, failure}
use kubernetes_operators.Cluster.Objects.{ObjectKey}
use kubernetes_operators.Controller.{reconcile_body, reconcile}
use kubernetes_operators.Common.{[], ◌∷◌, ◌++◌}
use kubernetes_operators.Cluster.Exec.{
  active_inc, span_start, deferring, World, ok, pure, call, attempt, emit, ◌>>=◌,
}
use kubernetes_operators.Steps.{
  finalizer_name, conflict_requeue_delay, Return, finished, after, failed,
}
use kubernetes_operators.Steps.Finalizing.{is_zero, handle_deletion, add_finalizer_to}
use kubernetes_operators.Controller.{reconcile_fetched}

abbrev pub without_finalizer :
    {F S : Type 0} → Client F S → PlatformApplication → PlatformApplication
without_finalizer c app = record app {
  object_meta = c.remove_finalizer app.object_meta finalizer_name;
}

abbrev pub with_finalizer : {F S : Type 0} → Client F S → PlatformApplication → PlatformApplication
with_finalizer c app = record app { object_meta = c.add_finalizer app.object_meta finalizer_name }

-- What `Reconcile` returns after the update that removes the finalizer.
abbrev pub removal_return : {F S : Type 0} → Client F S → Result F Unit → Return F
removal_return c (success x) = finished
removal_return c (failure e) =
    if c.errors.is_conflict e
    then after conflict_requeue_delay
    else failed (wrapped "removing finalizer" e)

-- What the deletion of an application returns, by its finalizer and the outcome of the update.
abbrev pub deletion_return : {F S : Type 0} → Client F S → PlatformApplication → S → Return F
deletion_return c app s =
    if c.contains_finalizer app.object_meta finalizer_name
    then removal_return c (c.update_app (without_finalizer c app) s).0
    else finished

abbrev pub addition_return : {F : Type 0} → Result F Unit → Return F
addition_return (success x) = finished
addition_return (failure e) = failed (wrapped "adding finalizer" e)

module _ {F S : Type 0} (c : Client F S) where
  -- `Reconcile` after a fetch that found the application, in the world that the fetch left.
  abbrev pub at_fetch : ObjectKey → World S → World S
  at_fetch key w = record {
    api = (c.get_app key w.api).1;
    log = (w.log ++ active_inc ∷ []) ++ span_start "reconcile.PlatformApplication" ∷ [];
  }

  pub reconcile-fetched :
      (key : ObjectKey) (app : PlatformApplication) (w : World S)
      → (c.get_app key w.api).0 ≡ success app
      → ((reconcile c key w).0 ≡ (reconcile_fetched c app (at_fetch key w)).0)
        × ((reconcile c key w).1.api ≡ (reconcile_fetched c app (at_fetch key w)).1.api)
  unfolding reconcile reconcile_body deferring ◌>>=◌ attempt call emit
  reconcile-fetched key app w g = (rw g, rw g)

  pub deletion_of_fetched :
      (app : PlatformApplication) (w : World S)
      → is_zero app.object_meta.deletion_timestamp ≡ false
      → ((reconcile_fetched c app w).0 ≡ ok (deletion_return c app w.api))
        × ((reconcile_fetched c app w).1.api ≡ (
            if c.contains_finalizer app.object_meta finalizer_name
            then (c.update_app (without_finalizer c app) w.api).1
            else w.api))
  unfolding reconcile_fetched handle_deletion ◌>>=◌ attempt call pure emit
  deletion_of_fetched app w d = ground (arith, d)

  pub addition_to_fetched :
      (app : PlatformApplication) (w : World S)
      → is_zero app.object_meta.deletion_timestamp ≡ true
      → c.contains_finalizer app.object_meta finalizer_name ≡ false
      → let update = c.update_app (with_finalizer c app) w.api in
        reconcile_fetched c app w ≡ (ok (addition_return update.0), record w { api = update.1 })
  unfolding reconcile_fetched add_finalizer_to ◌>>=◌ attempt call pure
  addition_to_fetched app w d h = ground (arith, d, h)
