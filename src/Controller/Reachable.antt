-- ===== src/Controller/Reachable.antt =====
-- Sequences of calls of `Reconcile` and of changes that others make, for one application.
pub mod Registry
pub mod Guarded
use kubernetes_operators.Common.{
  ℕ, ◌≡◌, ◌≢◌, refl, Bool, true, Option, none, some, arith, if◌then◌else◌,
}
use mathlib.Core.Path.{subst}
use kubernetes_operators.Api.Meta.{ObjectMeta}
use kubernetes_operators.Api.V1alpha1.{PlatformApplication, PlatformApplicationSpec}
use kubernetes_operators.Errors.{Error}
use kubernetes_operators.Cluster.Objects.{Object, ObjectKey, Resource}
use kubernetes_operators.Cluster.Client.{Client, success, failure, Result-cases}
use kubernetes_operators.Cluster.Exec.{World, emit, pure, call, attempt, ◌>>=◌, deferring}
use kubernetes_operators.Cluster.Keeps.{Keeps, Keeps-call, Keeps-reads}
use kubernetes_operators.Metrics.{observe_error}
use kubernetes_operators.Steps.{finalizer_name}
use kubernetes_operators.Steps.Endings.{fetch_failed}
use kubernetes_operators.Steps.Finalizing.{is_zero}
use kubernetes_operators.Controller.{reconcile_fetched, reconcile_live, reconcile_body, reconcile}
use kubernetes_operators.Controller.Keeping.Rules.{Allows}
use kubernetes_operators.Controller.Keeping.{reconcile_live-Keeps}
use kubernetes_operators.Controller.Deletion.{
  with_finalizer, without_finalizer, at_fetch, reconcile-fetched, deletion_of_fetched,
  addition_to_fetched,
}
use kubernetes_operators.Controller.Reachable.Registry.{IsGuarded-AsBefore}

module _ {F S : Type 0} (c : Client F S) (key : ObjectKey) (stored : S → Option PlatformApplication)
    (Childless : S → Type 0) where
  -- The worlds that calls of `Reconcile` and others' changes lead to, with the specification that
  -- was written last. A user's edit changes neither the finalizer nor takes back a deletion; what
  -- others do elsewhere may erase the application. Neither makes a child.
  pub data Reached : PlatformApplicationSpec → World S → Type 0 where
    created :
        {w : World S} {app : PlatformApplication} {spec : PlatformApplicationSpec}
        → stored w.api ≡ some app
        → app.spec ≡ spec
        → Childless w.api
        → Reached spec w
    reconciled :
        {w : World S} {spec : PlatformApplicationSpec}
        → Reached spec w
        → Reached spec (reconcile c key w).1
    edited :
        {w v : World S} {spec next : PlatformApplicationSpec} {app x : PlatformApplication}
        → Reached spec w
        → stored w.api ≡ some app
        → stored v.api ≡ some x
        → x.spec ≡ next
        → c.contains_finalizer x.object_meta finalizer_name
          ≡ c.contains_finalizer app.object_meta finalizer_name
        → (is_zero x.object_meta.deletion_timestamp ≡ true
            → is_zero app.object_meta.deletion_timestamp ≡ true)
        → (Childless w.api → Childless v.api)
        → Reached next v
    elsewhere :
        {w v : World S} {spec : PlatformApplicationSpec}
        → Reached spec w
        → ((x : PlatformApplication) → stored v.api ≡ some x → stored w.api ≡ some x)
        → (Childless w.api → Childless v.api)
        → Reached spec v
