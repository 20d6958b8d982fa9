-- ===== src/Controller/Reachable/Guarded.antt =====
-- What one call of `Reconcile` (internal/controller/platformapplication_controller.go) makes of the
-- application's object, whatever fails.
use kubernetes_operators.Common.{
  ◌≡◌, ◌≢◌, refl, ap, sym, ◌∙◌, inl, inr, Bool, true, false, Bool-cases, Option, arith,
  if◌then◌else◌,
}
use mathlib.Core.Path.{subst}
use mathlib.Core.Option.{some-injective}
use kubernetes_operators.Api.V1alpha1.{PlatformApplication, PlatformApplicationSpec}
use kubernetes_operators.Errors.{Error}
use kubernetes_operators.Cluster.Objects.{ObjectKey}
use kubernetes_operators.Cluster.Client.{Client, success, failure, Result-cases}
use kubernetes_operators.Cluster.Exec.{World, emit, pure, call, attempt, ◌>>=◌, deferring}
use kubernetes_operators.Metrics.{observe_error}
use kubernetes_operators.Steps.{finalizer_name}
use kubernetes_operators.Steps.Endings.{fetch_failed}
use kubernetes_operators.Steps.Finalizing.{is_zero}
use kubernetes_operators.Controller.{reconcile_fetched, reconcile_live, reconcile_body, reconcile}
use kubernetes_operators.Controller.Keeping.{reconcile_live-Keeps}
use kubernetes_operators.Controller.Deletion.{
  with_finalizer, without_finalizer, at_fetch, reconcile-fetched, deletion_of_fetched,
  addition_to_fetched,
}
use kubernetes_operators.Controller.Reachable.Registry.{
  IsRegistry, IsGuarded, IsGuarded-AsBefore, Requests, Requests-Allows,
}

module _ {F S : Type 0} (c : Client F S) (key : ObjectKey) (stored : S → Option PlatformApplication)
    (Childless : S → Type 0) (law : IsRegistry c key stored Childless) where
  -- An update of the application, sent with a mark of deletion or with the finalizer.
  update-IsGuarded :
      (spec : PlatformApplicationSpec) (a : PlatformApplication) (s : S)
      → a.spec ≡ spec
      → (is_zero a.object_meta.deletion_timestamp ≡ true
          → c.contains_finalizer a.object_meta finalizer_name ≢ false)
      → IsGuarded c key stored Childless spec s
      → IsGuarded c key stored Childless spec (c.update_app a s).1
  update-IsGuarded spec a s same safe h x e = elim (law.update_app_stores a s x e) [
    | inl (y, e', (same', held, marked)) ↦ (
      same' ∙ (h y e').0,
      λ live bare.
          law.update_app_childless a s
            ((h y e').1 (ap is_zero (sym marked) ∙ live) (sym held ∙ bare)),
    )
    | inr (same', held, marked) ↦ (
      same' ∙ same,
      λ live bare. absurd (safe (ap is_zero (sym marked) ∙ live) (sym held ∙ bare)),
    )
  ]

  live-IsGuarded :
      (app : PlatformApplication) (w : World S)
      → c.contains_finalizer app.object_meta finalizer_name ≡ true
      → Requests c key stored Childless law app w
      → IsGuarded c key stored Childless app.spec (reconcile_live c app w).1.api
  live-IsGuarded app w held h x e =
      let (same, held', marked) =
        (reconcile_live-Keeps (Requests-Allows c key stored Childless law app) app).at w h x e in
      (same, λ live bare. ground (arith, held, held', bare))

  deleted-IsGuarded :
      (app : PlatformApplication) (w : World S)
      → is_zero app.object_meta.deletion_timestamp ≡ false
      → IsGuarded c key stored Childless app.spec w.api
      → IsGuarded c key stored Childless app.spec (reconcile_fetched c app w).1.api
  deleted-IsGuarded app w d h =
      let guarded : (b : Bool)
          → IsGuarded c key stored Childless app.spec
              (if b then (c.update_app (without_finalizer c app) w.api).1 else w.api) =
        elim [
          | true ↦
              update-IsGuarded app.spec (without_finalizer c app) w.api refl
                (λ live bare. ground (arith, live, d, law.removal_keeps app.object_meta)) h
          | false ↦ h
        ] in
      subst (IsGuarded c key stored Childless app.spec) (sym (deletion_of_fetched c app w d).1)
        (guarded (c.contains_finalizer app.object_meta finalizer_name))

  new-IsGuarded :
      (app : PlatformApplication) (w : World S)
      → is_zero app.object_meta.deletion_timestamp ≡ true
      → c.contains_finalizer app.object_meta finalizer_name ≡ false
      → IsGuarded c key stored Childless app.spec w.api
      → IsGuarded c key stored Childless app.spec (reconcile_fetched c app w).1.api
  new-IsGuarded app w d f h =
      subst (IsGuarded c key stored Childless app.spec)
        (sym (ap (λ r. r.1.api) (addition_to_fetched c app w d f)))
        (update-IsGuarded app.spec (with_finalizer c app) w.api refl
          (λ live bare. ground (arith, bare, law.added app.object_meta)) h)

  fetched-IsGuarded :
      (app : PlatformApplication) (w : World S)
      → Requests c key stored Childless law app w
      → IsGuarded c key stored Childless app.spec w.api
      → IsGuarded c key stored Childless app.spec (reconcile_fetched c app w).1.api
  fetched-IsGuarded app w r h = elim (Bool-cases (is_zero app.object_meta.deletion_timestamp)) [
    | inr d ↦ deleted-IsGuarded app w d h
    | inl d ↦ elim (Bool-cases (c.contains_finalizer app.object_meta finalizer_name)) [
      | inr f ↦ new-IsGuarded app w d f h
      | inl f ↦ unfold reconcile_fetched in rw d (rw f (live-IsGuarded app w f r))
    ]
  ]

  unfetched :
      (w : World S) (e : Error F)
      → (c.get_app key w.api).0 ≡ failure e
      → (reconcile c key w).1.api ≡ (c.get_app key w.api).1
  unfolding reconcile reconcile_body deferring ◌>>=◌ attempt call emit fetch_failed observe_error
      pure
  unfetched w e g = ground (arith, g)

  fetch-Requests :
      (w : World S) (app : PlatformApplication)
      → (c.get_app key w.api).0 ≡ success app
      → Requests c key stored Childless law app (at_fetch c key w)
  fetch-Requests w app g x e =
      let (y, e', (same, held, marked)) = law.get_app_keeps w.api x e in
      let found : y ≡ app = some-injective y app (sym e' ∙ law.get_app_finds w.api app g) in
      (
        same ∙ ap (λ a. a.spec) found,
        held ∙ ap (λ a. c.contains_finalizer a.object_meta finalizer_name) found,
        marked ∙ ap (λ a. a.object_meta.deletion_timestamp) found,
      )

  pub reconcile-IsGuarded :
      (spec : PlatformApplicationSpec) (w : World S)
      → IsGuarded c key stored Childless spec w.api
      → IsGuarded c key stored Childless spec (reconcile c key w).1.api
  reconcile-IsGuarded spec w h =
      let guarded : IsGuarded c key stored Childless spec (c.get_app key w.api).1 =
        IsGuarded-AsBefore c key stored Childless spec w.api _ (law.get_app_keeps w.api)
          (law.get_app_childless w.api) h in
      elim (Result-cases (c.get_app key w.api).0) [
        | inr (e, g) ↦ subst (IsGuarded c key stored Childless spec) (sym (unfetched w e g)) guarded
        | inl (app, g) ↦
            let same : app.spec ≡ spec = (h app (law.get_app_finds w.api app g)).0 in
            subst
              (λ (p : PlatformApplicationSpec).
                IsGuarded c key stored Childless p (reconcile c key w).1.api)
              same
              (subst (IsGuarded c key stored Childless app.spec)
                (sym (reconcile-fetched c key app w g).1)
                (fetched-IsGuarded app (at_fetch c key w) (fetch-Requests w app g) (
                  subst
                    (λ (p : PlatformApplicationSpec).
                      IsGuarded c key stored Childless p (c.get_app key w.api).1)
                    (sym same) guarded)))
      ]
