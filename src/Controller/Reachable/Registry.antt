-- ===== src/Controller/Reachable/Registry.antt =====
-- The application's object at the API server, and what the operator may do to it.
use kubernetes_operators.Common.{ℕ, ◌≡◌, ap, sym, ◌∙◌, ◌⊎◌, true, false, Option, some}
use kubernetes_operators.Api.Meta.{ObjectMeta}
use kubernetes_operators.Api.V1alpha1.{PlatformApplication, PlatformApplicationSpec}
use kubernetes_operators.Cluster.Objects.{Object, ObjectKey, Resource}
use kubernetes_operators.Cluster.Client.{Client, success}
use kubernetes_operators.Cluster.Exec.{World, emit}
use kubernetes_operators.Cluster.Keeps.{Keeps-call, Keeps-reads}
use kubernetes_operators.Steps.{finalizer_name}
use kubernetes_operators.Steps.Finalizing.{is_zero}
use kubernetes_operators.Controller.Keeping.Rules.{Allows}

module _ {F S : Type 0} (c : Client F S) (key : ObjectKey) (stored : S → Option PlatformApplication)
    (Childless : S → Type 0) where
  -- The same specification, mark of deletion and finalizer.
  abbrev pub SameRequest : PlatformApplication → PlatformApplication → Type 0
  SameRequest x y =
      (x.spec ≡ y.spec)
      × (c.contains_finalizer x.object_meta finalizer_name
          ≡ c.contains_finalizer y.object_meta finalizer_name)
      × (x.object_meta.deletion_timestamp ≡ y.object_meta.deletion_timestamp)

  -- What is stored in `s'` was stored in `s`, up to its status and what the API server sets.
  abbrev pub AsBefore : S → S → Type 0
  AsBefore s s' =
      (x : PlatformApplication)
      → stored s' ≡ some x
      → (y : PlatformApplication) × (stored s ≡ some y) × SameRequest x y

  -- The documented behaviour of the API server, whatever fails, while nobody else writes the
  -- application's object: `stored` is that object. An update may store what it was given, also where
  -- its answer is lost, or erase the object.
  pub record IsRegistry : Type 0 where
    pub get_app_finds :
        (s : S) (app : PlatformApplication)
        → (c.get_app key s).0 ≡ success app
        → stored s ≡ some app
    pub get_app_keeps : (s : S) → AsBefore s (c.get_app key s).1
    pub get_app_childless : (s : S) → Childless s → Childless (c.get_app key s).1
    pub update_app_stores :
        (a : PlatformApplication) (s : S) (x : PlatformApplication)
        → stored (c.update_app a s).1 ≡ some x
        → ((y : PlatformApplication) × (stored s ≡ some y) × SameRequest x y) ⊎ SameRequest x a
    pub update_app_childless :
        (a : PlatformApplication) (s : S) → Childless s → Childless (c.update_app a s).1
    pub update_status_keeps : (a : PlatformApplication) (s : S) → AsBefore s (c.update_status a s).1
    pub get_keeps : (r : Resource) (k : ObjectKey) (s : S) → AsBefore s (c.get r k s).1
    pub create_keeps : (o : Object) (s : S) → AsBefore s (c.create o s).1
    pub patch_keeps : (o : Object) (s : S) → AsBefore s (c.patch o s).1
    pub delete_keeps : (r : Resource) (k : ObjectKey) (s : S) → AsBefore s (c.delete r k s).1
    pub now_keeps : (s : S) → AsBefore s (c.now s).1
    pub wait_keeps : (n : ℕ) (s : S) → AsBefore s (c.wait n s).1
    pub added :
        (m : ObjectMeta)
        → c.contains_finalizer (c.add_finalizer m finalizer_name) finalizer_name ≡ true
    pub removal_keeps :
        (m : ObjectMeta)
        → (c.remove_finalizer m finalizer_name).deletion_timestamp ≡ m.deletion_timestamp

  -- The stored application has the specification `spec`, and no child while it is neither marked
  -- for deletion nor has the finalizer.
  abbrev pub IsGuarded : PlatformApplicationSpec → S → Type 0
  IsGuarded spec s =
      (x : PlatformApplication)
      → stored s ≡ some x
      → (x.spec ≡ spec)
        × (is_zero x.object_meta.deletion_timestamp ≡ true
            → c.contains_finalizer x.object_meta finalizer_name ≡ false
            → Childless s)

  pub IsGuarded-AsBefore :
      (spec : PlatformApplicationSpec) (s s' : S)
      → AsBefore s s'
      → (Childless s → Childless s')
      → IsGuarded spec s
      → IsGuarded spec s'
  IsGuarded-AsBefore spec s s' before childless h x e =
      let (y, e', (same, held, marked)) = before x e in
      (
        same ∙ (h y e').0,
        λ live bare. childless ((h y e').1 (ap is_zero (sym marked) ∙ live) (sym held ∙ bare)),
      )

  module _ (law : IsRegistry) where
    -- Nothing but the request of `app` is stored.
    abbrev pub Requests : PlatformApplication → World S → Type 0
    Requests app w = (x : PlatformApplication) → stored w.api ≡ some x → SameRequest x app

    Requests-next :
        (app : PlatformApplication) (w : World S) (s : S)
        → AsBefore w.api s
        → Requests app w
        → Requests app (record w { api = s })
    Requests-next app w s before h x e =
        let (y, e', (same, held, marked)) = before x e in
        let (same', held', marked') = h y e' in (same ∙ same', held ∙ held', marked ∙ marked')

    pub Requests-Allows : (app : PlatformApplication) → Allows c (Requests app)
    unfolding emit
    Requests-Allows app = record {
      emits = λ e n. record { at = λ w h. h };
      gets = λ r k. Keeps-call _ λ w. Requests-next app w _ (law.get_keeps r k w.api);
      creates = λ o. Keeps-call _ λ w. Requests-next app w _ (law.create_keeps o w.api);
      patches = λ o. Keeps-call _ λ w. Requests-next app w _ (law.patch_keeps o w.api);
      deletes = λ r k. Keeps-call _ λ w. Requests-next app w _ (law.delete_keeps r k w.api);
      status_updates =
          λ a. Keeps-call _ λ w. Requests-next app w _ (law.update_status_keeps a w.api);
      nows = Keeps-reads _ λ w. Requests-next app w _ (law.now_keeps w.api);
      waits = λ n. Keeps-reads _ λ w. Requests-next app w _ (law.wait_keeps n w.api);
    }
