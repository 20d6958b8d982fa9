-- ===== src/Examples/Clusters.antt =====
-- A cluster with one object of each resource at most, which versions what it stores.
use mathlib.Core.Option
use kubernetes_operators.Common.{
  ◌≡◌, ◌≢◌, refl, ap, true, false, Option, none, some, [], ◌∷◌, eqb, arith, eq_iff, if◌then◌else◌,
}
use kubernetes_operators.Errors.{foreign}
use kubernetes_operators.Api.V1alpha1.{PlatformApplication}
use kubernetes_operators.Cluster.Objects.{Object, ObjectKey, Resource, resource_of}
use kubernetes_operators.Cluster.Client.{Client, Result, success, failure}
use kubernetes_operators.Cluster.Exec.{World, ok}
use kubernetes_operators.Subreconcilers.Apply.{unchanged, created}
use kubernetes_operators.Subreconcilers.Apply.Writes.{IsVersioned}
use kubernetes_operators.Subreconcilers.Deployment.{
  put_quantity, resource_list, resource_requirements, build_desired_deployment,
}
use kubernetes_operators.Subreconcilers.Service.{build_desired_service}
use kubernetes_operators.Subreconcilers.Reconcilers.{reconcile_deployment, reconcile_service}
use kubernetes_operators.Subreconcilers.Reconcilers.Written.{children_are_written}
use kubernetes_operators.Controller.Converges.Server.{rank, Store, IsServer}
use kubernetes_operators.Examples.Fixtures.{
  new_shop, shop, Fault, missing, fault_errors, has, without,
}

abbrev Shelf : Type 0
Shelf = Resource → Option Object

abbrev stamp : Object → Object
stamp o = record o { meta = record o.meta { resource_version = "1" } }

abbrev stored_at : Option Object → ObjectKey → Option Object
stored_at at k = Option.map stamp at

-- What is stored, and the application's own object.
abbrev pub Home : Type 0
Home = Shelf × PlatformApplication

abbrev pub shelf_holds : Home → Store
shelf_holds s r = stored_at (s.0 r)

abbrev at_place : Resource → Option Object → Shelf → Shelf
at_place r o s q = if eqb (rank q) (rank r) then o else s q

abbrev read_at : Option Object → Result Fault Object
read_at none = failure (foreign missing)
read_at (some o) = success (stamp o)

abbrev removal : Option Object → Result Fault Unit
removal none = failure (foreign missing)
removal (some o) = success tt

abbrev pub shelved : Client Fault Home
shelved = record {
  errors = fault_errors;
  get = λ r k s. (read_at (s.0 r), s);
  create = λ o s. (success tt, (at_place (resource_of o.body) (some o) s.0, s.1));
  patch = λ o s. (success tt, (at_place (resource_of o.body) (some o) s.0, s.1));
  delete = λ r k s. (removal (s.0 r), (at_place r none s.0, s.1));
  get_app = λ k s. (success s.1, s);
  update_app = λ a s. (success tt, (s.0, a));
  update_status = λ a s. (success tt, (s.0, record s.1 { status = a.status }));
  now = λ s. (0, s);
  wait = λ n s. (none, s);
  deep_equal = λ a b. false;
  set_controller_reference = λ m o. success o;
  contains_finalizer = λ m f. has f m.finalizers;
  add_finalizer = λ m f. record m { finalizers = f ∷ m.finalizers };
  remove_finalizer = λ m f. record m { finalizers = without f m.finalizers };
  quantity_ok = λ s. true;
}

abbrev pub SameBody : Object → Object → Type 0
SameBody x o = x.body ≡ o.body

place_kept :
    (r : Resource) (o : Option Object) (s : Shelf) (q : Resource)
    → rank q ≢ rank r
    → at_place r o s q ≡ s q
place_kept r o s q ne = ground arith

elsewhere :
    (r : Resource) (o : Option Object) (s : Home) (q : Resource)
    → rank q ≢ rank r
    → shelf_holds (at_place r o s.0, s.1) q ≡ shelf_holds s q
elsewhere r o s q ne = ap (λ (at : Option Object). stored_at at) (place_kept r o s.0 q ne)

read_versioned :
    (at : Option Object) (o : Object) → read_at at ≡ success o → o.meta.resource_version ≢ ""
read_versioned none o e v = absurd (cc)
read_versioned (some x) o e v =
    let same : stamp x ≡ o = cc in
    let one : "1" ≡ o.meta.resource_version = ap (λ (y : Object). y.meta.resource_version) same in
    ground (arith, one, v, eq_iff "1" "")

pub shelved-IsServer : IsServer shelved shelf_holds SameBody
shelved-IsServer = record {
  get_there = λ r k s o e. ground arith;
  get_none = λ r k s e. (foreign missing, ground arith, refl);
  get_keeps = λ r k s. refl;
  create_stores =
      λ o s e. (refl, (stamp o, ground arith, refl), elsewhere (resource_of o.body) (some o) s);
  patch_stores =
      λ o x s e. (refl, (stamp o, ground arith, refl), elsewhere (resource_of o.body) (some o) s);
  delete_there = λ r k s x e. ground arith;
  delete_none = λ r k s e. (foreign missing, ground arith, refl);
  delete_gone = λ r k s. ground arith;
  delete_elsewhere = λ r k s. elsewhere r none s;
  equal_carries = λ x o e. cc;
  owned = λ m o. (o, refl, refl, refl, λ x e. e);
}

shelved-IsVersioned : IsVersioned shelved
shelved-IsVersioned = record {
  stored = λ r k s o e. read_versioned (s.0 r) o e;
  compared = λ a b e. cc;
  owned = λ m o d e. cc;
}

abbrev empty_shelf : World Home
empty_shelf = record { api = (λ r. none, shop); log = [] }

-- The application without the finalizer.
abbrev pub fresh : World Home
fresh = record { api = (λ r. none, new_shop); log = [] }

abbrev deployment_or : Option Object → Object
deployment_or none = build_desired_service shop
deployment_or (some o) = o

abbrev pub shop_deployment : Object
shop_deployment = deployment_or (build_desired_deployment shelved.quantity_ok shop)

pub shop_deployment_built : build_desired_deployment shelved.quantity_ok shop ≡ some shop_deployment
unfolding build_desired_deployment resource_requirements resource_list put_quantity
shop_deployment_built = refl

children_are_written_example :
    ((reconcile_deployment shelved shop empty_shelf).0 ≡ ok created → created ≢ unchanged)
    × ((reconcile_service shelved shop empty_shelf).0 ≡ ok created → created ≢ unchanged)
children_are_written_example =
    children_are_written shelved shelved-IsVersioned shop empty_shelf created
