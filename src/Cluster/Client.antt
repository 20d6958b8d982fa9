-- ===== src/Cluster/Client.antt =====
-- The interface of the code that the operator does not implement: controller-runtime's client and
-- its helpers, the clock, and the parsing of quantities. `F` is the type of its errors, and `S`
-- the state of the cluster and of the clock, which every call may change.
use kubernetes_operators.Common.{ℕ, String, Bool, Option, ◌≡◌, refl, ◌⊎◌, inl, inr}
use kubernetes_operators.Errors.{Error, ApiErrors}
use kubernetes_operators.Api.Meta.{ObjectMeta}
use kubernetes_operators.Api.V1alpha1.{PlatformApplication}
use kubernetes_operators.Cluster.Objects.{Object, ObjectKey, Resource}

-- A value or a non-nil error.
pub data Result (F : Type 0) (A : Type 0) : Type 0 where
  success : A → Result F A
  failure : Error F → Result F A

module _ {F A : Type 0} where
  pub Result-cases :
      (r : Result F A) → ((a : A) × (r ≡ success a)) ⊎ ((e : Error F) × (r ≡ failure e))
  Result-cases (success a) = inl (a, refl)
  Result-cases (failure e) = inr (e, refl)

pub record Client (F S : Type 0) : Type 0 where
  pub errors : ApiErrors F
  pub get : Resource → ObjectKey → S → Result F Object × S
  pub create : Object → S → Result F Unit × S
  -- server-side apply, with the operator's field manager and forced ownership
  pub patch : Object → S → Result F Unit × S
  pub delete : Resource → ObjectKey → S → Result F Unit × S
  pub get_app : ObjectKey → S → Result F PlatformApplication × S
  pub update_app : PlatformApplication → S → Result F Unit × S
  pub update_status : PlatformApplication → S → Result F Unit × S
  -- `time.Now()`
  pub now : S → ℕ × S
  -- waits so many milliseconds, or answers the error of a context that is cancelled before
  pub wait : ℕ → S → Option (Error F) × S
  -- `equality.Semantic.DeepEqual`
  pub deep_equal : Object → Object → Bool
  -- `controllerutil.SetControllerReference`
  pub set_controller_reference : ObjectMeta → Object → Result F Object
  -- `controllerutil.ContainsFinalizer`, `AddFinalizer` and `RemoveFinalizer`
  pub contains_finalizer : ObjectMeta → String → Bool
  pub add_finalizer : ObjectMeta → String → ObjectMeta
  pub remove_finalizer : ObjectMeta → String → ObjectMeta
  -- `resource.MustParse` returns on this text and does not panic
  pub quantity_ok : String → Bool
