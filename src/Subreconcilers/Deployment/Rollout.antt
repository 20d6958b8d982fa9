-- ===== src/Subreconcilers/Deployment/Rollout.antt =====
-- The bounds of a rolling update, and the resource quantities.
use kubernetes_operators.Common.{
  String, ◌≡◌, ◌≢◌, ◌⊎◌, ◌↔◌, Bool, false, Option, none, some, arith, eq_iff,
}
use kubernetes_operators.Common.Int.{ℤ, pos, negsuc, ◌≤ℤ◌, atoi, to_int32}
use kubernetes_operators.Api.V1alpha1.{PlatformApplication, ResourceSpec}
use kubernetes_operators.Cluster.Objects.{IntOrString, int}
use kubernetes_operators.Subreconcilers.Deployment.{
  rollout_bound, put_quantity, resource_list, resource_requirements, build_desired_deployment,
}

-- The range of an `int32`.
abbrev pub IsInt32 : ℤ → Type 0
IsInt32 z = (negsuc 2147483647 ≤ℤ z) × (z ≤ℤ pos 2147483647)

to_int32-IsInt32 : (z : ℤ) → IsInt32 (to_int32 z)
unfolding to_int32
to_int32-IsInt32 (pos n) = ground arith
to_int32-IsInt32 (negsuc n) = ground arith

to_int32-eq_iff : (z : ℤ) → (to_int32 z ≡ z) ↔ IsInt32 z
unfolding to_int32
to_int32-eq_iff (pos n) = ground arith
to_int32-eq_iff (negsuc n) = ground arith

int-injective : (a b : ℤ) → ◌≡◌ {A = Option IntOrString} (some (int a)) (some (int b)) → a ≡ b
int-injective a b h = cc

-- A rollout bound that is the text of a number becomes a number in the range of an `int32`, and
-- becomes that number exactly when it lies in this range: a larger one wraps around.
pub rollout_bound_exact :
    (s : String) (n : ℤ)
    → s ≢ ""
    → atoi s ≡ some n
    → (rollout_bound s ≡ some (int (to_int32 n)))
      × IsInt32 (to_int32 n)
      × ((rollout_bound s ≡ some (int n)) ↔ IsInt32 n)
unfolding rollout_bound
rollout_bound_exact s n ne p =
    let e : rollout_bound s ≡ some (int (to_int32 n)) = ground (arith, eq_iff s "") in
    (
      e,
      to_int32-IsInt32 n,
      (
        λ h. (to_int32-eq_iff n).0 (ground (arith, e, h)),
        λ h. ground (arith, e, (to_int32-eq_iff n).1 h),
      ),
    )

-- A text that `resource.MustParse` is called on and rejects.
abbrev pub IsBad : (String → Bool) → String → Type 0
IsBad quantity_ok s = (s ≢ "") × (quantity_ok s ≡ false)

abbrev pub HasBad : (String → Bool) → ResourceSpec → Type 0
HasBad quantity_ok r = IsBad quantity_ok r.cpu ⊎ IsBad quantity_ok r.memory

resource_list-none_iff :
    (quantity_ok : String → Bool) (r : ResourceSpec)
    → (resource_list quantity_ok r ≡ none) ↔ HasBad quantity_ok r
unfolding resource_list put_quantity
resource_list-none_iff quantity_ok r = ground (arith, eq_iff r.cpu "", eq_iff r.memory "")

-- Building the Deployment panics exactly when one of the four resource texts is not empty and is
-- no quantity.
pub build_panics_iff :
    (quantity_ok : String → Bool) (app : PlatformApplication)
    → (build_desired_deployment quantity_ok app ≡ none) ↔ (
        HasBad quantity_ok app.spec.resources.requests
        ⊎ HasBad quantity_ok app.spec.resources.limits)
unfolding build_desired_deployment resource_requirements
build_panics_iff quantity_ok app = ground (
  arith,
  resource_list-none_iff quantity_ok app.spec.resources.requests,
  resource_list-none_iff quantity_ok app.spec.resources.limits,
)
