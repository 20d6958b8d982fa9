-- ===== src/Deepcopy/V1alpha1/Stored.antt =====
-- api/v1alpha1/platformapplication_types.go as it is stored: a struct has references in place of its maps
-- and slices. `M` is `metav1.ObjectMeta` as it is stored, and `X` what else it refers to.
use kubernetes_operators.Common.{List, [], Labels, String, refl}
use kubernetes_operators.Common.Int.{ℤ}
use kubernetes_operators.Api.Meta.{TypeMeta, Condition}
use kubernetes_operators.Api.V1alpha1.{
  AutoscalingSpec, GatewaySpec, HealthChecksSpec, ImageSpec, ObservabilitySpec, ReplicasSpec,
  RolloutSpec, SecuritySpec, ServiceSpec, ResourcesSpec,
}
use kubernetes_operators.Deepcopy.Heap.{Ref, Slot}

pub record PlatformApplicationSpec (L : Type 0) : Type 0 where
  pub image : ImageSpec
  pub replicas : ReplicasSpec
  pub service : ServiceSpec
  pub configuration : L
  pub autoscaling : AutoscalingSpec
  pub gateway : GatewaySpec
  pub observability : ObservabilitySpec
  pub security : SecuritySpec
  pub resources : ResourcesSpec
  pub health_checks : HealthChecksSpec
  pub rollout : RolloutSpec

pub record PlatformApplicationStatus (K : Type 0) : Type 0 where
  pub observed_generation : ℤ
  pub ready_replicas : ℤ
  pub url : String
  pub conditions : K
  pub deployed_version : String

pub record PlatformApplication (M S T : Type 0) : Type 0 where
  pub type_meta : TypeMeta
  pub object_meta : M
  pub spec : S
  pub status : T

pub record PlatformApplicationList (G I : Type 0) : Type 0 where
  pub type_meta : TypeMeta
  pub list_meta : G
  pub items : I

-- As they are stored.
abbrev pub Spec : Type 0
Spec = PlatformApplicationSpec Ref

abbrev pub Status : Type 0
Status = PlatformApplicationStatus Ref

abbrev pub Application : Type 0 → Type 0
Application M = PlatformApplication M Spec Status

abbrev pub Applications : Type 0 → Type 0
Applications G = PlatformApplicationList G Ref

pub data Cell (X M : Type 0) : Type 0 where
  labels : Labels → Cell X M
  conditions : List Condition → Cell X M
  applications : List (Application M) → Cell X M
  other : X → Cell X M

module _ {X M : Type 0} where
  abbrev get_labels : Cell X M → Labels
  get_labels (labels l) = l
  get_labels _ = []

  abbrev pub labels_slot : Slot (Cell X M) Labels
  labels_slot = record { put = labels; get = get_labels; get-put = λ l. refl }

  abbrev get_conditions : Cell X M → List Condition
  get_conditions (conditions l) = l
  get_conditions _ = []

  abbrev pub conditions_slot : Slot (Cell X M) (List Condition)
  conditions_slot = record { put = conditions; get = get_conditions; get-put = λ l. refl }

  abbrev get_applications : Cell X M → List (Application M)
  get_applications (applications l) = l
  get_applications _ = []

  abbrev pub applications_slot : Slot (Cell X M) (List (Application M))
  applications_slot = record { put = applications; get = get_applications; get-put = λ l. refl }
