-- ===== src/Deepcopy/V1/Stored.antt =====
-- api/v1/platformapplication_types.go as it is stored: a struct has references in place of its maps
-- and slices. `E` is `corev1.EnvFromSource` and `M` `metav1.ObjectMeta` as they are stored, and `X`
-- what else these refer to.
use kubernetes_operators.Common.{List, [], Labels, String, refl}
use kubernetes_operators.Common.Int.{ℤ}
use kubernetes_operators.Api.Meta.{TypeMeta, Condition}
use kubernetes_operators.Api.V1.{
  AutoscalingSpec, GatewaySpec, HealthChecksSpec, ImageSpec, ObservabilitySpec, ReplicasSpec,
  RolloutSpec, SecuritySpec, ServiceSpec, ResourcesSpec,
}
use kubernetes_operators.Deepcopy.Heap.{Ref, Slot}

pub record PlatformApplicationSpec (L N : Type 0) : Type 0 where
  pub image : ImageSpec
  pub replicas : ReplicasSpec
  pub service : ServiceSpec
  pub configuration : L
  pub env_from : N
  pub pod_annotations : L
  pub autoscaling : AutoscalingSpec
  pub gateway : GatewaySpec
  pub observability : ObservabilitySpec
  pub security : SecuritySpec
  pub resources : ResourcesSpec
  pub health_checks : HealthChecksSpec
  pub rollout : RolloutSpec

pub record PlatformApplicationStatus (K : Type 0) : Type 0 where
  pub observed_generation : ℤ
  pub ready_replicas : ℤ
  pub url : String
  pub conditions : K
  pub deployed_version : String

pub record PlatformApplication (M S T : Type 0) : Type 0 where
  pub type_meta : TypeMeta
  pub object_meta : M
  pub spec : S
  pub status : T

pub record PlatformApplicationList (G I : Type 0) : Type 0 where
  pub type_meta : TypeMeta
  pub list_meta : G
  pub items : I

-- As they are stored.
abbrev pub Spec : Type 0
Spec = PlatformApplicationSpec Ref Ref

abbrev pub Status : Type 0
Status = PlatformApplicationStatus Ref

abbrev pub Application : Type 0 → Type 0
Application M = PlatformApplication M Spec Status

abbrev pub Applications : Type 0 → Type 0
Applications G = PlatformApplicationList G Ref

pub data Cell (X E M : Type 0) : Type 0 where
  labels : Labels → Cell X E M
  env_from : List E → Cell X E M
  conditions : List Condition → Cell X E M
  applications : List (Application M) → Cell X E M
  other : X → Cell X E M

module _ {X E M : Type 0} where
  abbrev get_labels : Cell X E M → Labels
  get_labels (labels l) = l
  get_labels _ = []

  abbrev pub labels_slot : Slot (Cell X E M) Labels
  labels_slot = record { put = labels; get = get_labels; get-put = λ l. refl }

  abbrev get_env_from : Cell X E M → List E
  get_env_from (env_from l) = l
  get_env_from _ = []

  abbrev pub env_from_slot : Slot (Cell X E M) (List E)
  env_from_slot = record { put = env_from; get = get_env_from; get-put = λ l. refl }

  abbrev get_conditions : Cell X E M → List Condition
  get_conditions (conditions l) = l
  get_conditions _ = []

  abbrev pub conditions_slot : Slot (Cell X E M) (List Condition)
  conditions_slot = record { put = conditions; get = get_conditions; get-put = λ l. refl }

  abbrev get_applications : Cell X E M → List (Application M)
  get_applications (applications l) = l
  get_applications _ = []

  abbrev pub applications_slot : Slot (Cell X E M) (List (Application M))
  applications_slot = record { put = applications; get = get_applications; get-put = λ l. refl }
