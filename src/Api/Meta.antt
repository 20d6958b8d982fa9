-- ===== src/Api/Meta.antt =====
-- The parts of Kubernetes' object metadata that the operator reads or writes; timestamps are
-- numbers of seconds, and `0` is the zero time.
use kubernetes_operators.Common.{ℕ, String, Bool, Option, List, Labels, none, []}
use kubernetes_operators.Common.Int.{ℤ, pos}

pub record TypeMeta : Type 0 where
  pub api_version : String
  pub kind : String

pub record OwnerReference : Type 0 where
  pub owner_name : String
  pub owner_uid : String
  pub is_controller : Bool

pub record ObjectMeta : Type 0 where
  pub name : String
  pub namespace : String
  pub uid : String
  pub resource_version : String
  pub generation : ℤ
  pub deletion_timestamp : Option ℕ
  pub labels : Labels
  pub finalizers : List String
  pub owner_references : List OwnerReference

-- `metav1.ObjectMeta{Name, Namespace, Labels}`, all else left at its zero value.
abbrev pub named : String → String → Labels → ObjectMeta
named name namespace labels = record {
  name = name;
  namespace = namespace;
  uid = "";
  resource_version = "";
  generation = pos 0;
  deletion_timestamp = none;
  labels = labels;
  finalizers = [];
  owner_references = [];
}

-- `metav1.Condition`; its status is "True", "False" or "Unknown".
pub record Condition : Type 0 where
  pub type : String
  pub status : String
  pub observed_generation : ℤ
  pub last_transition_time : ℕ
  pub reason : String
  pub message : String
