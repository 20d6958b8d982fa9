-- ===== src/Errors.antt =====
-- internal/errors/errors.go: errors, their classes, and their classification. `F` is the type of
-- the errors that other packages make (the API server's answers, a cancelled context): the code
-- sees them through the predicates of `apierrors`, which are the parameter `ApiErrors`.
pub mod Classes
use kubernetes_operators.Common.{
  String, Bool, ◌||◌, Option, none, some, [], ◌∷◌, concat, if◌then◌else◌,
}

-- The string constants, and the empty string, which `Classify` returns for no error.
pub data ReconcileErrorClass : Type 0 where
  unset transient permanent conflict unknown : ReconcileErrorClass

-- A Go error: another package's, `fmt.Errorf("message: %w", err)`, or a `*ReconcileError`.
pub data Error (F : Type 0) : Type 0 where
  foreign : F → Error F
  wrapped : String → Error F → Error F
  reconcile : ReconcileErrorClass → String → String → Error F → Error F

pub record ReconcileError (F : Type 0) : Type 0 where
  pub class : ReconcileErrorClass
  pub resource : String
  pub kind : String
  pub err : Error F

-- The predicates of `k8s.io/apimachinery/pkg/api/errors`, and `Error()` of a foreign error.
pub record ApiErrors (F : Type 0) : Type 0 where
  pub is_conflict : Error F → Bool
  pub is_server_timeout : Error F → Bool
  pub is_timeout : Error F → Bool
  pub is_too_many_requests : Error F → Bool
  pub is_service_unavailable : Error F → Bool
  pub is_internal_error : Error F → Bool
  pub is_not_found : Error F → Bool
  pub is_forbidden : Error F → Bool
  pub is_invalid : Error F → Bool
  pub is_bad_request : Error F → Bool
  pub foreign_text : F → String

abbrev pub class_text : ReconcileErrorClass → String
class_text unset = ""
class_text transient = "transient"
class_text permanent = "permanent"
class_text conflict = "conflict"
class_text unknown = "unknown"

module _ {F : Type 0} where
  -- A `*ReconcileError` as an error.
  abbrev pub as_error : ReconcileError F → Error F
  as_error e = reconcile e.class e.resource e.kind e.err

  -- `errors.As(err, &recErr)`: the first `*ReconcileError` of the chain. An error of another
  -- package is taken to hold none.
  unfoldable pub as_reconcile_error : Error F → Option (ReconcileError F)
  as_reconcile_error (foreign f) = none
  as_reconcile_error (wrapped m e) = as_reconcile_error e
  as_reconcile_error (reconcile c r k e) =
      some (record { class = c; resource = r; kind = k; err = e })

  unfoldable pub unwrap : ReconcileError F → Error F
  unwrap e = e.err

  unfoldable pub is_transient : ReconcileError F → Bool
  is_transient e = elim e.class [ transient ↦ Bool.true | _ ↦ Bool.false ]

  unfoldable pub is_permanent : ReconcileError F → Bool
  is_permanent e = elim e.class [ permanent ↦ Bool.true | _ ↦ Bool.false ]

  unfoldable pub is_conflict_error : ReconcileError F → Bool
  is_conflict_error e = elim e.class [ conflict ↦ Bool.true | _ ↦ Bool.false ]

  unfoldable pub new_transient_error : String → String → Error F → ReconcileError F
  new_transient_error resource kind err = record {
    class = transient;
    resource = resource;
    kind = kind;
    err = err;
  }

  unfoldable pub new_permanent_error : String → String → Error F → ReconcileError F
  new_permanent_error resource kind err = record {
    class = permanent;
    resource = resource;
    kind = kind;
    err = err;
  }

  unfoldable pub new_conflict_error : String → String → Error F → ReconcileError F
  new_conflict_error resource kind err = record {
    class = conflict;
    resource = resource;
    kind = kind;
    err = err;
  }

module _ {F : Type 0} (api : ApiErrors F) where
  -- `Error()`
  unfoldable pub error_text : Error F → String
  error_text (foreign f) = api.foreign_text f
  error_text (wrapped m e) = concat (m ∷ ": " ∷ error_text e ∷ [])
  error_text (reconcile c r k e) =
      concat (class_text c ∷ " error on " ∷ k ∷ " " ∷ r ∷ ": " ∷ error_text e ∷ [])

  -- The tests on an error that is no `*ReconcileError`, in their order.
  unfoldable pub classify_api : Error F → ReconcileErrorClass
  classify_api e =
      if api.is_conflict e
      then conflict
      else if api.is_server_timeout e || api.is_timeout e
      then transient
      else if api.is_too_many_requests e
      then transient
      else if api.is_service_unavailable e
      then transient
      else if api.is_internal_error e
      then transient
      else if api.is_not_found e
      then permanent
      else if api.is_forbidden e
      then permanent
      else if api.is_invalid e
      then permanent
      else if api.is_bad_request e
      then permanent
      else unknown

  -- `Classify`
  unfoldable pub classify : Option (Error F) → ReconcileErrorClass
  classify none = unset
  classify (some e) = elim (as_reconcile_error e) [ some r ↦ r.class | none ↦ classify_api e ]

  -- The `switch` of `ClassifyOrWrap`.
  unfoldable pub new_error : ReconcileErrorClass → String → String → Error F → ReconcileError F
  unfolding new_transient_error new_permanent_error new_conflict_error
  new_error conflict resource kind e = new_conflict_error resource kind e
  new_error permanent resource kind e = new_permanent_error resource kind e
  new_error transient resource kind e = new_transient_error resource kind e
  new_error _ resource kind e = new_transient_error resource kind e

  -- `ClassifyOrWrap` on an error; on nil the code returns nil.
  unfoldable pub classify_or_wrap : Error F → String → String → ReconcileError F
  unfolding new_error
  classify_or_wrap e resource kind = elim (as_reconcile_error e) [
    | some r ↦ r
    | none ↦ new_error (classify (some e)) resource kind e
  ]
