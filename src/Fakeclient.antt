-- ===== src/Fakeclient.antt =====
-- internal/testing/fakeclient/interceptor.go: a client that wraps another one and injects faults.
-- The mutex makes every access to the counters one step, so they are part of the client's state.
pub mod Counters
pub mod Conflicts
use kubernetes_operators.Common.{
  ℕ, zero, suc, ◌+◌, String, Bool, true, false, not, ◌&&◌, ◌||◌, Option, none, some, List, [], ◌∷◌,
  ◌==◌, if◌then◌else◌,
}
use kubernetes_operators.Common.Int.{ℤ, pos, ltb_ℤ, leb_ℤ}
use kubernetes_operators.Errors.{Error, foreign}
use kubernetes_operators.Cluster.Objects.{Resource, resource_of}
use kubernetes_operators.Cluster.Client.{Client, Result, success, failure}

-- The string constants, and every other string.
pub data FaultType : Type 0 where
  fault_transient fault_permanent fault_conflict fault_other : FaultType

pub record FaultConfig : Type 0 where
  pub operation : String
  pub resource_kind : String
  pub fault : FaultType
  pub count : ℤ

pub record FaultError : Type 0 where
  pub msg : String
  pub transient : Bool
  pub permanent : Bool
  pub conflict : Bool

-- `map[string]int`: the injections of each operation, 0 where it is missing.
abbrev pub Counts : Type 0
Counts = List (String × ℕ)

unfoldable pub injected_count : String → Counts → ℕ
injected_count operation [] = 0
injected_count operation ((name, n) ∷ counts) =
    if name == operation then n else injected_count operation counts

-- `i.injected[operation]++`
unfoldable pub increment : String → Counts → Counts
increment operation [] = (operation, 1) ∷ []
increment operation ((name, n) ∷ counts) =
    if name == operation then (name, suc n) ∷ counts else (name, n) ∷ increment operation counts

-- `Reset`
unfoldable pub reset : Counts
reset = []

unfoldable pub make_fault_error : FaultConfig → FaultError
make_fault_error f = elim f.fault [
  | fault_transient ↦ record {
    msg = "injected transient error: service unavailable";
    transient = true;
    permanent = false;
    conflict = false;
  }
  | fault_permanent ↦ record {
    msg = "injected permanent error: forbidden";
    transient = false;
    permanent = true;
    conflict = false;
  }
  | fault_conflict ↦ record {
    msg = "injected conflict error: resource version mismatch";
    transient = false;
    permanent = false;
    conflict = true;
  }
  | fault_other ↦ record {
    msg = "injected unknown fault";
    transient = true;
    permanent = false;
    conflict = false;
  }
]

-- The three `continue`s of the loop.
unfoldable pub passes_over : FaultConfig → String → String → Counts → Bool
passes_over f operation kind counts =
    not (f.operation == operation)
    || ((not (f.resource_kind == "") && not (f.resource_kind == kind))
        || (ltb_ℤ (pos 0) f.count && leb_ℤ f.count (pos (injected_count operation counts))))

unfoldable pub should_fault :
    List FaultConfig → String → String → Counts → Option FaultError × Counts
should_fault [] operation kind counts = (none, counts)
should_fault (f ∷ faults) operation kind counts =
    if passes_over f operation kind counts
    then should_fault faults operation kind counts
    else (some (make_fault_error f), increment operation counts)

module _ {F S : Type 0} (as_foreign : FaultError → F) where
  -- A fault is answered in place of the call.
  unfoldable pub intercept :
      {A : Type 0}
      → List FaultConfig
      → String
      → String
      → (S → Result F A × S)
      → S × Counts
      → Result F A × (S × Counts)
  intercept faults operation kind f (s, counts) =
      let answer = should_fault faults operation kind counts in
      elim answer.0 [
        | some e ↦ (failure (foreign (as_foreign e)), (s, answer.1))
        | none ↦ ((f s).0, ((f s).1, answer.1))
      ]

  -- A call that the interceptor hands on.
  abbrev handed_on : {A : Type 0} → (S → A × S) → S × Counts → A × (S × Counts)
  handed_on f (s, counts) = ((f s).0, ((f s).1, counts))

  -- The interceptor as a client. `type_name` is what `%T` prints of an object, and `app_type` what
  -- it prints of an application.
  unfoldable pub new_interceptor :
      (Resource → String) → String → Client F S → List FaultConfig → Client F (S × Counts)
  new_interceptor type_name app_type c faults = record {
    errors = c.errors;
    get = λ r k. intercept faults "get" (type_name r) (c.get r k);
    create = λ o. intercept faults "create" (type_name (resource_of o.body)) (c.create o);
    patch = λ o. intercept faults "patch" (type_name (resource_of o.body)) (c.patch o);
    delete = λ r k. intercept faults "delete" (type_name r) (c.delete r k);
    get_app = λ k. intercept faults "get" app_type (c.get_app k);
    update_app = λ app. intercept faults "update" app_type (c.update_app app);
    update_status = λ app. intercept faults "status" app_type (c.update_status app);
    now = handed_on c.now;
    wait = λ n. handed_on (c.wait n);
    deep_equal = c.deep_equal;
    set_controller_reference = c.set_controller_reference;
    contains_finalizer = c.contains_finalizer;
    add_finalizer = c.add_finalizer;
    remove_finalizer = c.remove_finalizer;
    quantity_ok = c.quantity_ok;
  }
