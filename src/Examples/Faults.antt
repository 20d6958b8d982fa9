-- ===== src/Examples/Faults.antt =====
-- The fault-injecting client on the fixtures.
use kubernetes_operators.Common.{ℕ, ◌≤◌, String, ◌≡◌, inr, refl, List, [], ◌∷◌, arith}
use kubernetes_operators.Common.Int.{pos}
use kubernetes_operators.Errors.{as_error, classify_or_wrap}
use kubernetes_operators.Cluster.Objects.{Resource}
use kubernetes_operators.Cluster.Exec.{World, err}
use kubernetes_operators.Subreconcilers.Apply.{max_apply_retries, apply_from}
use kubernetes_operators.Fakeclient.{
  FaultConfig, fault_transient, fault_conflict, Counts, injected_count, reset,
}
use kubernetes_operators.Fakeclient.Counters.{
  Calls, counts_after, faults_of, injected_count-counts_after, AreLimited, faults_of_bounded,
}
use kubernetes_operators.Fakeclient.Conflicts.{conflicting, injected, injected_conflict_not_retried}
use kubernetes_operators.Examples.Fixtures.{injection, found, fault_errors, contended}

-- Two faults on patches, each to be injected once.
abbrev two_faults : List FaultConfig
two_faults =
    record { operation = "patch"; resource_kind = ""; fault = fault_transient; count = pos 1 }
    ∷ record { operation = "patch"; resource_kind = ""; fault = fault_conflict; count = pos 1 }
    ∷ []

abbrev some_calls : Calls
some_calls = ("patch", "*v1.Service") ∷ ("patch", "*v1.Service") ∷ ("get", "*v1.Service") ∷ []

injected_count-counts_after_example :
    injected_count "patch" (counts_after two_faults some_calls reset)
    ≡ faults_of "patch" two_faults some_calls reset
injected_count-counts_after_example = injected_count-counts_after two_faults "patch" some_calls

two_faults-AreLimited : AreLimited 1 "patch" two_faults
two_faults-AreLimited = (inr (omega arith, omega arith), (inr (omega arith, omega arith), tt))

faults_of_bounded_example : faults_of "patch" two_faults some_calls reset ≤ 1
faults_of_bounded_example = faults_of_bounded 1 two_faults "patch" some_calls two_faults-AreLimited

abbrev type_name : Resource → String
type_name r = "*v1.Deployment"

abbrev fault_world : World (ℕ × Counts)
fault_world = record { api = (0, []); log = [] }

injected_conflict_not_retried_example :
    let applied =
      apply_from
        (conflicting injection type_name "*v1alpha1.PlatformApplication" contended)
        max_apply_retries
        0
        found
        fault_world in
    (words : String) × (applied.0
      ≡ err (
          as_error (
            classify_or_wrap fault_errors
              (injected injection type_name "*v1alpha1.PlatformApplication" contended words)
              "shop"
              "Deployment")))
    × (applied.1.api.0 ≡ 0)
injected_conflict_not_retried_example =
    injected_conflict_not_retried injection type_name "*v1alpha1.PlatformApplication" contended
      found found fault_world (λ words. refl) refl refl
