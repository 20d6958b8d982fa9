-- ===== src/Fakeclient/Counters.antt =====
-- How often faults are injected.
use kubernetes_operators.Common.{
  ℕ, ◌+◌, ◌≤◌, String, ◌≡◌, ◌≢◌, refl, ◌⊎◌, Option, none, some, List, [], ◌∷◌, ◌==◌, arith, eq_iff,
  if◌then◌else◌,
}
use kubernetes_operators.Common.Int.{pos, ◌≤ℤ◌}
use kubernetes_operators.Fakeclient.{
  FaultConfig, FaultError, Counts, injected_count, increment, reset, passes_over, should_fault,
}

-- The calls of a test, each with its operation and its kind.
abbrev pub Calls : Type 0
Calls = List (String × String)

abbrev pub is_fault : Option FaultError → ℕ
is_fault none = 0
is_fault (some e) = 1

-- The counters after some calls, and how many faults the calls of one operation were answered with.
unfoldable pub counts_after : List FaultConfig → Calls → Counts → Counts
counts_after faults [] counts = counts
counts_after faults ((operation, kind) ∷ calls) counts =
    counts_after faults calls (should_fault faults operation kind counts).1

unfoldable pub faults_of : String → List FaultConfig → Calls → Counts → ℕ
faults_of name faults [] counts = 0
faults_of name faults ((operation, kind) ∷ calls) counts =
    let answer = should_fault faults operation kind counts in
    (if operation == name then is_fault answer.0 else 0) + faults_of name faults calls answer.1

injected_count-increment :
    (name operation : String) (counts : Counts)
    → injected_count name (increment operation counts)
      ≡ injected_count name counts + (if operation == name then 1 else 0)
unfolding injected_count increment
injected_count-increment name operation [] = ground arith
injected_count-increment name operation ((other, n) ∷ counts) = ground (
  arith,
  eq_iff other operation,
  eq_iff other name,
  eq_iff operation name,
  injected_count-increment name operation counts,
)

injected_count-should_fault :
    (faults : List FaultConfig) (name operation kind : String) (counts : Counts)
    → injected_count name (should_fault faults operation kind counts).1
      ≡ injected_count name counts
        + (if operation == name then is_fault (should_fault faults operation kind counts).0 else 0)
unfolding should_fault
injected_count-should_fault [] name operation kind counts = ground arith
injected_count-should_fault (f ∷ faults) name operation kind counts = ground (
  arith,
  injected_count-should_fault faults name operation kind counts,
  injected_count-increment name operation counts,
)

counted_from :
    (faults : List FaultConfig) (name : String) (calls : Calls) (counts : Counts)
    → injected_count name (counts_after faults calls counts)
      ≡ injected_count name counts + faults_of name faults calls counts
unfolding counts_after faults_of
counted_from faults name [] counts = omega arith
counted_from faults name ((operation, kind) ∷ calls) counts = omega (
  arith,
  counted_from faults name calls (should_fault faults operation kind counts).1,
  injected_count-should_fault faults name operation kind counts,
)

injected_count-reset : (name : String) → injected_count name reset ≡ 0
unfolding injected_count reset
injected_count-reset name = refl

-- `InjectedCount` of an operation is the number of calls of this operation that were answered with
-- a fault since the counters were reset, whatever the faults and the calls are.
pub injected_count-counts_after :
    (faults : List FaultConfig) (name : String) (calls : Calls)
    → injected_count name (counts_after faults calls reset) ≡ faults_of name faults calls reset
injected_count-counts_after faults name calls =
    omega (arith, counted_from faults name calls reset, injected_count-reset name)

-- Every fault of an operation is limited, to so many injections at most.
abbrev pub AreLimited : ℕ → String → List FaultConfig → Type 0
AreLimited m name [] = Unit
AreLimited m name (f ∷ faults) =
    ((f.operation ≢ name) ⊎ ((pos 1 ≤ℤ f.count) × (f.count ≤ℤ pos m))) × AreLimited m name faults

limit_kept :
    (m : ℕ) (faults : List FaultConfig) (name operation kind : String) (counts : Counts)
    → AreLimited m name faults
    → injected_count name counts ≤ m
    → injected_count name (should_fault faults operation kind counts).1 ≤ m
unfolding should_fault passes_over
limit_kept m [] name operation kind counts h k = k
limit_kept m (f ∷ faults) name operation kind counts h k = ground (
  arith,
  limit_kept m faults name operation kind counts h.1 k,
  h.0,
  injected_count-increment name operation counts,
  eq_iff f.operation operation,
  eq_iff operation name,
)

limit_kept_after :
    (m : ℕ) (faults : List FaultConfig) (name : String) (calls : Calls) (counts : Counts)
    → AreLimited m name faults
    → injected_count name counts ≤ m
    → injected_count name (counts_after faults calls counts) ≤ m
unfolding counts_after
limit_kept_after m faults name [] counts h k = k
limit_kept_after m faults name ((operation, kind) ∷ calls) counts h k =
    limit_kept_after m faults name calls _ h (limit_kept m faults name operation kind counts h k)

-- Where every fault of an operation has a count from 1 to `m`, at most `m` calls of the operation
-- are answered with a fault, however many faults there are: they share one counter, so that two
-- faults with a count of one inject one fault between them.
pub faults_of_bounded :
    (m : ℕ) (faults : List FaultConfig) (name : String) (calls : Calls)
    → AreLimited m name faults
    → faults_of name faults calls reset ≤ m
faults_of_bounded m faults name calls h = omega (
  arith,
  injected_count-counts_after faults name calls,
  injected_count-reset name,
  limit_kept_after m faults name calls reset h (omega (arith, injected_count-reset name)),
)
