-- ===== src/Status.antt =====
-- internal/status/conditions.go. `now` is the value of `time.Now()` at the call.
pub mod Conditions
use kubernetes_operators.Common.{ℕ, String, Bool, not, ◌||◌, List, [], ◌∷◌, ◌==◌, if◌then◌else◌}
use kubernetes_operators.Common.Int.{pos}
use kubernetes_operators.Api.Meta.{Condition}
use kubernetes_operators.Api.V1alpha1.{
  PlatformApplicationStatus, condition_ready, condition_progressing, condition_degraded,
  condition_configuration_valid,
}

-- The body of the loop at the condition of that type: it is written only if something differs.
unfoldable pub update_condition : ℕ → String → String → String → Condition → Condition
update_condition now cond_status reason message c =
    if not (c.status == cond_status) || (not (c.reason == reason) || not (c.message == message))
    then record c {
      status = cond_status;
      reason = reason;
      message = message;
      last_transition_time = now;
    }
    else c

-- The condition that is appended.
unfoldable pub new_condition : ℕ → String → String → String → String → Condition
new_condition now condition_type cond_status reason message = record {
  type = condition_type;
  status = cond_status;
  observed_generation = pos 0;
  last_transition_time = now;
  reason = reason;
  message = message;
}

-- The loop over `status.Conditions`, which returns at the first condition of the type, and the
-- append after it.
unfoldable pub set_in : ℕ → String → String → String → String → List Condition → List Condition
set_in now condition_type cond_status reason message [] =
    new_condition now condition_type cond_status reason message ∷ []
set_in now condition_type cond_status reason message (c ∷ cs) =
    if c.type == condition_type
    then update_condition now cond_status reason message c ∷ cs
    else c ∷ set_in now condition_type cond_status reason message cs

unfoldable pub set_condition :
    ℕ → String → String → String → String → PlatformApplicationStatus → PlatformApplicationStatus
set_condition now condition_type cond_status reason message status = record status {
  conditions = set_in now condition_type cond_status reason message status.conditions;
}

unfoldable pub set_ready :
    ℕ → String → String → String → PlatformApplicationStatus → PlatformApplicationStatus
set_ready now = set_condition now condition_ready

unfoldable pub set_progressing :
    ℕ → String → String → String → PlatformApplicationStatus → PlatformApplicationStatus
set_progressing now = set_condition now condition_progressing

unfoldable pub set_degraded :
    ℕ → String → String → String → PlatformApplicationStatus → PlatformApplicationStatus
set_degraded now = set_condition now condition_degraded

unfoldable pub set_configuration_valid :
    ℕ → String → String → String → PlatformApplicationStatus → PlatformApplicationStatus
set_configuration_valid now = set_condition now condition_configuration_valid

-- The loop of `IsReady`.
unfoldable pub ready_in : List Condition → Bool
ready_in [] = Bool.false
ready_in (c ∷ cs) = if c.type == condition_ready then c.status == "True" else ready_in cs

unfoldable pub is_ready : PlatformApplicationStatus → Bool
unfolding ready_in
is_ready status = ready_in status.conditions
