-- ===== src/Examples/Applies.antt =====
-- Runs of `Apply` on the clients of the fixtures.
use kubernetes_operators.Common.{ℕ, ◌≡◌, inr, refl, arith}
use kubernetes_operators.Errors.{Error, foreign, wrapped, as_error, classify_or_wrap}
use kubernetes_operators.Cluster.Exec.{
  resource_apply_total, World, ok, err, pure, raise, call, reads, attempt, emit, ◌>>=◌,
}
use kubernetes_operators.Metrics.{observe_api_call, observe_noop_apply}
use kubernetes_operators.Subreconcilers.Apply.{
  unchanged, updated, apply_result_text, max_apply_retries, resource_kind, update_existing,
  apply_once, back_off, apply_from,
}
use kubernetes_operators.Subreconcilers.Apply.Attempts.{
  Conflicts, start, round, logged, recovers_from_conflicts, gives_up,
}
use kubernetes_operators.Subreconcilers.Apply.Outcomes.{Wrote, apply_once-Wrote}
use kubernetes_operators.Examples.Fixtures.{
  Fault, clash, refused, fault_errors, found, steady, contended, forbidding, start_world,
}

settled_once : (apply_once steady found start_world).0 ≡ ok unchanged
unfolding apply_once update_existing ◌>>=◌ attempt call pure emit observe_noop_apply
settled_once = refl

apply_once-Wrote_example :
    Wrote steady found start_world.api unchanged (apply_once steady found start_world).1.api
apply_once-Wrote_example = apply_once-Wrote steady found start_world unchanged settled_once

abbrev clashed : Error Fault
clashed = wrapped "applying Deployment prod/shop" (foreign clash)

abbrev after_clash : World ℕ
after_clash = (apply_once contended found start_world).1

abbrev after_wait : World ℕ
after_wait = (back_off contended 1 after_clash).1

abbrev after_retry : World ℕ
after_retry = (apply_once contended found after_wait).1

no_wait : back_off contended 0 start_world ≡ (ok tt, start_world)
unfolding back_off pure
no_wait = refl

first_clash : apply_once contended found start_world ≡ (err clashed, after_clash)
unfolding apply_once update_existing ◌>>=◌ attempt call raise emit observe_api_call resource_kind
first_clash = refl

one_conflict : Conflicts contended found start_world 1 after_clash
one_conflict = round start no_wait first_clash refl

waited : back_off contended 1 after_clash ≡ (ok tt, after_wait)
unfolding back_off reads pure ◌>>=◌
waited = refl

retried : apply_once contended found after_wait ≡ (ok updated, after_retry)
unfolding apply_once update_existing ◌>>=◌ attempt call pure raise emit observe_api_call
    resource_kind back_off reads
retried = refl

recovers_from_conflicts_example : apply_from contended max_apply_retries 0 found start_world ≡ (
  ok updated,
  logged
      (resource_apply_total (resource_kind "Deployment") (apply_result_text updated))
      after_retry,
)
recovers_from_conflicts_example =
    recovers_from_conflicts contended found after_wait after_retry updated one_conflict
      (omega arith) waited retried

abbrev refused_patch : Error Fault
refused_patch = wrapped "applying Deployment prod/shop" (foreign refused)

abbrev after_refusal : World ℕ
after_refusal = (apply_once forbidding found start_world).1

no_wait_forbidding : back_off forbidding 0 start_world ≡ (ok tt, start_world)
unfolding back_off pure
no_wait_forbidding = refl

first_refusal : apply_once forbidding found start_world ≡ (err refused_patch, after_refusal)
unfolding apply_once update_existing ◌>>=◌ attempt call raise emit observe_api_call resource_kind
first_refusal = refl

gives_up_example : apply_from forbidding max_apply_retries 0 found start_world ≡ (
  err (as_error (classify_or_wrap fault_errors refused_patch "shop" "Deployment")),
  logged (resource_apply_total (resource_kind "Deployment") "error") after_refusal,
)
gives_up_example =
    gives_up forbidding found start_world after_refusal refused_patch start (omega arith) (inr refl)
      no_wait_forbidding first_refusal
