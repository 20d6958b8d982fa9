-- ===== src/Fakeclient/Conflicts.antt =====
-- What `Apply` does with an injected conflict.
use kubernetes_operators.Common.{String, ◌≡◌, refl, ap, ◌∙◌, inr, false, [], ◌∷◌, arith, concat}
use kubernetes_operators.Common.Int.{pos}
use kubernetes_operators.Errors.{Error, foreign, wrapped, as_error, classify_or_wrap}
use kubernetes_operators.Cluster.Objects.{Object, Resource, resource_of}
use kubernetes_operators.Cluster.Client.{Client, success}
use kubernetes_operators.Cluster.Exec.{World, ok, err, pure, raise, call, attempt, emit, ◌>>=◌}
use kubernetes_operators.Metrics.{observe_api_call}
use kubernetes_operators.Subreconcilers.Apply.{
  max_apply_retries, key_of, update_existing, apply_once, back_off, apply_from,
}
use kubernetes_operators.Subreconcilers.Apply.Attempts.{start, gives_up}
use kubernetes_operators.Fakeclient.{
  FaultConfig, fault_conflict, FaultError, Counts, make_fault_error, passes_over, should_fault,
  intercept, new_interceptor,
}

-- "every patch meets a conflict"
abbrev pub patch_conflict : FaultConfig
patch_conflict = record {
  operation = "patch";
  resource_kind = "";
  fault = fault_conflict;
  count = pos 0;
}

module _ {F S : Type 0} (as_foreign : FaultError → F) (type_name : Resource → String)
    (app_type : String) (c : Client F S) where
  abbrev pub conflicting : Client F (S × Counts)
  conflicting = new_interceptor as_foreign type_name app_type c (patch_conflict ∷ [])

  -- The error of a patch, with the words of `applyOnce` before it.
  abbrev pub injected : String → Error F
  injected words = wrapped words (foreign (as_foreign (make_fault_error patch_conflict)))

  first_attempt :
      (desired existing : Object) (w : World (S × Counts))
      → (c.get (resource_of desired.body) (key_of desired) w.api.0).0 ≡ success existing
      → c.deep_equal existing desired ≡ false
      → (words : String) × (v : World (S × Counts)) × (apply_once conflicting desired w
          ≡ (err (injected words), v))
        × (v.api.0 ≡ (c.get (resource_of desired.body) (key_of desired) w.api.0).1)
  unfolding apply_once update_existing ◌>>=◌ attempt call raise emit observe_api_call
      new_interceptor intercept should_fault passes_over
  first_attempt desired existing w g d = (
    concat (
        "applying" ∷ " " ∷ desired.type_meta.kind ∷ " " ∷ desired.meta.namespace ∷ "/"
        ∷ desired.meta.name ∷ []),
    (apply_once conflicting desired w).1,
    rw (g, d),
    rw (g, d),
  )

  no_wait : (w : World (S × Counts)) → back_off conflicting 0 w ≡ (ok tt, w)
  unfolding back_off pure
  no_wait w = refl

  -- A conflict that the interceptor injects into every patch is not retried, where the API
  -- server's test for conflicts knows nothing of the error that the interceptor makes: `Apply`
  -- ends after one round with that error, classified, and the wrapped client has seen one read.
  pub injected_conflict_not_retried :
      (desired existing : Object) (w : World (S × Counts))
      → ((words : String) → c.errors.is_conflict (injected words) ≡ false)
      → (c.get (resource_of desired.body) (key_of desired) w.api.0).0 ≡ success existing
      → c.deep_equal existing desired ≡ false
      → let applied = apply_from conflicting max_apply_retries 0 desired w in
        (words : String) × (applied.0
          ≡ err (
              as_error (
                classify_or_wrap c.errors
                  (injected words)
                  desired.meta.name
                  desired.type_meta.kind)))
        × (applied.1.api.0 ≡ (c.get (resource_of desired.body) (key_of desired) w.api.0).1)
  unfolding new_interceptor
  injected_conflict_not_retried desired existing w unknown g d =
      let (words, v, once, seen) = first_attempt desired existing w g d in
      let ended =
        gives_up conflicting desired w v (injected words) start (omega arith) (inr (unknown words))
          (no_wait w) once in
      (words, ap (λ p. p.0) ended, ap (λ p. p.1.api.0) ended ∙ seen)
