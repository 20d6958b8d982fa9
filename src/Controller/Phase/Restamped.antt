-- ===== src/Controller/Phase/Restamped.antt =====
-- What becomes of the time of the Progressing condition in `setConditions`
-- (internal/controller/platformapplication_controller.go).
use kubernetes_operators.Common.{
  ℕ, String, ◌≡◌, ◌≢◌, refl, Bool-cases, inl, inr, sym, ◌∙◌, Option, none, some, arith, eq_iff,
}
use kubernetes_operators.Api.Meta.{Condition}
use kubernetes_operators.Api.V1alpha1.{
  PlatformApplication, PlatformApplicationStatus, condition_ready, condition_progressing,
  condition_degraded, condition_configuration_valid,
}
use kubernetes_operators.Status.{
  set_condition, set_ready, set_progressing, set_degraded, set_configuration_valid,
}
use kubernetes_operators.Status.Conditions.{find, Says, set_condition-find, set_condition_stamps}
use kubernetes_operators.Cluster.Client.{Client, Result, success, failure}
use kubernetes_operators.Steps.Reporting.{conditions_at}
use kubernetes_operators.Controller.Phase.{
  find-set_ne, ready_ne_progressing, degraded_ne_progressing, has_replicas,
}

-- Setting a condition to another reason stamps it.
restamped :
    (now : ℕ) (t st reason message : String) (s : PlatformApplicationStatus) (o : Option Condition)
    (st' reason' message' : String)
    → find t s.conditions ≡ o
    → Says o st' reason' message'
    → reason' ≢ reason
    → (d : Condition) × (find t (set_condition now t st reason message s).conditions ≡ some d)
      × (d.last_transition_time ≡ now)
restamped now t st reason message s none st' reason' message' f h ne = absurd h
restamped now t st reason message s (some k) st' reason' message' f h ne = (
  record k { status = st; reason = reason; message = message; last_transition_time = now },
  set_condition_stamps now t st reason message s f (λ g. ne (sym h.1 ∙ g.1)),
  refl,
)

-- The two conditions that `Reconcile` sets first.
abbrev pub started_status : ℕ → ℕ → PlatformApplicationStatus → PlatformApplicationStatus
started_status t u s =
    set_configuration_valid u "True" "Valid" "Configuration is valid"
      (set_progressing t "True" "Reconciling" "Reconciliation in progress" s)

valid_ne_progressing : ◌≢◌ {A = String} "ConfigurationValid" "Progressing"
valid_ne_progressing = ground (arith, eq_iff "ConfigurationValid" "Progressing")

started-Says :
    (t u : ℕ) (s : PlatformApplicationStatus)
    → Says
        (find condition_progressing (started_status t u s).conditions)
        "True"
        "Reconciling"
        "Reconciliation in progress"
unfolding set_progressing set_configuration_valid
started-Says t u s =
    let s₁ =
      set_condition t condition_progressing "True" "Reconciling" "Reconciliation in progress" s in
    rw
      (find-set_ne u condition_configuration_valid "True" "Valid" "Configuration is valid"
        condition_progressing s₁ valid_ne_progressing)
      (set_condition-find t condition_progressing "True" "Reconciling" "Reconciliation in progress"
        condition_progressing s).0

restamped_three :
    (t₀ u₀ t u v : ℕ) (p p' p'' d d' d'' r r' r'' : String) (status s : PlatformApplicationStatus)
    → status.conditions ≡ (started_status t₀ u₀ s).conditions
    → "Reconciling" ≢ p'
    → (k : Condition) × (find condition_progressing
          (set_ready v r r' r''
            (set_degraded u d d' d'' (set_progressing t p p' p'' status))).conditions
        ≡ some k)
      × (k.last_transition_time ≡ t)
unfolding set_ready set_degraded set_progressing
restamped_three t₀ u₀ t u v p p' p'' d d' d'' r r' r'' status s e ne =
    let s₁ = set_condition t condition_progressing p p' p'' status in
    let s₂ = set_condition u condition_degraded d d' d'' s₁ in
    let (k, f, g) =
      restamped t condition_progressing p p' p'' status
        (find condition_progressing status.conditions) "True" "Reconciling"
        "Reconciliation in progress" refl (rw e (started-Says t₀ u₀ s)) ne in
    (
      k,
      find-set_ne v condition_ready r r' r'' condition_progressing s₂ ready_ne_progressing
          ∙ find-set_ne u condition_degraded d d' d'' condition_progressing s₁
              degraded_ne_progressing
          ∙ f,
      g,
    )

module _ {F S : Type 0} (c : Client F S) where
  -- The transition time of the Progressing condition after every reconciliation that reaches
  -- `setConditions`, whatever its outcome and whatever the condition said before: it is the time
  -- of that call, because `Reconcile` has set the condition to another reason at its start. So an
  -- application in which nothing has changed gets a new status at each reconciliation.
  pub progressing_always_restamped :
      (t₀ u₀ t u v : ℕ) (app : PlatformApplication) (s : PlatformApplicationStatus)
      (outcome : Result F Unit)
      → app.status.conditions ≡ (started_status t₀ u₀ s).conditions
      → (d : Condition) × (find condition_progressing (conditions_at c t u v app outcome).conditions
          ≡ some d)
        × (d.last_transition_time ≡ t)
  unfolding conditions_at
  progressing_always_restamped t₀ u₀ t u v app s (failure e) h =
      restamped_three t₀ u₀ t u v _ _ _ _ _ _ _ _ _ app.status s h
        (ground (arith, eq_iff "Reconciling" "ReconcileError"))
  progressing_always_restamped t₀ u₀ t u v app s (success x) h =
      elim (Bool-cases (has_replicas app)) [
        | inl enough ↦ rw enough (
            restamped_three t₀ u₀ t u v _ _ _ _ _ _ _ _ _ app.status s h
              (ground (arith, eq_iff "Reconciling" "Deployed")))
        | inr few ↦ rw few (
            restamped_three t₀ u₀ t u v _ _ _ _ _ _ _ _ _ app.status s h
              (ground (arith, eq_iff "Reconciling" "Deploying")))
      ]
