-- ===== src/Controller/Phase.antt =====
-- What the conditions say after a reconciliation.
pub mod Restamped
use kubernetes_operators.Common.{
  ℕ, String, ◌≡◌, ◌≢◌, refl, Bool-cases, inl, inr, sym, ap, ◌∙◌, Bool, true, false, Option, none,
  some, arith, eq_iff, ◌&&◌, not, if◌then◌else◌,
}
use kubernetes_operators.Common.Int.{leb_ℤ}
use kubernetes_operators.Api.Meta.{Condition}
use kubernetes_operators.Api.V1alpha1.{
  PlatformApplication, PlatformApplicationStatus, condition_ready, condition_progressing,
  condition_degraded, condition_configuration_valid,
}
use kubernetes_operators.Status.{
  set_condition, set_ready, set_progressing, set_degraded, set_configuration_valid,
}
use kubernetes_operators.Status.Conditions.{find, Says, set_condition-find, set_condition_stamps}
use kubernetes_operators.Cluster.Client.{Client, Result, success, failure}
use kubernetes_operators.Steps.{finished, after, progress_check_delay}
use kubernetes_operators.Steps.Reporting.{conditions_at, conditions_result}

-- The status of the condition of a type.
abbrev pub status_of : Option Condition → Option String
status_of none = none
status_of (some c) = some c.status

abbrev pub reported : String → PlatformApplicationStatus → Option String
reported t s = status_of (find t s.conditions)

abbrev pub bool_text : Bool → String
bool_text true = "True"
bool_text false = "False"

abbrev pub succeeded : {F A : Type 0} → Result F A → Bool
succeeded (success a) = true
succeeded (failure e) = false

Says-status :
    (o : Option Condition) (st reason message : String)
    → Says o st reason message
    → status_of o ≡ some st
Says-status none st reason message h = absurd h
Says-status (some c) st reason message h = ap some h.0

-- Setting one condition sets what is reported of its type, and of no other.
reported-set :
    (now : ℕ) (t st reason message : String) (s : PlatformApplicationStatus)
    → reported t (set_condition now t st reason message s) ≡ some st
reported-set now t st reason message s =
    Says-status _ st reason message (set_condition-find now t st reason message t s).0

find-set_ne :
    (now : ℕ) (t st reason message j : String) (s : PlatformApplicationStatus)
    → t ≢ j
    → find j (set_condition now t st reason message s).conditions ≡ find j s.conditions
find-set_ne now t st reason message j s h =
    ground (arith, (set_condition-find now t st reason message j s).1, eq_iff t j)

ready_ne_progressing : ◌≢◌ {A = String} "Ready" "Progressing"
ready_ne_progressing = ground (arith, eq_iff "Ready" "Progressing")

ready_ne_degraded : ◌≢◌ {A = String} "Ready" "Degraded"
ready_ne_degraded = ground (arith, eq_iff "Ready" "Degraded")

degraded_ne_progressing : ◌≢◌ {A = String} "Degraded" "Progressing"
degraded_ne_progressing = ground (arith, eq_iff "Degraded" "Progressing")

-- The three conditions, set one after the other.
three_set :
    (t u v : ℕ) (p p' p'' d d' d'' r r' r'' : String) (s : PlatformApplicationStatus)
    → let s' = set_ready v r r' r'' (set_degraded u d d' d'' (set_progressing t p p' p'' s)) in
      (reported condition_progressing s' ≡ some p)
      × (reported condition_degraded s' ≡ some d)
      × (reported condition_ready s' ≡ some r)
      × ((j : String)
          → condition_progressing ≢ j
          → condition_degraded ≢ j
          → condition_ready ≢ j
          → find j s'.conditions ≡ find j s.conditions)
unfolding set_ready set_degraded set_progressing
three_set t u v p p' p'' d d' d'' r r' r'' s =
    let s₁ = set_condition t condition_progressing p p' p'' s in
    let s₂ = set_condition u condition_degraded d d' d'' s₁ in
    (
      ap status_of (
            find-set_ne v condition_ready r r' r'' condition_progressing s₂ ready_ne_progressing
            ∙ find-set_ne u condition_degraded d d' d'' condition_progressing s₁
                degraded_ne_progressing)
          ∙ reported-set t condition_progressing p p' p'' s,
      ap status_of (find-set_ne v condition_ready r r' r'' condition_degraded s₂ ready_ne_degraded)
          ∙ reported-set u condition_degraded d d' d'' s₁,
      reported-set v condition_ready r r' r'' s₂,
      λ j np nd nr.
          find-set_ne v condition_ready r r' r'' j s₂ nr
          ∙ find-set_ne u condition_degraded d d' d'' j s₁ nd
          ∙ find-set_ne t condition_progressing p p' p'' j s np,
    )

-- The application has as many ready replicas as its minimum.
abbrev pub has_replicas : PlatformApplication → Bool
has_replicas app = leb_ℤ app.spec.replicas.min app.status.ready_replicas

module _ {F S : Type 0} (c : Client F S) where
  -- On every outcome of a reconciliation: Ready is reported as true exactly if the children were
  -- reconciled and enough replicas are ready, Progressing exactly if they were reconciled and too
  -- few are ready, Degraded exactly if reconciling them failed; and a later check is asked for
  -- exactly where Progressing is true.
  pub conditions_by_outcome :
      (t u v : ℕ) (app : PlatformApplication) (outcome : Result F Unit)
      → let s = conditions_at c t u v app outcome in
        (reported condition_ready s ≡ some (bool_text (succeeded outcome && has_replicas app)))
        × (reported condition_progressing s
            ≡ some (bool_text (succeeded outcome && not (has_replicas app))))
        × (reported condition_degraded s ≡ some (bool_text (not (succeeded outcome))))
        × (conditions_result c app outcome ≡ (
            if succeeded outcome && not (has_replicas app)
            then after progress_check_delay
            else finished))
  unfolding conditions_at conditions_result
  conditions_by_outcome t u v app (failure e) =
      let (p, d, r, _) = three_set t u v "False" _ _ "True" _ _ "False" _ _ app.status in
      (r, p, d, refl)
  conditions_by_outcome t u v app (success x) = elim (Bool-cases (has_replicas app)) [
    | inl enough ↦
        let (p, d, r, _) = three_set t u v "False" _ _ "False" _ _ "True" _ _ app.status in
        rw enough (r, p, d, refl)
    | inr few ↦
        let (p, d, r, _) = three_set t u v "True" _ _ "False" _ _ "False" _ _ app.status in
        rw few (r, p, d, refl)
  ]

module _ {F S : Type 0} (c : Client F S) where
  -- Every condition of a type other than Ready, Progressing and Degraded is after `setConditions`
  -- what it was before, on both outcomes, also where several parties write conditions.
  pub other_conditions_kept :
      (t u v : ℕ) (app : PlatformApplication) (outcome : Result F Unit) (j : String)
      → condition_progressing ≢ j
      → condition_degraded ≢ j
      → condition_ready ≢ j
      → find j (conditions_at c t u v app outcome).conditions ≡ find j app.status.conditions
  unfolding conditions_at
  other_conditions_kept t u v app (failure e) j p d r =
      let (_, _, _, others) = three_set t u v "False" _ _ "True" _ _ "False" _ _ app.status in
      others j p d r
  other_conditions_kept t u v app (success x) j p d r = elim (Bool-cases (has_replicas app)) [
    | inl enough ↦
        let (_, _, _, others) = three_set t u v "False" _ _ "False" _ _ "True" _ _ app.status in
        rw enough (others j p d r)
    | inr few ↦
        let (_, _, _, others) = three_set t u v "True" _ _ "False" _ _ "False" _ _ app.status in
        rw few (others j p d r)
  ]
