-- ===== src/Subreconcilers/Apply/Attempts.antt =====
-- How often `Apply` tries.
use kubernetes_operators.Common.{
  ℕ, zero, suc, ◌+◌, ◌≤◌, ◌≡◌, refl, ◌∙◌, ◌-◌, ◌⊎◌, inl, inr, true, false, [], ◌∷◌, ◌++◌, arith,
}
use kubernetes_operators.Errors.{Error, as_error, classify_or_wrap}
use kubernetes_operators.Cluster.Objects.{Object}
use kubernetes_operators.Cluster.Client.{Client}
use kubernetes_operators.Cluster.Exec.{
  Effect, resource_apply_total, World, ok, err, pure, raise, emit, ◌>>=◌, bind-ok, attempt-ok,
  attempt-err,
}
use kubernetes_operators.Metrics.{observe_resource_apply}
use kubernetes_operators.Subreconcilers.Apply.{
  ApplyResult, apply_result_text, max_apply_retries, resource_kind, apply_once, back_off, give_up,
  conclude, apply_from,
}

abbrev pub logged : {S : Type 0} → Effect → World S → World S
logged e w = record w { log = w.log ++ e ∷ [] }

left_of_three : (left : ℕ) → left + 0 ≡ 3 → left ≡ 3
left_of_three left h = omega arith

module _ {F S : Type 0} (c : Client F S) (desired : Object) where
  -- So many rounds from the first that wait as they should, and then end in a conflict.
  pub data Conflicts (w : World S) : ℕ → World S → Type 0 where
    start : Conflicts w 0 w
    round :
        {n : ℕ} {v v₁ v₂ : World S} {e : Error F}
        → Conflicts w n v
        → back_off c n v ≡ (ok tt, v₁)
        → apply_once c desired v₁ ≡ (err e, v₂)
        → c.errors.is_conflict e ≡ true
        → Conflicts w (suc n) v₂

  conflict_round :
      (left n : ℕ) (v v₁ v₂ : World S) (e : Error F)
      → back_off c n v ≡ (ok tt, v₁)
      → apply_once c desired v₁ ≡ (err e, v₂)
      → c.errors.is_conflict e ≡ true
      → apply_from c (suc left) n desired v ≡ apply_from c left (suc n) desired v₂
  unfolding apply_from
  conflict_round left n v v₁ v₂ e b a k =
      bind-ok _ _ v v₁ tt b ∙ attempt-err _ _ v₁ v₂ e a ∙ unfold conclude in rw k

  after_conflicts :
      (w : World S) (left : ℕ) {n : ℕ} {v : World S}
      → left + n ≡ max_apply_retries
      → Conflicts w n v
      → apply_from c max_apply_retries 0 desired w ≡ apply_from c left n desired v
  after_conflicts w left s start = rw (left_of_three left s)
  after_conflicts w left s (round {n = n} {v = v} {v₁ = v₁} {v₂ = v₂} {e = e} k b a h) =
      after_conflicts w (suc left) (omega arith) k ∙ conflict_round left n v v₁ v₂ e b a h

  success_round :
      (left n : ℕ) (v v₁ v₂ : World S) (r : ApplyResult)
      → back_off c n v ≡ (ok tt, v₁)
      → apply_once c desired v₁ ≡ (ok r, v₂)
      → apply_from c left n desired v ≡ (
        ok r,
        logged
            (resource_apply_total (resource_kind desired.type_meta.kind) (apply_result_text r))
            v₂,
      )
  unfolding apply_from
  success_round zero n v v₁ v₂ r b a =
      bind-ok _ _ v v₁ tt b
      ∙ attempt-ok _ _ v₁ v₂ r a
      ∙ unfold conclude observe_resource_apply ◌>>=◌ emit pure in refl
  success_round (suc left) n v v₁ v₂ r b a =
      bind-ok _ _ v v₁ tt b
      ∙ attempt-ok _ _ v₁ v₂ r a
      ∙ unfold conclude observe_resource_apply ◌>>=◌ emit pure in refl

  -- After up to three rounds that end in a conflict, a round that succeeds decides: the loop
  -- returns its result, and records it once.
  pub recovers_from_conflicts :
      {n : ℕ} {w v : World S} (v₁ v₂ : World S) (r : ApplyResult)
      → Conflicts w n v
      → n ≤ max_apply_retries
      → back_off c n v ≡ (ok tt, v₁)
      → apply_once c desired v₁ ≡ (ok r, v₂)
      → apply_from c max_apply_retries 0 desired w ≡ (
        ok r,
        logged
            (resource_apply_total (resource_kind desired.type_meta.kind) (apply_result_text r))
            v₂,
      )
  recovers_from_conflicts {n} {w} {v} v₁ v₂ r k h b a =
      after_conflicts w (max_apply_retries - n) (omega arith) k
      ∙ success_round (max_apply_retries - n) n v v₁ v₂ r b a

  final_round :
      (left n : ℕ) (v v₁ v₂ : World S) (e : Error F)
      → (left ≡ 0) ⊎ (c.errors.is_conflict e ≡ false)
      → back_off c n v ≡ (ok tt, v₁)
      → apply_once c desired v₁ ≡ (err e, v₂)
      → apply_from c left n desired v ≡ give_up c desired e v₂
  unfolding apply_from
  final_round zero n v v₁ v₂ e h b a =
      bind-ok _ _ v v₁ tt b ∙ attempt-err _ _ v₁ v₂ e a ∙ unfold conclude in refl
  final_round (suc left) n v v₁ v₂ e (inl h) b a = absurd (omega arith)
  final_round (suc left) n v v₁ v₂ e (inr h) b a =
      bind-ok _ _ v v₁ tt b ∙ attempt-err _ _ v₁ v₂ e a ∙ unfold conclude in rw h

  -- The loop ends at the first error that is no conflict, and at the conflict of the fourth round:
  -- the error is classified with the object's name and kind, and recorded once.
  pub gives_up :
      {n : ℕ} {w v : World S} (v₁ v₂ : World S) (e : Error F)
      → Conflicts w n v
      → n ≤ max_apply_retries
      → (n ≡ max_apply_retries) ⊎ (c.errors.is_conflict e ≡ false)
      → back_off c n v ≡ (ok tt, v₁)
      → apply_once c desired v₁ ≡ (err e, v₂)
      → apply_from c max_apply_retries 0 desired w ≡ (
        err (as_error (classify_or_wrap c.errors e desired.meta.name desired.type_meta.kind)),
        logged (resource_apply_total (resource_kind desired.type_meta.kind) "error") v₂,
      )
  gives_up {n} {w} {v} v₁ v₂ e k h last b a =
      after_conflicts w (max_apply_retries - n) (omega arith) k
      ∙ final_round (max_apply_retries - n) n v v₁ v₂ e (last_round n h last) b a
      ∙ unfold give_up observe_resource_apply ◌>>=◌ emit raise in refl
    where
      last_round :
          (n : ℕ)
          → n ≤ max_apply_retries
          → (n ≡ max_apply_retries) ⊎ (c.errors.is_conflict e ≡ false)
          → (max_apply_retries - n ≡ 0) ⊎ (c.errors.is_conflict e ≡ false)
      last_round n h (inl p) = inl (omega arith)
      last_round n h (inr p) = inr p
