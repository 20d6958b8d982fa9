-- ===== src/Cluster/Keeps.antt =====
-- What an action keeps, with one rule for each way to build an action.
use kubernetes_operators.Common.{◌≡◌, refl, Bool, true, false, Option, none, some, if◌then◌else◌}
use kubernetes_operators.Errors.{Error}
use kubernetes_operators.Cluster.Client.{Result}
use kubernetes_operators.Cluster.Exec
use kubernetes_operators.Cluster.Exec.{
  Effect, World, Outcome, ok, err, panic, Exec, outcome, pure, raise, or_panic, call, reads,
  attempt, emit, ◌>>=◌, deferring,
}

-- From a world of `P`, `m` ends in a world of `P`, however it ends.
pub record Keeps {F S A : Type 0} (P : World S → Type 0) (m : Exec F S A) : Type 0 where
  pub at : (w : World S) → P w → P (m w).1

module _ {F S A : Type 0} {P : World S → Type 0} where
  pub Keeps-pure : (a : A) → Keeps {F = F} {S = S} P (pure a)
  unfolding pure
  Keeps-pure a = record { at = λ w h. h }

  pub Keeps-raise : (e : Error F) → Keeps {S = S} {A = A} P (raise e)
  unfolding raise
  Keeps-raise e = record { at = λ w h. h }

  pub Keeps-or_panic : (o : Option A) → Keeps {F = F} {S = S} P (or_panic o)
  unfolding or_panic
  Keeps-or_panic none = record { at = λ w h. h }
  Keeps-or_panic (some a) = record { at = λ w h. h }

  pub Keeps-call :
      (f : S → Result F A × S)
      → ((w : World S) → P w → P (record w { api = (f w.api).1 }))
      → Keeps P (call f)
  unfolding call
  Keeps-call f h = record { at = h }

  pub Keeps-reads :
      (f : S → A × S)
      → ((w : World S) → P w → P (record w { api = (f w.api).1 }))
      → Keeps {F = F} P (reads f)
  unfolding reads
  Keeps-reads f h = record { at = h }

  pub Keeps-attempt : (m : Exec F S A) → Keeps P m → Keeps P (attempt m)
  unfolding attempt
  Keeps-attempt m k = record { at = k.at }

  pub Keeps-if :
      (b : Bool) (m n : Exec F S A) → Keeps P m → Keeps P n → Keeps P (if b then m else n)
  Keeps-if true m n km kn = km
  Keeps-if false m n km kn = kn

module _ {F S A B : Type 0} where
  Keeps-continue :
      (P : World S → Type 0) (o : Outcome F A) (f : A → Exec F S B) (w : World S)
      → P w
      → ((a : A) → o ≡ ok a → P (f a w).1)
      → P (Exec.continue o f w).1
  Keeps-continue P (ok a) f w h k = k a refl
  Keeps-continue P (err e) f w h k = h
  Keeps-continue P panic f w h k = h

module _ {F S A B : Type 0} {P : World S → Type 0} where
  pub Keeps-bind :
      (first : Exec F S A) (next : A → Exec F S B)
      → Keeps P first
      → ((x : A) → Keeps P (next x))
      → Keeps P (first >>= next)
  unfolding ◌>>=◌
  Keeps-bind first next before after = record {
    at = λ w held.
        let kept = before.at w held in
        Keeps-continue P (first w).0 next (first w).1 kept (λ x _. (after x).at (first w).1 kept);
  }

  pub Keeps-deferring :
      (d : Exec F S B) (m : Exec F S A) → Keeps P d → Keeps P m → Keeps P (deferring d m)
  unfolding deferring
  Keeps-deferring d m kd km = record { at = λ w h. kd.at (m w).1 (km.at w h) }

pub ruleset keeps_rules =
    (Keeps-pure, Keeps-raise, Keeps-or_panic, Keeps-attempt, Keeps-if, Keeps-bind)
