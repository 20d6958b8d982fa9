-- ===== src/Cluster/Raises.antt =====
-- Which errors an action may end with, with one rule for each way to build an action.
use kubernetes_operators.Common.{◌≡◌, refl, Bool, true, false, Option, none, some, if◌then◌else◌}
use kubernetes_operators.Errors.{Error}
use kubernetes_operators.Cluster.Client.{Result, success, failure}
use kubernetes_operators.Cluster.Exec
use kubernetes_operators.Cluster.Exec.{
  Effect, World, Outcome, ok, err, panic, Exec, pure, raise, or_panic, call, reads, attempt, emit,
  ◌>>=◌, deferring,
}

-- The error, if it is one, satisfies `Q`.
abbrev pub Bad : {F A : Type 0} → (Error F → Type 0) → Outcome F A → Type 0
Bad Q (ok a) = Unit
Bad Q (err e) = Q e
Bad Q panic = Unit

abbrev pub BadResult : {F A : Type 0} → (Error F → Type 0) → Result F A → Type 0
BadResult Q (success a) = Unit
BadResult Q (failure e) = Q e

-- Every error that `m` ends with satisfies `Q`.
pub record Raises {F S A : Type 0} (Q : Error F → Type 0) (m : Exec F S A) : Type 0 where
  pub at : (w : World S) → Bad Q (m w).0

outcome-Bad :
    {F A : Type 0} (Q : Error F → Type 0) (r : Result F A) → BadResult Q r → Bad Q (Exec.outcome r)
outcome-Bad Q (success a) h = tt
outcome-Bad Q (failure e) h = h

module _ {F S A : Type 0} {Q : Error F → Type 0} where
  pub Raises-pure : (a : A) → Raises {S = S} Q (pure a)
  unfolding pure
  Raises-pure a = record { at = λ w. tt }

  pub Raises-raise : (e : Error F) → Q e → Raises {S = S} {A = A} Q (raise e)
  unfolding raise
  Raises-raise e h = record { at = λ w. h }

  pub Raises-or_panic : (o : Option A) → Raises {S = S} Q (or_panic o)
  unfolding or_panic
  Raises-or_panic none = record { at = λ w. tt }
  Raises-or_panic (some a) = record { at = λ w. tt }

  pub Raises-call : (f : S → Result F A × S) → ((s : S) → BadResult Q (f s).0) → Raises Q (call f)
  unfolding call
  Raises-call f h = record { at = λ w. outcome-Bad Q (f w.api).0 (h w.api) }

  pub Raises-reads : (f : S → A × S) → Raises {F = F} Q (reads f)
  unfolding reads
  Raises-reads f = record { at = λ w. tt }

  pub Raises-if :
      (b : Bool) (m n : Exec F S A) → Raises Q m → Raises Q n → Raises Q (if b then m else n)
  Raises-if true m n km kn = km
  Raises-if false m n km kn = kn

module _ {F S : Type 0} {Q : Error F → Type 0} where
  pub Raises-emit : (e : Effect) → Raises {F = F} {S = S} Q (emit e)
  unfolding emit
  Raises-emit e = record { at = λ w. tt }

module _ {F S A B : Type 0} where
  Raises-continue :
      (Q : Error F → Type 0) (o : Outcome F A) (f : A → Exec F S B) (w : World S)
      → Bad Q o
      → ((a : A) → o ≡ ok a → Bad Q (f a w).0)
      → Bad Q (Exec.continue o f w).0
  Raises-continue Q (ok a) f w h k = k a refl
  Raises-continue Q (err e) f w h k = h
  Raises-continue Q panic f w h k = h

  Raises-attempted :
      (P Q : Error F → Type 0) (o : Outcome F A) (f : Result F A → Exec F S B) (w : World S)
      → Bad P o
      → ((r : Result F A) → BadResult P r → Bad Q (f r w).0)
      → Bad Q (Exec.continue (Exec.attempted o) f w).0
  Raises-attempted P Q (ok a) f w h k = k (success a) tt
  Raises-attempted P Q (err e) f w h k = k (failure e) h
  Raises-attempted P Q panic f w h k = tt

module _ {F S A B : Type 0} {Q : Error F → Type 0} where
  pub Raises-bind :
      (m : Exec F S A) (f : A → Exec F S B)
      → Raises Q m
      → ((a : A) → Raises Q (f a))
      → Raises Q (m >>= f)
  unfolding ◌>>=◌
  Raises-bind m f km kf = record {
    at = λ w. Raises-continue Q (m w).0 f (m w).1 (km.at w) (λ a _. (kf a).at (m w).1);
  }

  -- After `attempt m` the rest knows what the error may be.
  pub Raises-bind-attempt :
      (P : Error F → Type 0) (m : Exec F S A) (f : Result F A → Exec F S B)
      → Raises P m
      → ((r : Result F A) → BadResult P r → Raises Q (f r))
      → Raises Q (attempt m >>= f)
  unfolding ◌>>=◌ attempt
  Raises-bind-attempt P m f km kf = record {
    at = λ w. Raises-attempted P Q (m w).0 f (m w).1 (km.at w) (λ r h. (kf r h).at (m w).1);
  }

module _ {F S A B : Type 0} {Q : Error F → Type 0} where
  -- After a call that cannot fail the rest knows where its value comes from.
  pub Raises-bind-reads :
      (f : S → A × S) (g : A → Exec F S B)
      → ((a : A) (s : S) → (f s).0 ≡ a → Raises Q (g a))
      → Raises Q (reads f >>= g)
  unfolding ◌>>=◌ reads
  Raises-bind-reads f g k = record {
    at = λ w. (k (f w.api).0 w.api refl).at (record w { api = (f w.api).1 });
  }

pub ruleset raises_rules =
    (Raises-pure, Raises-raise, Raises-or_panic, Raises-reads, Raises-if, Raises-emit, Raises-bind)
