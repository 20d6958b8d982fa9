-- ===== src/Cluster/Costs.antt =====
-- What an action costs at most, with one rule for each way to build an action.
use kubernetes_operators.Common.{
  ℕ, ◌+◌, ◌≤◌, Bool, true, false, Option, none, some, arith, if◌then◌else◌,
}
use kubernetes_operators.Errors.{Error}
use kubernetes_operators.Cluster.Client.{Result}
use kubernetes_operators.Cluster.Exec
use kubernetes_operators.Cluster.Exec.{
  Effect, World, Outcome, ok, err, panic, Exec, pure, raise, or_panic, call, reads, attempt, emit,
  ◌>>=◌, deferring,
}

-- However it ends, `m` raises what is `spent` by `n` at most.
pub record Costs {F S A : Type 0} (spent : S → ℕ) (n : ℕ) (m : Exec F S A) : Type 0 where
  pub at : (w : World S) → spent (m w).1.api ≤ spent w.api + n

module _ {F S A : Type 0} {spent : S → ℕ} {n : ℕ} where
  pub Costs-pure : (a : A) → Costs {F = F} spent n (pure a)
  unfolding pure
  Costs-pure a = record { at = λ w. omega arith }

  pub Costs-raise : (e : Error F) → Costs {A = A} spent n (raise e)
  unfolding raise
  Costs-raise e = record { at = λ w. omega arith }

  pub Costs-or_panic : (o : Option A) → Costs {F = F} spent n (or_panic o)
  unfolding or_panic
  Costs-or_panic none = record { at = λ w. omega arith }
  Costs-or_panic (some a) = record { at = λ w. omega arith }

  pub Costs-call :
      (f : S → Result F A × S) → ((s : S) → spent (f s).1 ≤ spent s + n) → Costs spent n (call f)
  unfolding call
  Costs-call f h = record { at = λ w. h w.api }

  pub Costs-reads :
      (f : S → A × S) → ((s : S) → spent (f s).1 ≤ spent s + n) → Costs {F = F} spent n (reads f)
  unfolding reads
  Costs-reads f h = record { at = λ w. h w.api }

  pub Costs-attempt : (m : Exec F S A) → Costs spent n m → Costs spent n (attempt m)
  unfolding attempt
  Costs-attempt m k = record { at = k.at }

  pub Costs-if :
      (b : Bool) (m m' : Exec F S A)
      → Costs spent n m
      → Costs spent n m'
      → Costs spent n (if b then m else m')
  Costs-if true m m' h h' = h
  Costs-if false m m' h h' = h'

  pub Costs-at_most : (k : ℕ) (m : Exec F S A) → Costs spent k m → k ≤ n → Costs spent n m
  Costs-at_most k m h le = record { at = λ w. omega (arith, h.at w, le) }

module _ {F S : Type 0} {spent : S → ℕ} {n : ℕ} where
  pub Costs-emit : (e : Effect) → Costs {F = F} spent n (emit e)
  unfolding emit
  Costs-emit e = record { at = λ w. omega arith }

module _ {F S A B : Type 0} {spent : S → ℕ} {n : ℕ} where
  Costs-continue :
      (o : Outcome F A) (f : A → Exec F S B) (w : World S)
      → ((a : A) → Costs spent n (f a))
      → spent (Exec.continue o f w).1.api ≤ spent w.api + n
  Costs-continue (ok a) f w h = (h a).at w
  Costs-continue (err e) f w h = omega arith
  Costs-continue panic f w h = omega arith

module _ {F S A B : Type 0} {spent : S → ℕ} where
  pub Costs-bind :
      (n k : ℕ) (m : Exec F S A) (f : A → Exec F S B)
      → Costs spent n m
      → ((a : A) → Costs spent k (f a))
      → Costs spent (n + k) (m >>= f)
  unfolding ◌>>=◌
  Costs-bind n k m f h h' = record {
    at = λ w. omega (arith, h.at w, Costs-continue (m w).0 f (m w).1 h');
  }

module _ {F S A B : Type 0} {spent : S → ℕ} {n : ℕ} where
  -- The first action costs nothing.
  pub Costs-after :
      (m : Exec F S A) (f : A → Exec F S B)
      → Costs spent 0 m
      → ((a : A) → Costs spent n (f a))
      → Costs spent n (m >>= f)
  Costs-after m f h h' = Costs-at_most (0 + n) _ (Costs-bind 0 n m f h h') (omega arith)

  -- The rest costs nothing.
  pub Costs-before :
      (m : Exec F S A) (f : A → Exec F S B)
      → Costs spent n m
      → ((a : A) → Costs spent 0 (f a))
      → Costs spent n (m >>= f)
  Costs-before m f h h' = Costs-at_most (n + 0) _ (Costs-bind n 0 m f h h') (omega arith)

  pub Costs-deferring :
      (d : Exec F S B) (m : Exec F S A)
      → Costs spent 0 d
      → Costs spent n m
      → Costs spent n (deferring d m)
  unfolding deferring
  Costs-deferring d m hd h = record { at = λ w. omega (arith, h.at w, hd.at (m w).1) }

pub ruleset free_rules =
    (Costs-pure, Costs-raise, Costs-or_panic, Costs-emit, Costs-attempt, Costs-if, Costs-after)
