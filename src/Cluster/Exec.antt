-- ===== src/Cluster/Exec.antt =====
-- Actions: what a function with a client, a recorder and the process's metrics does. The state is
-- the cluster's and the log of observable effects; a call returns, fails with an error, or panics.
use kubernetes_operators.Common.{String, Option, none, some, List, [], ◌∷◌, ◌++◌, ◌≡◌, refl}
use kubernetes_operators.Errors.{Error}
use kubernetes_operators.Cluster.Client.{Result, success, failure}

-- Metric samples (without measured durations), Kubernetes events, and tracing spans.
pub data Effect : Type 0 where
  reconcile_total reconcile_duration : (result : String) → Effect
  errors_total : (error_type error_class : String) → Effect
  sub_reconcile_total : (resource result : String) → Effect
  sub_reconcile_duration : (resource : String) → Effect
  resource_apply_total : (resource outcome : String) → Effect
  requeue_total : (reason : String) → Effect
  status_update_total : (result : String) → Effect
  api_call_duration : (operation resource : String) → Effect
  noop_apply_total : (resource : String) → Effect
  active_inc active_dec : Effect
  event : (event_type reason message : String) → Effect
  span_start : (name : String) → Effect
  span_error : (text : String) → Effect
  span_ok span_end : Effect

pub record World (S : Type 0) : Type 0 where
  pub api : S
  pub log : List Effect

pub data Outcome (F : Type 0) (A : Type 0) : Type 0 where
  ok : A → Outcome F A
  err : Error F → Outcome F A
  panic : Outcome F A

abbrev pub Exec : Type 0 → Type 0 → Type 0 → Type 0
Exec F S A = World S → Outcome F A × World S

abbrev pub outcome : {F A : Type 0} → Result F A → Outcome F A
outcome (success a) = ok a
outcome (failure e) = err e

abbrev pub attempted : {F A : Type 0} → Outcome F A → Outcome F (Result F A)
attempted (ok a) = ok (success a)
attempted (err e) = ok (failure e)
attempted panic = panic

module _ {F S A : Type 0} where
  unfoldable pub pure : A → Exec F S A
  pure a w = (ok a, w)

  unfoldable pub raise : Error F → Exec F S A
  raise e w = (err e, w)

  -- A value that is computed with the chance of a panic.
  unfoldable pub or_panic : Option A → Exec F S A
  or_panic none w = (panic, w)
  or_panic (some a) w = (ok a, w)

  -- A call of the client.
  unfoldable pub call : (S → Result F A × S) → Exec F S A
  call f w = (outcome (f w.api).0, record w { api = (f w.api).1 })

  -- A call that cannot fail.
  unfoldable pub reads : (S → A × S) → Exec F S A
  reads f w = (ok (f w.api).0, record w { api = (f w.api).1 })

  -- `if x, err := m; err != nil`: the error becomes a value; a panic goes on.
  unfoldable pub attempt : Exec F S A → Exec F S (Result F A)
  attempt m w = (attempted (m w).0, (m w).1)

module _ {F S : Type 0} where
  unfoldable pub emit : Effect → Exec F S Unit
  emit e w = (ok tt, record w { log = w.log ++ e ∷ [] })

module _ {F S A B : Type 0} where
  abbrev pub continue : Outcome F A → (A → Exec F S B) → Exec F S B
  continue (ok a) f w = f a w
  continue (err e) f w = (err e, w)
  continue panic f w = (panic, w)

  infixl 10 ◌>>=◌ ◌>>◌
  unfoldable pub ◌>>=◌ : Exec F S A → (A → Exec F S B) → Exec F S B
  ◌>>=◌ m f w = continue (m w).0 f (m w).1

  abbrev pub ◌>>◌ : Exec F S A → Exec F S B → Exec F S B
  m >> n = m >>= λ _. n

  -- `defer d`: runs at a return, at an error and at a panic.
  unfoldable pub deferring : Exec F S B → Exec F S A → Exec F S A
  deferring d m w = ((m w).0, (d (m w).1).1)

-- One step of an action whose outcome is known.
module _ {F S A B : Type 0} where
  pub bind-ok :
      (m : Exec F S A) (f : A → Exec F S B) (w w' : World S) (a : A)
      → m w ≡ (ok a, w')
      → (m >>= f) w ≡ f a w'
  unfolding ◌>>=◌
  bind-ok m f w w' a h = rw h

  pub bind-err :
      (m : Exec F S A) (f : A → Exec F S B) (w w' : World S) (e : Error F)
      → m w ≡ (err e, w')
      → (m >>= f) w ≡ (err e, w')
  unfolding ◌>>=◌
  bind-err m f w w' e h = rw h

  pub attempt-ok :
      (m : Exec F S A) (f : Result F A → Exec F S B) (w w' : World S) (a : A)
      → m w ≡ (ok a, w')
      → (attempt m >>= f) w ≡ f (success a) w'
  unfolding ◌>>=◌ attempt
  attempt-ok m f w w' a h = rw h

  pub attempt-err :
      (m : Exec F S A) (f : Result F A → Exec F S B) (w w' : World S) (e : Error F)
      → m w ≡ (err e, w')
      → (attempt m >>= f) w ≡ f (failure e) w'
  unfolding ◌>>=◌ attempt
  attempt-err m f w w' e h = rw h

  -- Inversion: what must have happened if a sequence returned.
  pub bind-inv :
      (m : Exec F S A) (f : A → Exec F S B) (w : World S) {b : B}
      → ((m >>= f) w).0 ≡ ok b
      → (a : A) × ((m w).0 ≡ ok a) × ((f a (m w).1).0 ≡ ok b)
  unfolding ◌>>=◌
  bind-inv m f w {b} h = continued (m w).0 (m w).1 h
    where
      continued :
          (o : Outcome F A) (v : World S)
          → (continue o f v).0 ≡ ok b
          → (a : A) × (o ≡ ok a) × ((f a v).0 ≡ ok b)
      continued (ok a) v h = (a, refl, h)
      continued (err e) v h = cc
      continued panic v h = cc
