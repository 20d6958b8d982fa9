-- ===== src/Controller/Gauge/Counts.antt =====
-- How often a log raises and lowers the gauge of active workers.
use kubernetes_operators.Common.{
  ℕ, zero, suc, ◌+◌, String, ◌≡◌, refl, Bool, true, false, Option, none, some, List, [], ◌∷◌, ◌++◌,
  arith, if◌then◌else◌, not,
}
use kubernetes_operators.Cluster.Client.{Client, Result}
use kubernetes_operators.Cluster.Exec.{Effect, active_inc, active_dec, World, call, reads, emit}
use kubernetes_operators.Controller.Keeping.Rules.{Allows, moves_gauge}
use kubernetes_operators.Cluster.Keeps.{
  Keeps, Keeps-pure, Keeps-raise, Keeps-or_panic, Keeps-call, Keeps-reads, Keeps-attempt, Keeps-if,
  Keeps-bind, Keeps-deferring, keeps_rules,
}

-- How often the gauge went up, and down.
unfoldable pub incs : List Effect → ℕ
incs [] = 0
incs (active_inc ∷ l) = suc (incs l)
incs (e ∷ l) = incs l

unfoldable pub decs : List Effect → ℕ
decs [] = 0
decs (active_dec ∷ l) = suc (decs l)
decs (e ∷ l) = decs l

abbrev pub Gauge : ℕ → ℕ → List Effect → Type 0
Gauge i d log = (incs log ≡ i) × (decs log ≡ d)

-- The gauge went up `i` times and down `d` times.
abbrev pub Moved : {S : Type 0} → ℕ → ℕ → World S → Type 0
Moved i d w = Gauge i d w.log

pub incs-append : (l m : List Effect) → incs (l ++ m) ≡ incs l + incs m
unfolding incs
incs-append [] m = omega arith
incs-append (active_inc ∷ l) m = omega (arith, incs-append l m)
incs-append (e ∷ l) m = incs-append l m

pub decs-append : (l m : List Effect) → decs (l ++ m) ≡ decs l + decs m
unfolding decs
decs-append [] m = omega arith
decs-append (active_dec ∷ l) m = omega (arith, decs-append l m)
decs-append (e ∷ l) m = decs-append l m

one_incs : (e : Effect) → moves_gauge e ≡ false → (incs (e ∷ []) ≡ 0) × (decs (e ∷ []) ≡ 0)
unfolding incs decs
one_incs active_inc h = cc
one_incs active_dec h = cc
one_incs _ h = (refl, refl)

module _ {F S : Type 0} {i d : ℕ} where
  pub Gauge-emit : (e : Effect) → moves_gauge e ≡ false → Keeps {F = F} {S = S} (Moved i d) (emit e)
  unfolding emit
  Gauge-emit e h = record {
    at = λ w k. (
      omega (arith, incs-append w.log (e ∷ []), (one_incs e h).0, k.0),
      omega (arith, decs-append w.log (e ∷ []), (one_incs e h).1, k.1),
    );
  }

  pub Gauge-call : {A : Type 0} (f : S → Result F A × S) → Keeps (Moved i d) (call f)
  Gauge-call f = Keeps-call f (λ w h. h)

  Gauge-reads : {A : Type 0} (f : S → A × S) → Keeps {F = F} (Moved i d) (reads f)
  Gauge-reads f = Keeps-reads f (λ w h. h)

module _ {F S : Type 0} (c : Client F S) {i d : ℕ} where
  pub Gauge-Allows : Allows c (Moved i d)
  Gauge-Allows = record {
    emits = Gauge-emit;
    gets = λ r k. Gauge-call (c.get r k);
    creates = λ o. Gauge-call (c.create o);
    patches = λ o. Gauge-call (c.patch o);
    deletes = λ r k. Gauge-call (c.delete r k);
    status_updates = λ a. Gauge-call (c.update_status a);
    nows = Gauge-reads c.now;
    waits = λ n. Gauge-reads (c.wait n);
  }

pub ruleset gauge_rules = (keeps_rules, Gauge-emit, Gauge-call, refl)
