-- ===== src/Controller/InSync/Actions.antt =====
-- Actions that succeed and stay among some states of the cluster.
use kubernetes_operators.Common.{◌≡◌, refl, ◌∙◌, [], ◌∷◌, ◌++◌}
use kubernetes_operators.Cluster.Client.{Result, success}
use kubernetes_operators.Cluster.Exec.{
  Effect, World, ok, Exec, attempt, emit, ◌>>=◌, bind-ok, attempt-ok,
}

-- The action succeeds from every world that satisfies `P`, and leaves one that does.
pub record Quiet {F S A : Type 0} (P : S → Type 0) (m : Exec F S A) : Type 0 where
  pub at : (w : World S) → P w.api → (a : A) × (v : World S) × (m w ≡ (ok a, v)) × P v.api

module _ {F S A B : Type 0} {P : S → Type 0} where
  pub Quiet-bind :
      (m : Exec F S A) (f : A → Exec F S B)
      → Quiet P m
      → ((a : A) → Quiet P (f a))
      → Quiet P (m >>= f)
  Quiet-bind m f h k = record {
    at = λ w p.
        let (a, v, e, q) = h.at w p in
        let (b, u, g, r) = (k a).at v q in (b, u, bind-ok m f w v a e ∙ g, r);
  }

  pub Quiet-attempt :
      (m : Exec F S A) (f : Result F A → Exec F S B)
      → Quiet P m
      → ((a : A) → Quiet P (f (success a)))
      → Quiet P (attempt m >>= f)
  Quiet-attempt m f h k = record {
    at = λ w p.
        let (a, v, e, q) = h.at w p in
        let (b, u, g, r) = (k a).at v q in (b, u, attempt-ok m f w v a e ∙ g, r);
  }

module _ {F S : Type 0} {P : S → Type 0} where
  pub Quiet-emit : (e : Effect) → Quiet {F = F} P (emit e)
  unfolding emit
  Quiet-emit e = record { at = λ w p. (tt, record w { log = w.log ++ e ∷ [] }, refl, p) }
