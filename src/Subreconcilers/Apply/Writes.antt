-- ===== src/Subreconcilers/Apply/Writes.antt =====
-- `Apply` against objects that carry a resource version.
use kubernetes_operators.Common.{
  ℕ, zero, suc, ◌≡◌, ◌≢◌, refl, ◌∙◌, inl, inr, true, Bool-cases, if◌then◌else◌,
}
use kubernetes_operators.Errors.{Error, wrapped}
use kubernetes_operators.Api.Meta.{ObjectMeta}
use kubernetes_operators.Cluster.Objects.{Object, ObjectKey, Resource}
use kubernetes_operators.Cluster.Client.{Client, Result, success, failure}
use kubernetes_operators.Cluster.Exec.{
  World, Outcome, ok, err, panic, attempted, Exec, pure, raise, attempt, emit, ◌>>=◌, bind-inv,
}
use kubernetes_operators.Metrics.{observe_resource_apply}
use kubernetes_operators.Subreconcilers.Apply.{
  ApplyResult, unchanged, apply_once, back_off, give_up, conclude, apply_from, max_apply_retries,
  apply,
}
use kubernetes_operators.Subreconcilers.Apply.Outcomes.{
  Wrote, by_create, by_nothing, by_patch, apply_once-Wrote,
}

module _ {F S : Type 0} (c : Client F S) where
  -- The API server gives every object that it stores a resource version; DeepEqual compares the
  -- metadata too; a controller reference leaves the resource version alone.
  pub record IsVersioned : Type 0 where
    pub stored :
        (r : Resource) (k : ObjectKey) (s : S) (o : Object)
        → (c.get r k s).0 ≡ success o
        → o.meta.resource_version ≢ ""
    pub compared :
        (a b : Object) → c.deep_equal a b ≡ true → a.meta.resource_version ≡ b.meta.resource_version
    pub owned :
        (m : ObjectMeta) (o d : Object)
        → c.set_controller_reference m o ≡ success d
        → d.meta.resource_version ≡ o.meta.resource_version

  Wrote-changed :
      IsVersioned
      → (d : Object) (s t : S) (r : ApplyResult) → d.meta.resource_version ≡ ""
      → Wrote c d s r t
      → r ≢ unchanged
  Wrote-changed h d s t r v (by_create e g n k) q = cc
  Wrote-changed h d s t r v (by_nothing x g q) p = h.stored _ _ s x g (h.compared x d q ∙ v)
  Wrote-changed h d s t r v (by_patch x g n k) q = cc

  attempt-inv : {A : Type 0} (o : Outcome F A) {a : A} → attempted o ≡ ok (success a) → o ≡ ok a
  attempt-inv (ok b) e = cc
  attempt-inv (err x) e = cc
  attempt-inv panic e = cc

  conclude-changed :
      IsVersioned
      → (d : Object) (r : ApplyResult) (w : World S) (res : Result F ApplyResult)
        (on_error : Error F → Exec F S ApplyResult) (v : World S)
      → d.meta.resource_version ≡ ""
      → (attempt (apply_once c d) w).0 ≡ ok res
      → ((e : Error F) (u : World S) → (on_error e u).0 ≡ ok r → r ≢ unchanged)
      → (conclude c d res on_error v).0 ≡ ok r
      → r ≢ unchanged
  unfolding conclude attempt observe_resource_apply ◌>>=◌ pure emit
  conclude-changed h d r w (success x) on_error v ver e k q =
      let same : x ≡ r = cc in
      let done = attempt-inv (apply_once c d w).0 e in
      rw⁻¹ same (Wrote-changed h d w.api _ x ver (apply_once-Wrote c d w x done))
  conclude-changed h d r w (failure x) on_error v ver e k q = k x v q

  give_up-fails :
      (d : Object) (e : Error F) (w : World S) {r : ApplyResult} → ¬ ((give_up c d e w).0 ≡ ok r)
  unfolding give_up observe_resource_apply ◌>>=◌ raise emit
  give_up-fails d e w q = cc

  retry-changed :
      (d : Object) (r : ApplyResult) (next : Exec F S ApplyResult) (x : Error F) (u : World S)
      → ((next u).0 ≡ ok r → r ≢ unchanged)
      → ((if c.errors.is_conflict x then next else give_up c d x) u).0 ≡ ok r
      → r ≢ unchanged
  retry-changed d r next x u h q = elim (Bool-cases (c.errors.is_conflict x)) [
    | inl p ↦ h (rw p at q)
    | inr p ↦ absurd (give_up-fails d x u (rw p at q))
  ]

  apply_from-changed :
      IsVersioned
      → (left n : ℕ) (d : Object) (w : World S) (r : ApplyResult) → d.meta.resource_version ≡ ""
      → (apply_from c left n d w).0 ≡ ok r
      → r ≢ unchanged
  unfolding apply_from
  apply_from-changed h zero n d w r ver e =
      let (a, e', rest) = bind-inv (back_off c n) _ w e in
      let (res, got, last) = bind-inv (attempt (apply_once c d)) _ (back_off c n w).1 rest in
      conclude-changed h d r _ res _ _ ver got (λ x u q. absurd (give_up-fails d x u q)) last
  apply_from-changed h (suc left) n d w r ver e =
      let (a, e', rest) = bind-inv (back_off c n) _ w e in
      let (res, got, last) = bind-inv (attempt (apply_once c d)) _ (back_off c n w).1 rest in
      conclude-changed h d r _ res _ _ ver got
        (λ x u q.
          retry-changed d r (apply_from c left (suc n) d) x u
            (apply_from-changed h left (suc n) d u r ver) q)
        last

  pub apply-changed :
      IsVersioned
      → (m : ObjectMeta) (o : Object) (w : World S) (r : ApplyResult) → o.meta.resource_version ≡ ""
      → (apply c m o w).0 ≡ ok r
      → r ≢ unchanged
  unfolding apply raise
  apply-changed h m o w r v e = by (c.set_controller_reference m o) (λ d p. h.owned m o d p ∙ v) e
    where
      by :
          (res : Result F Object)
          → ((d : Object) → res ≡ success d → d.meta.resource_version ≡ "")
          → ((elim res as (λ _. Exec F S ApplyResult) [
            | failure x ↦ raise (wrapped "setting controller reference" x)
            | success d ↦ apply_from c max_apply_retries 0 d
          ])
              w).0
            ≡ ok r
          → r ≢ unchanged
      by (success d) k q = apply_from-changed h max_apply_retries 0 d w r (k d refl) q
      by (failure x) k q = cc
