-- ===== src/Subreconcilers/Apply/Outcomes.antt =====
-- What one attempt of `Apply` does, and which errors applying and deleting end with.
use kubernetes_operators.Common.{
  ℕ, zero, suc, inl, inr, Bool-cases, ◌*◌, ◌^◌, ◌≡◌, true, false, none, some, arith,
}
use kubernetes_operators.Errors.{Error, wrapped}
use kubernetes_operators.Errors.Classes.{HasActionable, classify_or_wrap-IsActionable}
use kubernetes_operators.Api.Meta.{ObjectMeta}
use kubernetes_operators.Cluster.Objects.{Object, ObjectKey, ObjectRef, Resource, resource_of}
use kubernetes_operators.Cluster.Client.{Client, Result, success, failure, Result-cases}
use kubernetes_operators.Cluster.Exec.{
  World, ok, Exec, pure, raise, call, attempt, emit, ◌>>=◌, ◌>>◌,
}
use kubernetes_operators.Cluster.Raises.{
  BadResult, Raises, Raises-raise, Raises-call, Raises-bind, Raises-bind-attempt, Raises-if,
  Raises-bind-reads, raises_rules,
}
use kubernetes_operators.Metrics.{observe_resource_apply, observe_api_call, observe_noop_apply}
use kubernetes_operators.Subreconcilers.Apply.{
  ApplyResult, resource_kind, retry_base_delay, created, updated, unchanged, key_of, create_new,
  update_existing, apply_once, back_off, give_up, conclude, apply_from, max_apply_retries, apply,
  delete_if_exists,
}

-- The errors of the client, of the context and of the helpers hold no `*ReconcileError` without an
-- actionable class; other packages make none at all.
pub record IsPlain {F S : Type 0} (c : Client F S) : Type 0 where
  pub get_plain : (r : Resource) (k : ObjectKey) (s : S) → BadResult HasActionable (c.get r k s).0
  pub create_plain : (o : Object) (s : S) → BadResult HasActionable (c.create o s).0
  pub patch_plain : (o : Object) (s : S) → BadResult HasActionable (c.patch o s).0
  pub delete_plain :
      (r : Resource) (k : ObjectKey) (s : S) → BadResult HasActionable (c.delete r k s).0
  pub owner_plain :
      (m : ObjectMeta) (o : Object) → BadResult HasActionable (c.set_controller_reference m o)
  pub wait_plain : (n : ℕ) (s : S) (e : Error F) → (c.wait n s).0 ≡ some e → HasActionable e

module _ {F S : Type 0} (c : Client F S) (desired : Object) (s : S) where
  -- What an attempt that succeeds has read and written, and what it answers: a missing object is
  -- created, one that is there and equal in meaning is not written, any other is patched.
  pub data Wrote : ApplyResult → S → Type 0 where
    by_create :
        (e : Error F)
        → (c.get (resource_of desired.body) (key_of desired) s).0 ≡ failure e
        → c.errors.is_not_found e ≡ true
        → (c.create desired (c.get (resource_of desired.body) (key_of desired) s).1).0 ≡ success tt
        → Wrote created (c.create desired (c.get (resource_of desired.body) (key_of desired) s).1).1
    by_nothing :
        (existing : Object)
        → (c.get (resource_of desired.body) (key_of desired) s).0 ≡ success existing
        → c.deep_equal existing desired ≡ true
        → Wrote unchanged (c.get (resource_of desired.body) (key_of desired) s).1
    by_patch :
        (existing : Object)
        → (c.get (resource_of desired.body) (key_of desired) s).0 ≡ success existing
        → c.deep_equal existing desired ≡ false
        → (c.patch desired (c.get (resource_of desired.body) (key_of desired) s).1).0 ≡ success tt
        → Wrote updated (c.patch desired (c.get (resource_of desired.body) (key_of desired) s).1).1

module _ {F S : Type 0} (c : Client F S) where
  -- An attempt of `Apply` that succeeds, on every branch: it answers "created", "unchanged" or
  -- "updated" exactly as it created the object, found it equal in meaning and wrote nothing, or
  -- patched it, and it has made no other call.
  pub apply_once-Wrote :
      (desired : Object) (w : World S) (r : ApplyResult)
      → (apply_once c desired w).0 ≡ ok r
      → Wrote c desired w.api r (apply_once c desired w).1.api
  unfolding apply_once create_new update_existing ◌>>=◌ attempt call pure raise emit
      observe_api_call observe_noop_apply
  apply_once-Wrote desired w r h =
      let got = c.get (resource_of desired.body) (key_of desired) w.api in
      elim (Result-cases got.0) [
        | inl (existing, g) ↦ elim (Bool-cases (c.deep_equal existing desired)) [
          | inl d ↦
              let q : (r ≡ unchanged) × ((apply_once c desired w).1.api ≡ got.1) =
                ground (arith, g, d, h) in
              rw (q.0, q.1) (by_nothing existing g d)
          | inr d ↦ elim (Result-cases (c.patch desired got.1).0) [
            | inl (u, p) ↦
                let q : (r ≡ updated)
                    × ((apply_once c desired w).1.api ≡ (c.patch desired got.1).1) =
                  ground (arith, g, d, p, h) in
                rw (q.0, q.1) (by_patch existing g d p)
            | inr (e, p) ↦ absurd (ground (arith, g, d, p, h))
          ]
        ]
        | inr (e, g) ↦ elim (Bool-cases (c.errors.is_not_found e)) [
          | inl n ↦ elim (Result-cases (c.create desired got.1).0) [
            | inl (u, k) ↦
                let q : (r ≡ created)
                    × ((apply_once c desired w).1.api ≡ (c.create desired got.1).1) =
                  ground (arith, g, n, k, h) in
                rw (q.0, q.1) (by_create e g n k)
            | inr (x, k) ↦ absurd (ground (arith, g, n, k, h))
          ]
          | inr n ↦ absurd (ground (arith, g, n, h))
        ]
      ]

module _ {F S : Type 0} {c : Client F S} (plain : IsPlain c) where
  create_new-plain : (desired : Object) → Raises HasActionable (create_new c desired)
  unfolding create_new observe_api_call
  create_new-plain desired =
      Raises-bind-attempt HasActionable _ _ (Raises-call _ (λ s. plain.create_plain desired s))
        (elim [ success u ↦ λ _. search raises_rules | failure e ↦ λ p. Raises-raise _ p ])

  update_existing-plain :
      (desired existing : Object) → Raises HasActionable (update_existing c desired existing)
  unfolding update_existing observe_api_call observe_noop_apply
  update_existing-plain desired existing =
      Raises-if (c.deep_equal existing desired)
        (observe_noop_apply (resource_kind desired.type_meta.kind) >> pure unchanged) _
        (search raises_rules)
        (Raises-bind-attempt HasActionable _ _ (Raises-call _ (λ s. plain.patch_plain desired s))
          (elim [
            | success u ↦ λ _. search raises_rules
            | failure e ↦ λ p. Raises-bind _ _ (search raises_rules) (λ _. Raises-raise _ p)
          ]))

  apply_once-plain : (desired : Object) → Raises HasActionable (apply_once c desired)
  unfolding apply_once
  apply_once-plain desired =
      Raises-bind-attempt HasActionable _ _
        (Raises-call _ (λ s. plain.get_plain (resource_of desired.body) (key_of desired) s))
        (elim [
          | success existing ↦ λ _. update_existing-plain desired existing
          | failure e ↦ λ p. Raises-if _ _ _ (create_new-plain desired) (Raises-raise _ p)
        ])

  back_off-plain : (n : ℕ) → Raises HasActionable (back_off c n)
  unfolding back_off
  back_off-plain zero = search raises_rules
  back_off-plain (suc n) = Raises-bind-reads _ _ (elim [
    | none ↦ λ s _. search raises_rules
    | some e ↦ λ s p. Raises-raise e (plain.wait_plain (retry_base_delay * 2 ^ n) s e p)
  ])

  give_up-plain :
      (desired : Object) (e : Error F)
      → HasActionable e
      → Raises HasActionable (give_up c desired e)
  unfolding give_up observe_resource_apply
  give_up-plain desired e p = Raises-bind _ _ (search raises_rules) (λ _.
      Raises-raise _
        (classify_or_wrap-IsActionable c.errors e desired.meta.name desired.type_meta.kind p))

  conclude-plain :
      (desired : Object) (r : Result F ApplyResult) (f : Error F → Exec F S ApplyResult)
      → BadResult HasActionable r
      → ((e : Error F) → HasActionable e → Raises HasActionable (f e))
      → Raises HasActionable (conclude c desired r f)
  unfolding conclude observe_resource_apply
  conclude-plain desired (success r) f p h = search raises_rules
  conclude-plain desired (failure e) f p h = h e p

  apply_from-plain :
      (left n : ℕ) (desired : Object) → Raises HasActionable (apply_from c left n desired)
  unfolding apply_from
  apply_from-plain zero n desired = Raises-bind _ _ (back_off-plain n) λ _.
      Raises-bind-attempt HasActionable _ _ (apply_once-plain desired)
        λ r p. conclude-plain desired r _ p (give_up-plain desired)
  apply_from-plain (suc left) n desired = Raises-bind _ _ (back_off-plain n) λ _.
      Raises-bind-attempt HasActionable _ _ (apply_once-plain desired) λ r p.
        conclude-plain desired r _ p
          λ e q. Raises-if _ _ _ (apply_from-plain left (suc n) desired) (give_up-plain desired e q)

  pub apply-plain :
      (owner : ObjectMeta) (desired : Object) → Raises HasActionable (apply c owner desired)
  unfolding apply
  apply-plain owner desired =
      from (c.set_controller_reference owner desired) (plain.owner_plain owner desired)
    where
      from :
          (r : Result F Object)
          → BadResult HasActionable r
          → Raises HasActionable (elim r [
            | failure e ↦ raise (wrapped "setting controller reference" e)
            | success owned ↦ apply_from c max_apply_retries 0 owned
          ])
      from (success owned) p = apply_from-plain max_apply_retries 0 owned
      from (failure e) p = Raises-raise _ p

  pub delete_if_exists-plain : (ref : ObjectRef) → Raises HasActionable (delete_if_exists c ref)
  unfolding delete_if_exists observe_resource_apply
  delete_if_exists-plain ref =
      Raises-bind-attempt HasActionable _ _
        (Raises-call _ (λ s. plain.delete_plain ref.ref_resource ref.ref_key s))
        (elim [
          | success u ↦ λ _. search raises_rules
          | failure e ↦ λ p.
              Raises-if (c.errors.is_not_found e) (pure tt) _ (search raises_rules)
                (Raises-raise _ p)
        ])
