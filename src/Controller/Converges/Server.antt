-- ===== src/Controller/Converges/Server.antt =====
-- A cluster that answers every call, as the operator's objects see it, and one `Apply` or one
-- deletion on it.
use kubernetes_operators.Common.{
  ℕ, String, ◌≡◌, ◌≢◌, ap, sym, ◌∙◌, inl, inr, true, Bool-cases, Option, none, some, Option-cases,
  arith,
}
use mathlib.Core.Path.{subst}
use kubernetes_operators.Errors.{Error}
use kubernetes_operators.Api.Meta.{ObjectMeta}
use kubernetes_operators.Cluster.Objects.{
  Object, ObjectKey, Resource, deployments, services, hpas, http_routes, network_policies, pdbs,
  service_monitors, resource_of,
}
use kubernetes_operators.Cluster.Client.{Client, Result, success, failure}
use kubernetes_operators.Cluster.Exec.{World, Outcome, ok, Exec, pure, call, attempt, emit, ◌>>=◌}
use kubernetes_operators.Metrics.{observe_resource_apply, observe_api_call, observe_noop_apply}
use kubernetes_operators.Subreconcilers.Apply.{
  created, updated, unchanged, key_of, create_new, update_existing, apply_once, back_off, conclude,
  apply_from, apply, delete_if_exists,
}
use kubernetes_operators.Subreconcilers.Reconcilers.{delete_child}

-- Different numbers for different resources.
abbrev pub rank : Resource → ℕ
rank deployments = 0
rank services = 1
rank hpas = 2
rank http_routes = 3
rank network_policies = 4
rank pdbs = 5
rank service_monitors = 6

abbrev pub Store : Type 0
Store = Resource → ObjectKey → Option Object

module _ {F S : Type 0} (c : Client F S) (holds : S → Store)
    (Carries : Object → Object → Type 0) where
  -- Nothing changes at the other resources.
  abbrev pub Elsewhere : Resource → S → S → Type 0
  Elsewhere r s s' = (q : Resource) → rank q ≢ rank r → holds s' q ≡ holds s q

  -- An object that carries what `o` asks for is there.
  abbrev pub IsThere : Object → (ObjectKey → Option Object) → Type 0
  IsThere o at = (x : Object) × (at (key_of o) ≡ some x) × Carries x o

  abbrev pub IsGone : ObjectKey → (ObjectKey → Option Object) → Type 0
  IsGone k at = at k ≡ none

  -- A write that succeeds.
  abbrev Stores : Object → S → Result F Unit × S → Type 0
  Stores o s (r, s') =
      (r ≡ success tt)
      × IsThere o (holds s' (resource_of o.body))
      × Elsewhere (resource_of o.body) s s'

  -- The documented behaviour of the API server and of the helpers, where no call fails and nobody
  -- else writes: `holds` is what is stored.
  pub record IsServer : Type 0 where
    pub get_there :
        (r : Resource) (k : ObjectKey) (s : S) (o : Object)
        → holds s r k ≡ some o
        → (c.get r k s).0 ≡ success o
    pub get_none :
        (r : Resource) (k : ObjectKey) (s : S)
        → holds s r k ≡ none
        → (e : Error F) × ((c.get r k s).0 ≡ failure e) × (c.errors.is_not_found e ≡ true)
    pub get_keeps : (r : Resource) (k : ObjectKey) (s : S) → holds (c.get r k s).1 ≡ holds s
    pub create_stores :
        (o : Object) (s : S)
        → holds s (resource_of o.body) (key_of o) ≡ none
        → Stores o s (c.create o s)
    pub patch_stores :
        (o x : Object) (s : S)
        → holds s (resource_of o.body) (key_of o) ≡ some x
        → Stores o s (c.patch o s)
    pub delete_there :
        (r : Resource) (k : ObjectKey) (s : S) (x : Object)
        → holds s r k ≡ some x
        → (c.delete r k s).0 ≡ success tt
    pub delete_none :
        (r : Resource) (k : ObjectKey) (s : S)
        → holds s r k ≡ none
        → (e : Error F) × ((c.delete r k s).0 ≡ failure e) × (c.errors.is_not_found e ≡ true)
    pub delete_gone : (r : Resource) (k : ObjectKey) (s : S) → IsGone k (holds (c.delete r k s).1 r)
    pub delete_elsewhere : (r : Resource) (k : ObjectKey) (s : S) → Elsewhere r s (c.delete r k s).1
    pub equal_carries : (x o : Object) → c.deep_equal x o ≡ true → Carries x o
    pub owned :
        (m : ObjectMeta) (o : Object)
        → (d : Object) × (c.set_controller_reference m o ≡ success d)
          × (resource_of d.body ≡ resource_of o.body)
          × (key_of d ≡ key_of o)
          × ((x : Object) → Carries x d → Carries x o)

  -- The action succeeds from `w`, settles one resource and leaves the others alone.
  abbrev pub Settled :
      {A : Type 0}
      → Resource
      → ((ObjectKey → Option Object) → Type 0)
      → Exec F S A
      → World S
      → Type 0
  Settled {A} r G m w =
      (a : A) × (v : World S) × (m w ≡ (ok a, v)) × G (holds v.api r) × Elsewhere r w.api v.api

  pub record Settles {A : Type 0} (r : Resource) (G : (ObjectKey → Option Object) → Type 0)
      (m : Exec F S A) : Type 0 where
    pub at : (w : World S) → Settled r G m w

  pub Settled-from :
      {A : Type 0} (r : Resource) (G : (ObjectKey → Option Object) → Type 0) (m : Exec F S A)
      (w : World S) (a : A) (s : S)
      → (m w).0 ≡ ok a
      → (m w).1.api ≡ s
      → G (holds s r)
      → Elsewhere r w.api s
      → Settled r G m w
  Settled-from {A} r G m w a s e f g rest = (
    a,
    (m w).1,
    ap (λ (o : Outcome F A). (o, (m w).1)) e,
    subst (λ (t : S). G (holds t r)) (sym f) g,
    subst (λ (t : S). Elsewhere r w.api t) (sym f) rest,
  )

  after_get :
      IsServer
      → (r : Resource) (k : ObjectKey) (s t : S) → Elsewhere r (c.get r k s).1 t
      → Elsewhere r s t
  after_get server r k s t rest q ne = rest q ne ∙ ap (λ (h : Store). h q) (server.get_keeps r k s)

  apply_once-Settles :
      IsServer → (d : Object) → Settles (resource_of d.body) (IsThere d) (apply_once c d)
  unfolding apply_once create_new update_existing ◌>>=◌ attempt call pure emit observe_api_call
      observe_noop_apply
  apply_once-Settles server d = record {
    at = λ w.
        let r = resource_of d.body in
        let k = key_of d in
        let s = w.api in
        let got = c.get r k s in
        let same = server.get_keeps r k s in
        elim (Option-cases (holds s r k)) [
          | inl e ↦
              let (x, g, n) = server.get_none r k s e in
              let (done, there, rest) = server.create_stores d got.1 (rw same e) in
              Settled-from r (IsThere d) (apply_once c d) w created (c.create d got.1).1
                (ground (arith, g, n, done)) (ground (arith, g, n, done)) there
                (after_get server r k s _ rest)
          | inr (x, e) ↦
              let g = server.get_there r k s x e in
              elim (Bool-cases (c.deep_equal x d)) [
                | inl q ↦
                    Settled-from r (IsThere d) (apply_once c d) w unchanged got.1
                      (ground (arith, g, q)) (ground (arith, g, q))
                      (x, rw same e, server.equal_carries x d q)
                      (λ p ne. ap (λ (h : Store). h p) same)
                | inr q ↦
                    let (done, there, rest) = server.patch_stores d x got.1 (rw same e) in
                    Settled-from r (IsThere d) (apply_once c d) w updated (c.patch d got.1).1
                      (ground (arith, g, q, done)) (ground (arith, g, q, done)) there
                      (after_get server r k s _ rest)
              ]
        ];
  }

  -- The loop ends with its first round.
  pub apply-Settles :
      IsServer
      → (m : ObjectMeta) (o : Object) → Settles (resource_of o.body) (IsThere o) (apply c m o)
  unfolding apply apply_from back_off conclude observe_resource_apply ◌>>=◌ attempt pure emit
  apply-Settles server m o = record {
    at = λ w.
        let (d, e, res, key, carries) = server.owned m o in
        let (a, v, done, there, rest) = (apply_once-Settles server d).at w in
        Settled-from (resource_of o.body) (IsThere o) (apply c m o) w a v.api
          (ground (arith, e, done)) (ground (arith, e, done))
          (
            there.0,
            subst (λ (q : Resource). holds v.api q (key_of o) ≡ some there.0) res
                (subst (λ (k : ObjectKey). holds v.api (resource_of d.body) k ≡ some there.0) key
                  there.1),
            carries there.0 there.2,
          )
          (subst (λ (q : Resource). Elsewhere q w.api v.api) res rest);
  }

  pub delete_child-Settles :
      IsServer
      → (r : Resource) (kind : String) (k : ObjectKey)
      → Settles r
          (IsGone k)
          (delete_child c (record { ref_resource = r; ref_kind = kind; ref_key = k }))
  unfolding delete_child delete_if_exists observe_resource_apply ◌>>=◌ attempt call pure emit
  delete_child-Settles server r kind k = record {
    at = λ w.
        let m = delete_child c (record { ref_resource = r; ref_kind = kind; ref_key = k }) in
        let s = (c.delete r k w.api).1 in
        elim (Option-cases (holds w.api r k)) [
          | inl e ↦
              let (x, g, n) = server.delete_none r k w.api e in
              Settled-from r (IsGone k) m w unchanged s (ground (arith, g, n))
                (ground (arith, g, n)) (server.delete_gone r k w.api)
                (server.delete_elsewhere r k w.api)
          | inr (x, e) ↦
              let g = server.delete_there r k w.api x e in
              Settled-from r (IsGone k) m w unchanged s (ground (arith, g)) (ground (arith, g))
                (server.delete_gone r k w.api) (server.delete_elsewhere r k w.api)
        ];
  }
