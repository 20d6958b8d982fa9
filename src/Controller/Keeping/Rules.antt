-- ===== src/Controller/Keeping/Rules.antt =====
-- What the calls and the samples of the children and of the report have to keep.
use kubernetes_operators.Common.{ℕ, String, ◌≡◌, refl, Bool, true, false, List, [], ◌∷◌}
use kubernetes_operators.Api.V1alpha1.{PlatformApplication}
use kubernetes_operators.Cluster.Objects.{Object, ObjectKey, Resource}
use kubernetes_operators.Cluster.Client.{Client}
use kubernetes_operators.Cluster.Exec.{
  Effect, active_inc, active_dec, World, Exec, call, reads, emit,
}
use kubernetes_operators.Cluster.Keeps.{Keeps, keeps_rules}
use kubernetes_operators.Subreconcilers.Apply.{ApplyResult}

abbrev pub moves_gauge : Effect → Bool
moves_gauge active_inc = true
moves_gauge active_dec = true
moves_gauge _ = false

module _ {F S : Type 0} (c : Client F S) (P : World S → Type 0) where
  -- Every sample but the moves of the gauge, and every call but the update of the application.
  pub record Allows : Type 0 where
    pub emits : (e : Effect) → moves_gauge e ≡ false → Keeps {F = F} P (emit e)
    pub gets : (r : Resource) (k : ObjectKey) → Keeps P (call (c.get r k))
    pub creates : (o : Object) → Keeps P (call (c.create o))
    pub patches : (o : Object) → Keeps P (call (c.patch o))
    pub deletes : (r : Resource) (k : ObjectKey) → Keeps P (call (c.delete r k))
    pub status_updates : (a : PlatformApplication) → Keeps P (call (c.update_status a))
    pub nows : Keeps {F = F} P (reads c.now)
    pub waits : (n : ℕ) → Keeps {F = F} P (reads (c.wait n))

-- Every entry of the table of sub-reconcilers keeps `P`.
abbrev pub AllKeep :
    {F S : Type 0} → (World S → Type 0) → List (String × Exec F S ApplyResult) → Type 0
AllKeep P [] = Unit
AllKeep P ((name, fn) ∷ rest) = Keeps P fn × AllKeep P rest

module _ {F S : Type 0} {c : Client F S} {P : World S → Type 0} (q : Allows c P) where
  pub Keeps-emit : (e : Effect) → moves_gauge e ≡ false → Keeps {F = F} P (emit e)
  Keeps-emit = q.emits

  pub Keeps-get : (r : Resource) (k : ObjectKey) → Keeps P (call (c.get r k))
  Keeps-get = q.gets

  pub Keeps-create : (o : Object) → Keeps P (call (c.create o))
  Keeps-create = q.creates

  pub Keeps-patch : (o : Object) → Keeps P (call (c.patch o))
  Keeps-patch = q.patches

  pub Keeps-delete : (r : Resource) (k : ObjectKey) → Keeps P (call (c.delete r k))
  Keeps-delete = q.deletes

  pub Keeps-update_status : (a : PlatformApplication) → Keeps P (call (c.update_status a))
  Keeps-update_status = q.status_updates

  pub Keeps-now : Keeps {F = F} P (reads c.now)
  Keeps-now = q.nows

  pub Keeps-wait : (n : ℕ) → Keeps {F = F} P (reads (c.wait n))
  Keeps-wait = q.waits

pub ruleset allowed_rules = (
  keeps_rules, Keeps-emit, Keeps-get, Keeps-create, Keeps-patch, Keeps-delete, Keeps-update_status,
  Keeps-now, Keeps-wait, refl,
)
