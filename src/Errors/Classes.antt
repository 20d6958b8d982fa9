-- ===== src/Errors/Classes.antt =====
-- How errors are classified.
use kubernetes_operators.Common.{String, ◌≡◌, refl, none, some, arith, Option-cases, inl, inr, ◌⊎◌}
use kubernetes_operators.Errors.{
  Error, foreign, wrapped, reconcile, ReconcileErrorClass, ReconcileError, ApiErrors, transient,
  permanent, conflict, unknown, unset, as_error, as_reconcile_error, classify_api, classify,
  classify_or_wrap,
}

-- A class on which the controller acts.
abbrev pub IsActionable : ReconcileErrorClass → Type 0
IsActionable c = (c ≡ transient) ⊎ (c ≡ permanent) ⊎ (c ≡ conflict)

-- The first `*ReconcileError` of the chain, if it holds one, has an actionable class.
abbrev pub HasActionable : {F : Type 0} → Error F → Type 0
HasActionable (foreign f) = Unit
HasActionable (wrapped m e) = HasActionable e
HasActionable (reconcile c r k e) = IsActionable c

-- An unclassified answer is retried like a transient one.
abbrev pub or_transient : ReconcileErrorClass → ReconcileErrorClass
or_transient unknown = transient
or_transient unset = transient
or_transient c = c

module _ {F : Type 0} (api : ApiErrors F) where
  class_of_none :
      (e : Error F) (resource kind : String)
      → as_reconcile_error e ≡ none
      → classify_or_wrap api e resource kind ≡ record {
        class = or_transient (classify_api api e);
        resource = resource;
        kind = kind;
        err = e;
      }
  unfolding classify_or_wrap classify
  class_of_none e resource kind h = ground arith

  as_reconcile_error-IsActionable :
      (e : Error F) {r : ReconcileError F}
      → HasActionable e
      → as_reconcile_error e ≡ some r
      → IsActionable r.class
  unfolding as_reconcile_error
  as_reconcile_error-IsActionable (foreign f) h p = cc
  as_reconcile_error-IsActionable (wrapped m e) h p = as_reconcile_error-IsActionable e h p
  as_reconcile_error-IsActionable (reconcile c r k e) h p = ground arith

  or_transient-IsActionable : (c : ReconcileErrorClass) → IsActionable (or_transient c)
  or_transient-IsActionable unset = inl refl
  or_transient-IsActionable transient = inl refl
  or_transient-IsActionable permanent = ground arith
  or_transient-IsActionable conflict = ground arith
  or_transient-IsActionable unknown = inl refl

  -- The class that `ClassifyOrWrap` gives is transient, permanent or conflict, never unknown,
  -- provided that a `*ReconcileError` already in the chain has such a class.
  pub classify_or_wrap-IsActionable :
      (e : Error F) (resource kind : String)
      → HasActionable e
      → IsActionable (classify_or_wrap api e resource kind).class
  classify_or_wrap-IsActionable e resource kind h = elim (Option-cases (as_reconcile_error e)) [
    | inl p ↦
        ground
          (arith, class_of_none e resource kind p, or_transient-IsActionable (classify_api api e))
    | inr (r, p) ↦
        unfold classify_or_wrap in ground (arith, p, as_reconcile_error-IsActionable e {r = r} h p)
  ]

  -- Classifying is stable: an error that was classified once keeps its class, its resource and its
  -- kind when it is wrapped and classified again.
  classify_or_wrap-wrapped :
      (e : Error F) (r k r' k' m : String)
      → classify_or_wrap api (wrapped m (as_error (classify_or_wrap api e r k))) r' k'
        ≡ classify_or_wrap api e r k
  unfolding as_reconcile_error
  classify_or_wrap-wrapped e r k r' k' m = unfold classify_or_wrap in refl
