-- ===== src/Deepcopy/Isolated.antt =====
-- Pointers to structs, and what a caller of `DeepCopy` relies on.
use kubernetes_operators.Common.{ℕ, ◌≡◌, refl, ap, ◌∙◌, Option, none, some, arith}
use kubernetes_operators.Deepcopy.Heap.{Heap, deep_copy, deep_copy_object}
use kubernetes_operators.Deepcopy.Copies.{Agree, Copier, IsCopy, Views, Copies, Agree-trans}

-- The copy reads as the original did; no write behind the old end of the memory, where all of the
-- copy's places are, changes what is read of the original, and no write outside the copy's places
-- changes what is read of the copy.
pub record Isolated {C A V : Type 0} (view : Heap C → A → V) (h : Heap C) (x : A) (r : A × Heap C)
    : Type 0 where
  pub same : view r.1 r.0 ≡ view h x
  pub original : (k : Heap C) → Agree 0 h.next r.1 k → view k x ≡ view h x
  pub copied : (k : Heap C) → Agree h.next r.1.next r.1 k → view k r.0 ≡ view h x

module _ {C A V : Type 0} (c : Copier C A V) where
  abbrev view_pointer : Heap C → Option A → Option V
  view_pointer h none = none
  view_pointer h (some x) = some (c.view h x)

  abbrev PointerInside : ℕ → ℕ → Heap C → Option A → Type 0
  PointerInside lo hi h none = Unit
  PointerInside lo hi h (some x) = c.Inside lo hi h x

  -- A pointer to a struct, or nil.
  abbrev pub pointer : Copier C (Option A) (Option V)
  pointer = record { copy = deep_copy c.copy; view = view_pointer; Inside = PointerInside }

  pointer-reads :
      Views c
      → (lo hi : ℕ) (h g : Heap C) (p : Option A) → PointerInside lo hi h p
      → Agree lo hi h g
      → PointerInside lo hi g p × (view_pointer g p ≡ view_pointer h p)
  pointer-reads cs lo hi h g none i ag = (tt, refl)
  pointer-reads cs lo hi h g (some x) i ag =
      let (j, e) = cs.reads lo hi h g x i ag in (j, ap some e)

  pointer-IsCopy :
      Copies c
      → (h : Heap C) (p : Option A) → PointerInside 0 h.next h p
      → IsCopy pointer h p (deep_copy c.copy p h)
  unfolding deep_copy
  pointer-IsCopy cs h none i = record {
    grows = omega arith;
    keeps = λ a p q. refl;
    fresh = tt;
    same = refl;
  }
  pointer-IsCopy cs h (some x) i =
      let r = cs.is_copy h x i in
      record { grows = r.grows; keeps = r.keeps; fresh = r.fresh; same = ap some r.same }

  pub deep_copy-Isolated :
      Copies c
      → (h : Heap C) (p : Option A) → PointerInside 0 h.next h p
      → Isolated view_pointer h p (deep_copy c.copy p h)
  deep_copy-Isolated cs h p i =
      let r = pointer-IsCopy cs h p i in
      let (y, g) = deep_copy c.copy p h in
      record {
        same = r.same;
        original = λ k ag.
            (pointer-reads cs.views 0 h.next h k p i
              (Agree-trans 0 h.next h.next h g k r.keeps ag (omega arith))).1;
        copied = λ k ag. (pointer-reads cs.views h.next g.next g k y r.fresh ag).1 ∙ r.same;
      }

  deep_copy_object-eq-deep_copy :
      (p : Option A) (h : Heap C) → deep_copy_object c.copy p h ≡ deep_copy c.copy p h
  unfolding deep_copy_object deep_copy
  deep_copy_object-eq-deep_copy none h = refl
  deep_copy_object-eq-deep_copy (some x) h = refl

  pub deep_copy_object-Isolated :
      Copies c
      → (h : Heap C) (p : Option A) → PointerInside 0 h.next h p
      → Isolated view_pointer h p (deep_copy_object c.copy p h)
  deep_copy_object-Isolated cs h p i =
      rw (deep_copy_object-eq-deep_copy p h) (deep_copy-Isolated cs h p i)
