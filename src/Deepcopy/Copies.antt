-- ===== src/Deepcopy/Copies.antt =====
-- What a deep copy promises, for a kind of Go value `A` of which `V` is what can be read of it.
use kubernetes_operators.Common.{ℕ, ◌≤◌, ◌<◌, ◌≡◌, refl, ◌∙◌, arith}
use kubernetes_operators.Deepcopy.Heap.{Heap, Alloc, ◌>>=◌, give}

module _ {C : Type 0} where
  -- The cells from `lo` up to `hi` hold the same in both heaps.
  abbrev pub Agree : ℕ → ℕ → Heap C → Heap C → Type 0
  Agree lo hi h g = (a : ℕ) → lo ≤ a → a < hi → g.cell a ≡ h.cell a

-- `Inside lo hi h x`: each place that `x` leads to lies from `lo` up to `hi`, and each map that
-- stands there lists no key twice.
pub record Copier (C A V : Type 0) : Type 1 where
  pub copy : A → Alloc C A
  pub view : Heap C → A → V
  pub Inside : ℕ → ℕ → Heap C → A → Type 0

module _ {C A V : Type 0} where
  -- A copy has its places between the old and the new end of the memory, where nothing that was
  -- there before has changed, and reads as the original did.
  pub record IsCopy (c : Copier C A V) (h : Heap C) (x : A) (r : A × Heap C) : Type 0 where
    pub grows : h.next ≤ r.1.next
    pub keeps : Agree 0 h.next h r.1
    pub fresh : c.Inside h.next r.1.next r.1 r.0
    pub same : c.view r.1 r.0 ≡ c.view h x

  -- What is read of a value depends on its places only.
  pub record Views (c : Copier C A V) : Type 0 where
    pub reads :
        (lo hi : ℕ) (h g : Heap C) (x : A)
        → c.Inside lo hi h x
        → Agree lo hi h g
        → c.Inside lo hi g x × (c.view g x ≡ c.view h x)
    pub widens :
        (lo hi low high : ℕ) (h : Heap C) (x : A)
        → c.Inside lo hi h x
        → low ≤ lo
        → hi ≤ high
        → c.Inside low high h x

  pub record Copies (c : Copier C A V) : Type 0 where
    pub views : Views c
    pub is_copy : (h : Heap C) (x : A) → c.Inside 0 h.next h x → IsCopy c h x (c.copy x h)

module _ {C : Type 0} where
  pub Agree-trans :
      (lo hi end : ℕ) (h g k : Heap C)
      → Agree lo hi h g
      → Agree 0 end g k
      → hi ≤ end
      → Agree lo hi h k
  Agree-trans lo hi end h g k p q le a m n = q a (omega arith) (omega arith) ∙ p a m n

  pub Agree-above : (lo hi : ℕ) (h g : Heap C) → Agree 0 hi h g → Agree lo hi h g
  Agree-above lo hi h g p a m n = p a (omega arith) n

-- A struct with no reference: `*out = *in`.
module _ {C A : Type 0} where
  abbrev pub flat : A → Alloc C A
  flat x = give x

  abbrev pub flat_copier : Copier C A A
  flat_copier = record { copy = flat; view = λ h x. x; Inside = λ lo hi h x. Unit }

  pub flat-Copies : Copies flat_copier
  flat-Copies = record {
    views = record {
      reads = λ lo hi h g x i ag. (tt, refl);
      widens = λ lo hi low high h x i p q. tt;
    };
    is_copy =
        λ h x i. record { grows = omega arith; keeps = λ a p q. refl; fresh = tt; same = refl };
  }

-- Two parts of a struct, one after the other.
module _ {C A V B W : Type 0} (c : Copier C A V) (d : Copier C B W) where
  abbrev pub both : Copier C (A × B) (V × W)
  both = record {
    copy = λ (p : A × B). c.copy p.0 >>= λ x. d.copy p.1 >>= λ y. give (x, y);
    view = λ h (p : A × B). (c.view h p.0, d.view h p.1);
    Inside = λ lo hi h (p : A × B). c.Inside lo hi h p.0 × d.Inside lo hi h p.1;
  }

  both-Views : Views c → Views d → Views both
  both-Views cs ds = record {
    reads = λ lo hi h g p i ag.
        let (i0, e0) = cs.reads lo hi h g p.0 i.0 ag in
        let (i1, e1) = ds.reads lo hi h g p.1 i.1 ag in ((i0, i1), cc);
    widens = λ lo hi low high h p i le ge.
        (cs.widens lo hi low high h p.0 i.0 le ge, ds.widens lo hi low high h p.1 i.1 le ge);
  }

  -- The second part is copied in the memory that the first copy has left.
  pub both-IsCopy :
      (cs : Views c) (ds : Views d) (h : Heap C) (x : A) (y : B)
      → ((g : Heap C) → c.Inside 0 g.next g x → IsCopy c g x (c.copy x g))
      → ((g : Heap C) → d.Inside 0 g.next g y → IsCopy d g y (d.copy y g))
      → c.Inside 0 h.next h x
      → d.Inside 0 h.next h y
      → IsCopy both h (x, y) (both.copy (x, y) h)
  both-IsCopy cs ds h x y copy_x copy_y i j =
      let g = (c.copy x h).1 in
      let first = copy_x h i in
      let (j', same_y) = ds.reads 0 h.next h g y j first.keeps in
      let second = copy_y g (ds.widens 0 h.next 0 g.next g y j' (omega arith) first.grows) in
      let k = (d.copy y g).1 in
      let (i', same_x) =
        cs.reads h.next g.next g k (c.copy x h).0 first.fresh
          (Agree-above h.next g.next g k second.keeps) in
      record {
        grows = omega (arith, first.grows, second.grows);
        keeps = Agree-trans 0 h.next g.next h g k first.keeps second.keeps first.grows;
        fresh = (
          cs.widens h.next g.next h.next k.next k (c.copy x h).0 i' (omega arith) second.grows,
          ds.widens g.next k.next h.next k.next k (d.copy y g).0 second.fresh first.grows
              (omega arith),
        );
        same = cc (same_x, first.same, second.same, same_y);
      }

  pub both-Copies : Copies c → Copies d → Copies both
  both-Copies cs ds = record {
    views = both-Views cs.views ds.views;
    is_copy = λ h p i.
        both-IsCopy cs.views ds.views h p.0 p.1 (λ g. cs.is_copy g p.0) (λ g. ds.is_copy g p.1) i.0
          i.1;
  }
