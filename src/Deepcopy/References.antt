-- ===== src/Deepcopy/References.antt =====
-- Slices and maps: the places behind a struct's references.
use kubernetes_operators.Common.{
  ℕ, suc, ◌≤◌, ◌<◌, ◌≡◌, refl, sym, ap, ◌∙◌, Option, none, some, List, [], ◌∷◌, map, arith,
}
use mathlib.Core.Path.{subst}
use kubernetes_operators.Deepcopy.Heap.{
  Heap, Ref, Slot, ◌>>=◌, give, write, reserve, copy_each, copy_behind,
}
use kubernetes_operators.Deepcopy.Copies.{
  Agree, Copier, IsCopy, Views, Copies, Agree-trans, both-IsCopy,
}

-- A struct whose references are the parts that `get` reads and `put` replaces.
module _ {C A V S W : Type 0} (c : Copier C A V) (get : S → A) (put : S → A → S)
    (shown : S → V → W) where
  abbrev pub through : Copier C S W
  through = record {
    copy = λ s. c.copy (get s) >>= λ a. give (put s a);
    view = λ h s. shown s (c.view h (get s));
    Inside = λ lo hi h s. c.Inside lo hi h (get s);
  }

  pub through-Copies :
      ((s : S) (a : A) → get (put s a) ≡ a)
      → ((s : S) (a : A) (v : V) → shown (put s a) v ≡ shown s v)
      → Copies c
      → Copies through
  through-Copies get-put shown-put cs = record {
    views = record {
      reads = λ lo hi h g s i ag.
          let (j, e) = cs.views.reads lo hi h g (get s) i ag in (j, ap (shown s) e);
      widens = λ lo hi low high h s i le ge. cs.views.widens lo hi low high h (get s) i le ge;
    };
    is_copy = λ h s i.
        let r = cs.is_copy h (get s) i in
        let a = (c.copy (get s) h).0 in
        record {
          grows = r.grows;
          keeps = r.keeps;
          fresh = rw (get-put s a) r.fresh;
          same = rw (get-put s a) (shown-put s a _ ∙ ap (shown s) r.same);
        };
  }

module _ {C A V : Type 0} (c : Copier C A V) where
  abbrev AllInside : ℕ → ℕ → Heap C → List A → Type 0
  AllInside lo hi h [] = Unit
  AllInside lo hi h (x ∷ xs) = c.Inside lo hi h x × AllInside lo hi h xs

  -- The elements of a slice.
  abbrev pub each : Copier C (List A) (List V)
  each = record { copy = copy_each c.copy; view = λ h. map (c.view h); Inside = AllInside }

  each-reads :
      Views c
      → (lo hi : ℕ) (h g : Heap C) (xs : List A) → AllInside lo hi h xs
      → Agree lo hi h g
      → AllInside lo hi g xs × (map (c.view g) xs ≡ map (c.view h) xs)
  each-reads cs lo hi h g [] i ag = (tt, refl)
  each-reads cs lo hi h g (x ∷ xs) i ag =
      let (i0, e0) = cs.reads lo hi h g x i.0 ag in
      let (i1, e1) = each-reads cs lo hi h g xs i.1 ag in ((i0, i1), cc)

  each-widens :
      Views c
      → (lo hi low high : ℕ) (h : Heap C) (xs : List A) → AllInside lo hi h xs
      → low ≤ lo
      → hi ≤ high
      → AllInside low high h xs
  each-widens cs lo hi low high h [] i le ge = tt
  each-widens cs lo hi low high h (x ∷ xs) i le ge =
      (cs.widens lo hi low high h x i.0 le ge, each-widens cs lo hi low high h xs i.1 le ge)

  each-Views : Views c → Views each
  each-Views cs = record { reads = each-reads cs; widens = each-widens cs }

  each-IsCopy :
      Copies c
      → (xs : List A) (h : Heap C) → AllInside 0 h.next h xs
      → IsCopy each h xs (copy_each c.copy xs h)
  unfolding copy_each
  each-IsCopy cs [] h i = record {
    grows = omega arith;
    keeps = λ a p q. refl;
    fresh = tt;
    same = refl;
  }
  each-IsCopy cs (x ∷ xs) h i =
      let r =
        both-IsCopy c each cs.views (each-Views cs.views) h x xs (λ g. cs.is_copy g x)
          (each-IsCopy cs xs) i.0 i.1 in
      record {
        grows = r.grows;
        keeps = r.keeps;
        fresh = r.fresh;
        same = ap (λ (p : V × List V). p.0 ∷ p.1) r.same;
      }

  pub each-Copies : Copies c → Copies each
  unfolding copy_each
  each-Copies cs = record { views = each-Views cs.views; is_copy = λ h xs. each-IsCopy cs xs h }

module _ {C : Type 0} where
  pub write-Agree : (lo hi a : ℕ) (c : C) (h : Heap C) → a < lo → Agree lo hi h (write a c h).1
  unfolding write
  write-Agree lo hi a c h lt b m n = ground arith

  pub write-below : (hi a : ℕ) (c : C) (h : Heap C) → hi ≤ a → Agree 0 hi h (write a c h).1
  unfolding write
  write-below hi a c h lt b m n = ground arith

  pub write-here : (a : ℕ) (c : C) (h : Heap C) → (write a c h).1.cell a ≡ c
  unfolding write
  write-here a c h = ground arith

-- A reference, or nil, to what `c` copies.
module _ {C A V : Type 0} (s : Slot C A) (c : Copier C A V) where
  abbrev view_behind : Heap C → Ref → Option V
  view_behind h none = none
  view_behind h (some a) = some (c.view h (s.get (h.cell a)))

  abbrev InsideBehind : ℕ → ℕ → Heap C → Ref → Type 0
  InsideBehind lo hi h none = Unit
  InsideBehind lo hi h (some a) = (lo ≤ a) × (a < hi) × c.Inside lo hi h (s.get (h.cell a))

  abbrev pub behind : Copier C Ref (Option V)
  behind = record { copy = copy_behind s c.copy; view = view_behind; Inside = InsideBehind }

  behind-reads :
      Views c
      → (lo hi : ℕ) (h g : Heap C) (r : Ref) → InsideBehind lo hi h r
      → Agree lo hi h g
      → InsideBehind lo hi g r × (view_behind g r ≡ view_behind h r)
  behind-reads cs lo hi h g none i ag = (tt, refl)
  behind-reads cs lo hi h g (some a) (le, lt, i) ag =
      let (j, e) = cs.reads lo hi h g (s.get (h.cell a)) i ag in
      rw (ag a le lt) ((le, lt, j), ap some e)

  behind-widens :
      Views c
      → (lo hi low high : ℕ) (h : Heap C) (r : Ref) → InsideBehind lo hi h r
      → low ≤ lo
      → hi ≤ high
      → InsideBehind low high h r
  behind-widens cs lo hi low high h none i le ge = tt
  behind-widens cs lo hi low high h (some a) (m, n, i) le ge =
      (omega arith, omega arith, cs.widens lo hi low high h (s.get (h.cell a)) i le ge)

  -- What has been copied above `n` is written to the place `n`.
  filled-IsCopy :
      Views c
      → (h h' : Heap C) (a : ℕ) (y : A × Heap C) → h'.next ≡ suc h.next
      → Agree 0 h.next h h'
      → IsCopy c h' (s.get (h.cell a)) y
      → c.view h' (s.get (h.cell a)) ≡ c.view h (s.get (h.cell a))
      → IsCopy behind h (some a) (some h.next, (write h.next (s.put y.0) y.1).1)
  unfolding write
  filled-IsCopy cs h h' a y e ag r same =
      let n = h.next in
      let g = y.1 in
      let k = (write n (s.put y.0) g).1 in
      let here = ap s.get (write-here n (s.put y.0) g) ∙ s.get-put y.0 in
      let (j, seen) =
        cs.reads h'.next g.next g k y.0 r.fresh
          (write-Agree h'.next g.next n (s.put y.0) g (omega arith)) in
      record {
        grows = omega (arith, e, r.grows);
        keeps =
            Agree-trans 0 n n h g k (Agree-trans 0 n h'.next h h' g ag r.keeps (omega (arith, e)))
              (write-below n n (s.put y.0) g (omega arith)) (omega arith);
        fresh = (
          omega arith,
          omega (arith, e, r.grows),
          subst (λ x. c.Inside n k.next k x) (sym here)
              (cs.widens h'.next g.next n k.next k y.0 j (omega (arith, e)) (omega arith)),
        );
        same = ap some (ap (c.view k) here ∙ seen ∙ r.same ∙ same);
      }

  behind-IsCopy :
      Copies c
      → (h : Heap C) (r : Ref) → InsideBehind 0 h.next h r
      → IsCopy behind h r (copy_behind s c.copy r h)
  unfolding copy_behind reserve
  behind-IsCopy cs h none i = record {
    grows = omega arith;
    keeps = λ a p q. refl;
    fresh = tt;
    same = refl;
  }
  behind-IsCopy cs h (some a) (le, lt, i) =
      let x = s.get (h.cell a) in
      let h' = (reserve h).1 in
      let (j, e) = cs.views.reads 0 h.next h h' x i (λ b p q. refl) in
      let r =
        cs.is_copy h' x (cs.views.widens 0 h.next 0 h'.next h' x j (omega arith) (omega arith)) in
      filled-IsCopy cs.views h h' a (c.copy x h') refl (λ b p q. refl) r e

  pub behind-Copies : Copies c → Copies behind
  behind-Copies cs = record {
    views = record { reads = behind-reads cs.views; widens = behind-widens cs.views };
    is_copy = behind-IsCopy cs;
  }
