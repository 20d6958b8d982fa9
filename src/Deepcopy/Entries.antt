-- ===== src/Deepcopy/Entries.antt =====
-- The entries of a map: ranging over a map and writing each entry makes the same map.
use mathlib.Core.List.{append-nil, append_assoc}
use kubernetes_operators.Common.{
  String, ◌≡◌, refl, sym, ap, ◌∙◌, none, [], ◌∷◌, ◌++◌, Labels, IsMap, lookup, insert,
  lookup-insert, eq_iff, arith,
}
use kubernetes_operators.Subreconcilers.Labels.{write_all}
use kubernetes_operators.Deepcopy.Heap.{copy_entries}
use kubernetes_operators.Deepcopy.Copies.{Copier, Copies}

IsFresh : Labels → Labels → Type 0
IsFresh r [] = Unit
IsFresh r ((k, v) ∷ m) = (lookup k r ≡ none) × IsFresh r m

insert-fresh : (k v : String) (r : Labels) → lookup k r ≡ none → insert k v r ≡ r ++ (k, v) ∷ []
unfolding lookup insert
insert-fresh k v [] e = refl
insert-fresh k v ((j, u) ∷ r) e = ground (arith, insert-fresh k v r, eq_iff j k)

IsFresh-insert :
    (k v : String) (r m : Labels) → lookup k m ≡ none → IsFresh r m → IsFresh (insert k v r) m
unfolding IsFresh lookup
IsFresh-insert k v r [] e f = tt
IsFresh-insert k v r ((j, u) ∷ m) e f =
    ground (arith, IsFresh-insert k v r m, lookup-insert r j k v, eq_iff j k, eq_iff k j)

write_all-fresh : (r m : Labels) → IsMap m → IsFresh r m → write_all r m ≡ r ++ m
unfolding IsFresh write_all
write_all-fresh r [] d f = sym (append-nil r)
write_all-fresh r ((k, v) ∷ m) d f =
    write_all-fresh (insert k v r) m d.1 (IsFresh-insert k v r m d.0 f.1)
    ∙ ap (λ (l : Labels). l ++ m) (insert-fresh k v r f.0)
    ∙ append_assoc r ((k, v) ∷ []) m

IsFresh-nil : (m : Labels) → IsFresh [] m
unfolding IsFresh lookup
IsFresh-nil [] = tt
IsFresh-nil ((k, v) ∷ m) = (refl, IsFresh-nil m)

-- Ranging over a map that lists no key twice writes the same map.
write_all-nil : (m : Labels) → IsMap m → write_all [] m ≡ m
write_all-nil m d = write_all-fresh [] m d (IsFresh-nil m)

module _ {C : Type 0} where
  abbrev pub entries : Copier C Labels Labels
  entries = record { copy = copy_entries; view = λ h m. m; Inside = λ lo hi h m. IsMap m }

  pub entries-Copies : Copies entries
  unfolding copy_entries
  entries-Copies = record {
    views = record {
      reads = λ lo hi h g m d ag. (d, refl);
      widens = λ lo hi low high h m d le ge. d;
    };
    is_copy = λ h m d.
        rw (write_all-nil m d)
          (record { grows = omega arith; keeps = λ a p q. refl; fresh = d; same = refl });
  }
