-- ===== src/Common/Sorting.antt =====
-- `sort.Strings`: Go orders strings by their bytes, which for UTF-8 is the order of code points.
use Prim.Native.Char.{Char, code}
use text.Mathlib.TextEquality.{Char-path}
use mathlib.Core.Path.{ap₂}
use mathlib.Core.List.Permᴰ
use mathlib.Core.List.{Permᴰ}
use kubernetes_operators.Common.{
  String, ◌≡◌, refl, ◌∙◌, Bool-cases, Bool, true, false, List, [], ◌∷◌, arith, ltb, eqb, inl, inr,
  if◌then◌else◌, ◌⊎◌,
}

unfoldable pub str_leb : String → String → Bool
str_leb String.[] t = true
str_leb (String.◌∷◌ c s) String.[] = false
str_leb (String.◌∷◌ c s) (String.◌∷◌ d t) =
    if ltb (code c) (code d) then true else if eqb (code c) (code d) then str_leb s t else false

unfoldable pub insert_sorted : String → List String → List String
insert_sorted k [] = k ∷ []
insert_sorted k (j ∷ l) = if str_leb k j then k ∷ j ∷ l else j ∷ insert_sorted k l

unfoldable pub sort : List String → List String
unfolding insert_sorted
sort [] = []
sort (k ∷ l) = insert_sorted k (sort l)

str_leb_total : (s t : String) → (str_leb s t ≡ true) ⊎ (str_leb t s ≡ true)
unfolding str_leb
str_leb_total String.[] t = inl refl
str_leb_total (String.◌∷◌ c s) String.[] = inr refl
str_leb_total (String.◌∷◌ c s) (String.◌∷◌ d t) = ground (arith, str_leb_total s t)

str_leb_trans : (s t u : String) → str_leb s t ≡ true → str_leb t u ≡ true → str_leb s u ≡ true
unfolding str_leb
str_leb_trans String.[] t u h k = refl
str_leb_trans (String.◌∷◌ c s) String.[] u h k = ground arith
str_leb_trans (String.◌∷◌ c s) (String.◌∷◌ d t) String.[] h k = ground arith
str_leb_trans (String.◌∷◌ c s) (String.◌∷◌ d t) (String.◌∷◌ e u) h k =
    ground (arith, str_leb_trans s t u)

codes_eq :
    (c d : Char) (s t : String)
    → str_leb (String.◌∷◌ c s) (String.◌∷◌ d t) ≡ true
    → str_leb (String.◌∷◌ d t) (String.◌∷◌ c s) ≡ true
    → (code c ≡ code d) × (str_leb s t ≡ true) × (str_leb t s ≡ true)
unfolding str_leb
codes_eq c d s t h k = ground arith

str_leb_antisymm : (s t : String) → str_leb s t ≡ true → str_leb t s ≡ true → s ≡ t
str_leb_antisymm String.[] String.[] h k = refl
str_leb_antisymm String.[] (String.◌∷◌ d t) h k = unfold str_leb in cc
str_leb_antisymm (String.◌∷◌ c s) String.[] h k = unfold str_leb in cc
str_leb_antisymm (String.◌∷◌ c s) (String.◌∷◌ d t) h k =
    let (e, p, q) = codes_eq c d s t h k in
    ap₂ String.◌∷◌ (Char-path c d e) (str_leb_antisymm s t p q)

-- Two insertions commute, since the order is total, transitive and antisymmetric.
insert_sorted_comm :
    (a b : String) (l : List String)
    → insert_sorted a (insert_sorted b l) ≡ insert_sorted b (insert_sorted a l)
unfolding insert_sorted
insert_sorted_comm a b [] = ground (arith, str_leb_total a b, str_leb_antisymm a b)
insert_sorted_comm a b (c ∷ l) = ground (
  arith,
  insert_sorted_comm a b l,
  str_leb_total a b,
  str_leb_total a c,
  str_leb_total b c,
  str_leb_antisymm a b,
  str_leb_trans a b c,
  str_leb_trans b a c,
)

-- The sorted list does not depend on the order of the input.
pub sort-perm : (xs ys : List String) → Permᴰ xs ys → sort xs ≡ sort ys
unfolding sort
sort-perm _ _ Permᴰ.nil = refl
sort-perm _ _ (Permᴰ.cons e p) = ap₂ insert_sorted e (sort-perm _ _ p)
sort-perm _ _ (Permᴰ.swap {a = a} {b = b} {l = l} e f) =
    insert_sorted_comm a b (sort l) ∙ ap₂ (λ x y. insert_sorted x (insert_sorted y (sort l))) f e
sort-perm _ _ (Permᴰ.trans p q) = sort-perm _ _ p ∙ sort-perm _ _ q

abbrev pub IsSorted : List String → Type 0
IsSorted [] = Unit
IsSorted (k ∷ []) = Unit
IsSorted (k ∷ j ∷ l) = (str_leb k j ≡ true) × IsSorted (j ∷ l)

insert_sorted-IsSorted : (k : String) (l : List String) → IsSorted l → IsSorted (insert_sorted k l)
unfolding insert_sorted
insert_sorted-IsSorted k [] h = tt
insert_sorted-IsSorted k (j ∷ []) h = ground (arith, str_leb_total k j)
insert_sorted-IsSorted k (j ∷ i ∷ l) h =
    ground (arith, str_leb_total k j, insert_sorted-IsSorted k (i ∷ l) h.1)

pub sort-IsSorted : (l : List String) → IsSorted (sort l)
unfolding sort
sort-IsSorted [] = tt
sort-IsSorted (k ∷ l) = insert_sorted-IsSorted k (sort l) (sort-IsSorted l)

insert_sorted-is_perm : (k : String) (l : List String) → Permᴰ (insert_sorted k l) (k ∷ l)
unfolding insert_sorted
insert_sorted-is_perm k [] = Permᴰ.refl (k ∷ [])
insert_sorted-is_perm k (j ∷ l) = elim (Bool-cases (str_leb k j)) [
  | inl e ↦ rw e (Permᴰ.refl (k ∷ j ∷ l))
  | inr e ↦ rw e (
      Permᴰ.trans (Permᴰ.cons refl (insert_sorted-is_perm k l))
        (Permᴰ.swap {a = j} {b = k} {l = l} refl refl))
]

pub sort-is_perm : (l : List String) → Permᴰ (sort l) l
unfolding sort
sort-is_perm [] = Permᴰ.nil
sort-is_perm (k ∷ l) =
    Permᴰ.trans (insert_sorted-is_perm k (sort l)) (Permᴰ.cons refl (sort-is_perm l))
