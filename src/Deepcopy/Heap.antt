-- ===== src/Deepcopy/Heap.antt =====
-- The memory that Go's references point into. `C` is what a cell can hold; a place from `next` on
-- has not been given out. A reference, `nil` or a place, stands for a map or for the array of a
-- slice; a slice is its whole array.
use kubernetes_operators.Common.{
  ℕ, suc, ◌≡◌, Option, none, some, List, [], ◌∷◌, Labels, eqb, if◌then◌else◌,
}
use kubernetes_operators.Subreconcilers.Labels.{write_all}

pub record Heap (C : Type 0) : Type 0 where
  pub next : ℕ
  pub cell : ℕ → C

abbrev pub Ref : Type 0
Ref = Option ℕ

-- How a cell holds a value of type `T`; of another cell, `get` answers an empty value.
pub record Slot (C T : Type 0) : Type 0 where
  pub put : T → C
  pub get : C → T
  pub get-put : (t : T) → get (put t) ≡ t

abbrev pub Alloc : Type 0 → Type 0 → Type 0
Alloc C A = Heap C → A × Heap C

module _ {C A : Type 0} where
  abbrev pub give : A → Alloc C A
  give a h = (a, h)

module _ {C A B : Type 0} where
  infixl 10 ◌>>=◌ ◌>>◌
  abbrev pub ◌>>=◌ : Alloc C A → (A → Alloc C B) → Alloc C B
  ◌>>=◌ m f h = f (m h).0 (m h).1

  abbrev pub ◌>>◌ : Alloc C A → Alloc C B → Alloc C B
  m >> n = m >>= λ _. n

module _ {C : Type 0} where
  -- `make`: a place that nothing refers to yet.
  unfoldable pub reserve : Alloc C ℕ
  reserve h = (h.next, record h { next = suc h.next })

  unfoldable pub write : ℕ → C → Alloc C Unit
  write a c h = (tt, record h { cell = λ b. if eqb b a then c else h.cell b })

  -- What a map or a slice holds, or `none` for nil.
  abbrev pub held : {T : Type 0} → Slot C T → Heap C → Ref → Option T
  held s h none = none
  held s h (some a) = some (s.get (h.cell a))

module _ {C T : Type 0} where
  -- `if in.F != nil { *out = make(…); for … }`: a place is reserved, and filled by the loop.
  unfoldable pub copy_behind : Slot C T → (T → Alloc C T) → Ref → Alloc C Ref
  copy_behind s fill none = give none
  copy_behind s fill (some a) = do
    b ← reserve
    filled ← λ h. fill (s.get (h.cell a)) h
    write b (s.put filled)
    give (some b)

module _ {C A : Type 0} where
  -- `for i := range *in { (*in)[i].DeepCopyInto(&(*out)[i]) }`
  unfoldable pub copy_each : (A → Alloc C A) → List A → Alloc C (List A)
  copy_each into [] = give []
  copy_each into (x ∷ xs) = do y ← into x; ys ← copy_each into xs; give (y ∷ ys)

module _ {C : Type 0} where
  -- `for key, val := range *in { (*out)[key] = val }`
  unfoldable pub copy_entries : Labels → Alloc C Labels
  copy_entries m = give (write_all [] m)

module _ {C A : Type 0} where
  -- `DeepCopy`: nil for nil, else `DeepCopyInto` of a new struct. The struct that `new` makes is
  -- the result itself.
  unfoldable pub deep_copy : (A → Alloc C A) → Option A → Alloc C (Option A)
  deep_copy into none = give none
  deep_copy into (some x) = do out ← into x; give (some out)

  -- `DeepCopyObject`
  unfoldable pub deep_copy_object : (A → Alloc C A) → Option A → Alloc C (Option A)
  unfolding deep_copy
  deep_copy_object into x = do
    c ← deep_copy into x
    give (elim c [ none ↦ none | some out ↦ some out ])
