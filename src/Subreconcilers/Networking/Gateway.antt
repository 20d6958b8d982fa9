-- ===== src/Subreconcilers/Networking/Gateway.antt =====
-- Which parent gateway a reference names.
use Prim.Native.Char.{Char, code}
use Prim.Native.String.append
use Prim.Native.String.{◌++◌}
use text.Mathlib.TextEquality.{Char-path}
use mathlib.Core.Option
use kubernetes_operators.Common.{
  String, ◌≡◌, ◌≢◌, refl, sym, ap, ◌∙◌, false, Option, none, some, List, [], ◌∷◌, ◌==◌, arith, eqb,
  eq_iff, split_slash, Bool-cases, inl, inr,
}
use kubernetes_operators.Cluster.Objects.{ParentReference}
use kubernetes_operators.Subreconcilers.Networking.{parent_refs}

-- No character of the text is '/'.
abbrev pub HasNoSlash : String → Type 0
HasNoSlash String.[] = Unit
HasNoSlash (String.◌∷◌ c s) = (code c ≢ b'/') × HasNoSlash s

-- The two sides of a split, put together again around a '/'; no split means no '/'.
abbrev pub Splits : String → Option (String × String) → Type 0
Splits s none = HasNoSlash s
Splits s (some (before, after)) = HasNoSlash before × (s ≡ before ++ "/" ++ after)

abbrev longer : Char → String × String → String × String
longer c (before, after) = (String.◌∷◌ c before, after)

Splits-longer :
    (c : Char) (s : String) (o : Option (String × String))
    → code c ≢ b'/'
    → Splits s o
    → Splits (String.◌∷◌ c s) (Option.map (λ p. (String.◌∷◌ c p.0, p.1)) o)
Splits-longer c s none ne h = (ne, h)
Splits-longer c s (some (before, after)) ne h =
    ((ne, h.0), ap (String.◌∷◌ c) h.1 ∙ sym (append.cons c before ("/" ++ after)))

slash_first : (c : Char) (s : String) → code c ≡ b'/' → String.◌∷◌ c s ≡ "" ++ "/" ++ s
slash_first c s e =
    ap (λ (d : Char). String.◌∷◌ d s) (Char-path c "/" e)
    ∙ sym (append.nil ("/" ++ s) ∙ append.cons "/" "" s ∙ ap (String.◌∷◌ "/") (append.nil s))

split_slash-Splits : (s : String) → Splits s (split_slash s)
unfolding split_slash
split_slash-Splits String.[] = tt
split_slash-Splits (String.◌∷◌ c s) = elim (Bool-cases (eqb (code c) b'/')) [
  | inl e ↦ rw e (tt, slash_first c s (ground arith))
  | inr e ↦ rw e (Splits-longer c s (split_slash s) (ground arith) (split_slash-Splits s))
]

-- What a reference to a gateway stands for: none without a '/', else the namespace before the
-- first '/' and the name after it.
abbrev pub Names : String → List ParentReference → Type 0
Names gateway_ref [] = HasNoSlash gateway_ref
Names gateway_ref (p ∷ rest) =
    (rest ≡ [])
    × HasNoSlash p.parent_namespace
    × (gateway_ref ≡ p.parent_namespace ++ "/" ++ p.parent_name)

refs_of_split :
    (s : String) (o : Option (String × String))
    → split_slash s ≡ o
    → (s == "") ≡ false
    → Splits s o
    → Names s (parent_refs s)
unfolding parent_refs
refs_of_split s none e f h = ground arith
refs_of_split s (some (before, after)) e f h = rw (f, e) (refl, h.0, h.1)

-- The route of an application has one parent gateway exactly when the reference has a '/': then
-- the namespace, which has no '/', and the name make up the reference again; any other reference,
-- the empty one included, names no gateway and is dropped without an error.
pub parent_refs-Names : (gateway_ref : String) → Names gateway_ref (parent_refs gateway_ref)
parent_refs-Names s = elim (Bool-cases (s == "")) [
  | inl e ↦ let p : s ≡ "" = (eq_iff s "").0 e in rw p (unfold parent_refs in tt)
  | inr e ↦ refs_of_split s (split_slash s) refl e (split_slash-Splits s)
]
