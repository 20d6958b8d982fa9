-- ===== src/Common/Maps.antt =====
-- Go's `map[string]string` as an association list; a later write replaces an earlier one in place.
use Prim.Native.String.{String}
use mathlib.Core.Path.{◌≡◌, refl}
use mathlib.Core.Option.{Option, none, some}
use mathlib.Core.List.{List, [], ◌∷◌}
use native.Mathlib.Omega.{arith}
use text.Mathlib.Text.{◌==◌}
use text.Mathlib.TextEquality.{eq_iff}
use kubernetes_operators.Common.Tests.{if◌then◌else◌}

abbrev pub Labels : Type 0
Labels = List (String × String)

-- `m[k]`, with whether the key is there.
unfoldable pub lookup : String → Labels → Option String
lookup name [] = none
lookup name ((first, value) ∷ rest) = if first == name then some value else lookup name rest

-- `m[k] = v`
unfoldable pub insert : String → String → Labels → Labels
insert name value [] = (name, value) ∷ []
insert name value ((first, old) ∷ rest) =
    if first == name then (name, value) ∷ rest else (first, old) ∷ insert name value rest

pub lookup-insert :
    (entries : Labels) (asked name value : String)
    → lookup asked (insert name value entries)
      ≡ (if name == asked then some value else lookup asked entries)
unfolding lookup insert
lookup-insert [] asked name value = refl
lookup-insert ((first, old) ∷ rest) asked name value = ground (
  arith,
  lookup-insert rest asked name value,
  eq_iff first name,
  eq_iff first asked,
  eq_iff name asked,
)

-- Every entry of the first is looked up alike in the second: a label selector's test.
abbrev pub Selects : Labels → Labels → Type 0
Selects [] labels = Unit
Selects ((k, v) ∷ sel) labels = (lookup k labels ≡ some v) × Selects sel labels

-- No key is listed twice, as in any Go map.
abbrev pub IsMap : Labels → Type 0
IsMap [] = Unit
IsMap ((k, v) ∷ m) = (lookup k m ≡ none) × IsMap m
