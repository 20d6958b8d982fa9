-- ===== src/Subreconcilers/Labels.antt =====
-- The labels of internal/controller/subreconcilers/apply.go, and the label selector that the
-- builders share.
use kubernetes_operators.Common.{
  String, ◌≡◌, refl, Option, none, some, [], ◌∷◌, List, arith, eq_iff, eq_refl, ◌==◌, if◌then◌else◌,
  lookup, insert, lookup-insert, IsMap, Bool-cases, inl, inr,
}
use kubernetes_operators.Common as C

unfoldable pub common_labels : String → C.Labels
common_labels app_name =
    ("app.kubernetes.io/name", app_name)
    ∷ ("app.kubernetes.io/managed-by", "platform-operator")
    ∷ ("app.kubernetes.io/part-of", "platform")
    ∷ []

-- The inner loop of `MergeLabels`: each entry is written over the result.
unfoldable pub write_all : C.Labels → C.Labels → C.Labels
write_all result [] = result
write_all result ((k, v) ∷ m) = write_all (insert k v result) m

merge_into : C.Labels → List C.Labels → C.Labels
merge_into result [] = result
merge_into result (m ∷ maps) = merge_into (write_all result m) maps

unfoldable pub merge_labels : List C.Labels → C.Labels
unfolding merge_into
merge_labels maps = merge_into [] maps

-- `map[string]string` of a selector: the name and the instance of the application.
unfoldable pub selector_labels : String → C.Labels
selector_labels app_name =
    ("app.kubernetes.io/name", app_name) ∷ ("app.kubernetes.io/instance", app_name) ∷ []

-- The first answer, or else the second.
abbrev pub or_else : Option String → Option String → Option String
or_else none o = o
or_else (some v) o = some v

lookup-write_all :
    (result m : C.Labels) (k : String)
    → IsMap m
    → lookup k (write_all result m) ≡ or_else (lookup k m) (lookup k result)
unfolding lookup write_all
lookup-write_all result [] k h = refl
lookup-write_all result ((j, v) ∷ m) k h = ground (
  arith,
  lookup-write_all (insert j v result) m k h.1,
  lookup-insert result k j v,
  eq_iff j k,
  h.0,
)

-- What the last map that holds the key says of it.
abbrev pub last_of : String → List C.Labels → Option String
last_of k [] = none
last_of k (m ∷ maps) = or_else (last_of k maps) (lookup k m)

abbrev pub AreMaps : List C.Labels → Type 0
AreMaps [] = Unit
AreMaps (m ∷ maps) = IsMap m × AreMaps maps

lookup-merge_into :
    (result : C.Labels) (maps : List C.Labels) (k : String)
    → AreMaps maps
    → lookup k (merge_into result maps) ≡ or_else (last_of k maps) (lookup k result)
unfolding merge_into
lookup-merge_into result [] k h = refl
lookup-merge_into result (m ∷ maps) k h =
    ground
      (arith, lookup-merge_into (write_all result m) maps k h.1, lookup-write_all result m k h.0)

-- In merged labels every key has the value that the last map with that key gives it, and a key
-- that no map has is missing.
pub lookup-merge_labels :
    (maps : List C.Labels) (k : String)
    → AreMaps maps
    → lookup k (merge_labels maps) ≡ last_of k maps
unfolding merge_labels
lookup-merge_labels maps k h = rw (lookup-merge_into [] maps k h) (unfold lookup in ground arith)
