-- ===== src/Subreconcilers/Deployment/Environment.antt =====
-- The environment variables of the container, which deployment.go sorts "to keep the pod template
-- deterministic": ranging over a Go map visits its keys in any order.
use mathlib.Core.List.{Permᴰ}
use kubernetes_operators.Common.{
  String, ◌≡◌, refl, ap, ◌∙◌, List, [], ◌∷◌, map, lookup, Labels, arith,
}
use kubernetes_operators.Common.Sorting.{sort, sort-perm, IsSorted, sort-IsSorted, sort-is_perm}
use kubernetes_operators.Cluster.Objects.{EnvVar}
use kubernetes_operators.Subreconcilers.Deployment.{keys, get, env_vars}

abbrev entry : Labels → String → EnvVar
entry m k = record { env_name = k; env_value = get m k }

entry-congr :
    (m m' : Labels)
    → ((k : String) → lookup k m ≡ lookup k m')
    → (l : List String) → map (entry m) l ≡ map (entry m') l
unfolding get
entry-congr m m' h [] = refl
entry-congr m m' h (k ∷ l) = ground (arith, h k, entry-congr m m' h l)

-- Two orders in which the same map may be ranged over, with the same values at the same keys, give
-- the same environment variables in the same order.
pub env_vars_deterministic :
    (m m' : Labels)
    → Permᴰ (keys m) (keys m')
    → ((k : String) → lookup k m ≡ lookup k m')
    → env_vars m ≡ env_vars m'
unfolding env_vars
env_vars_deterministic m m' p h =
    ap (map (entry m)) (sort-perm (keys m) (keys m') p) ∙ entry-congr m m' h (sort (keys m'))

names_of_entries :
    (m : Labels) (l : List String) → map (λ (e : EnvVar). e.env_name) (map (entry m) l) ≡ l
names_of_entries m [] = refl
names_of_entries m (k ∷ l) = ap (λ r. k ∷ r) (names_of_entries m l)

abbrev pub names : List EnvVar → List String
names = map (λ e. e.env_name)

-- The names of the environment variables are the keys of the configuration, in increasing order.
pub env_vars-IsSorted :
    (m : Labels) → IsSorted (names (env_vars m)) × Permᴰ (names (env_vars m)) (keys m)
unfolding env_vars
env_vars-IsSorted m =
    rw (names_of_entries m (sort (keys m))) (sort-IsSorted (keys m), sort-is_perm (keys m))
