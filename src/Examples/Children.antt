-- ===== src/Examples/Children.antt =====
-- The objects built for the applications of the fixtures.
use mathlib.Core.List.{Permᴰ}
use kubernetes_operators.Common.{
  String, ◌≡◌, ◌≢◌, ◌↔◌, ◌⊎◌, refl, Option, none, some, List, [], ◌∷◌, arith, eq_iff, Labels,
  lookup,
}
use kubernetes_operators.Common.Int.{ℤ, pos, ◌≤ℤ◌, atoi, to_int32}
use kubernetes_operators.Api.V1alpha1.{PlatformApplication}
use kubernetes_operators.Api.V1alpha1.Webhook.{default}
use kubernetes_operators.Cluster.Objects.{Object, int}
use kubernetes_operators.Subreconcilers.Labels.{
  common_labels, selector_labels, merge_labels, last_of, AreMaps, lookup-merge_labels,
}
use kubernetes_operators.Subreconcilers.Deployment.{
  keys, env_vars, rollout_bound, build_desired_deployment, resource_requirements, resource_list,
  put_quantity,
}
use kubernetes_operators.Subreconcilers.Deployment.Environment.{env_vars_deterministic}
use kubernetes_operators.Subreconcilers.Deployment.Rollout.{
  IsInt32, rollout_bound_exact, HasBad, build_panics_iff,
}
use kubernetes_operators.Subreconcilers.Service.{build_desired_service}
use kubernetes_operators.Subreconcilers.Hpa.{build_desired_hpa}
use kubernetes_operators.Subreconcilers.Networking.{parent_refs, build_desired_network_policy}
use kubernetes_operators.Subreconcilers.Networking.Gateway.{Names, parent_refs-Names}
use kubernetes_operators.Subreconcilers.Pdb.{build_desired_pdb}
use kubernetes_operators.Subreconcilers.ServiceMonitor.{build_desired_service_monitor}
use kubernetes_operators.Subreconcilers.Selectors.{
  Finds, template_labels_of, pods_are_found, service_not_monitored,
}
use kubernetes_operators.Subreconcilers.Scaling.{
  replicas_of, bounds_of, admitted_scaling, deployment_pins_replicas,
}
use kubernetes_operators.Examples.Fixtures.{shop, steady}
use kubernetes_operators.Examples.Types.{shop_accepted}

-- The object of a build that succeeds.
abbrev built : Option Object → Object
built none = build_desired_service shop
built (some o) = o

abbrev shop_deployment : PlatformApplication → Object
shop_deployment app = built (build_desired_deployment steady.quantity_ok app)

is_built : build_desired_deployment steady.quantity_ok shop ≡ some (shop_deployment shop)
unfolding build_desired_deployment resource_requirements resource_list put_quantity
is_built = refl

default_built :
    build_desired_deployment steady.quantity_ok (default shop)
    ≡ some (shop_deployment (default shop))
unfolding build_desired_deployment default resource_requirements resource_list put_quantity
default_built = refl

pods_are_found_example :
    let pods = template_labels_of (shop_deployment shop).body in
    Finds (shop_deployment shop) pods
    × Finds (build_desired_service shop) pods
    × Finds (build_desired_network_policy shop) pods
    × Finds (build_desired_pdb shop) pods
pods_are_found_example = pods_are_found steady.quantity_ok shop is_built

service_not_monitored_example :
    ¬ Finds (build_desired_service_monitor shop) (build_desired_service shop).meta.labels
service_not_monitored_example = service_not_monitored shop shop

admitted_scaling_example :
    (replicas_of (shop_deployment (default shop)).body ≡ some (default shop).spec.replicas.min)
    × (bounds_of (build_desired_hpa (default shop)).body
        ≡ some ((default shop).spec.replicas.min, (default shop).spec.replicas.max))
admitted_scaling_example =
    admitted_scaling steady.quantity_ok shop (omega arith) shop_accepted default_built

deployment_pins_replicas_example :
    (n : ℤ) × (replicas_of (shop_deployment shop).body ≡ some n)
    × (pos 1 ≤ℤ n)
    × (shop.spec.replicas.min ≤ℤ n)
    × ((n ≡ shop.spec.replicas.min) ⊎ (n ≡ pos 1))
deployment_pins_replicas_example = deployment_pins_replicas steady.quantity_ok shop is_built

abbrev team_labels : List Labels
team_labels = common_labels "shop" ∷ selector_labels "shop" ∷ (("team", "web") ∷ []) ∷ []

team_maps : AreMaps team_labels
unfolding common_labels selector_labels lookup
team_maps = ((refl, (refl, (refl, tt))), ((refl, (refl, tt)), ((refl, tt), tt)))

lookup-merge_labels_example : lookup "team" (merge_labels team_labels) ≡ last_of "team" team_labels
lookup-merge_labels_example = lookup-merge_labels team_labels "team" team_maps

abbrev other_order : Labels
other_order = ("A", "1") ∷ ("B", "2") ∷ []

same_keys : Permᴰ (keys shop.spec.configuration) (keys other_order)
unfolding keys
same_keys = Permᴰ.swap refl refl

same_values : (k : String) → lookup k shop.spec.configuration ≡ lookup k other_order
unfolding lookup
same_values k = ground (arith, eq_iff "A" k, eq_iff "B" k, eq_iff "A" "B")

env_vars_deterministic_example : env_vars shop.spec.configuration ≡ env_vars other_order
env_vars_deterministic_example =
    env_vars_deterministic shop.spec.configuration other_order same_keys same_values

large_number : atoi "4294967297" ≡ some (pos 4294967297)
unfolding atoi
large_number = refl

large_ne_empty : ◌≢◌ {A = String} "4294967297" ""
large_ne_empty = ground (arith, eq_iff "4294967297" "")

rollout_bound_exact_example :
    (rollout_bound "4294967297" ≡ some (int (to_int32 (pos 4294967297))))
    × IsInt32 (to_int32 (pos 4294967297))
    × ((rollout_bound "4294967297" ≡ some (int (pos 4294967297))) ↔ IsInt32 (pos 4294967297))
rollout_bound_exact_example =
    rollout_bound_exact "4294967297" (pos 4294967297) large_ne_empty large_number

build_panics_iff_example : (build_desired_deployment steady.quantity_ok shop ≡ none) ↔ (
    HasBad steady.quantity_ok shop.spec.resources.requests
    ⊎ HasBad steady.quantity_ok shop.spec.resources.limits)
build_panics_iff_example = build_panics_iff steady.quantity_ok shop

parent_refs-Names_example : Names "edge/main" (parent_refs "edge/main")
parent_refs-Names_example = parent_refs-Names "edge/main"
