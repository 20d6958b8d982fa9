-- ===== src/Examples/Types.antt =====
-- Admission, conversion, error classes and conditions at the applications of the fixtures.
use kubernetes_operators.Common.{◌≡◌, ◌↔◌, refl, [], ◌∷◌, ◌==◌, if◌then◌else◌}
use kubernetes_operators.Common.Int.{pos}
use kubernetes_operators.Errors.{Error, foreign, wrapped}
use kubernetes_operators.Api.Meta.{Condition}
use kubernetes_operators.Api.V1alpha1.{PlatformApplicationStatus}
use kubernetes_operators.Api.V1alpha1.Webhook.{
  default, validate_platform_application, max_below_min, default_max, no_replica, port_out_of_range,
}
use kubernetes_operators.Api.V1alpha1.Conversion.{convert_to, convert_from}
use kubernetes_operators.Api.V1alpha1.Admission.{Accepts, IsAdmissible, Accepts-iff}
use kubernetes_operators.Api.V1alpha1.RoundTrip.{without_hub_fields, to-from}
use kubernetes_operators.Api.V1alpha1.HubWebhooks.{webhooks_agree}
use kubernetes_operators.Api.V1beta1.Webhook as Beta
use kubernetes_operators.Api.V1.Conversion as Stable
use kubernetes_operators.Api.V1.RoundTrip.{stable_round_trips}
use kubernetes_operators.Status.{set_condition}
use kubernetes_operators.Status.Conditions.{find, Says, set_condition-find}
use kubernetes_operators.Examples.Fixtures.{shop, hub_shop, stable_shop, no_status, Fault, clash}

Accepts-iff_example : Accepts (validate_platform_application shop) ↔ IsAdmissible shop.spec
Accepts-iff_example = Accepts-iff shop

pub shop_accepted : Accepts (validate_platform_application (default shop))
unfolding default validate_platform_application max_below_min default_max no_replica
    port_out_of_range
shop_accepted = tt

webhooks_agree_example :
    (Beta.default (convert_to shop hub_shop) ≡ convert_to (default shop) hub_shop)
    × (Beta.validate_platform_application (convert_to shop hub_shop)
        ≡ validate_platform_application shop)
webhooks_agree_example = webhooks_agree shop hub_shop

to-from_example :
    (convert_to (convert_from shop hub_shop) hub_shop ≡ without_hub_fields hub_shop)
    × ((convert_to (convert_from shop hub_shop) hub_shop ≡ hub_shop)
        ↔ ((hub_shop.spec.env_from ≡ []) × (hub_shop.spec.pod_annotations ≡ [])))
to-from_example = to-from shop hub_shop hub_shop refl

stable_round_trips_example :
    (Stable.convert_from stable_shop (Stable.convert_to stable_shop hub_shop) ≡ stable_shop)
    × (Stable.convert_to (Stable.convert_from stable_shop hub_shop) hub_shop ≡ hub_shop)
stable_round_trips_example = stable_round_trips stable_shop stable_shop hub_shop hub_shop

abbrev clash_of_service : Error Fault
clash_of_service = wrapped "applying Service prod/shop" (foreign clash)

abbrev waiting : Condition
waiting = record {
  type = "Ready";
  status = "False";
  observed_generation = pos 0;
  last_transition_time = 3;
  reason = "InsufficientReplicas";
  message = "wait";
}

abbrev waiting_status : PlatformApplicationStatus
waiting_status = record no_status { conditions = waiting ∷ [] }

set_condition-find_example :
    let s = set_condition 9 "Ready" "True" "Available" "up" waiting_status in
    Says (find "Ready" s.conditions) "True" "Available" "up"
    × (find "Degraded" s.conditions ≡ (
        if "Ready" == "Degraded"
        then find "Ready" s.conditions
        else find "Degraded" waiting_status.conditions))
set_condition-find_example =
    set_condition-find 9 "Ready" "True" "Available" "up" "Degraded" waiting_status

waiting-Says : Says (find "Ready" waiting_status.conditions) "False" "InsufficientReplicas" "wait"
unfolding find
waiting-Says = (refl, refl, refl)
