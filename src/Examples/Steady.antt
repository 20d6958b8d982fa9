-- ===== src/Examples/Steady.antt =====
-- One reconciliation of the example on the steady client.
use kubernetes_operators.Subreconcilers.Service.{build_desired_service}
use kubernetes_operators.Common.{Option, none, some, ℕ, ◌≡◌, refl, ap, ◌∙◌}
use kubernetes_operators.Api.V1alpha1.{PlatformApplication, PlatformApplicationStatus}
use kubernetes_operators.Status.{set_condition, set_ready, set_progressing, set_degraded}
use kubernetes_operators.Cluster.Objects.{Object}
use kubernetes_operators.Cluster.Client.{success}
use kubernetes_operators.Cluster.Exec.{
  World, ok, pure, call, reads, attempt, emit, ◌>>=◌, attempt-ok,
}
use kubernetes_operators.Metrics.{observe_reconcile}
use kubernetes_operators.Subreconcilers.Deployment.{
  put_quantity, resource_list, resource_requirements, build_desired_deployment,
}
use kubernetes_operators.Steps.{finished}
use kubernetes_operators.Steps.Reporting.{
  set_url, set_observed, conditions_at, conditions_result, set_conditions, update_deployment_status,
  start,
}
use kubernetes_operators.Steps.Children.{reconcile_resources}
use kubernetes_operators.Steps.Endings.{finish}
use kubernetes_operators.Controller.{publish, report, reconcile_live}
use kubernetes_operators.Errors.{foreign}
use kubernetes_operators.Controller.InSync.{IsSynced, IsAbsent, reconcile_resources-in_sync}
use kubernetes_operators.Examples.Fixtures.{shop, missing, found, steady, start_world}

abbrev StaysAt : ℕ → ℕ → Type 0
StaysAt n s = s ≡ n

abbrev shop_with : PlatformApplicationStatus → PlatformApplication
shop_with s = record shop { status = s }

abbrev dep_of : Option Object → Object
dep_of none = build_desired_service shop
dep_of (some o) = o

abbrev shop_dep : PlatformApplicationStatus → Object
shop_dep s = dep_of (build_desired_deployment steady.quantity_ok (shop_with s))

shop_builds :
    (s : PlatformApplicationStatus)
    → build_desired_deployment steady.quantity_ok (shop_with s) ≡ some (shop_dep s)
unfolding build_desired_deployment resource_requirements resource_list put_quantity
shop_builds s = refl

synced : (n : ℕ) (app : PlatformApplication) (o : Object) → IsSynced steady app (StaysAt n) o
synced n app o = record {
  owned = o;
  is_owned = refl;
  existing = λ s. found;
  is_there = λ s p. refl;
  is_equal = λ s p. refl;
  read_keeps = λ s p. p;
}

absent : (n : ℕ) (app : PlatformApplication) (o : Object) → IsAbsent steady app (StaysAt n) o
absent n app o = record {
  error = λ s. foreign missing;
  is_gone = λ s p. refl;
  is_not_found = λ s p. refl;
  delete_keeps = λ s p. p;
}

resources_reconciled :
    (s : PlatformApplicationStatus) (w : World ℕ)
    → (reconcile_resources steady (shop_with s) w).0 ≡ ok tt
resources_reconciled s w =
    let app = shop_with s in
    let there = synced w.api app in
    let gone = absent w.api app in
    (reconcile_resources-in_sync steady app (StaysAt w.api) (shop_dep s) w (shop_builds s) (there _)
      (there _) (there _) (there _) (gone _) (there _) (gone _) refl).0

reported-finishes :
    (s : PlatformApplicationStatus) (v : World ℕ)
    → (report steady (shop_with s) (success tt) v).0 ≡ ok finished
unfolding report set_observed update_deployment_status set_conditions conditions_at
    conditions_result set_ready set_degraded set_progressing set_condition set_url publish finish
    observe_reconcile ◌>>=◌ attempt call reads pure emit
reported-finishes s v = refl

rest-finishes :
    (s : PlatformApplicationStatus) (w : World ℕ)
    → ((attempt (reconcile_resources steady (shop_with s)) >>= report steady (shop_with s)) w).0
      ≡ ok finished
rest-finishes s w =
    let v = (reconcile_resources steady (shop_with s) w).1 in
    let e : reconcile_resources steady (shop_with s) w ≡ (ok tt, v) =
      ap (λ o. (o, v)) (resources_reconciled s w) in
    ap (λ p. p.0) (attempt-ok _ _ w v tt e) ∙ reported-finishes s v

-- One reconciliation of the application ends and asks for nothing more.
pub shop_finishes : (reconcile_live steady shop start_world).0 ≡ ok finished
unfolding reconcile_live start reads pure ◌>>=◌
shop_finishes = rest-finishes _ _
