-- ===== src/Examples/Lifecycles.antt =====
-- An application without the finalizer, on an empty cluster.
use kubernetes_operators.Common.{[], none, refl}
use kubernetes_operators.Cluster.Exec.{World}
use kubernetes_operators.Steps.Finalizing.{is_zero}
use kubernetes_operators.Steps.Finalizing.{is_zero}
use kubernetes_operators.Controller.{reconcile}
use kubernetes_operators.Controller.Lifecycle.Reported.{KeepsChildren}
use kubernetes_operators.Controller.Lifecycle.{Converged, reconcile-Converged}
use kubernetes_operators.Examples.Fixtures.{shop_key, shop}
use kubernetes_operators.Examples.Clusters.{
  Home, shelved, shelf_holds, SameBody, shelved-IsServer, shop_deployment, shop_deployment_built,
}

shelved-KeepsChildren : KeepsChildren shelved shelf_holds
shelved-KeepsChildren = record {
  get_app_keeps = λ k s. refl;
  get_keeps = λ k s. refl;
  status_written = λ a s. (refl, refl);
  now_keeps = λ s. refl;
}

abbrev standing : World Home
standing = record { api = (λ r. none, shop); log = [] }

reconcile-Converged_example :
    Converged shelved shelf_holds SameBody shop shop_deployment
      (reconcile shelved shop_key)
      standing
unfolding is_zero
reconcile-Converged_example =
    reconcile-Converged shelved shelf_holds SameBody shelved-IsServer shelved-KeepsChildren shop_key
      shop shop_deployment standing refl refl refl shop_deployment_built
