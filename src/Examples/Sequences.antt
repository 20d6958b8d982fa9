-- ===== src/Examples/Sequences.antt =====
-- A new application whose image is changed after its first reconciliation.
use kubernetes_operators.Common.{Option, none, some, ◌≡◌}
use kubernetes_operators.Api.V1alpha1.{PlatformApplication}
use kubernetes_operators.Cluster.Objects.{Resource}
use kubernetes_operators.Cluster.Client.{Result, success, failure}
use kubernetes_operators.Cluster.Exec.{World}
use kubernetes_operators.Controller.{reconcile}
use kubernetes_operators.Examples.Fixtures.{shop_key, Fault}
use kubernetes_operators.Examples.Clusters.{fresh, Home, shelved}

abbrev stored_app : Home → Option PlatformApplication
stored_app s = some s.1

abbrev IsEmpty : Home → Type 0
IsEmpty s = (r : Resource) → s.0 r ≡ none

abbrev found : Result Fault PlatformApplication → Option PlatformApplication
found (success a) = some a
found (failure e) = none

abbrev after_first : World Home
after_first = (reconcile shelved shop_key fresh).1

abbrev after_second : World Home
after_second = (reconcile shelved shop_key after_first).1
