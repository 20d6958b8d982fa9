-- ===== src/Controller/Converges/Wants.antt =====
-- The children that an application asks for.
use kubernetes_operators.Common.{String, ◌≢◌, Bool, true, false, not, Option, List, [], ◌∷◌}
use kubernetes_operators.Common.Int.{pos, leb_ℤ}
use kubernetes_operators.Api.V1alpha1.{PlatformApplication}
use kubernetes_operators.Cluster.Objects.{Object, ObjectKey, Resource, resource_of}
use kubernetes_operators.Cluster.Client.{Client}
use kubernetes_operators.Cluster.Exec.{Exec}
use kubernetes_operators.Subreconcilers.Apply.{ApplyResult, key_of}
use kubernetes_operators.Subreconcilers.Service.{build_desired_service}
use kubernetes_operators.Subreconcilers.Hpa.{build_desired_hpa}
use kubernetes_operators.Subreconcilers.Networking.{
  build_desired_http_route, build_desired_network_policy,
}
use kubernetes_operators.Subreconcilers.Pdb.{build_desired_pdb}
use kubernetes_operators.Subreconcilers.ServiceMonitor.{build_desired_service_monitor}
use kubernetes_operators.Controller.Converges.Server.{Store, rank, IsThere, IsGone, Settles}

-- A child, and whether the application asks for it.
pub record Want : Type 0 where
  pub wanted : Bool
  pub object : Object

abbrev pub about : Want → Resource
about t = resource_of t.object.body

-- The children of an application with the Deployment `dep`.
abbrev pub wants : PlatformApplication → Object → List Want
wants app dep =
    record { wanted = true; object = dep }
    ∷ record { wanted = true; object = build_desired_service app }
    ∷ record { wanted = app.spec.autoscaling.enabled; object = build_desired_hpa app }
    ∷ record { wanted = app.spec.gateway.enabled; object = build_desired_http_route app }
    ∷ record {
      wanted = app.spec.security.network_policy;
      object = build_desired_network_policy app;
    }
    ∷ record { wanted = not (leb_ℤ app.spec.replicas.min (pos 1)); object = build_desired_pdb app }
    ∷ record { wanted = app.spec.observability.metrics; object = build_desired_service_monitor app }
    ∷ []

-- No two of the list are of one resource.
abbrev pub Away : Resource → List Want → Type 0
Away q [] = Unit
Away q (t ∷ ts) = (rank q ≢ rank (about t)) × Away q ts

abbrev pub AreDistinct : List Want → Type 0
AreDistinct [] = Unit
AreDistinct (t ∷ ts) = Away (about t) ts × AreDistinct ts

module _ {F S : Type 0} (c : Client F S) (holds : S → Store)
    (Carries : Object → Object → Type 0) where
  -- A child that is asked for is there and carries what was built for it; any other is not there.
  abbrev pub Fits : Bool → Object → (ObjectKey → Option Object) → Type 0
  Fits true o = IsThere c holds Carries o
  Fits false o = IsGone c holds Carries (key_of o)

  abbrev pub AllFit : S → List Want → Type 0
  AllFit s [] = Unit
  AllFit s (t ∷ ts) = Fits t.wanted t.object (holds s (about t)) × AllFit s ts

  abbrev pub AllSettle : List Want → List (String × Exec F S ApplyResult) → Type 0
  AllSettle [] [] = Unit
  AllSettle (t ∷ ts) ((name, fn) ∷ l) =
      Settles c holds Carries (about t) (Fits t.wanted t.object) fn × AllSettle ts l
  AllSettle _ _ = ⊥
