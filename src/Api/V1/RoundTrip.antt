-- ===== src/Api/V1/RoundTrip.antt =====
-- Conversion between v1 and the hub, there and back.
use kubernetes_operators.Common.{◌≡◌, refl}
use kubernetes_operators.Api.V1.{PlatformApplication}
use kubernetes_operators.Api.V1beta1.{PlatformApplication as Hub}
use kubernetes_operators.Api.V1.Conversion.{convert_to, convert_from}

module _ {E : Type 0} where
  -- From v1 to the hub and back, and from the hub to v1 and back, nothing is lost: the result is
  -- the object that went in, under the type metadata of its destination.
  pub stable_round_trips :
      (a d : PlatformApplication E) (h k : Hub E)
      → (convert_from d (convert_to a h) ≡ record a { type_meta = d.type_meta })
        × (convert_to (convert_from a h) k ≡ record h { type_meta = k.type_meta })
  unfolding convert_to convert_from
  stable_round_trips a d h k = (refl, refl)
