-- ===== src/Api/V1alpha1/RoundTrip.antt =====
-- Conversion between v1alpha1 and the hub, there and back.
use kubernetes_operators.Common.{◌≡◌, refl, ◌↔◌, [], ap, sym}
use kubernetes_operators.Api.V1alpha1.{PlatformApplication}
use kubernetes_operators.Api.V1beta1.{PlatformApplication as Hub}
use kubernetes_operators.Api.V1alpha1.Conversion.{convert_to, convert_from}

module _ {E : Type 0} where
  -- From v1alpha1 to the hub and back, whatever the destinations held before, nothing is lost: the
  -- result is the application that went in, under the type metadata of its destination.
  pub from-to :
      (a d : PlatformApplication) (h : Hub E)
      → convert_from d (convert_to a h) ≡ record a { type_meta = d.type_meta }
  unfolding convert_to convert_from
  from-to a d h = refl

  -- What the hub keeps of itself on the way through v1alpha1 and back.
  abbrev pub without_hub_fields : Hub E → Hub E
  without_hub_fields h = record h { spec = record h.spec { env_from = []; pod_annotations = [] } }

  -- From the hub to v1alpha1 and back into an object of the same type metadata, EnvFrom and
  -- PodAnnotations are lost and nothing else; so a hub object survives the trip exactly when both
  -- are empty.
  pub to-from :
      (a : PlatformApplication) (h d : Hub E)
      → d.type_meta ≡ h.type_meta
      → (convert_to (convert_from a h) d ≡ without_hub_fields h)
        × ((convert_to (convert_from a h) d ≡ h)
            ↔ ((h.spec.env_from ≡ []) × (h.spec.pod_annotations ≡ [])))
  unfolding convert_to convert_from
  to-from a h d t = (
    λ i. record (without_hub_fields h) { type_meta = t i },
    (
      λ e. (
        sym (ap (λ (x : Hub E). x.spec.env_from) e),
        sym (ap (λ (x : Hub E). x.spec.pod_annotations) e),
      ),
      λ p i. record h {
        type_meta = t i;
        spec = record h.spec { env_from = sym p.0 i; pod_annotations = sym p.1 i };
      },
    ),
  )
