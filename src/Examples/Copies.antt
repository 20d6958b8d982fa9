-- ===== src/Examples/Copies.antt =====
-- Deep copies of an application of each kind in a small memory. Object metadata is stored as its
-- labels; the sources of environment variables are texts.
use kubernetes_operators.Common.{
  zero, suc, String, ◌≡◌, refl, none, some, [], ◌∷◌, arith, lookup, ◌≤◌, ◌<◌,
}
use kubernetes_operators.Common.Int.{pos}
use kubernetes_operators.Deepcopy.Heap.{Heap, Ref}
use kubernetes_operators.Deepcopy.Copies.{flat_copier, flat-Copies}
use kubernetes_operators.Deepcopy.References.{behind, behind-Copies}
use kubernetes_operators.Deepcopy.Entries.{entries, entries-Copies}
use kubernetes_operators.Deepcopy.Isolated.{Isolated, pointer}
use kubernetes_operators.Deepcopy.V1beta1.Stored as Hub
use kubernetes_operators.Deepcopy.V1beta1.{copy_application}
use kubernetes_operators.Deepcopy.V1beta1.Copied.{application, copy_application-Isolated}
use kubernetes_operators.Deepcopy.V1alpha1.Stored as Alpha
use kubernetes_operators.Deepcopy.V1alpha1.{copy_list_object}
use kubernetes_operators.Deepcopy.V1alpha1.Copied.{applications, copy_list_object-Isolated}
use kubernetes_operators.Examples.Fixtures.{hub_shop, shop_spec, no_type}

abbrev HubCell : Type 0
HubCell = Hub.Cell String String Ref

-- Places 0 and 1 hold a map and a slice.
abbrev hub_heap : Heap HubCell
hub_heap = record {
  next = 2;
  cell = λ a. elim a [ zero ↦ Hub.labels (("A", "1") ∷ []) | suc _ ↦ Hub.env_from ("secret" ∷ []) ];
}

-- The map is shared by the metadata and the configuration.
abbrev stored_hub : Hub.Application Ref
stored_hub = record {
  type_meta = no_type;
  object_meta = some 0;
  spec = record {
    image = hub_shop.spec.image;
    replicas = hub_shop.spec.replicas;
    service = hub_shop.spec.service;
    configuration = some 0;
    env_from = some 1;
    pod_annotations = none;
    autoscaling = hub_shop.spec.autoscaling;
    gateway = hub_shop.spec.gateway;
    observability = hub_shop.spec.observability;
    security = hub_shop.spec.security;
    resources = hub_shop.spec.resources;
    health_checks = hub_shop.spec.health_checks;
    rollout = hub_shop.spec.rollout;
  };
  status = record {
    observed_generation = pos 0;
    ready_replicas = pos 0;
    url = "";
    conditions = none;
    deployed_version = "";
  };
}

shared : (0 ≤ 0) × (0 < 2) × ((lookup "A" [] ≡ none) × Unit {0})
unfolding lookup
shared = (omega arith, omega arith, (refl, tt))

copy_application-Isolated_example :
    Isolated
      (pointer
        (application {X = String} flat_copier (behind Hub.labels_slot entries) flat_copier)).view
      hub_heap
      (some stored_hub)
      (copy_application flat_copier.copy
        (behind Hub.labels_slot entries).copy
        flat_copier.copy
        (some stored_hub)
        hub_heap)
copy_application-Isolated_example =
    copy_application-Isolated flat_copier (behind Hub.labels_slot entries) flat_copier flat-Copies
      (behind-Copies _ _ entries-Copies) flat-Copies hub_heap (some stored_hub)
      (shared, ((shared, ((omega arith, omega arith, (tt, tt)), tt)), tt))

abbrev AlphaCell : Type 0
AlphaCell = Alpha.Cell String Ref

-- Place 0 holds a map, place 1 the applications of a list.
abbrev stored_shop : Alpha.Application Ref
stored_shop = record {
  type_meta = no_type;
  object_meta = some 0;
  spec = record {
    image = shop_spec.image;
    replicas = shop_spec.replicas;
    service = shop_spec.service;
    configuration = none;
    autoscaling = shop_spec.autoscaling;
    gateway = shop_spec.gateway;
    observability = shop_spec.observability;
    security = shop_spec.security;
    resources = shop_spec.resources;
    health_checks = shop_spec.health_checks;
    rollout = shop_spec.rollout;
  };
  status = record {
    observed_generation = pos 0;
    ready_replicas = pos 0;
    url = "";
    conditions = none;
    deployed_version = "";
  };
}

abbrev alpha_heap : Heap AlphaCell
alpha_heap = record {
  next = 2;
  cell = λ a. elim a [
    | zero ↦ Alpha.labels (("A", "1") ∷ [])
    | suc _ ↦ Alpha.applications (stored_shop ∷ [])
  ];
}

abbrev stored_list : Alpha.Applications Unit
stored_list = record { type_meta = no_type; list_meta = tt; items = some 1 }

copy_list_object-Isolated_example :
    Isolated
      (pointer
        (applications {X = String} (behind Alpha.labels_slot entries) flat_copier flat_copier)).view
      alpha_heap
      (some stored_list)
      (copy_list_object
        (behind Alpha.labels_slot entries).copy
        flat_copier.copy
        flat_copier.copy
        (some stored_list)
        alpha_heap)
copy_list_object-Isolated_example =
    copy_list_object-Isolated (behind Alpha.labels_slot entries) flat_copier flat_copier
      (behind-Copies _ _ entries-Copies) flat-Copies flat-Copies alpha_heap (some stored_list)
      (tt, (omega arith, omega arith, ((shared, (tt, tt)), tt)))
