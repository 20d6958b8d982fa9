-- ===== src/Deepcopy/V1beta1/Views.antt =====
-- The structs of api/v1beta1 as they are read: nil or the contents in place of a reference.
use kubernetes_operators.Common.{Option, List, Labels}
use kubernetes_operators.Api.Meta.{Condition}
use kubernetes_operators.Deepcopy.Heap.{Ref}
use kubernetes_operators.Deepcopy.V1beta1.Stored.{
  PlatformApplicationSpec, PlatformApplicationStatus, PlatformApplication, PlatformApplicationList,
  Spec, Status,
}

abbrev pub SpecView : Type 0 → Type 0
SpecView EV = PlatformApplicationSpec (Option Labels) (Option (List EV))

abbrev pub StatusView : Type 0
StatusView = PlatformApplicationStatus (Option (List Condition))

abbrev pub ApplicationView : Type 0 → Type 0 → Type 0
ApplicationView EV MV = PlatformApplication MV (SpecView EV) StatusView

abbrev pub ListView : Type 0 → Type 0 → Type 0 → Type 0
ListView EV MV GV = PlatformApplicationList GV (Option (List (ApplicationView EV MV)))

-- The parts of a struct that hold references, read and replaced.
abbrev pub SpecParts : Type 0 → Type 0 → Type 0
SpecParts L N = L × (N × L)

abbrev pub spec_parts : Spec → SpecParts Ref Ref
spec_parts s = (s.configuration, (s.env_from, s.pod_annotations))

abbrev pub with_spec_parts : {L N : Type 0} → Spec → SpecParts L N → PlatformApplicationSpec L N
with_spec_parts s p = record {
  image = s.image;
  replicas = s.replicas;
  service = s.service;
  configuration = p.0;
  env_from = p.1.0;
  pod_annotations = p.1.1;
  autoscaling = s.autoscaling;
  gateway = s.gateway;
  observability = s.observability;
  security = s.security;
  resources = s.resources;
  health_checks = s.health_checks;
  rollout = s.rollout;
}

abbrev pub conditions_of : Status → Ref
conditions_of s = s.conditions

abbrev pub with_conditions : {K : Type 0} → Status → K → PlatformApplicationStatus K
with_conditions s k = record {
  observed_generation = s.observed_generation;
  ready_replicas = s.ready_replicas;
  url = s.url;
  conditions = k;
  deployed_version = s.deployed_version;
}

abbrev pub application_parts : {M S T : Type 0} → PlatformApplication M S T → M × (S × T)
application_parts a = (a.object_meta, (a.spec, a.status))

abbrev pub with_parts :
    {M S T N U W : Type 0} → PlatformApplication M S T → N × (U × W) → PlatformApplication N U W
with_parts a p = record { type_meta = a.type_meta; object_meta = p.0; spec = p.1.0; status = p.1.1 }

abbrev pub list_parts : {G I : Type 0} → PlatformApplicationList G I → G × I
list_parts l = (l.list_meta, l.items)

abbrev pub with_list_parts :
    {G I H J : Type 0} → PlatformApplicationList G I → H × J → PlatformApplicationList H J
with_list_parts l p = record { type_meta = l.type_meta; list_meta = p.0; items = p.1 }
