-- ===== src/Subreconcilers/Pdb.antt =====
-- internal/controller/subreconcilers/pdb.go: the desired PodDisruptionBudget.
use kubernetes_operators.Common.{String, [], ◌∷◌, if◌then◌else◌, concat}
use kubernetes_operators.Common.Int.{ℤ, pos, ltb_ℤ}
use kubernetes_operators.Api.Meta.{named}
use kubernetes_operators.Api.V1alpha1.{PlatformApplication}
use kubernetes_operators.Cluster.Objects.{IntOrString, int, str, Object, pdb}
use kubernetes_operators.Subreconcilers.Labels.{common_labels, selector_labels}

unfoldable pub pdb_name : String → String
pdb_name app_name = concat (app_name ∷ "-pdb" ∷ [])

-- One pod at most, or a quarter of them above four replicas.
unfoldable pub pdb_bound : ℤ → IntOrString
pdb_bound min = if ltb_ℤ (pos 4) min then str "25%" else int (pos 1)

unfoldable pub build_desired_pdb : PlatformApplication → Object
build_desired_pdb app = record {
  type_meta = record { api_version = "policy/v1"; kind = "PodDisruptionBudget" };
  meta =
      named (pdb_name app.object_meta.name) app.object_meta.namespace
        (common_labels app.object_meta.name);
  body = pdb (record {
    pdb_max_unavailable = pdb_bound app.spec.replicas.min;
    pdb_selector = selector_labels app.object_meta.name;
  });
}
