-- ===== src/Deepcopy/V1.antt =====
-- api/v1/zz_generated.deepcopy.go: the deep copies of the structs with references.
pub mod Stored
pub mod Flat
pub mod Views
pub mod Copied
use kubernetes_operators.Common.{Option}
use kubernetes_operators.Api.Meta.{Condition}
use kubernetes_operators.Deepcopy.Heap.{
  Alloc, give, ◌>>=◌, deep_copy, deep_copy_object, copy_behind, copy_each, copy_entries,
}
use Stored.{
  Spec, Status, Application, Applications, Cell, labels_slot, env_from_slot, conditions_slot,
  applications_slot,
}

-- The copies of other packages' types are parameters.
module _ {X E M : Type 0} where
  unfoldable pub spec_into : (E → Alloc (Cell X E M) E) → Spec → Alloc (Cell X E M) Spec
  unfolding copy_behind copy_entries copy_each
  spec_into env_from_source s = do
    configuration ← copy_behind labels_slot copy_entries s.configuration
    sources ← copy_behind env_from_slot (copy_each env_from_source) s.env_from
    pod_annotations ← copy_behind labels_slot copy_entries s.pod_annotations
    give (record s {
      configuration = configuration;
      env_from = sources;
      pod_annotations = pod_annotations;
    })

  unfoldable pub status_into :
      (Condition → Alloc (Cell X E M) Condition) → Status → Alloc (Cell X E M) Status
  unfolding copy_behind copy_each
  status_into condition s = do
    copied ← copy_behind conditions_slot (copy_each condition) s.conditions
    give (record s { conditions = copied })

  unfoldable pub application_into :
      (E → Alloc (Cell X E M) E)
      → (M → Alloc (Cell X E M) M)
      → (Condition → Alloc (Cell X E M) Condition)
      → Application M
      → Alloc (Cell X E M) (Application M)
  unfolding spec_into status_into
  application_into env_from_source object_meta condition app = do
    meta ← object_meta app.object_meta
    spec ← spec_into env_from_source app.spec
    status ← status_into condition app.status
    give (record app { object_meta = meta; spec = spec; status = status })

  unfoldable pub copy_spec :
      (E → Alloc (Cell X E M) E) → Option Spec → Alloc (Cell X E M) (Option Spec)
  unfolding deep_copy spec_into
  copy_spec env_from_source = deep_copy (spec_into env_from_source)

  unfoldable pub copy_status :
      (Condition → Alloc (Cell X E M) Condition)
      → Option Status
      → Alloc (Cell X E M) (Option Status)
  unfolding deep_copy status_into
  copy_status condition = deep_copy (status_into condition)

  unfoldable pub copy_application :
      (E → Alloc (Cell X E M) E)
      → (M → Alloc (Cell X E M) M)
      → (Condition → Alloc (Cell X E M) Condition)
      → Option (Application M)
      → Alloc (Cell X E M) (Option (Application M))
  unfolding deep_copy application_into
  copy_application env_from_source object_meta condition =
      deep_copy (application_into env_from_source object_meta condition)

  unfoldable pub copy_application_object :
      (E → Alloc (Cell X E M) E)
      → (M → Alloc (Cell X E M) M)
      → (Condition → Alloc (Cell X E M) Condition)
      → Option (Application M)
      → Alloc (Cell X E M) (Option (Application M))
  unfolding deep_copy_object application_into
  copy_application_object env_from_source object_meta condition =
      deep_copy_object (application_into env_from_source object_meta condition)

module _ {X E M G : Type 0} where
  unfoldable pub list_into :
      (E → Alloc (Cell X E M) E)
      → (M → Alloc (Cell X E M) M)
      → (Condition → Alloc (Cell X E M) Condition)
      → (G → Alloc (Cell X E M) G)
      → Applications G
      → Alloc (Cell X E M) (Applications G)
  unfolding copy_behind copy_each application_into
  list_into env_from_source object_meta condition list_meta l = do
    meta ← list_meta l.list_meta
    items ←
        copy_behind applications_slot
          (copy_each (application_into env_from_source object_meta condition)) l.items
    give (record l { list_meta = meta; items = items })

  unfoldable pub copy_list :
      (E → Alloc (Cell X E M) E)
      → (M → Alloc (Cell X E M) M)
      → (Condition → Alloc (Cell X E M) Condition)
      → (G → Alloc (Cell X E M) G)
      → Option (Applications G)
      → Alloc (Cell X E M) (Option (Applications G))
  unfolding deep_copy list_into
  copy_list env_from_source object_meta condition list_meta =
      deep_copy (list_into env_from_source object_meta condition list_meta)

  unfoldable pub copy_list_object :
      (E → Alloc (Cell X E M) E)
      → (M → Alloc (Cell X E M) M)
      → (Condition → Alloc (Cell X E M) Condition)
      → (G → Alloc (Cell X E M) G)
      → Option (Applications G)
      → Alloc (Cell X E M) (Option (Applications G))
  unfolding deep_copy_object list_into
  copy_list_object env_from_source object_meta condition list_meta =
      deep_copy_object (list_into env_from_source object_meta condition list_meta)
