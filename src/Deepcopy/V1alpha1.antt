-- ===== src/Deepcopy/V1alpha1.antt =====
-- api/v1alpha1/zz_generated.deepcopy.go: the deep copies of the structs with references.
pub mod Stored
pub mod Flat
pub mod Views
pub mod Copied
use kubernetes_operators.Common.{Option}
use kubernetes_operators.Api.Meta.{Condition}
use kubernetes_operators.Deepcopy.Heap.{
  Alloc, give, ◌>>=◌, deep_copy, deep_copy_object, copy_behind, copy_each, copy_entries,
}
use Stored.{
  Spec, Status, Application, Applications, Cell, labels_slot, conditions_slot, applications_slot,
}

-- The copies of other packages' types are parameters.
module _ {X M : Type 0} where
  unfoldable pub spec_into : Spec → Alloc (Cell X M) Spec
  unfolding copy_behind copy_entries
  spec_into s = do
    configuration ← copy_behind labels_slot copy_entries s.configuration
    give (record s { configuration = configuration })

  unfoldable pub status_into :
      (Condition → Alloc (Cell X M) Condition) → Status → Alloc (Cell X M) Status
  unfolding copy_behind copy_each
  status_into condition s = do
    copied ← copy_behind conditions_slot (copy_each condition) s.conditions
    give (record s { conditions = copied })

  unfoldable pub application_into :
      (M → Alloc (Cell X M) M)
      → (Condition → Alloc (Cell X M) Condition)
      → Application M
      → Alloc (Cell X M) (Application M)
  unfolding spec_into status_into
  application_into object_meta condition app = do
    meta ← object_meta app.object_meta
    spec ← spec_into app.spec
    status ← status_into condition app.status
    give (record app { object_meta = meta; spec = spec; status = status })

  unfoldable pub copy_spec : Option Spec → Alloc (Cell X M) (Option Spec)
  unfolding deep_copy spec_into
  copy_spec = deep_copy spec_into

  unfoldable pub copy_status :
      (Condition → Alloc (Cell X M) Condition) → Option Status → Alloc (Cell X M) (Option Status)
  unfolding deep_copy status_into
  copy_status condition = deep_copy (status_into condition)

  unfoldable pub copy_application :
      (M → Alloc (Cell X M) M)
      → (Condition → Alloc (Cell X M) Condition)
      → Option (Application M)
      → Alloc (Cell X M) (Option (Application M))
  unfolding deep_copy application_into
  copy_application object_meta condition = deep_copy (application_into object_meta condition)

  unfoldable pub copy_application_object :
      (M → Alloc (Cell X M) M)
      → (Condition → Alloc (Cell X M) Condition)
      → Option (Application M)
      → Alloc (Cell X M) (Option (Application M))
  unfolding deep_copy_object application_into
  copy_application_object object_meta condition =
      deep_copy_object (application_into object_meta condition)

module _ {X M G : Type 0} where
  unfoldable pub list_into :
      (M → Alloc (Cell X M) M)
      → (Condition → Alloc (Cell X M) Condition)
      → (G → Alloc (Cell X M) G)
      → Applications G
      → Alloc (Cell X M) (Applications G)
  unfolding copy_behind copy_each application_into
  list_into object_meta condition list_meta l = do
    meta ← list_meta l.list_meta
    items ←
        copy_behind applications_slot (copy_each (application_into object_meta condition)) l.items
    give (record l { list_meta = meta; items = items })

  unfoldable pub copy_list :
      (M → Alloc (Cell X M) M)
      → (Condition → Alloc (Cell X M) Condition)
      → (G → Alloc (Cell X M) G)
      → Option (Applications G)
      → Alloc (Cell X M) (Option (Applications G))
  unfolding deep_copy list_into
  copy_list object_meta condition list_meta = deep_copy (list_into object_meta condition list_meta)

  unfoldable pub copy_list_object :
      (M → Alloc (Cell X M) M)
      → (Condition → Alloc (Cell X M) Condition)
      → (G → Alloc (Cell X M) G)
      → Option (Applications G)
      → Alloc (Cell X M) (Option (Applications G))
  unfolding deep_copy_object list_into
  copy_list_object object_meta condition list_meta =
      deep_copy_object (list_into object_meta condition list_meta)
