-- ===== src/Deepcopy/V1alpha1/Copied.antt =====
-- What the deep copies of api/v1alpha1 promise. The hypotheses are the same promise for the types of
-- other packages.
use kubernetes_operators.Common.{refl, Option}
use kubernetes_operators.Api.Meta.{Condition}
use kubernetes_operators.Deepcopy.Heap.{Heap}
use kubernetes_operators.Deepcopy.Copies.{Copier, Copies, both, both-Copies}
use kubernetes_operators.Deepcopy.References.{
  behind, behind-Copies, each, each-Copies, through, through-Copies,
}
use kubernetes_operators.Deepcopy.Entries.{entries, entries-Copies}
use kubernetes_operators.Deepcopy.Isolated.{
  Isolated, pointer, deep_copy-Isolated, deep_copy_object-Isolated,
}
use kubernetes_operators.Deepcopy.V1alpha1.Stored.{
  Spec, Status, Application, Applications, Cell, labels_slot, conditions_slot, applications_slot,
}
use kubernetes_operators.Deepcopy.V1alpha1.Views.{
  SpecView, StatusView, ApplicationView, ListView, spec_parts, with_spec_parts, conditions_of,
  with_conditions, application_parts, with_parts, list_parts, with_list_parts,
}
use kubernetes_operators.Deepcopy.V1alpha1.{
  spec_into, status_into, application_into, list_into, copy_application, copy_list_object,
}

module _ {X M : Type 0} where
  abbrev pub spec : Copier (Cell X M) Spec SpecView
  spec = through (behind labels_slot entries) spec_parts with_spec_parts with_spec_parts

  spec-Copies : Copies spec
  spec-Copies =
      through-Copies (behind labels_slot entries) spec_parts with_spec_parts with_spec_parts
        (λ s p. refl) (λ s p q. refl) (behind-Copies _ _ entries-Copies)

module _ {X M : Type 0} (condition : Copier (Cell X M) Condition Condition) where
  abbrev pub status : Copier (Cell X M) Status StatusView
  status =
      through (behind conditions_slot (each condition)) conditions_of with_conditions
        with_conditions

  status-Copies : Copies condition → Copies status
  status-Copies conditions =
      through-Copies (behind conditions_slot (each condition)) conditions_of with_conditions
        with_conditions (λ s p. refl) (λ s p q. refl) (behind-Copies _ _ (each-Copies _ conditions))

module _ {X M MV : Type 0} (meta : Copier (Cell X M) M MV)
    (condition : Copier (Cell X M) Condition Condition) where
  abbrev pub application : Copier (Cell X M) (Application M) (ApplicationView MV)
  application =
      through (both meta (both spec (status condition))) application_parts with_parts with_parts

  application-Copies : Copies meta → Copies condition → Copies application
  application-Copies metas conditions =
      through-Copies (both meta (both spec (status condition))) application_parts with_parts
        with_parts (λ s p. refl) (λ s p q. refl)
        (both-Copies _ _ metas (both-Copies _ _ spec-Copies (status-Copies condition conditions)))

  -- Where the copies of the other packages' types keep the same promise, `DeepCopy` of an application
  -- that lies in the memory gives nil for nil, and else a copy that reads as the original, maps and
  -- slices included; no write through the copy changes what is read of the original, and no write
  -- through the original changes what is read of the copy.
  pub copy_application-Isolated :
      Copies meta
      → Copies condition
      → (h : Heap (Cell X M)) (app : Option (Application M))
      → (pointer application).Inside 0 h.next h app
      → Isolated (pointer application).view h app (copy_application meta.copy condition.copy app h)
  unfolding copy_application application_into spec_into status_into
  copy_application-Isolated metas conditions h app i =
      deep_copy-Isolated application (application-Copies metas conditions) h app i

module _ {X M MV G GV : Type 0} (meta : Copier (Cell X M) M MV)
    (condition : Copier (Cell X M) Condition Condition) (list_meta : Copier (Cell X M) G GV) where
  abbrev pub applications : Copier (Cell X M) (Applications G) (ListView MV GV)
  applications =
      through (both list_meta (behind applications_slot (each (application meta condition))))
        list_parts with_list_parts with_list_parts

  applications-Copies : Copies meta → Copies condition → Copies list_meta → Copies applications
  applications-Copies metas conditions lists =
      through-Copies (both list_meta (behind applications_slot (each (application meta condition))))
        list_parts with_list_parts with_list_parts (λ s p. refl) (λ s p q. refl)
        (both-Copies _ _ lists
          (behind-Copies _ _ (each-Copies _ (application-Copies meta condition metas conditions))))

  -- Where the copies of the other packages' types keep the same promise, `DeepCopyObject` of a list
  -- that lies in the memory gives nil for nil, and else a list whose applications read as those of
  -- the original in their order; no write through the copy changes what is read of the original, and
  -- no write through the original changes what is read of the copy.
  pub copy_list_object-Isolated :
      Copies meta
      → Copies condition
      → Copies list_meta
      → (h : Heap (Cell X M)) (l : Option (Applications G))
      → (pointer applications).Inside 0 h.next h l
      → Isolated
          (pointer applications).view
          h
          l
          (copy_list_object meta.copy condition.copy list_meta.copy l h)
  unfolding copy_list_object list_into application_into spec_into status_into
  copy_list_object-Isolated metas conditions lists h l i =
      deep_copy_object-Isolated applications (applications-Copies metas conditions lists) h l i
