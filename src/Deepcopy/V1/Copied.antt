-- ===== src/Deepcopy/V1/Copied.antt =====
-- What the deep copies of api/v1 promise. The hypotheses are the same promise for the types of
-- other packages.
use kubernetes_operators.Common.{refl, Option, List, Labels}
use kubernetes_operators.Api.Meta.{Condition}
use kubernetes_operators.Deepcopy.Heap.{Heap, Ref}
use kubernetes_operators.Deepcopy.Copies.{Copier, Copies, both, both-Copies}
use kubernetes_operators.Deepcopy.References.{
  behind, behind-Copies, each, each-Copies, through, through-Copies,
}
use kubernetes_operators.Deepcopy.Entries.{entries, entries-Copies}
use kubernetes_operators.Deepcopy.Isolated.{
  Isolated, pointer, deep_copy-Isolated, deep_copy_object-Isolated,
}
use kubernetes_operators.Deepcopy.V1.Stored.{
  Spec, Status, Application, Applications, Cell, labels_slot, env_from_slot, conditions_slot,
  applications_slot,
}
use kubernetes_operators.Deepcopy.V1.Views.{
  SpecView, StatusView, ApplicationView, ListView, SpecParts, spec_parts, with_spec_parts,
  conditions_of, with_conditions, application_parts, with_parts, list_parts, with_list_parts,
}
use kubernetes_operators.Deepcopy.V1.{
  spec_into, status_into, application_into, list_into, copy_application, copy_list_object,
}

module _ {X E M EV : Type 0} (source : Copier (Cell X E M) E EV) where
  abbrev parts_of_spec :
      Copier (Cell X E M) (SpecParts Ref Ref) (SpecParts (Option Labels) (Option (List EV)))
  parts_of_spec =
      both (behind labels_slot entries)
        (both (behind env_from_slot (each source)) (behind labels_slot entries))

  abbrev pub spec : Copier (Cell X E M) Spec (SpecView EV)
  spec = through parts_of_spec spec_parts with_spec_parts with_spec_parts

  spec-Copies : Copies source → Copies spec
  spec-Copies sources =
      through-Copies parts_of_spec spec_parts with_spec_parts with_spec_parts (λ s p. refl)
        (λ s p q. refl)
        (both-Copies _ _ (behind-Copies _ _ entries-Copies) (
          both-Copies _ _ (behind-Copies _ _ (each-Copies _ sources))
            (behind-Copies _ _ entries-Copies)))

module _ {X E M : Type 0} (condition : Copier (Cell X E M) Condition Condition) where
  abbrev pub status : Copier (Cell X E M) Status StatusView
  status =
      through (behind conditions_slot (each condition)) conditions_of with_conditions
        with_conditions

  status-Copies : Copies condition → Copies status
  status-Copies conditions =
      through-Copies (behind conditions_slot (each condition)) conditions_of with_conditions
        with_conditions (λ s p. refl) (λ s p q. refl) (behind-Copies _ _ (each-Copies _ conditions))

module _ {X E M EV MV : Type 0} (source : Copier (Cell X E M) E EV)
    (meta : Copier (Cell X E M) M MV) (condition : Copier (Cell X E M) Condition Condition) where
  abbrev pub application : Copier (Cell X E M) (Application M) (ApplicationView EV MV)
  application =
      through (both meta (both (spec source) (status condition))) application_parts with_parts
        with_parts

  application-Copies : Copies source → Copies meta → Copies condition → Copies application
  application-Copies sources metas conditions =
      through-Copies (both meta (both (spec source) (status condition))) application_parts
        with_parts with_parts (λ s p. refl) (λ s p q. refl)
        (both-Copies _ _ metas
          (both-Copies _ _ (spec-Copies source sources) (status-Copies condition conditions)))

  -- Where the copies of the other packages' types keep the same promise, `DeepCopy` of an application
  -- that lies in the memory gives nil for nil, and else a copy that reads as the original, maps and
  -- slices included; no write through the copy changes what is read of the original, and no write
  -- through the original changes what is read of the copy.
  pub copy_application-Isolated :
      Copies source
      → Copies meta
      → Copies condition
      → (h : Heap (Cell X E M)) (app : Option (Application M))
      → (pointer application).Inside 0 h.next h app
      → Isolated
          (pointer application).view
          h
          app
          (copy_application source.copy meta.copy condition.copy app h)
  unfolding copy_application application_into spec_into status_into
  copy_application-Isolated sources metas conditions h app i =
      deep_copy-Isolated application (application-Copies sources metas conditions) h app i

module _ {X E M EV MV G GV : Type 0} (source : Copier (Cell X E M) E EV)
    (meta : Copier (Cell X E M) M MV) (condition : Copier (Cell X E M) Condition Condition)
    (list_meta : Copier (Cell X E M) G GV) where
  abbrev pub applications : Copier (Cell X E M) (Applications G) (ListView EV MV GV)
  applications =
      through (both list_meta (behind applications_slot (each (application source meta condition))))
        list_parts with_list_parts with_list_parts

  applications-Copies :
      Copies source → Copies meta → Copies condition → Copies list_meta → Copies applications
  applications-Copies sources metas conditions lists =
      through-Copies
        (both list_meta (behind applications_slot (each (application source meta condition))))
        list_parts with_list_parts with_list_parts (λ s p. refl) (λ s p q. refl)
        (both-Copies _ _ lists (
          behind-Copies _ _
            (each-Copies _ (application-Copies source meta condition sources metas conditions))))

  -- Where the copies of the other packages' types keep the same promise, `DeepCopyObject` of a list
  -- that lies in the memory gives nil for nil, and else a list whose applications read as those of
  -- the original in their order; no write through the copy changes what is read of the original, and
  -- no write through the original changes what is read of the copy.
  pub copy_list_object-Isolated :
      Copies source
      → Copies meta
      → Copies condition
      → Copies list_meta
      → (h : Heap (Cell X E M)) (l : Option (Applications G))
      → (pointer applications).Inside 0 h.next h l
      → Isolated
          (pointer applications).view
          h
          l
          (copy_list_object source.copy meta.copy condition.copy list_meta.copy l h)
  unfolding copy_list_object list_into application_into spec_into status_into
  copy_list_object-Isolated sources metas conditions lists h l i =
      deep_copy_object-Isolated applications (applications-Copies sources metas conditions lists) h
        l i
