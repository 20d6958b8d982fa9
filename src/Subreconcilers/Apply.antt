-- ===== src/Subreconcilers/Apply.antt =====
-- internal/controller/subreconcilers/apply.go: applying one object, with retries on conflicts, and
-- deleting one. `apply` is given the metadata of the owner and the desired object.
pub mod Attempts
pub mod Outcomes
pub mod Writes
use kubernetes_operators.Common.{
  ℕ, zero, suc, ◌+◌, ◌-◌, ◌*◌, ◌^◌, String, Option, none, some, [], ◌∷◌, ◌==◌, if◌then◌else◌, eqb,
  concat,
}
use kubernetes_operators.Errors.{Error, wrapped, as_error, classify_or_wrap}
use kubernetes_operators.Api.Meta.{ObjectMeta}
use kubernetes_operators.Cluster.Objects.{Object, ObjectKey, ObjectRef, resource_of}
use kubernetes_operators.Cluster.Client.{Client, Result, success, failure}
use kubernetes_operators.Cluster.Exec.{Exec, pure, raise, call, reads, attempt, ◌>>=◌, ◌>>◌}
use kubernetes_operators.Metrics.{observe_resource_apply, observe_api_call, observe_noop_apply}

-- The string constants.
pub data ApplyResult : Type 0 where
  created updated unchanged deleted : ApplyResult

abbrev pub apply_result_text : ApplyResult → String
apply_result_text created = "created"
apply_result_text updated = "updated"
apply_result_text unchanged = "unchanged"
apply_result_text deleted = "deleted"

abbrev pub max_apply_retries : ℕ
max_apply_retries = 3

-- In milliseconds.
abbrev pub retry_base_delay : ℕ
retry_base_delay = 100

-- The label of a kind in metrics.
unfoldable pub resource_kind : String → String
resource_kind kind = if kind == "" then "unknown" else kind

-- "verb Kind namespace/name"
abbrev about : String → Object → String
about verb desired = concat (
    verb ∷ " " ∷ desired.type_meta.kind ∷ " " ∷ desired.meta.namespace ∷ "/" ∷ desired.meta.name
    ∷ [])

abbrev pub key_of : Object → ObjectKey
key_of o = record { key_name = o.meta.name; key_namespace = o.meta.namespace }

module _ {F S : Type 0} (c : Client F S) where
  -- The branch of `applyOnce` on an object that is not there.
  unfoldable pub create_new : Object → Exec F S ApplyResult
  create_new desired = do
    result ← attempt (call (c.create desired))
    elim result [
      | failure e ↦ raise (wrapped (about "creating" desired) e)
      | success _ ↦ do
        observe_api_call "create" (resource_kind desired.type_meta.kind)
        pure created
    ]

  -- The branch on an object that is there.
  unfoldable pub update_existing : Object → Object → Exec F S ApplyResult
  update_existing desired existing =
      if c.deep_equal existing desired
      then (do observe_noop_apply (resource_kind desired.type_meta.kind); pure unchanged)
      else (do
        result ← attempt (call (c.patch desired))
        observe_api_call "patch" (resource_kind desired.type_meta.kind)
        elim result [
          | failure e ↦ raise (wrapped (about "applying" desired) e)
          | success _ ↦ pure updated
        ])

  unfoldable pub apply_once : Object → Exec F S ApplyResult
  apply_once desired = do
    got ← attempt (call (c.get (resource_of desired.body) (key_of desired)))
    elim got [
      | failure e ↦
          if c.errors.is_not_found e
          then create_new desired
          else raise (wrapped (about "getting" desired) e)
      | success existing ↦ update_existing desired existing
    ]

  -- Nothing before the first attempt; then 100 ms, 200 ms, 400 ms, unless the context ends first.
  unfoldable pub back_off : ℕ → Exec F S Unit
  back_off zero = pure tt
  back_off (suc n) = do
    cancelled ← reads (c.wait (retry_base_delay * 2 ^ n))
    elim cancelled [ none ↦ pure tt | some e ↦ raise e ]

  -- After the loop.
  unfoldable pub give_up : Object → Error F → Exec F S ApplyResult
  give_up desired e = do
    observe_resource_apply (resource_kind desired.type_meta.kind) "error"
    raise (as_error (classify_or_wrap c.errors e desired.meta.name desired.type_meta.kind))

  -- The end of a round: a success is recorded, an error is handed on.
  unfoldable pub conclude :
      Object → Result F ApplyResult → (Error F → Exec F S ApplyResult) → Exec F S ApplyResult
  conclude desired (success result) on_error = do
    observe_resource_apply (resource_kind desired.type_meta.kind) (apply_result_text result)
    pure result
  conclude desired (failure e) on_error = on_error e

  -- The loop from the round `attempted`, with `left` rounds after it.
  unfoldable pub apply_from : ℕ → ℕ → Object → Exec F S ApplyResult
  apply_from zero attempted desired = do
    back_off attempted
    result ← attempt (apply_once desired)
    conclude desired result (give_up desired)
  apply_from (suc left) attempted desired =
      let next = apply_from left (suc attempted) desired in
      do
        back_off attempted
        result ← attempt (apply_once desired)
        conclude desired result (λ e. if c.errors.is_conflict e then next else give_up desired e)

  unfoldable pub apply : ObjectMeta → Object → Exec F S ApplyResult
  apply owner desired = elim (c.set_controller_reference owner desired) [
    | failure e ↦ raise (wrapped "setting controller reference" e)
    | success owned ↦ apply_from max_apply_retries 0 owned
  ]

  unfoldable pub delete_if_exists : ObjectRef → Exec F S Unit
  delete_if_exists ref = do
    result ← attempt (call (c.delete ref.ref_resource ref.ref_key))
    elim result [
      | failure e ↦
          if c.errors.is_not_found e
          then pure tt
          else raise (
              wrapped
                (concat (
                  "deleting " ∷ ref.ref_kind ∷ " " ∷ ref.ref_key.key_namespace ∷ "/"
                  ∷ ref.ref_key.key_name ∷ []))
                e)
      | success _ ↦ observe_resource_apply (resource_kind ref.ref_kind) "deleted"
    ]
