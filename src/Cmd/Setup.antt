-- ===== src/Cmd/Setup.antt =====
-- `SetupWithManager` (internal/controller/platformapplication_controller.go). The rate limiter is
-- controller-runtime's default one.
use kubernetes_operators.Common.{◌≢◌, none, some, [], ◌∷◌, if◌then◌else◌, ◌≡◌, refl}
use kubernetes_operators.Common.Int.{ℤ, pos, ltb_ℤ, ◌≤ℤ◌}
use kubernetes_operators.Cluster.Exec.{World, Exec, pure, call, reads, ◌>>=◌}
use kubernetes_operators.Cmd.Library.{Runtime, Reconciler, ControllerOptions}

abbrev pub at_least_one : ℤ → ℤ
at_least_one n = if ltb_ℤ n (pos 1) then pos 1 else n

abbrev pub controller_options : ℤ → ControllerOptions
controller_options concurrency = record {
  for_type = "platform.example.io/v1alpha1 PlatformApplication";
  owns = "apps/v1 Deployment" ∷ [];
  name = "platformapplication";
  max_concurrent_reconciles = at_least_one concurrency;
}

module _ {F S K M V : Type 0} (r : Runtime F S K M V) where
  unfoldable pub wire_recorder : M → Reconciler V → Exec F S (Reconciler V)
  wire_recorder mgr rec = elim rec.recorder [
    | none ↦ do
      recorder ← reads (r.event_recorder mgr "platform-operator")
      pure (record rec { recorder = some recorder })
    | some _ ↦ pure rec
  ]

  unfoldable pub setup_with_manager : M → Reconciler V → Exec F S Unit
  unfolding wire_recorder
  setup_with_manager mgr rec = do
    wired ← wire_recorder mgr rec
    call (r.complete_controller mgr (controller_options rec.concurrency) wired)

  -- A recorder that is there is kept.
  pub setup_with_recorder :
      (mgr : M) (recorder : V) (n : ℤ)
      → setup_with_manager mgr (record { recorder = some recorder; concurrency = n })
        ≡ call (
            r.complete_controller mgr
              (controller_options n)
              (record { recorder = some recorder; concurrency = n }))
  unfolding setup_with_manager wire_recorder ◌>>=◌ pure
  setup_with_recorder mgr recorder n = refl

  -- What the call that completes the controller is given.
  pub record IsReady (n : ℤ) (rec : Reconciler V) (opts : ControllerOptions) : Type 0 where
    pub has_recorder : rec.recorder ≢ none
    pub some_worker : pos 1 ≤ℤ opts.max_concurrent_reconciles
    pub as_asked : pos 1 ≤ℤ n → opts.max_concurrent_reconciles ≡ n

  -- The call that completes the controller, and the world that it is made in.
  abbrev pub Completes : M → Reconciler V → World S → Type 0
  Completes mgr rec w =
      (wired : Reconciler V) × (v : World S) × IsReady rec.concurrency wired
        (controller_options rec.concurrency)
      × (setup_with_manager mgr rec w
          ≡ call (r.complete_controller mgr (controller_options rec.concurrency) wired) v)
