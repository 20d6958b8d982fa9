-- ===== src/Cmd/Plan.antt =====
-- The calls that `main` makes once there is a manager, and how it ends.
use kubernetes_operators.Common.{
  ◌≡◌, refl, ap, ◌∙◌, Bool, true, false, inl, inr, some, List, [], ◌∷◌, ◌++◌, ◌==◌, Bool-cases,
}
use kubernetes_operators.Cluster.Client.{Result, success, failure, Result-cases}
use kubernetes_operators.Cluster.Exec.{World, ok, call, reads, pure}
use kubernetes_operators.Tracing.{Otel, TracerProvider, init, shutdown_provider}
use kubernetes_operators.Cmd.Process.{
  Proc, Ending, running, exited, crashed, or_exit, ignoring, finally, after_deferred, ◌>>=◌, ◌>>◌,
  then_run,
}
use kubernetes_operators.Cmd.Library.{Runtime, v1alpha1, v1beta1}
use kubernetes_operators.Cmd.Setup.{controller_options, setup_with_recorder}
use kubernetes_operators.Cmd.{
  Flags, tracing_config, manager_options, set_up_webhooks, managed, run_manager, serve, main,
}

abbrev pub Call : Type 0 → Type 0 → Type 0
Call F S = S → Result F Unit × S

abbrev pub verdict : {S : Type 0} → Bool × World S → Ending Unit × World S
verdict (true, w) = (running tt, w)
verdict (false, w) = (exited 1, w)

-- One call after the other, up to the first that fails.
module _ {F S : Type 0} where
  abbrev pub follow : List (Call F S) → World S → Bool × World S
  follow [] w = (true, w)
  follow (f ∷ fs) w =
      let w' = record w { api = (f w.api).1 } in
      let rest = follow fs w' in elim (f w.api).0 [ failure e ↦ (false, w') | success u ↦ rest ]

  abbrev Follows : Proc S Unit → List (Call F S) → Type 0
  Follows m fs = (w : World S) → m w ≡ verdict (follow fs w)

  Follows-one : (f : Call F S) → Follows (or_exit (call f)) (f ∷ [])
  unfolding or_exit call
  Follows-one f w = elim (Result-cases (f w.api).0) [
    | inl (u, h) ↦ rw h refl
    | inr (e, h) ↦ rw h refl
  ]

  Follows-then :
      (f : Call F S) (m : Proc S Unit) (fs : List (Call F S))
      → Follows m fs
      → Follows (or_exit (call f) >> m) (f ∷ fs)
  unfolding or_exit call ◌>>=◌
  Follows-then f m fs h w = elim (Result-cases (f w.api).0) [
    | inl (u, p) ↦ rw p (h (record w { api = (f w.api).1 }))
    | inr (e, p) ↦ rw p refl
  ]

module _ {S A B C : Type 0} where
  then_run_assoc :
      (m : Proc S A) (n : Proc S B) (k : Proc S C) (w : World S)
      → ((m >> n) >> k) w ≡ (m >> (n >> k)) w
  unfolding ◌>>=◌
  then_run_assoc m n k w = by (m w)
    where
      by :
          (r : Ending A × World S)
          → then_run (then_run r.0 (λ _. n) r.1).0 (λ _. k) (then_run r.0 (λ _. n) r.1).1
            ≡ then_run r.0 (λ _. n >> k) r.1
      by (running a, v) = refl
      by (exited code, v) = refl
      by (crashed, v) = refl

module _ {F S P R X N K M V : Type 0} (o : Otel F S P R X N) (r : Runtime F S K M V) where
  -- The calls on the manager, in their order.
  abbrev webhook_calls : M → Bool → List (Call F S)
  webhook_calls mgr true = []
  webhook_calls mgr false = r.complete_webhook mgr v1alpha1 ∷ r.complete_webhook mgr v1beta1 ∷ []

  abbrev last_calls : M → List (Call F S)
  last_calls mgr =
      r.add_healthz_check mgr "healthz" ∷ r.add_readyz_check mgr "readyz" ∷ r.start mgr ∷ []

  abbrev pub plan : Flags → M → V → List (Call F S)
  plan f mgr recorder =
      r.complete_controller mgr (controller_options f.concurrent_reconciles)
        (record { recorder = some recorder; concurrency = f.concurrent_reconciles })
      ∷ (webhook_calls mgr (r.getenv "ENABLE_WEBHOOKS" == "false") ++ last_calls mgr)

  webhooks-Follows :
      (mgr : M) (m : Proc S Unit) (fs : List (Call F S))
      → Follows m fs
      → Follows
          (set_up_webhooks o r mgr >> m)
          (webhook_calls mgr (r.getenv "ENABLE_WEBHOOKS" == "false") ++ fs)
  unfolding set_up_webhooks
  webhooks-Follows mgr m fs h w = elim (Bool-cases (r.getenv "ENABLE_WEBHOOKS" == "false")) [
    | inl e ↦ simp e (unfold ◌>>=◌ or_exit pure in h w)
    | inr e ↦ simp e (
        then_run_assoc _ _ _ w
        ∙ Follows-then (r.complete_webhook mgr v1alpha1) _ (r.complete_webhook mgr v1beta1 ∷ fs)
            (Follows-then (r.complete_webhook mgr v1beta1) m fs h) w)
  ]

  managed-Follows :
      (f : Flags) (mgr : M) (recorder : V)
      → Follows (managed o r f mgr recorder) (plan f mgr recorder)
  unfolding managed
  managed-Follows f mgr recorder = rw (setup_with_recorder r mgr recorder f.concurrent_reconciles) (
      Follows-then _ _ (webhook_calls mgr (r.getenv "ENABLE_WEBHOOKS" == "false") ++ last_calls mgr)
        (webhooks-Follows mgr _ (last_calls mgr) (
          Follows-then (r.add_healthz_check mgr "healthz") _
            (r.add_readyz_check mgr "readyz" ∷ r.start mgr ∷ [])
            (Follows-then (r.add_readyz_check mgr "readyz") _ (r.start mgr ∷ [])
              (Follows-one (r.start mgr))))))

  -- The process ended by `os.Exit(1)`, or the return of `main` with the tracer provider shut down.
  abbrev pub ends : TracerProvider F S P → Bool × World S → Ending Unit × World S
  ends tp (true, w) = (running tt, (shutdown_provider o tp w).1)
  ends tp (false, w) = (exited 1, w)

  deferred-verdict :
      (tp : TracerProvider F S P) (x : Bool × World S)
      → after_deferred (ignoring (shutdown_provider o tp)) (verdict x) ≡ ends tp x
  unfolding ignoring
  deferred-verdict tp (true, w) = refl
  deferred-verdict tp (false, w) = refl

  -- Once tracing is set up and there is a manager, `main` makes the planned calls on it in order, up
  -- to the first that fails: the controller, the two webhooks unless they are switched off, the two
  -- checks, the start. If none fails it returns with the tracer provider shut down; otherwise the
  -- process exits with code 1 as that call left it, with the provider not shut down.
  pub main-Follows :
      (f : Flags) (w v u t : World S) (tp : TracerProvider F S P) (k : K) (mgr : M)
      → init o (tracing_config f) w ≡ (ok tp, v)
      → r.get_config_or_die v ≡ (running k, u)
      → call (r.new_manager k (manager_options f)) u ≡ (ok mgr, t)
      → let (recorder, s) = r.event_recorder mgr "platform-operator" t.api in
        main o r f w ≡ ends tp (follow (plan f mgr recorder) (record t { api = s }))
  unfolding main serve run_manager finally or_exit ◌>>=◌ reads
  main-Follows f w v u t tp k mgr a b c =
      rw (a, b, c)
        (ap (after_deferred (ignoring (shutdown_provider o tp))) (managed-Follows f mgr _ _)
          ∙ deferred-verdict tp _)
