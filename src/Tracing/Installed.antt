-- ===== src/Tracing/Installed.antt =====
-- `Init` of internal/tracing/tracing.go and the global tracer provider.
use kubernetes_operators.Common.{
  String, ◌≡◌, ◌≢◌, ◌∙◌, true, Bool-cases, inl, inr, Option, none, some, ◌==◌, eq_iff, arith,
}
use kubernetes_operators.Cluster.Client.{Result, success, failure}
use kubernetes_operators.Cluster.Exec.{
  World, Outcome, ok, err, panic, pure, raise, call, reads, attempt, ◌>>=◌, ◌>>◌, continue, outcome,
}
use kubernetes_operators.Tracing.{
  Config, Otel, TracerProvider, exporter_none, or_wrapped, new_exporter, init_noop, init_exporting,
  init, install, otlp_options,
}

module _ {F S P R X N : Type 0} (o : Otel F S P R X N) (installed : S → Option P) where
  -- `otel.SetTracerProvider` replaces the global provider, and the constructors leave it alone.
  pub record IsGlobal : Type 0 where
    pub set : (p : P) (s : S) → installed (o.set_tracer_provider p s).1 ≡ some p
    pub resource : (a b : String) (s : S) → installed (o.new_resource a b s).1 ≡ installed s
    pub otlp :
        (cfg : Config) (s : S)
        → installed (o.new_otlp_exporter (otlp_options cfg) s).1 ≡ installed s
    pub stdout : (s : S) → installed (o.new_stdout_exporter s).1 ≡ installed s
    pub provider : (x : X) (r : R) (s : S) → installed (o.new_provider x r s).1 ≡ installed s

  -- What a call of `Init` in the world `w` leaves behind.
  abbrev pub Installs : Config → World S → Outcome F (TracerProvider F S P) × World S → Type 0
  Installs cfg w (ok tp, w') = (installed w'.api ≡ some tp.provider) × (tp.shutdown ≢ none)
  Installs cfg w (err e, w') =
      (installed w'.api ≡ installed w.api) × (cfg.enabled ≡ true) × (cfg.exporter ≢ exporter_none)
  Installs cfg w (panic, w') = ⊥

  Installs-later :
      (cfg : Config) (v w : World S) (r : Outcome F (TracerProvider F S P) × World S)
      → installed v.api ≡ installed w.api
      → Installs cfg v r
      → Installs cfg w r
  Installs-later cfg v w (ok tp, u) h i = i
  Installs-later cfg v w (err e, u) h i = (i.0 ∙ h, i.1, i.2)
  Installs-later cfg v w (panic, u) h i = i

  abbrev Exports : World S → Outcome F X × World S → Type 0
  Exports w (panic, w') = ⊥
  Exports w (_, w') = installed w'.api ≡ installed w.api

  new_exporter-Exports : IsGlobal → (cfg : Config) (w : World S) → Exports w (new_exporter o cfg w)
  unfolding new_exporter or_wrapped ◌>>=◌ attempt call pure raise
  new_exporter-Exports g cfg w = ground (arith, g.otlp cfg w.api, g.stdout w.api)

  init_noop-Installs : IsGlobal → (cfg : Config) (w : World S) → Installs cfg w (init_noop o w)
  unfolding init_noop ◌>>=◌ reads pure
  init_noop-Installs g cfg w = (g.set o.noop_provider w.api, λ e. cc)

  install-Installs :
      IsGlobal
      → (cfg : Config) (res : R) (w : World S) → cfg.enabled ≡ true
      → cfg.exporter ≢ exporter_none
      → Installs cfg w (install o cfg res w)
  unfolding install ◌>>=◌ reads pure
  install-Installs g cfg res w on ne = by (new_exporter o cfg w) (new_exporter-Exports g cfg w)
    where
      by :
          (r : Outcome F X × World S)
          → Exports w r
          → Installs cfg w (
              continue r.0
                (λ exporter. reads (o.new_provider exporter res) >>= λ tp.
                  reads (o.set_tracer_provider tp)
                  >> pure (record { provider = tp; shutdown = some (o.shutdown tp) }))
                r.1)
      by (ok x, v) h = (g.set _ _, λ e. cc)
      by (err e, v) h = (h, on, ne)
      by (panic, v) h = h

  init_exporting-Installs :
      IsGlobal
      → (cfg : Config) (w : World S) → cfg.enabled ≡ true
      → cfg.exporter ≢ exporter_none
      → Installs cfg w (init_exporting o cfg w)
  unfolding init_exporting install or_wrapped ◌>>=◌ attempt call pure raise
  init_exporting-Installs g cfg w on ne =
      by (o.new_resource cfg.service_name "0.1.0" w.api) (g.resource cfg.service_name "0.1.0" w.api)
    where
      by :
          (r : Result F R × S)
          → installed r.1 ≡ installed w.api
          → Installs cfg w (
              (or_wrapped "creating OTel resource" (λ v. (outcome r.0, record v { api = r.1 }))
                  >>= install o cfg)
                w)
      by (failure e, s) h = (h, on, ne)
      by (success res, s) h =
          Installs-later cfg (record w { api = s }) w (install o cfg res (record w { api = s })) h
            (install-Installs g cfg res (record w { api = s }) on ne)

  -- Where only `SetTracerProvider` changes the global provider, `Init` does not panic; a provider that
  -- it returns is the global one and can be shut down; an error comes only with tracing enabled and
  -- an exporter other than "none", and leaves the global provider as it was.
  pub init-Installs : IsGlobal → (cfg : Config) (w : World S) → Installs cfg w (init o cfg w)
  unfolding init
  init-Installs g cfg w = elim (Bool-cases cfg.enabled) [
    | inl on ↦ elim (Bool-cases (cfg.exporter == exporter_none)) [
      | inl e ↦ simp (on, e) (init_noop-Installs g cfg w)
      | inr e ↦
          simp (on, e)
            (init_exporting-Installs g cfg w on (ground (arith, eq_iff cfg.exporter exporter_none)))
    ]
    | inr e ↦ simp e (init_noop-Installs g cfg w)
  ]
