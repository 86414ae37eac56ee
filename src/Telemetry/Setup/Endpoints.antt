-- ===== src/Telemetry/Setup/Endpoints.antt =====
-- src/oauthclientbridge/telemetry/_otel.py and src/oauthclientbridge/telemetry/_sentry.py: settings
-- that passed their validators give every exporter its address.
use oauthclientbridge.Base.{
  eq_iff, ℕ, ◌/◌, subst, ◌≡◌, ◌≢◌, refl, arith, String, Bool, true, false, any, All, All-append,
  Option, none, some, List, [], ◌∷◌, map, if◌then◌else◌,
}
use oauthclientbridge.Base.Dict.{Dict}
use oauthclientbridge.Base.Result.{ok}
use oauthclientbridge.Settings.{
  TelemetryExporter, otlp_http, console, TelemetrySettings, SentrySettings,
}
use oauthclientbridge.Settings.Validators.{is_otlp_http, validate_telemetry, check_dsn_if_enabled}
use oauthclientbridge.Telemetry.Resources.{Process, filled}
use oauthclientbridge.Telemetry.Setup.{
  SpanProcessor, given_processor, batch_otlp, sentry_processor, span_processor, Tracing,
  init_tracing, MetricReader, given_reader, periodic_otlp, metric_reader, Metrics, init_metrics,
  SentryInit, initialised, init,
}

abbrev pub IsSent : SpanProcessor → Type 0
IsSent (batch_otlp none) = ⊥
IsSent _ = Unit

abbrev pub IsRead : MetricReader → Type 0
IsRead (periodic_otlp none _) = ⊥
IsRead _ = Unit

span_processors-IsSent :
    (endpoint : Option String) (exporters : List TelemetryExporter)
    → (any is_otlp_http exporters ≡ true → endpoint ≢ none)
    → All IsSent (map (span_processor endpoint) exporters)
span_processors-IsSent e [] h = tt
span_processors-IsSent (some url) (otlp_http ∷ rest) h =
    (tt, span_processors-IsSent (some url) rest (λ _ e. ground (arith, e)))
span_processors-IsSent none (otlp_http ∷ rest) h = absurd (h refl refl)
span_processors-IsSent e (console ∷ rest) h = (tt, span_processors-IsSent e rest h)

metric_readers-IsRead :
    (endpoint : Option String) (interval : ℕ) (exporters : List TelemetryExporter)
    → (any is_otlp_http exporters ≡ true → endpoint ≢ none)
    → All IsRead (map (metric_reader endpoint interval) exporters)
metric_readers-IsRead e i [] h = tt
metric_readers-IsRead (some url) i (otlp_http ∷ rest) h =
    (tt, metric_readers-IsRead (some url) i rest (λ _ e. ground (arith, e)))
metric_readers-IsRead none i (otlp_http ∷ rest) h = absurd (h refl refl)
metric_readers-IsRead e i (console ∷ rest) h = (tt, metric_readers-IsRead e i rest h)

unguarded : {A : Type 0} (b : Bool) (x t : A) → (if b then none else some x) ≡ some t → x ≡ t
unguarded true x t e = absurd (ground (arith, e))
unguarded false x t e = ground (arith, e)

module _ (meta : Option (Dict String)) (s v : TelemetrySettings) where
  endpoint_of :
      validate_telemetry meta s ≡ ok v → any is_otlp_http v.exporters ≡ true → v.endpoint ≢ none
  unfolding validate_telemetry
  endpoint_of h = ground arith

  -- Telemetry settings that passed their validators: whether or not Sentry is installed and whatever
  -- is passed in, each OTLP exporter of spans and of metrics that is set up has an address.
  pub init-IsSent :
      (p : Process) (sentry given : Bool)
      → validate_telemetry meta s ≡ ok v
      → ((t : Tracing) → init_tracing p sentry given v ≡ some t → All IsSent t.processors)
        × ((m : Metrics) → init_metrics p given v ≡ some m → All IsRead m.readers)
  unfolding init_tracing init_metrics
  init-IsSent p sentry given h = (
    λ t e.
        subst (λ (x : Tracing). All IsSent x.processors) (unguarded _ _ _ e)
          (All-append IsSent _ _
            (All-append IsSent _ _ (one given)
              (span_processors-IsSent v.endpoint v.exporters (endpoint_of h)))
            (last sentry)),
    λ m e.
        subst (λ (x : Metrics). All IsRead x.readers) (unguarded _ _ _ e)
          (All-append IsRead _ _ (first given) (
            metric_readers-IsRead v.endpoint (v.metric_export_interval_seconds / 1000) v.exporters
              (endpoint_of h))),
  )
    where
      one : (b : Bool) → All IsSent (if b then given_processor ∷ [] else [])
      one true = (tt, tt)
      one false = tt

      last : (b : Bool) → All IsSent (if b then sentry_processor ∷ [] else [])
      last true = (tt, tt)
      last false = tt

      first : (b : Bool) → All IsRead (if b then given_reader ∷ [] else [])
      first true = (tt, tt)
      first false = tt

filled-ne-none : (d : Option String) → d ≢ none → d ≢ some "" → filled d ≢ none
filled-ne-none none h k = λ _. h refl
filled-ne-none (some text) h k = ground (arith, eq_iff text "", k)

checked_dsn :
    (s v : SentrySettings)
    → check_dsn_if_enabled s ≡ ok v
    → (v.dsn ≡ s.dsn) × (v.enabled ≡ true → s.dsn ≢ none)
unfolding check_dsn_if_enabled
checked_dsn s v h = ground (arith, h)

initialised_dsn :
    (installed : Bool) (v : SentrySettings) (i : SentryInit)
    → init installed v ≡ initialised i
    → (i.dsn ≡ filled v.dsn) × (v.enabled ≡ true)
unfolding init
initialised_dsn installed v i h = ground (arith, h)

-- Likewise Sentry: where it is started, it has the address that its validator asks for, if that is
-- not empty.
pub init-dsn :
    (s v : SentrySettings) (installed : Bool) (i : SentryInit)
    → check_dsn_if_enabled s ≡ ok v
    → s.dsn ≢ some ""
    → init installed v ≡ initialised i
    → i.dsn ≢ none
init-dsn s v installed i h named k =
    rw ((initialised_dsn installed v i k).0, (checked_dsn s v h).0)
      (filled-ne-none s.dsn ((checked_dsn s v h).1 (initialised_dsn installed v i k).1) named)
