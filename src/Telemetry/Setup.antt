-- ===== src/Telemetry/Setup.antt =====
-- src/oauthclientbridge/telemetry/_otel.py and src/oauthclientbridge/telemetry/_sentry.py: what is set
-- up for traces, metrics and Sentry, by the settings. The exporters are the library's; what they are
-- given is data.
pub mod Endpoints
use oauthclientbridge.Base.{
  ℕ, ◌/◌, ◌≡◌, refl, arith, String, Bool, true, false, not, any, Option, none, some, List, [], ◌∷◌,
  ◌++◌, map, if◌then◌else◌,
}
use oauthclientbridge.Base.Dict.{Dict, get}
use oauthclientbridge.Base.Json.{Object}
use oauthclientbridge.Settings.{
  TelemetryExporter, otlp_http, console, TelemetryComponent, TelemetrySettings, SentrySettings,
}
use oauthclientbridge.Settings.Validators.{is_tracing, is_metrics}
use oauthclientbridge.Telemetry.Buckets.{time, bytes}
use oauthclientbridge.Telemetry.Resources.{Process, filled, resource_attributes}

pub data SpanProcessor : Type 0 where
  given_processor : SpanProcessor
  batch_otlp : Option String → SpanProcessor
  simple_console : SpanProcessor
  sentry_processor : SpanProcessor

pub data Propagator : Type 0 where
  trace_context baggage sentry_propagator : Propagator

pub record Tracing : Type 0 where
  pub resource : Object
  pub processors : List SpanProcessor
  pub propagators : List Propagator

abbrev span_processor : Option String → TelemetryExporter → SpanProcessor
span_processor endpoint otlp_http = batch_otlp endpoint
span_processor endpoint console = simple_console

-- `init_tracing`; `given` is whether a processor is passed, `sentry` whether Sentry is installed.
unfoldable pub init_tracing : Process → Bool → Bool → TelemetrySettings → Option Tracing
unfolding resource_attributes
init_tracing p sentry given s =
    if not (any is_tracing s.components)
    then none
    else some (record {
      resource = resource_attributes p s;
      processors =
          (if given then given_processor ∷ [] else [])
          ++ map (span_processor s.endpoint) s.exporters
          ++ (if sentry then sentry_processor ∷ [] else []);
      propagators =
          (trace_context ∷ baggage ∷ []) ++ (if sentry then sentry_propagator ∷ [] else []);
    })

-- A reader with its export interval in whole milliseconds.
pub data MetricReader : Type 0 where
  given_reader : MetricReader
  periodic_otlp : Option String → ℕ → MetricReader
  periodic_console : ℕ → MetricReader

-- How the instruments with a name are aggregated: by which boundaries, and by which attributes, where
-- the view says so.
pub record View : Type 0 where
  pub instrument_name : String
  pub boundaries : Option (List (Option ℕ))
  pub attribute_keys : Option (List String)

abbrev views : List View
views =
    record { instrument_name = "http.*.duration"; boundaries = some time; attribute_keys = none }
    ∷ record { instrument_name = "http.*.size"; boundaries = some bytes; attribute_keys = none }
    ∷ record {
      instrument_name = "oauth.db.cursor.duration";
      boundaries = some time;
      attribute_keys = some ("db.operation" ∷ "error.type" ∷ []);
    }
    ∷ record {
      instrument_name = "oauth.client.duration";
      boundaries = some time;
      attribute_keys = some ("operation" ∷ "final.result" ∷ "error.type" ∷ []);
    }
    ∷ record {
      instrument_name = "oauth.client.retries";
      boundaries = none;
      attribute_keys = some ("operation" ∷ "final.result" ∷ "error.type" ∷ []);
    }
    ∷ []

pub record Metrics : Type 0 where
  pub resource : Object
  pub readers : List MetricReader
  pub views : List View

abbrev metric_reader : Option String → ℕ → TelemetryExporter → MetricReader
metric_reader endpoint interval otlp_http = periodic_otlp endpoint interval
metric_reader endpoint interval console = periodic_console interval

unfoldable pub init_metrics : Process → Bool → TelemetrySettings → Option Metrics
unfolding resource_attributes
init_metrics p given s =
    if not (any is_metrics s.components)
    then none
    else some (record {
      resource = resource_attributes p s;
      readers =
          (if given then given_reader ∷ [] else [])
          ++ map (metric_reader s.endpoint (s.metric_export_interval_seconds / 1000)) s.exporters;
      views = views;
    })

-- `_traces_sampler`, for a request with this path, where the context has one.
unfoldable pub traces_sampler : SentrySettings → Option String → ℕ
traces_sampler s none = s.traces_sample_rate
traces_sampler s (some path) = elim (get path s.traces_sample_rate_overrides) [
  | none ↦ s.traces_sample_rate
  | some rate ↦ rate
]

-- What `sentry_sdk.init` is given.
pub record SentryInit : Type 0 where
  pub dsn : Option String
  pub release : String
  pub sample_rate : ℕ
  pub traces_sample_rate : ℕ
  pub sampler : Option String → ℕ

pub data SentryStart : Type 0 where
  disabled not_installed : SentryStart
  initialised : SentryInit → SentryStart

-- `_sentry.init`; `installed` is whether the SDK can be imported.
unfoldable pub init : Bool → SentrySettings → SentryStart
init installed s =
    if not s.enabled
    then disabled
    else if not installed
    then not_installed
    else initialised (record {
      dsn = filled s.dsn;
      release = s.release;
      sample_rate = s.sample_rate;
      traces_sample_rate = s.traces_sample_rate;
      sampler = traces_sampler s;
    })

-- The instrumentors of the module, and whether each is on; one that is on stays so when it is asked
-- again.
pub record Instrumented : Type 0 where
  pub system_metrics : Bool
  pub logging : Bool
  pub sqlite : Bool
  pub requests : Bool
  pub flask : Bool

unfoldable pub instrument : Instrumented → Instrumented
instrument i = record i { system_metrics = true; logging = true; sqlite = true; requests = true }

unfoldable pub uninstrument : Instrumented → Instrumented
uninstrument i = record i {
  system_metrics = false;
  logging = false;
  sqlite = false;
  requests = false;
}

-- `instrument_app`, of the application's own hooks, which stay when the others are taken off.
unfoldable pub instrument_app : Instrumented → Instrumented
instrument_app i = record i { flask = true }
