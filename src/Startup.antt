-- ===== src/Startup.antt =====
-- src/oauthclientbridge/wsgi.py and `create_app` of src/oauthclientbridge/__init__.py: how a worker
-- process starts, and how it ends.
pub mod Order
use oauthclientbridge.Base.{ℕ, String, Bool, true, false, Option, none, some, List, [], ◌∷◌, ◌++◌}
use oauthclientbridge.Base.Dict.{is_some}
use oauthclientbridge.Base.Result.{Result, ok, err, Exec, pure, ◌>>=◌, ◌>>◌}
use oauthclientbridge.Errors.{Exception}
use oauthclientbridge.App.{App, World}
use oauthclientbridge.Coalescing.{Worker}
use oauthclientbridge.Db.Catalog.{Catalog}
use oauthclientbridge.Lifecycle
use oauthclientbridge.Lifecycle.{Services, start_runtime_services, stop_runtime_services}
use oauthclientbridge.Logs.{AccessLogs, init_access_logs, Logging, init_logging}
use oauthclientbridge.Settings.{LogSettings, SentrySettings, TelemetrySettings}
use oauthclientbridge.Telemetry.Instruments.{Sample, set_build_info}
use oauthclientbridge.Telemetry.Resources.{Process}
use oauthclientbridge.Telemetry.Setup.{
  Instrumented, instrument, instrument_app, Tracing, init_tracing, Metrics, init_metrics,
  SentryStart, disabled, init,
}

-- The settings that the start reads.
pub record StartSettings : Type 0 where
  pub log : LogSettings
  pub sentry : SentrySettings
  pub otel : TelemetrySettings

-- What of Sentry can be imported: its SDK and the processor of log lines.
pub record Installed : Type 0 where
  pub sdk : Bool
  pub processor : Bool

-- A process: what is configured in it, the extensions of its application, and whether
-- `stop_runtime_services` is registered for its end.
pub record Machine : Type 0 where
  pub logging : Logging
  pub sentry : SentryStart
  pub instrumented : Instrumented
  pub tracing : Option Tracing
  pub metrics : Option Metrics
  pub access_logs : AccessLogs
  pub samples : List Sample
  pub services : Services
  pub app : App
  pub at_exit : Bool

module _ (w : World) (p : Process) (s : StartSettings) where
  -- `create_app`: the application's instrumentor, the access logs, the build's gauge and the
  -- refresher; the error handlers and the other hooks are in `serve`.
  unfoldable pub create_app : Machine → Machine
  create_app m = record m {
    instrumented = instrument_app m.instrumented;
    access_logs = init_access_logs m.access_logs;
    samples = m.samples ++ set_build_info p s.otel;
    services = Lifecycle.create_app w;
  }

  -- What comes before the application.
  unfoldable pub configure : Installed → Machine → Machine
  configure installed m = record m {
    logging = init_logging installed.processor s.log m.logging;
    sentry = init installed.sdk s.sentry;
    instrumented = instrument m.instrumented;
    tracing = init_tracing p installed.sdk false s.otel;
    metrics = init_metrics p false s.otel;
  }

  -- `start_runtime_services(app)`, by whether the database has the table, and the registration of its
  -- end.
  launched : Result Exception (Unit {0}) × (Services × App) → Exec Machine Exception (Unit {0})
  launched (ok _, (services, app)) m =
      (ok tt, record m { services = services; app = app; at_exit = true })
  launched (err e, (services, app)) m = (err e, record m { services = services; app = app })

  launch : Catalog → Exec Machine Exception (Unit {0})
  unfolding launched
  launch catalog m = launched (start_runtime_services w (is_some catalog) (m.services, m.app)) m

  -- The module.
  unfoldable pub boot : Installed → Catalog → Exec Machine Exception (Unit {0})
  unfolding configure create_app launch
  boot installed catalog m = launch catalog (create_app (configure installed m))

-- The end of a process: what `atexit` runs, and the worker that it stops.
unfoldable pub leave : Machine → Option Worker × Machine
leave m = elim m.at_exit [
  | false ↦ (none, m)
  | true ↦
      let (stopped, services) = stop_runtime_services m.services in
      (stopped, record m { services = services })
]
