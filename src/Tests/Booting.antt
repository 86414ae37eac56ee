-- ===== src/Tests/Booting.antt =====
-- src/oauthclientbridge/wsgi.py: a worker process that starts, on a database with an older table.
use oauthclientbridge.Base.{◌≡◌, refl, String, true, false, none, some, [], ◌∷◌}
use oauthclientbridge.Base.Result.{ok, err}
use oauthclientbridge.Coalescing.{new}
use oauthclientbridge.Db.Catalog.{
  Catalog, initialize, upgrade, IsUsable, initialize-IsUsable, older,
}
use oauthclientbridge.Errors.{runtime_error, database_error}
use oauthclientbridge.Lifecycle.{fresh, start, request, stop}
use oauthclientbridge.Settings.{info, warning}
use oauthclientbridge.Startup.{StartSettings, Installed, Machine, boot, leave}
use oauthclientbridge.Startup.Order.{boot_lem}
use oauthclientbridge.Telemetry.Setup.{disabled}
use oauthclientbridge.Tests.{world, app, no_session}
use oauthclientbridge.Tests.Tooling.{telemetry, process}

abbrev settings : StartSettings
settings = record {
  log = record { level = info; json_output = true; colors = false; access_log_format = "" };
  sentry = record {
    enabled = false;
    dsn = none;
    release = "1";
    sample_rate = 0;
    traces_sample_rate = 0;
    traces_sample_rate_overrides = [];
  };
  otel = telemetry;
}

abbrev nothing : Installed
nothing = record { sdk = false; processor = false }

abbrev machine : Machine
machine = record {
  logging = record { configured = []; handlers = []; level = warning; werkzeug_disabled = false };
  sentry = disabled;
  instrumented = record {
    system_metrics = false;
    logging = false;
    sqlite = false;
    requests = false;
    flask = false;
  };
  tracing = none;
  metrics = none;
  access_logs = record { initialized = false; hooks = 0; warnings = 0 };
  samples = [];
  services = fresh;
  app = app [] no_session;
  at_exit = false;
}

abbrev old_table : Catalog
old_table = some ("client_id" ∷ "token" ∷ [])

initialize-IsUsable_example :
    (c : Catalog) × (upgrade (initialize old_table) ≡ ok c)
    × IsUsable c
    × (upgrade (initialize c) ≡ ok c)
    × (upgrade none ≡ err (database_error "operational_error"))
initialize-IsUsable_example =
    initialize-IsUsable old_table (older ("client_id" ∷ "token" ∷ []) refl refl)

abbrev booted : Catalog → Machine
booted catalog = (boot world process settings nothing catalog machine).1

boot_lem_example :
    (world.fault 0 ≡ none
      → ((boot world process settings nothing (initialize none) machine).0 ≡ ok tt)
        × ((booted (initialize none)).services.worker ≡ some (request (request (start new))))
        × ((leave (booted (initialize none))).0 ≡ some (stop (request (request (start new)))))
        × ((leave (booted (initialize none))).1.services.worker ≡ none))
    × (world.fault 0 ≡ none
        → ((boot world process settings nothing none machine).0 ≡ err runtime_error)
          × ((booted none).services.worker ≡ none)
          × (leave (booted none) ≡ (none, booted none)))
    × ((fault : String)
        → world.fault 0 ≡ some fault
        → ((boot world process settings nothing none machine).0 ≡ err (database_error fault))
          × ((booted none).services.worker ≡ none)
          × (leave (booted none) ≡ (none, booted none)))
boot_lem_example = boot_lem world process settings nothing machine none refl
