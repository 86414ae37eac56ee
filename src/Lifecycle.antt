-- ===== src/Lifecycle.antt =====
-- src/oauthclientbridge/telemetry/_refresh.py and src/oauthclientbridge/__init__.py,
-- `start_runtime_services` and `stop_runtime_services`: the background refresh of one process. What
-- `app.extensions` holds of it is a record; the registered callbacks are actions on the process.
pub mod Alive
pub mod Counts
pub mod Starting
pub mod Fresh
use oauthclientbridge.Base.{
  ℕ, ◌+◌, String, Bool, true, false, Option, none, some, List, [], ◌∷◌, ◌++◌, if◌then◌else◌,
}
use oauthclientbridge.Base.Result.{Result, ok, err, Exec, pure, ◌>>=◌, ◌>>◌}
use oauthclientbridge.Errors.{Exception, runtime_error}
use oauthclientbridge.App.{App, World, Handler, emit}
use oauthclientbridge.Coalescing.{Worker, new, Place, delaying}
use oauthclientbridge.Db.{TokenStateCounts, is_initialized, token_state_counts}
use oauthclientbridge.Telemetry.{set_token_state}

-- `worker.start()`, for a worker that nobody else has.
abbrev pub start : Worker → Worker
start w = if w.started then w else record w { started = true; place = delaying }

-- `worker.request()`
abbrev pub request : Worker → Worker
request w = record w { generation = w.generation + 1 }

-- `worker.stop()`, up to the wait for the thread.
abbrev pub stop : Worker → Worker
stop w = record w { stopped = true }

-- `oauth_metrics_refreshers`, `oauth_metrics_refresh_worker` and `oauth_runtime_services_started`.
pub record Services : Type 0 where
  pub refreshers : List (Handler (Unit {0}))
  pub worker : Option Worker
  pub started : Bool

abbrev pub fresh : Services
fresh = record { refreshers = []; worker = none; started = false }

abbrev pub add_refresher : Handler (Unit {0}) → Services → Services
add_refresher refresher s = record s { refreshers = s.refreshers ++ refresher ∷ [] }

-- `refresh_once`, on the registered callbacks: the first that raises ends it.
unfoldable pub refresh_once : List (Handler (Unit {0})) → Handler (Unit {0})
refresh_once [] = pure tt
refresh_once (refresher ∷ rest) = refresher >> refresh_once rest

-- What is raised is logged.
caught : Result Exception (Unit {0}) × App → Result Exception (Unit {0}) × App
caught (_, a) = (ok tt, a)

-- `_refresh_metrics_in_app`
unfoldable pub refresh_metrics_in_app : List (Handler (Unit {0})) → Handler (Unit {0})
unfolding caught refresh_once
refresh_metrics_in_app refreshers a = caught (refresh_once refreshers a)

unfoldable pub request_refresh : Services → Services
request_refresh s = elim s.worker [ none ↦ s | some w ↦ record s { worker = some (request w) } ]

-- A first worker is registered, started and asked for a refresh.
start_first : List (Handler (Unit {0})) → Services → Services
start_first [] s = s
start_first (_ ∷ _) s = record s { worker = some (request (start new)) }

unfoldable pub start_background_refresh : Services → Services
unfolding start_first
start_background_refresh s = elim s.worker [ some _ ↦ s | none ↦ start_first s.refreshers s ]

-- The worker that was stopped, and the services without it.
unfoldable pub stop_background_refresh : Services → Option Worker × Services
stop_background_refresh s = elim s.worker [
  | none ↦ (none, s)
  | some w ↦ (some (stop w), record s { worker = none })
]

unfoldable pub stop_runtime_services : Services → Option Worker × Services
unfolding stop_background_refresh
stop_runtime_services s =
    let (stopped, s') = stop_background_refresh s in (stopped, record s' { started = false })

-- `set_token_state_counts`
unfoldable pub set_token_state_counts : TokenStateCounts → Handler (Unit {0})
set_token_state_counts counts = do
  emit (set_token_state "present" counts.present)
  emit (set_token_state "revoked" counts.revoked)

module _ (w : World) where
  -- The callback that `create_app` registers.
  unfoldable pub refresh_counts : Handler (Unit {0})
  unfolding set_token_state_counts
  refresh_counts = do counts ← token_state_counts w; set_token_state_counts counts

  -- The services of a new application.
  unfoldable pub create_app : Services
  unfolding refresh_counts
  create_app = add_refresher refresh_counts fresh

  -- The end of `start_runtime_services`, by what `is_initialized` says.
  launch : Bool → Exec (Services × App) Exception (Unit {0})
  unfolding start_background_refresh request_refresh
  launch false x = (err runtime_error, x)
  launch true (s, a) =
      (ok tt, (record (request_refresh (start_background_refresh s)) { started = true }, a))

  checked : Result Exception Bool × App → Services → Result Exception (Unit {0}) × (Services × App)
  unfolding launch
  checked (err e, a) s = (err e, (s, a))
  checked (ok present, a) s = launch present (s, a)

  -- `present` is whether the database has the table.
  unfoldable pub start_runtime_services : Bool → Exec (Services × App) Exception (Unit {0})
  unfolding checked is_initialized
  start_runtime_services present (s, a) =
      if s.started then (ok tt, (s, a)) else checked (is_initialized w present a) s
