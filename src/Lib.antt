-- ===== src/Lib.antt =====
-- OAuth-Client-Bridge: a Flask application that trades an authorization code for client
-- credentials of its own. A user authorises at `authorize`, the provider calls back at `callback`,
-- and the bridge stores the provider's token encrypted under a secret that only the page shows. A
-- client then asks `token` with these credentials; the bridge decrypts the stored token and refreshes
-- it at the provider where it can.
--
-- The parts, and the files that model them (paths from the repository's root):
-- - Errors: src/oauthclientbridge/errors.py, the error codes with their texts. A Python exception
--   is a value of `Exception`, and code that may raise and changes a state is an `Exec` (Base/Result).
-- - Bucket, Retry: utils/bucket.py and oauth/_retry.py, the process-wide retry budget.
-- - Outcome: oauth/_outcome.py, the reading of a provider's answer.
-- - Net, Fetch: oauth/_core.py, `fetch`. `Fetch/Once` is `_fetch` and `_decode`, `Fetch/RetryAfter` is
--   `parse_retry`, `Fetch/Round` the body of the loop, split where it breaks: `gate` the pending retry,
--   `ask` the request, `judge` its outcome. `Net` is the state: clock, logs of requests and sleeps,
--   telemetry, budgets.
-- - App: the state of one worker process, which is the net, the rows of the table, the session cookie
--   and counters of the oracles. `World` holds what the handlers meet outside the program.
-- - Crypto, Client, Db, Uri: crypto.py, client.py, db.py and utils/uri.py.
-- - Web: the error handlers of oauth/_core.py and `nocache`, composed as __init__.py registers them.
-- - Views: views.py, one module for each route, and `Views/Page` for the callback's page.
-- - Coalescing: utils/coalescing.py, the worker thread that refreshes the metrics of the table, as a
--   step relation.
-- - Lifecycle: telemetry/_refresh.py and the runtime services of __init__.py, over Coalescing: which
--   worker an application has, and what one run of it does to the process.
--   `Lifecycle/Fresh` puts the writes of requests beside the worker, as a step relation.
-- - Workers: several worker processes behind one table. A token request reads the table once and writes
--   it at most once behind that, so it is two acts, `begin_token` and `end_token`; the other processes'
--   acts may fall between them. `run` takes the acts of all processes in any order.
-- - Settings: settings.py, what is read of the settings, and the validators of the telemetry settings.
-- - Telemetry: the counters of telemetry/__init__.py; in its children the rest of telemetry/:
--   `Resources` is _resources.py, `Hooks`, `Setup` and `Identity` are _otel.py with _sentry.py,
--   `Prometheus` is _prometheus.py but for its instruments, which are `Instruments/Registry`;
--   `Instruments` is what each call writes to them, `Buckets` is _buckets.py.
-- - Logs, Models: logs.py, the access log and the processors, and models.py, the response that clients
--   validate, with its coercions.
-- - Startup: wsgi.py and `create_app`, over the set-up of the parts; `Db/Catalog` says which columns the
--   table has.
-- - Capture: src/pytest_otel_capture and src/pytest_sentry_capture, the search through captured data.
-- - Tests: a concrete provider and world on which the theorems are applied.
-- A request is `serve w (token w req) a`, from a state `a` to the response and the next state.
--
-- Numbers: seconds and other floats are natural numbers of millionths, so `unit` is one; Retry-After
-- and table times are whole seconds. A difference that may be negative is a sum on the other side of
-- its comparison. Loops are structural: `fetch` runs `total_retries + 1` rounds, as the `range` of
-- the source does, so no fuel is needed.
--
-- Parameters: Fernet, UUID parsing, JSON text, regular expressions, `urllib.parse`, date parsing, the
-- clocks, random numbers, `requests.Request.prepare`, the provider and the faults of SQLite.
-- `IsDocumented` names what is relied on of Fernet and UUIDs. A JSON value inside another one is kept
-- as its text.
--
-- Not modelled: log lines but those of the access log, spans but for their attributes, and durations;
-- pytest's fixtures, which only configure libraries; the SQL statement that vacuums the database; the
-- command-line commands, which only call db.py; the rendering of templates and of log lines. A JSON
-- body of the provider that is no object comes with what Python raises on handling it; `judge` raises it,
-- where Python raises it there or in the caller. A stored text whose JSON is no object raises
-- ValueError in `loads`, where Python returns it; the bridge writes no such text.
pub mod Base
pub mod Errors
pub mod Bucket
pub mod Retry
pub mod Outcome
pub mod Settings
pub mod Telemetry
pub mod Net
pub mod Fetch
pub mod App
pub mod Crypto
pub mod Client
pub mod Db
pub mod Uri
pub mod Web
pub mod Views
pub mod Coalescing
pub mod Lifecycle
pub mod Workers
pub mod Startup
pub mod Logs
pub mod Capture
pub mod Models
pub mod Tests
