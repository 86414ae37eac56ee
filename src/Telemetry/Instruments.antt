-- ===== src/Telemetry/Instruments.antt =====
-- src/oauthclientbridge/telemetry/__init__.py and telemetry/_prometheus.py: what each call writes to
-- the instruments.
pub mod Registry
pub mod Fitting
use oauthclientbridge.Base.{
  ℕ, ◌-◌, ◌*◌, leb, String, Option, none, some, List, [], ◌∷◌, ◌++◌, if◌then◌else◌,
}
use Prim.Native.String
use oauthclientbridge.Base.Dict.{Dict}
use oauthclientbridge.Base.Text.{unit}
use oauthclientbridge.Retry.{
  RetryAttemptKind, RetryDecisionAction, RetryReason, unavailable, resource_exhausted,
  deadline_exceeded, unknown,
}
use oauthclientbridge.Settings.{TelemetrySettings}
use oauthclientbridge.Telemetry.{
  Metric, record_database_error, record_server_error, record_client_attempt, record_retry_decision,
  record_client_error, record_client_retries, record_client_response,
  record_refresh_token_invalidation, record_workaround, observe_token_grant_age, set_token_state,
  StatusLabel, http, label,
}
use oauthclientbridge.Telemetry.Instruments.Registry.{
  Instrument, db_error_counter, db_latency_histogram, server_error_counter,
  server_latency_histogram, server_request_size_histogram, server_response_size_histogram,
  client_error_counter, client_retry_histogram, client_attempt_counter,
  client_retry_decision_counter, client_latency_histogram, client_response_size_histogram,
  build_info_gauge, refresh_token_invalidation_counter, workaround_counter,
  token_grant_age_histogram, token_state_gauge,
}
use oauthclientbridge.Telemetry.Prometheus.{
  Observation, latency, response_size, request_size, endpoint,
}
use oauthclientbridge.Telemetry.Resources.{Process, build_info_labels}

-- An amount of seconds, which is below 0 for a time ahead.
pub data Amount : Type 0 where
  above : ℕ → Amount
  below : ℕ → Amount

abbrev pub difference : ℕ → ℕ → Amount
difference a b = if leb b a then above (a - b) else below (b - a)

pub data Action : Type 0 where
  inc : Action
  observe : Amount → Action
  set : ℕ → Action

-- `instrument.labels(**labels)` with what is done to it.
pub record Sample : Type 0 where
  pub instrument : Instrument
  pub labels : Dict String
  pub action : Action

-- What a call meets: the endpoint of the request's rule, where one matched; the name of a status, in
-- lower case; the time now; and how long the request to the provider took. Times are millionths.
pub record Meeting : Type 0 where
  pub rule : Option String
  pub phrase : ℕ → String
  pub now : ℕ
  pub took : ℕ

abbrev attempt_kind : RetryAttemptKind → String
attempt_kind RetryAttemptKind.initial = "initial"
attempt_kind RetryAttemptKind.retry = "retry"

abbrev decision_action : RetryDecisionAction → String
decision_action RetryDecisionAction.retry = "retry"
decision_action RetryDecisionAction.skip = "skip"

abbrev reason_value : RetryReason → String
reason_value unavailable = "unavailable"
reason_value resource_exhausted = "resource_exhausted"
reason_value deadline_exceeded = "deadline_exceeded"
reason_value unknown = "unknown"

abbrev counted : Instrument → Dict String → List Sample
counted i labels = record { instrument = i; labels = labels; action = inc } ∷ []

abbrev observed : Instrument → Dict String → Amount → List Sample
observed i labels amount = record { instrument = i; labels = labels; action = observe amount } ∷ []

module _ (m : Meeting) where
  -- `status(code)`
  abbrev status : ℕ → String
  status code = String.◌++◌ "http_" (m.phrase code)

  abbrev status_or_unknown : Option ℕ → String
  status_or_unknown none = "unknown"
  status_or_unknown (some code) = status code

  abbrev status_label : StatusLabel → String
  status_label (http code) = status code
  status_label (label s) = s

  -- `observe_token_grant_age`
  abbrev grant_age : Option ℕ → List Sample
  grant_age none = []
  grant_age (some created_at) =
      observed token_grant_age_histogram [] (difference m.now (created_at * unit))

  abbrev response_sizes : Dict String → Option ℕ → List Sample
  response_sizes labels none = []
  response_sizes labels (some size) = observed client_response_size_histogram labels (above size)

  -- What the calls write.
  unfoldable pub write : Metric → List Sample
  unfolding endpoint
  write (record_database_error name error) =
      counted db_error_counter (("query", name) ∷ ("error", error) ∷ [])
  write (record_server_error code error) =
      counted server_error_counter
        (("endpoint", endpoint m.rule) ∷ ("status", status code) ∷ ("error", error) ∷ [])
  write (record_client_attempt name kind) =
      counted client_attempt_counter (("endpoint", name) ∷ ("kind", attempt_kind kind) ∷ [])
  write (record_retry_decision name decision) = counted client_retry_decision_counter (
      ("endpoint", name)
      ∷ ("decision", decision_action decision.action)
      ∷ ("reason", reason_value decision.reason)
      ∷ [])
  write (record_client_error name code error) =
      counted client_error_counter
        (("endpoint", name) ∷ ("status", status_or_unknown code) ∷ ("error", error) ∷ [])
  write (record_client_retries name code count) =
      observed client_retry_histogram (("endpoint", name) ∷ ("status", status_or_unknown code) ∷ [])
        (above count)
  write (record_client_response name code size) =
      let labels : Dict String = ("endpoint", name) ∷ ("status", status_label code) ∷ [] in
      response_sizes labels size ++ observed client_latency_histogram labels (above m.took)
  write (record_refresh_token_invalidation reason) =
      counted refresh_token_invalidation_counter (("reason", reason) ∷ [])
  write (record_workaround workaround) =
      counted workaround_counter (("workaround", workaround) ∷ [])
  write (observe_token_grant_age created_at) = grant_age created_at
  write (set_token_state state count) =
      record { instrument = token_state_gauge; labels = ("state", state) ∷ []; action = set count }
      ∷ []

abbrev request_labels : String → String → Dict String
request_labels rule code = ("endpoint", rule) ∷ ("status", code) ∷ []

-- The observations of `finalize_metrics`.
unfoldable pub write_request : Observation → List Sample
write_request (latency rule code took) =
    observed server_latency_histogram (request_labels rule code) (above took)
write_request (response_size rule code size) =
    observed server_response_size_histogram (request_labels rule code) (above size)
write_request (request_size rule code size) =
    observed server_request_size_histogram (request_labels rule code) (above size)

-- `record_database_latency` around an operation that took this long.
unfoldable pub record_database_latency : String → ℕ → List Sample
record_database_latency name took =
    observed db_latency_histogram (("query", name) ∷ []) (above took)

unfoldable pub set_build_info : Process → TelemetrySettings → List Sample
unfolding build_info_labels
set_build_info p settings =
    record { instrument = build_info_gauge; labels = build_info_labels p settings; action = set 1 }
    ∷ []
