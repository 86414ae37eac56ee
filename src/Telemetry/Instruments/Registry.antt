-- ===== src/Telemetry/Instruments/Registry.antt =====
-- src/oauthclientbridge/telemetry/_prometheus.py: the instruments of its registry.
use oauthclientbridge.Base.{ℕ, String, Option, none, some, List, [], ◌∷◌}
use oauthclientbridge.Telemetry.Buckets.{time, bytes, token_grant_age}

-- `Counter`, `Histogram` with its buckets, and `Gauge` with its mode for several processes.
pub data Kind : Type 0 where
  counter : Kind
  histogram : List (Option ℕ) → Kind
  gauge : String → Kind

pub record Instrument : Type 0 where
  pub name : String
  pub documentation : String
  pub labels : List String
  pub kind : Kind

abbrev retry_buckets : List (Option ℕ)
retry_buckets =
    some 1
    ∷ some 2
    ∷ some 3
    ∷ some 4
    ∷ some 5
    ∷ some 6
    ∷ some 7
    ∷ some 8
    ∷ some 9
    ∷ some 10
    ∷ none
    ∷ []

abbrev pub db_error_counter : Instrument
db_error_counter = record {
  name = "oauth_database_error_total";
  documentation = "Database errors.";
  labels = "query" ∷ "error" ∷ [];
  kind = counter;
}

abbrev pub db_latency_histogram : Instrument
db_latency_histogram = record {
  name = "oauth_database_latency_seconds";
  documentation = "Database query latency.";
  labels = "query" ∷ [];
  kind = histogram time;
}

abbrev pub server_error_counter : Instrument
server_error_counter = record {
  name = "oauth_server_error_total";
  documentation = "OAuth errors returned to users.";
  labels = "endpoint" ∷ "status" ∷ "error" ∷ [];
  kind = counter;
}

abbrev pub server_latency_histogram : Instrument
server_latency_histogram = record {
  name = "oauth_server_latency_seconds";
  documentation = "Overall request latency.";
  labels = "endpoint" ∷ "status" ∷ [];
  kind = histogram time;
}

abbrev pub server_request_size_histogram : Instrument
server_request_size_histogram = record {
  name = "oauth_server_request_bytes";
  documentation = "Overall request size.";
  labels = "endpoint" ∷ "status" ∷ [];
  kind = histogram bytes;
}

abbrev pub server_response_size_histogram : Instrument
server_response_size_histogram = record {
  name = "oauth_server_response_bytes";
  documentation = "Overall response size.";
  labels = "endpoint" ∷ "status" ∷ [];
  kind = histogram bytes;
}

abbrev pub client_error_counter : Instrument
client_error_counter = record {
  name = "oauth_client_error_total";
  documentation = "OAuth errors from upstream provider.";
  labels = "endpoint" ∷ "status" ∷ "error" ∷ [];
  kind = counter;
}

abbrev pub client_retry_histogram : Instrument
client_retry_histogram = record {
  name = "oauth_client_retries";
  documentation = "OAuth fetch retries.";
  labels = "endpoint" ∷ "status" ∷ [];
  kind = histogram retry_buckets;
}

abbrev pub client_attempt_counter : Instrument
client_attempt_counter = record {
  name = "oauth_client_attempts";
  documentation = "OAuth client attempts, including retries.";
  labels = "endpoint" ∷ "kind" ∷ [];
  kind = counter;
}

abbrev pub client_retry_decision_counter : Instrument
client_retry_decision_counter = record {
  name = "oauth_client_retry_decisions";
  documentation = "OAuth retry decisions and reasons.";
  labels = "endpoint" ∷ "decision" ∷ "reason" ∷ [];
  kind = counter;
}

abbrev pub client_latency_histogram : Instrument
client_latency_histogram = record {
  name = "oauth_client_latency_seconds";
  documentation = "Overall request latency.";
  labels = "endpoint" ∷ "status" ∷ [];
  kind = histogram time;
}

abbrev pub client_response_size_histogram : Instrument
client_response_size_histogram = record {
  name = "oauth_client_response_bytes";
  documentation = "Overall response size.";
  labels = "endpoint" ∷ "status" ∷ [];
  kind = histogram bytes;
}

abbrev pub build_info_gauge : Instrument
build_info_gauge = record {
  name = "oauth_build_info";
  documentation = "Build and deployment metadata.";
  labels =
      "service_name" ∷ "service_namespace" ∷ "service_instance_id" ∷ "deployment_environment"
      ∷ "oauth_provider" ∷ "service_version" ∷ "vcs_revision" ∷ [];
  kind = gauge "max";
}

abbrev pub refresh_token_invalidation_counter : Instrument
refresh_token_invalidation_counter = record {
  name = "oauth_refresh_token_invalidations_total";
  documentation =
      "Stored refresh tokens invalidated locally after authoritative upstream failures.";
  labels = "reason" ∷ [];
  kind = counter;
}

abbrev pub workaround_counter : Instrument
workaround_counter = record {
  name = "oauth_workarounds_total";
  documentation = "Temporary workaround activations.";
  labels = "workaround" ∷ [];
  kind = counter;
}

abbrev pub token_grant_age_histogram : Instrument
token_grant_age_histogram = record {
  name = "oauth_token_grant_age_seconds";
  documentation = "Age of successfully used stored token grants.";
  labels = [];
  kind = histogram token_grant_age;
}

abbrev pub token_state_gauge : Instrument
token_state_gauge = record {
  name = "oauth_token_records";
  documentation = "Stored token records by database state.";
  labels = "state" ∷ [];
  kind = gauge "mostrecent";
}

abbrev pub registry : List Instrument
registry =
    db_error_counter ∷ db_latency_histogram ∷ server_error_counter ∷ server_latency_histogram
    ∷ server_request_size_histogram ∷ server_response_size_histogram ∷ client_error_counter
    ∷ client_retry_histogram ∷ client_attempt_counter ∷ client_retry_decision_counter
    ∷ client_latency_histogram ∷ client_response_size_histogram ∷ build_info_gauge
    ∷ refresh_token_invalidation_counter ∷ workaround_counter ∷ token_grant_age_histogram
    ∷ token_state_gauge ∷ []
