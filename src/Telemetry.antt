-- ===== src/Telemetry.antt =====
-- src/oauthclientbridge/telemetry/__init__.py: the counters and histograms that requests write.
-- A write is a value in a log; durations are left out. `set_token_state` is the gauge that the
-- background refresh sets.
pub mod Buckets
pub mod Resources
pub mod Setup
pub mod Prometheus
pub mod Identity
pub mod Hooks
pub mod Instruments
use oauthclientbridge.Base.{ℕ, String, Option}
use oauthclientbridge.Retry.{RetryAttemptKind, RetryDecision}

-- The `status` label of a response: that of an HTTP status, or the name of a failure.
pub data StatusLabel : Type 0 where
  http : ℕ → StatusLabel
  label : String → StatusLabel

pub data Metric : Type 0 where
  record_database_error : String → String → Metric
  record_server_error : ℕ → String → Metric
  record_client_attempt : String → RetryAttemptKind → Metric
  record_retry_decision : String → RetryDecision → Metric
  record_client_error : String → Option ℕ → String → Metric
  record_client_retries : String → Option ℕ → ℕ → Metric
  record_client_response : String → StatusLabel → Option ℕ → Metric
  record_refresh_token_invalidation : String → Metric
  record_workaround : String → Metric
  observe_token_grant_age : Option ℕ → Metric
  set_token_state : String → ℕ → Metric
