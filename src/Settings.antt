-- ===== src/Settings.antt =====
-- src/oauthclientbridge/settings.py: the settings that the modelled parts read. Seconds and other
-- floats are numbers of millionths, status codes are numbers.
pub mod Validators
use oauthclientbridge.Base.{ℕ, String, Option, Bool, List, [], ◌∷◌}
use oauthclientbridge.Base.Dict.{Dict}
use oauthclientbridge.Errors.{OAuthError}

pub record FetchSettings : Type 0 where
  pub total_timeout : ℕ
  pub timeout : ℕ
  pub total_retries : ℕ
  pub retry_budget_capacity : ℕ
  pub retry_budget_refill_per_initial : ℕ
  pub retry_status_codes : List ℕ
  pub unavailable_status_codes : List ℕ
  pub error_types : Dict OAuthError
  pub backoff_factor : ℕ
  pub backoff_jitter_min : ℕ
  pub backoff_jitter_max : ℕ

pub record OAuthSettings : Type 0 where
  pub client_id : String
  pub client_secret : String
  pub grant_type : String
  pub scopes : List String
  pub allowed_scopes : Option (List String)
  pub authorization_uri : String
  pub token_uri : String
  pub refresh_uri : Option String
  pub redirect_uri : String

pub record Settings : Type 0 where
  pub auth_realm : String
  pub metrics_enabled : Bool
  pub metrics_token : Option String
  pub callback_content_security_policy : Option String
  pub revoked_grant_workaround_user_agents : Option String
  pub revoked_grant_workaround_access_token : String
  pub revoked_grant_workaround_expires_in : ℕ
  pub oauth : OAuthSettings
  pub fetch : FetchSettings

pub data TelemetryExporter : Type 0 where
  otlp_http console : TelemetryExporter

pub data TelemetryComponent : Type 0 where
  tracing metrics : TelemetryComponent

-- A set of exporters or components is a list of its members in the order it is read.
pub record TelemetrySettings : Type 0 where
  pub components : List TelemetryComponent
  pub exporters : List TelemetryExporter
  pub endpoint : Option String
  pub service_name : String
  pub service_namespace : String
  pub service_version : String
  pub deployment_environment : String
  pub oauth_provider : Option String
  pub service_instance_id : Option String
  pub vcs_revision : Option String
  pub metric_export_interval_seconds : ℕ

pub record SentrySettings : Type 0 where
  pub enabled : Bool
  pub dsn : Option String
  pub release : String
  pub sample_rate : ℕ
  pub traces_sample_rate : ℕ
  pub traces_sample_rate_overrides : Dict ℕ

pub record DatabaseSettings : Type 0 where
  pub database : String
  pub timeout : ℕ
  pub pragmas : List String

pub record PrometheusSettings : Type 0 where
  pub multiproc_dir : Option String

pub data LogLevel : Type 0 where
  critical error warning info debug : LogLevel

pub record LogSettings : Type 0 where
  pub level : LogLevel
  pub json_output : Bool
  pub colors : Bool
  pub access_log_format : String

-- The two settings of the callback's page; the file is its path.
pub record TemplateSettings : Type 0 where
  pub callback_template : String
  pub callback_template_file : Option String

-- The default of `Settings.error_levels`.
abbrev pub error_levels : Dict LogLevel
error_levels =
    ("access_denied", info)
    ∷ ("invalid_state", warning)
    ∷ ("invalid_request", warning)
    ∷ ("temporarily_unavailable", info)
    ∷ []
