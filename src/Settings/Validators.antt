-- ===== src/Settings/Validators.antt =====
-- src/oauthclientbridge/settings.py: the validators that pydantic runs after it has read the values.
-- What a validator raises as ValueError is an error of the settings.
use oauthclientbridge.Base.{
  ◌≡◌, ◌↔◌, arith, String, Bool, true, false, ◌&&◌, ◌==◌, Option, none, some, any, if◌then◌else◌,
}
use oauthclientbridge.Base.Dict.{Dict, get}
use oauthclientbridge.Base.Result.{Result, ok, err}
use oauthclientbridge.Errors.{Exception, value_error}
use oauthclientbridge.Settings.{
  TelemetryExporter, otlp_http, console, TelemetryComponent, tracing, metrics, TelemetrySettings,
  SentrySettings, TemplateSettings,
}

abbrev pub is_missing : {A : Type 0} → Option A → Bool
is_missing none = true
is_missing (some _) = false

abbrev pub is_otlp_http : TelemetryExporter → Bool
is_otlp_http otlp_http = true
is_otlp_http console = false

abbrev pub is_tracing : TelemetryComponent → Bool
is_tracing tracing = true
is_tracing metrics = false

abbrev pub is_metrics : TelemetryComponent → Bool
is_metrics c = if is_tracing c then false else true

unfoldable pub check_dsn_if_enabled : SentrySettings → Result Exception SentrySettings
check_dsn_if_enabled s = if s.enabled && is_missing s.dsn then err value_error else ok s

-- `_current_package_version`, from what the package's metadata says of its version.
unfoldable pub current_package_version : Option String → String
current_package_version none = "unknown"
current_package_version (some v) = v

-- `_current_package_revision`, from the package's metadata.
unfoldable pub current_package_revision : Option (Dict String) → Option String
current_package_revision none = none
current_package_revision (some fields) = elim (get "Vcs-Revision" fields) [
  | none ↦ none
  | some revision ↦ if revision == "" then none else some revision
]

unfoldable pub default_vcs_revision_from_package_metadata :
    Option (Dict String) → TelemetrySettings → TelemetrySettings
default_vcs_revision_from_package_metadata meta s =
    if is_missing s.vcs_revision
    then record s { vcs_revision = current_package_revision meta }
    else s

unfoldable pub check_endpoint_if_otlp_http : TelemetrySettings → Result Exception TelemetrySettings
check_endpoint_if_otlp_http s =
    if any is_otlp_http s.exporters && is_missing s.endpoint then err value_error else ok s

-- `Settings.load_callback_template_file`; `read_text` gives the text of a file, or what it raises.
unfoldable pub load_callback_template_file :
    (String → Result Exception String) → TemplateSettings → Result Exception TemplateSettings
load_callback_template_file read_text s = elim s.callback_template_file [
  | none ↦ ok s
  | some path ↦ elim (read_text path) [
    | err e ↦ err e
    | ok text ↦ ok (record s { callback_template = text })
  ]
]

-- Both validators, in the order of the class.
unfoldable pub validate_telemetry :
    Option (Dict String) → TelemetrySettings → Result Exception TelemetrySettings
unfolding default_vcs_revision_from_package_metadata check_endpoint_if_otlp_http
validate_telemetry meta s =
    check_endpoint_if_otlp_http (default_vcs_revision_from_package_metadata meta s)

module _ (meta : Option (Dict String)) (s : TelemetrySettings) where
  -- Telemetry settings are refused exactly where an exporter needs an endpoint and none is set; else
  -- they are kept but for a missing revision, which is that of the package.
  pub validate_telemetry_lem :
      ((validate_telemetry meta s ≡ err value_error)
        ↔ (any is_otlp_http s.exporters ≡ true) × (s.endpoint ≡ none))
      × ((v : TelemetrySettings)
          → validate_telemetry meta s ≡ ok v
          → (v.exporters ≡ s.exporters)
            × (v.endpoint ≡ s.endpoint)
            × (v.vcs_revision ≡ (elim s.vcs_revision as (λ _. Option String) [
              | none ↦ current_package_revision meta
              | some r ↦ some r
            ]))
            × (validate_telemetry meta v ≡ ok v))
  unfolding validate_telemetry
  validate_telemetry_lem = (ground arith, λ v h. ground arith)
