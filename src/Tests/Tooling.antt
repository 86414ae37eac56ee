-- ===== src/Tests/Tooling.antt =====
-- src/oauthclientbridge/telemetry/_otel.py, src/oauthclientbridge/logs.py,
-- src/oauthclientbridge/models.py and src/pytest_otel_capture/_helpers.py on concrete values.
use oauthclientbridge.Base.{
  ◌+◌, ◌*◌, ◌≡◌, ◌≤◌, ◌<◌, refl, ap, arith, length, codes, String, true, false, ◌==◌, All, Option,
  none, some, List, [], ◌∷◌, if◌then◌else◌,
}
use oauthclientbridge.Base.Json.{Json, str}
use oauthclientbridge.Base.Text.{unit}
use oauthclientbridge.Capture.{Collected}
use oauthclientbridge.Logs.{LoggedRequest, LoggedResponse, Format, after_request_log_context}
use oauthclientbridge.Logs.Access.{after_request_log_context-hides}
use oauthclientbridge.Models.{TokenResponse, is_expired, calculate_expires_at}
use oauthclientbridge.Models.Expiry.{is_expired-calculate_expires_at}
use oauthclientbridge.Settings.{otlp_http, console, tracing, metrics, TelemetrySettings}
use oauthclientbridge.Settings.Validators.{validate_telemetry}
use oauthclientbridge.Telemetry.Hooks.{Span, flask_request_hook, flask_response_hook}
use oauthclientbridge.Telemetry.Hooks.Hiding.{hooks-hide}
use oauthclientbridge.Telemetry.Resources.{Process}
use oauthclientbridge.Telemetry.Setup.{Tracing, init_tracing, Metrics, init_metrics}
use oauthclientbridge.Telemetry.Setup.Endpoints.{IsSent, IsRead, init-IsSent}
use oauthclientbridge.Uri.{UrlLib}
use oauthclientbridge.Uri.Redaction.{AreAlike}

-- A library whose URLs are one parameter.
abbrev codes_only : UrlLib
codes_only = record {
  urlsplit = λ s. record { scheme = ""; netloc = ""; path = "/callback"; query = s; fragment = "" };
  urlunsplit = λ url. url.query;
  parse_qs = λ _. [];
  parse_qsl = λ s. ("code", s) ∷ [];
  urlencode = λ _. "";
  quote = λ s. s;
}

secrets-AreAlike : AreAlike codes_only "first" "second"
secrets-AreAlike = record {
  scheme = refl;
  netloc = refl;
  path = refl;
  fragment = refl;
  asks = λ e. absurd (ground (arith, ap (λ s. length (codes s)) e));
  asks_too = λ e. absurd (ground (arith, ap (λ s. length (codes s)) e));
  names = refl;
}

abbrev span : Option Span
span = some (record { is_recording = true; attributes = [] })

abbrev headers : String → String → Option String
headers location name = if name == "Location" then some location else none

hooks-hide_example :
    (flask_request_hook codes_only "first" span ≡ flask_request_hook codes_only "second" span)
    × (flask_response_hook codes_only (headers "first") span
        ≡ flask_response_hook codes_only (headers "second") span)
hooks-hide_example =
    hooks-hide codes_only "first" "second" secrets-AreAlike (headers "first") (headers "second")
      span refl refl refl refl refl

abbrev asking : String → LoggedRequest
asking url = record {
  url = url;
  remote_addr = some "192.0.2.1";
  method = "GET";
  body_size = 0;
  rule = some "/callback";
  protocol = some "HTTP/1.1";
  host = "bridge.example";
  path = "/callback";
  scheme = "https";
  user_agent = none;
  content_type = none;
  content_length = none;
}

abbrev answering : LoggedResponse
answering = record {
  body_size = 12;
  status_code = 200;
  content_length = some 12;
  content_type = some "text/html";
  cache_control = some "no-store";
}

abbrev text_of : Json → String
text_of (str s) = s
text_of _ = "?"

abbrev form : Format
form = ("", some "url.full") ∷ (" ", some "user_agent.original") ∷ []

after_request_log_context-hides_example :
    after_request_log_context codes_only text_of form (asking "first") answering 5
    ≡ after_request_log_context codes_only text_of form (asking "second") answering 5
after_request_log_context-hides_example =
    after_request_log_context-hides codes_only text_of form (asking "first") answering 5 "second"
      secrets-AreAlike

abbrev pub telemetry : TelemetrySettings
telemetry = record {
  components = tracing ∷ metrics ∷ [];
  exporters = otlp_http ∷ console ∷ [];
  endpoint = some "http://localhost:4318";
  service_name = "bridge";
  service_namespace = "bridge";
  service_version = "1";
  deployment_environment = "test";
  oauth_provider = none;
  service_instance_id = none;
  vcs_revision = some "abc";
  metric_export_interval_seconds = 60000000;
}

abbrev pub process : Process
process = record {
  hostname = "host";
  pid = 7;
  uwsgi_worker_id = none;
  thread_id = 1;
  thread_name = "main";
}

init-IsSent_example :
    ((t : Tracing) → init_tracing process true false telemetry ≡ some t → All IsSent t.processors)
    × ((m : Metrics) → init_metrics process false telemetry ≡ some m → All IsRead m.readers)
init-IsSent_example =
    init-IsSent none telemetry telemetry process true false (unfold validate_telemetry in refl)

abbrev token : TokenResponse
token = record {
  token_type = "bearer";
  access_token = "secret";
  refresh_token = none;
  id_token = none;
  scope = none;
  expires_at = none;
  expires_in = some 3600;
  extra = [];
}

is_expired-calculate_expires_at_example :
    let expired = is_expired 120 5000000 (calculate_expires_at 1000000 token) in
    (expired ≡ false → 5000000 + 120 * unit ≤ 1000000 + 3600 * unit)
    × (expired ≡ true → 1000000 + 3600 * unit < 5000000 + 120 * unit + unit)
    × (calculate_expires_at 5000000 (calculate_expires_at 1000000 token)
        ≡ calculate_expires_at 1000000 token)
is_expired-calculate_expires_at_example =
    is_expired-calculate_expires_at token 1000000 5000000 120 3600 refl refl (omega arith)

abbrev captured : String → Collected
captured name = record { name = name; attributes = none; scope = none; trace_id = 1 }

abbrev spans : List Collected
spans = captured "a" ∷ captured "b" ∷ captured "a" ∷ []
