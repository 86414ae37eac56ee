-- ===== src/Telemetry/Resources.antt =====
-- src/oauthclientbridge/telemetry/_resources.py: the attributes of a process for traces, metrics and
-- log lines.
pub mod Canonical
use oauthclientbridge.Base.{
  ℕ, zero, suc, ◌+◌, ◌/◌, ◌%◌, ◌≡◌, ◌≢◌, refl, arith, String, Bool, true, false, ◌==◌, not, Option,
  none, some, List, [], ◌∷◌, ◌++◌, any, if◌then◌else◌,
}
use Prim.Native.String
use oauthclientbridge.Base.Dict.{Dict, get, put, keep}
use oauthclientbridge.Base.Json.{Json, str, num, boolean, Object}
use oauthclientbridge.Base.Text.{decimal}
use oauthclientbridge.Settings.{TelemetrySettings}

-- What the operating system, the interpreter and uWSGI say of the process and the thread.
pub record Process : Type 0 where
  pub hostname : String
  pub pid : ℕ
  pub uwsgi_worker_id : Option ℕ
  pub thread_id : ℕ
  pub thread_name : String

-- A text that is true: neither None nor empty.
abbrev pub filled : Option String → Option String
filled none = none
filled (some s) = if s == "" then none else some s

abbrev pub or_unknown : Option String → String
or_unknown none = "unknown"
or_unknown (some s) = s

-- `"-".join(parts)`
join : List String → String
join [] = ""
join (s ∷ []) = s
join (s ∷ rest) = String.◌++◌ s (String.◌++◌ "-" (join rest))

abbrev optional : Option String → List String
optional none = []
optional (some s) = s ∷ []

abbrev optional_number : Option ℕ → List String
optional_number none = []
optional_number (some n) = decimal n ∷ []

unfoldable pub service_instance_id : Process → TelemetrySettings → String
unfolding join
service_instance_id p s = elim s.service_instance_id [
  | some id ↦ id
  | none ↦ join (
      (p.hostname ∷ [])
      ++ optional (filled s.oauth_provider)
      ++ (s.deployment_environment ∷ [])
      ++ optional_number p.uwsgi_worker_id)
]

-- `attributes[key] = value`, where there is one.
abbrev pub put_some : String → Option String → Object → Object
put_some k none d = d
put_some k (some v) d = put k (str v) d

unfoldable pub resource_attributes : Process → TelemetrySettings → Object
unfolding service_instance_id
resource_attributes p s = put_some "vcs.revision" (filled s.vcs_revision) (
    put_some "oauth.provider" (filled s.oauth_provider) (
      put_some "service.instance.id" (filled (some (service_instance_id p s))) (
        ("service.name", str s.service_name)
        ∷ ("service.namespace", str s.service_namespace)
        ∷ ("service.version", str s.service_version)
        ∷ ("deployment.environment", str s.deployment_environment)
        ∷ ("process.pid", num p.pid)
        ∷ [])))

unfoldable pub runtime_log_attributes : Process → Object
runtime_log_attributes p =
    ("process.pid", num p.pid)
    ∷ ("process.thread.id", num p.thread_id)
    ∷ ("process.thread.name", str p.thread_name)
    ∷ []

abbrev canonical_keys : List String
canonical_keys =
    "service.name" ∷ "service.namespace" ∷ "service.version" ∷ "deployment.environment"
    ∷ "service.instance.id" ∷ "oauth.provider" ∷ "vcs.revision" ∷ "process.pid" ∷ []

abbrev is_canonical : String → Bool
is_canonical k = any (λ (c : String). c == k) canonical_keys

unfoldable pub log_attributes : Object → Object
log_attributes = keep is_canonical

-- A span as far as the log reads it: whether it records, and its context.
pub record LogSpan : Type 0 where
  pub is_recording : Bool
  pub is_valid : Bool
  pub trace_id : ℕ
  pub span_id : ℕ
  pub sampled : Bool

hex_digit : ℕ → List String → String
hex_digit n [] = ""
hex_digit zero (s ∷ ss) = s
hex_digit (suc n) (s ∷ ss) = hex_digit n ss

abbrev hex_digits : List String
hex_digits =
    "0" ∷ "1" ∷ "2" ∷ "3" ∷ "4" ∷ "5" ∷ "6" ∷ "7" ∷ "8" ∷ "9" ∷ "a" ∷ "b" ∷ "c" ∷ "d" ∷ "e" ∷ "f"
    ∷ []

-- `format(n, "0<width>x")` of a number that fits the width.
unfoldable pub hex : ℕ → ℕ → String
unfolding hex_digit
hex zero n = ""
hex (suc width) n = String.◌++◌ (hex width (n / 16)) (hex_digit (n % 16) hex_digits)

-- `d.update(e)`
unfoldable pub update : Object → Object → Object
update d [] = d
update d ((k, v) ∷ e) = update (put k v d) e

abbrev context_attributes : LogSpan → Object → Object
context_attributes span d =
    put "trace_sampled" (boolean span.sampled)
      (put "span_id" (str (hex 16 span.span_id)) (put "trace_id" (str (hex 32 span.trace_id)) d))

-- `resource` is that of the tracer provider, where it has one.
unfoldable pub otel_log_attributes : Process → Option Object → LogSpan → Object
unfolding runtime_log_attributes log_attributes update hex
otel_log_attributes p resource span =
    if not span.is_recording
    then runtime_log_attributes p
    else if not span.is_valid
    then runtime_log_attributes p
    else elim resource [
      | none ↦ context_attributes span (runtime_log_attributes p)
      | some attributes ↦
          update (context_attributes span (runtime_log_attributes p)) (log_attributes attributes)
    ]

unfoldable pub build_info_labels : Process → TelemetrySettings → Dict String
unfolding service_instance_id
build_info_labels p s =
    ("service_name", s.service_name)
    ∷ ("service_namespace", s.service_namespace)
    ∷ ("service_instance_id", or_unknown (filled (some (service_instance_id p s))))
    ∷ ("deployment_environment", s.deployment_environment)
    ∷ ("oauth_provider", or_unknown (filled s.oauth_provider))
    ∷ ("service_version", s.service_version)
    ∷ ("vcs_revision", or_unknown (filled s.vcs_revision))
    ∷ []
