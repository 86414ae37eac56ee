-- ===== src/Logs.antt =====
-- src/oauthclientbridge/logs.py: the access log and the processors of the log.
pub mod Access
pub mod Chains
use oauthclientbridge.Base.{
  ℕ, ◌+◌, String, Bool, true, false, Option, none, some, List, [], ◌∷◌, ◌++◌, if◌then◌else◌,
}
use Prim.Native.String
use oauthclientbridge.Base.Dict.{Dict, get, put}
use oauthclientbridge.Base.Json.{Json, null, num, str, Object}
use oauthclientbridge.Settings.{LogSettings, LogLevel}
use oauthclientbridge.Telemetry.Resources.{Process, LogSpan, update, otel_log_attributes}
use oauthclientbridge.Uri.{UrlLib, sanitize_url}

-- A request as far as the access log reads it.
pub record LoggedRequest : Type 0 where
  pub url : String
  pub remote_addr : Option String
  pub method : String
  pub body_size : ℕ
  pub rule : Option String
  pub protocol : Option String
  pub host : String
  pub path : String
  pub scheme : String
  pub user_agent : Option String
  pub content_type : Option String
  pub content_length : Option ℕ

pub record LoggedResponse : Type 0 where
  pub body_size : ℕ
  pub status_code : ℕ
  pub content_length : Option ℕ
  pub content_type : Option String
  pub cache_control : Option String

abbrev text_or_none : Option String → Json
text_or_none none = null
text_or_none (some s) = str s

abbrev number_or_none : Option ℕ → Json
number_or_none none = null
number_or_none (some n) = num n

-- `AccessLogFormatter.get_field`: a field that is None is a dash, and an unknown one stays as it is.
unfoldable pub get_field : String → Object → Json
get_field name values = elim (get name values) [
  | none ↦ str (String.◌++◌ "{" (String.◌++◌ name "}"))
  | some null ↦ str "-"
  | some v ↦ v
]

-- A format string, split by Python's formatter: a text and the field behind it.
abbrev pub Format : Type 0
Format = List (String × Option String)

-- `render` is Python's text of a value.
unfoldable pub format : (Json → String) → Format → Object → String
unfolding get_field
format render [] values = ""
format render ((text, none) ∷ rest) values = String.◌++◌ text (format render rest values)
format render ((text, some name) ∷ rest) values =
    String.◌++◌ text (String.◌++◌ (render (get_field name values)) (format render rest values))

module _ (lib : UrlLib) where
  abbrev query_of : Option String → Json
  query_of none = null
  query_of (some url) = str (lib.urlsplit url).query

  -- The duration is in nanoseconds.
  unfoldable pub get_request_info : LoggedRequest → ℕ → Object
  get_request_info req duration =
      let sanitized = sanitize_url lib (some req.url) in
      ("client.address", text_or_none req.remote_addr)
      ∷ ("http.server.duration", num duration)
      ∷ ("http.request.method", str req.method)
      ∷ ("http.request.body.size", num req.body_size)
      ∷ ("http.route", text_or_none req.rule)
      ∷ ("network.protocol.version", text_or_none req.protocol)
      ∷ ("server.address", str req.host)
      ∷ ("url.full", text_or_none sanitized)
      ∷ ("url.path", str req.path)
      ∷ ("url.query", query_of sanitized)
      ∷ ("url.scheme", str req.scheme)
      ∷ ("user_agent.original", text_or_none req.user_agent)
      ∷ ("http.request.header.content_type", text_or_none req.content_type)
      ∷ ("http.request.header.content_length", number_or_none req.content_length)
      ∷ []

unfoldable pub get_response_info : LoggedResponse → Object
get_response_info resp =
    ("http.response.body.size", num resp.body_size)
    ∷ ("http.response.status_code", num resp.status_code)
    ∷ ("http.response.header.content_length", number_or_none resp.content_length)
    ∷ ("http.response.header.content_type", text_or_none resp.content_type)
    ∷ ("http.response.header.cache_control", text_or_none resp.cache_control)
    ∷ []

-- One line of the access log: its text and its fields.
pub record Line : Type 0 where
  pub text : String
  pub fields : Object

-- `_after_request_log_context`; no key of the request is one of the response.
unfoldable pub after_request_log_context :
    UrlLib → (Json → String) → Format → LoggedRequest → LoggedResponse → ℕ → Line
unfolding get_request_info get_response_info format
after_request_log_context lib render access_log_format req resp duration =
    let values = get_request_info lib req duration ++ get_response_info resp in
    record { text = format render access_log_format values; fields = values }

-- What `init_access_logs` keeps of an application: the flag of `app.extensions` and how many pairs of
-- hooks are registered.
pub record AccessLogs : Type 0 where
  pub initialized : Bool
  pub hooks : ℕ
  pub warnings : ℕ

unfoldable pub init_access_logs : AccessLogs → AccessLogs
init_access_logs a =
    if a.initialized
    then record a { warnings = a.warnings + 1 }
    else record a { initialized = true; hooks = a.hooks + 1 }

-- `add_otel_context_processor`: the attributes that a hook left on the record, or those of now.
unfoldable pub add_otel_context_processor :
    Process → Option Object → LogSpan → Option Object → Object → Object
unfolding update otel_log_attributes
add_otel_context_processor p resource span (some left) event = update event left
add_otel_context_processor p resource span none event =
    update event (otel_log_attributes p resource span)

-- The processors of a log line; those of structlog have its names.
pub data Processor : Type 0 where
  merge_contextvars add_logger_name add_log_level timestamper positional_arguments : Processor
  stack_info set_exc_info format_exc_info callsite_parameters extra_adder : Processor
  sentry_processor wrap_for_formatter : Processor
  otel_context remove_meta dict_tracebacks json_renderer : Processor
  console_renderer : Bool → Processor

-- `shared_processors`, by whether Sentry's processor can be imported.
unfoldable pub shared_processors : Bool → List Processor
shared_processors sentry =
    (merge_contextvars ∷ add_logger_name ∷ add_log_level ∷ timestamper ∷ positional_arguments
      ∷ stack_info ∷ set_exc_info ∷ format_exc_info ∷ callsite_parameters ∷ extra_adder ∷ [])
    ++ (if sentry then sentry_processor ∷ [] else [])

-- The last processors of every line.
unfoldable pub final_processors : LogSettings → List Processor
final_processors s =
    (otel_context ∷ remove_meta ∷ [])
    ++ (if s.json_output
        then dict_tracebacks ∷ json_renderer ∷ []
        else console_renderer s.colors ∷ [])

-- A handler's formatter: `foreign_pre_chain` and `processors`.
pub record Formatter : Type 0 where
  pub foreign_pre_chain : List Processor
  pub processors : List Processor

-- What is configured of structlog, the root logger and werkzeug's logger.
pub record Logging : Type 0 where
  pub configured : List Processor
  pub handlers : List Formatter
  pub level : LogLevel
  pub werkzeug_disabled : Bool

unfoldable pub init_logging : Bool → LogSettings → Logging → Logging
unfolding shared_processors final_processors
init_logging sentry s l = record {
  configured = shared_processors sentry ++ wrap_for_formatter ∷ [];
  handlers =
      l.handlers
      ++ record { foreign_pre_chain = shared_processors sentry; processors = final_processors s }
        ∷ [];
  level = s.level;
  werkzeug_disabled = true;
}
