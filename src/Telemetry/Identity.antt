-- ===== src/Telemetry/Identity.antt =====
-- src/oauthclientbridge/telemetry/_otel.py and src/oauthclientbridge/telemetry/_sentry.py: the client
-- that the telemetry of a request is about.
use oauthclientbridge.Base.{
  ◌≡◌, refl, arith, String, Bool, true, not, Option, none, some, List, [], ◌∷◌, if◌then◌else◌,
}
use oauthclientbridge.Base.Dict.{get, put, get-put}
use oauthclientbridge.Base.Json.{str, Object}
use oauthclientbridge.Telemetry.Resources.{Process, LogSpan, otel_log_attributes}

-- What is written of a request: the variables that go into each log line, the attributes and the
-- events of its span, and Sentry's user.
pub record Scope : Type 0 where
  pub contextvars : Object
  pub attributes : Object
  pub events : List (String × Object)
  pub user : Option Object

-- `_sentry.set_user`, where the SDK is installed.
unfoldable pub set_user : Bool → Object → Scope → Scope
set_user installed user s = if installed then record s { user = some user } else s

unfoldable pub set_client_id : Bool → String → Scope → Scope
unfolding set_user
set_client_id installed client_id s =
    set_user installed (("client_id", str client_id) ∷ []) (record s {
      contextvars = put "client_id" (str client_id) s.contextvars;
      attributes = put "client_id" (str client_id) s.attributes;
    })

unfoldable pub record_invalid_client_id : String → Scope → Scope
record_invalid_client_id client_id s = record s {
  contextvars = put "invalid_client_id" (str client_id) s.contextvars;
  events = ("invalid_client_id", ("client_id", str client_id) ∷ []) ∷ s.events;
}

-- `_logging_log_hook`: the attributes that it leaves on a log record.
unfoldable pub logging_log_hook :
    Process → Option Object → Option LogSpan → Option Object → Option Object
unfolding otel_log_attributes
logging_log_hook p resource none left = left
logging_log_hook p resource (some span) left =
    if not span.is_recording then left else some (otel_log_attributes p resource span)

-- An identifier that was refused does not become an identity: the client of the log lines, of the
-- span and of Sentry stays who it was; an accepted one is the client of all three.
pub set_client_id_lem :
    (id refused : String) (s : Scope)
    → let rejected = record_invalid_client_id refused s in
      let accepted = set_client_id true id s in
      (get "client_id" rejected.contextvars ≡ get "client_id" s.contextvars)
      × (rejected.attributes ≡ s.attributes)
      × (rejected.user ≡ s.user)
      × (get "client_id" accepted.contextvars ≡ some (str id))
      × (get "client_id" accepted.attributes ≡ some (str id))
      × (accepted.user ≡ some (("client_id", str id) ∷ []))
unfolding set_client_id record_invalid_client_id
set_client_id_lem id refused s = (
  ground (arith, get-put "invalid_client_id" "client_id" (str refused) s.contextvars),
  refl,
  refl,
  ground (arith, get-put "client_id" "client_id" (str id) s.contextvars),
  ground (arith, get-put "client_id" "client_id" (str id) s.attributes),
  refl,
)
