-- ===== src/Web.antt =====
-- Requests and responses, and what turns a handler's result into a response: the error handlers of
-- src/oauthclientbridge/oauth/_core.py as src/oauthclientbridge/__init__.py registers them.
pub mod Statuses
pub mod Headers
use oauthclientbridge.Base.{
  ℕ, String, Bool, true, false, Option, none, some, List, [], ◌∷◌, ◌==◌, not, ◌&&◌, ltb, any,
  if◌then◌else◌,
}
use Prim.Native.String
use oauthclientbridge.Base.Dict.{Dict, get, has, put, keep}
use oauthclientbridge.Base.Json.{Json, null, boolean, num, str, nested, Object}
use oauthclientbridge.Base.Result.{Result, ok, err}
use oauthclientbridge.Errors
use oauthclientbridge.Errors.{
  OAuthError, invalid_client, temporarily_unavailable, Exception, error, type_error, value_error,
  is_error,
}
use oauthclientbridge.App.{App, World, Handler, emit}
use oauthclientbridge.Telemetry.{record_server_error}

-- `flask.request.authorization`: missing, not decodable, or a scheme with its user and password.
pub data Authorization : Type 0 where
  absent undecodable : Authorization
  scheme : String → Option String → Option String → Authorization

pub record Request : Type 0 where
  pub args : Dict String
  pub form : Dict String
  pub authorization : Authorization
  pub authorization_header : String
  pub user_agent : String

-- The variables of the callback template.
pub record Page : Type 0 where
  pub client_id : Json
  pub client_secret : Json
  pub state : Json
  pub error : Json
  pub description : Json

pub data WebBody : Type 0 where
  json_body : Object → WebBody
  page_body : Page → WebBody
  metrics_body empty_body : WebBody

pub record WebResponse : Type 0 where
  pub status : ℕ
  pub headers : Object
  pub body : WebBody

-- `flask.jsonify(d)`
abbrev pub jsonify : Object → WebResponse
jsonify d = record { status = 200; headers = []; body = json_body d }

-- None for a missing value.
abbrev pub or_none : Option String → Json
or_none none = null
or_none (some s) = str s

module _ (w : World) where
  -- `int(v)` for a value that is not None.
  unfoldable pub int : Json → Result Exception ℕ
  int (num n) = ok n
  int (boolean b) = ok (if b then 1 else 0)
  int (str s) = elim (w.int_text s) [ none ↦ err value_error | some n ↦ ok n ]
  int _ = err type_error

  -- A `Retry-After` header where the value is given.
  unfoldable pub with_retry_after : Json → WebResponse → Result Exception WebResponse
  unfolding int
  with_retry_after null r = ok r
  with_retry_after v r = elim (int v) [
    | err e ↦ err e
    | ok n ↦ ok (record r { headers = put "Retry-After" (num n) r.headers })
  ]

  unfoldable pub error_object : OAuthError → Json → Json → Object
  error_object e description null =
      ("error", str (Errors.value e)) ∷ ("error_description", description) ∷ []
  error_object e description uri =
      ("error", str (Errors.value e)) ∷ ("error_description", description) ∷ ("error_uri", uri) ∷ []

  pub realm : String
  realm = String.◌++◌ "Basic realm=\"" (String.◌++◌ w.settings.auth_realm "\"")

  -- `error_handler`, up to its telemetry.
  error_response : OAuthError → Json → Json → Json → Result Exception WebResponse
  unfolding error_object realm with_retry_after is_error
  error_response e description uri retry_after =
      let result = jsonify (error_object e description uri) in
      if is_error e invalid_client
      then ok (record result {
        status = 401;
        headers = put "WWW-Authenticate" (str realm) result.headers;
      })
      else if is_error e temporarily_unavailable
      then with_retry_after retry_after (record result { status = 503 })
      else ok (record result { status = 400 })

  -- `fallback_error_handler`
  unfoldable pub fallback_error_handler : App → WebResponse × App
  fallback_error_handler a = (
    record {
      status = 500;
      headers = [];
      body = json_body (elim (Errors.json OAuthError.server_error null) [ ok d ↦ d | err _ ↦ [] ]);
    },
    (emit (record_server_error 500 (Errors.value OAuthError.server_error)) a).1,
  )

  -- The telemetry of `error_handler`. What it raised itself is an unhandled error.
  answer_error : OAuthError → Result Exception WebResponse → App → WebResponse × App
  unfolding fallback_error_handler
  answer_error e (err _) a = fallback_error_handler a
  answer_error e (ok r) a = (r, (emit (record_server_error r.status (Errors.value e)) a).1)

  -- `error_handler`
  unfoldable pub error_handler : OAuthError → Json → Json → Json → App → WebResponse × App
  unfolding error_response answer_error
  error_handler e description uri retry_after a =
      answer_error e (error_response e description uri retry_after) a

  -- `nocache`
  unfoldable pub nocache : WebResponse → WebResponse
  nocache r = if has "Cache-Control" r.headers then r else record r {
    headers = put "Pragma" (str "no-cache") (put "Cache-Control" (str "no-store") r.headers);
  }

  unfoldable pub conclude : Result Exception WebResponse × App → WebResponse × App
  unfolding error_handler
  conclude (ok r, a) = (r, a)
  conclude (err (error e description uri retry_after), a) =
      error_handler e description uri retry_after a
  conclude (err _, a) = fallback_error_handler a

  -- A request from its handler to the response.
  unfoldable pub serve : Handler WebResponse → App → WebResponse × App
  unfolding conclude nocache
  serve handler a = let (r, a') = conclude (handler a) in (nocache r, a')

-- `scrub_refresh_token`
unfoldable pub scrub_refresh_token : Object → Object
scrub_refresh_token = keep (λ k.
    not (
      any (λ (removed : String). removed == k) ("access_token" ∷ "expires_in" ∷ "token_type" ∷ [])))

abbrev allowed_log_fields : List String
allowed_log_fields = "client_id" ∷ "error" ∷ "error_description" ∷ "error_uri" ∷ "retry_after" ∷ []

-- `sanitize_for_logging`
unfoldable pub sanitize_for_logging : Object → Object
sanitize_for_logging [] = []
sanitize_for_logging ((k, v) ∷ d) =
    (k, if any (λ (allowed : String). allowed == k) allowed_log_fields then v else str "<REDACTED>")
    ∷ sanitize_for_logging d
