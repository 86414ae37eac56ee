-- ===== src/Fetch/Once.antt =====
-- src/oauthclientbridge/oauth/_core.py, `_fetch` and `_decode`: one request.
pub mod Frame
pub mod Answers
pub mod Source
pub mod Told
use oauthclientbridge.Base.{
  ℕ, String, min, Bool, true, false, Option, none, some, List, [], ◌∷◌, length, elem, if◌then◌else◌,
}
use Prim.Native.String
use oauthclientbridge.Base.Json.{str, Object}
use oauthclientbridge.Base.Text.{decimal}
use oauthclientbridge.Base.Result.{Result, ok, err, pure, gets, lift, ◌>>=◌, ◌>>◌}
use oauthclientbridge.Errors
use oauthclientbridge.Errors.{
  OAuthError, Exception, value_error, attribute_error, temporarily_unavailable,
}
use oauthclientbridge.Net
use oauthclientbridge.Net.{
  Action, Provider, Response, object, not_object, undecodable, Answer, responded, failed, Failure,
  connect_timeout, read_timeout, other_timeout, ssl_error, proxy_error, connection_error,
  http_error, other_failure, emit, close_session, send,
}
use oauthclientbridge.Settings.{FetchSettings}
use oauthclientbridge.Telemetry.{StatusLabel, http, label, record_client_response}
use oauthclientbridge.Fetch.RetryAfter.{parse_retry}

-- The members of `http.HTTPStatus`.
abbrev known_statuses : List ℕ
known_statuses =
    100 ∷ 101 ∷ 102 ∷ 103 ∷ 200 ∷ 201 ∷ 202 ∷ 203 ∷ 204 ∷ 205 ∷ 206 ∷ 207 ∷ 208 ∷ 226 ∷ 300 ∷ 301
    ∷ 302 ∷ 303 ∷ 304 ∷ 305 ∷ 307 ∷ 308 ∷ 400 ∷ 401 ∷ 402 ∷ 403 ∷ 404 ∷ 405 ∷ 406 ∷ 407 ∷ 408 ∷ 409
    ∷ 410 ∷ 411 ∷ 412 ∷ 413 ∷ 414 ∷ 415 ∷ 416 ∷ 417 ∷ 418 ∷ 421 ∷ 422 ∷ 423 ∷ 424 ∷ 425 ∷ 426 ∷ 428
    ∷ 429 ∷ 431 ∷ 451 ∷ 500 ∷ 501 ∷ 502 ∷ 503 ∷ 504 ∷ 505 ∷ 506 ∷ 507 ∷ 508 ∷ 510 ∷ 511 ∷ []

-- `HTTPStatus(code)`
unfoldable pub http_status : ℕ → Result Exception ℕ
http_status code = if elem code known_statuses then ok code else err value_error

-- What `_fetch` returns. For a body that decodes to no object, the result is what handling it raises.
pub record Fetched : Type 0 where
  pub result : Result Exception Object
  pub status : Option ℕ
  pub retry_after : ℕ

-- `_decode`
unfoldable pub decode : FetchSettings → Response → Result Exception (Result Exception Object)
decode cfg resp = elim resp.body [
  | object d ↦ ok (ok d)
  | not_object e ↦ ok (err e)
  | undecodable ↦
      let body =
        if elem resp.status_code cfg.unavailable_status_codes
        then Errors.json temporarily_unavailable (str "Provider is unavailable.")
        else Errors.json OAuthError.server_error (
            str (
              String.◌++◌ "Unhandled provider error (HTTP "
                (String.◌++◌ (decimal resp.status_code) ")."))) in
      elim body [ ok d ↦ ok (ok d) | err e ↦ err e ]
]

abbrev failure_label : Failure → String
failure_label connect_timeout = "connection_timeout"
failure_label read_timeout = "read_timeout"
failure_label ssl_error = "ssl_error"
failure_label proxy_error = "proxy_error"
failure_label connection_error = "connection_error"
failure_label _ = "unknown_exception"

abbrev timed_out : String
timed_out = "Request timed out while connecting to provider."

abbrev not_connected : String
not_connected = "An error occurred while connecting to the provider."

abbrev failure_description : Failure → String
failure_description connect_timeout = timed_out
failure_description read_timeout = timed_out
failure_description other_timeout = timed_out
failure_description ssl_error = not_connected
failure_description proxy_error = not_connected
failure_description connection_error = not_connected
failure_description _ = "An unknown error occurred while talking to provider."

-- `if e.response:` asks the response for its truth.
failure_status : Option Response → Result Exception (Option ℕ)
failure_status none = ok none
failure_status (some r) =
    if r.truth
    then elim (http_status r.status_code) [ ok code ↦ ok (some code) | err e ↦ err e ]
    else ok none

-- The size and the Retry-After seconds, read where the failure is an HTTPError.
failure_headers :
    (Option (List ℕ) → Result Exception ℕ)
    → Failure
    → Option Response
    → Result Exception (Option ℕ × ℕ)
failure_headers parse http_error none = err attribute_error
failure_headers parse http_error (some r) = elim (parse r.retry_after) [
  | ok seconds ↦ ok (some r.content_length, seconds)
  | err e ↦ err e
]
failure_headers parse _ response = ok (none, 0)

module _ (p : Provider) (cfg : FetchSettings) (endpoint : String) where
  receive_failure :
      (Option (List ℕ) → Result Exception ℕ) → Failure → Option Response → Action Fetched
  unfolding failure_status failure_headers
  receive_failure parse failure response = do
    close_session
    status ← lift (failure_status response)
    result ← lift (Errors.json OAuthError.server_error (str (failure_description failure)))
    headers ← lift (failure_headers parse failure response)
    emit (record_client_response endpoint (label (failure_label failure)) headers.0)
    pure (record { result = ok result; status = status; retry_after = headers.1 })

  receive_response : (Option (List ℕ) → Result Exception ℕ) → Response → Action Fetched
  unfolding decode
  receive_response parse resp = do
    result ← lift (decode cfg resp)
    status ← lift (http_status resp.status_code)
    seconds ← lift (parse resp.retry_after)
    (if elem status cfg.retry_status_codes then close_session else pure tt)
    emit (record_client_response endpoint (http status) (some resp.content_length))
    pure (record { result = result; status = some status; retry_after = seconds })

  receive : (Option (List ℕ) → Result Exception ℕ) → Answer → Action Fetched
  unfolding receive_failure receive_response
  receive parse (failed failure response) = receive_failure parse failure response
  receive parse (responded resp) = receive_response parse resp

  -- `_fetch`
  unfoldable pub fetch_once : String → Object → ℕ → Action Fetched
  unfolding receive send parse_retry
  fetch_once uri form timeout = do
    answer ← send p uri form (min cfg.timeout timeout)
    asked ← gets (λ n. length n.requests)
    receive (parse_retry p.parse_date (p.wall asked)) answer
