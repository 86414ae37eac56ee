-- ===== src/Web/Headers.antt =====
-- src/oauthclientbridge/oauth/_core.py, `error_handler`, `fallback_error_handler` and `nocache`: the
-- status and the headers of a response.
use oauthclientbridge.Base.{ℕ, Option, none, some, ◌≡◌, ◌≢◌, false, if◌then◌else◌}
use oauthclientbridge.Base.Dict.{get, has}
use oauthclientbridge.Base.Json.{Json, null, num, str}
use oauthclientbridge.Base.Result.{Result, ok}
use oauthclientbridge.Errors
use oauthclientbridge.Errors.{OAuthError, invalid_client, temporarily_unavailable, is_error}
use oauthclientbridge.App.{App, World}
use oauthclientbridge.Web.{WebResponse, json_body, int, error_object, nocache, realm}

-- The seconds that a raised error asks the client to wait.
abbrev pub Asks : World → Json → Option ℕ → Type 0
Asks w retry_after none = retry_after ≡ null
Asks w retry_after (some n) = (retry_after ≢ null) × (int w retry_after ≡ ok n)

abbrev seconds_of : Option ℕ → Option Json
seconds_of none = none
seconds_of (some n) = some (num n)

-- The response to a raised error, before its telemetry and `nocache`.
record IsAnswer (w : World) (e : OAuthError) (description uri : Json) (seconds : Option ℕ)
    (r : WebResponse) : Type 0 where
  status : r.status ≡ (
      if is_error e invalid_client
      then 401
      else if is_error e temporarily_unavailable
      then 503
      else 400)
  body : r.body ≡ json_body (error_object w e description uri)
  challenge :
      get "WWW-Authenticate" r.headers
      ≡ (if is_error e invalid_client then some (str (realm w)) else none)
  wait :
      get "Retry-After" r.headers
      ≡ (if is_error e temporarily_unavailable then seconds_of seconds else none)
  uncached : has "Cache-Control" r.headers ≡ false

module _ (w : World) where
  -- `nocache` adds its headers and changes nothing else.
  abbrev IsStamped : WebResponse → Type 0
  IsStamped r =
      ((nocache w r).status ≡ r.status)
      × ((nocache w r).body ≡ r.body)
      × (get "WWW-Authenticate" (nocache w r).headers ≡ get "WWW-Authenticate" r.headers)
      × (get "Retry-After" (nocache w r).headers ≡ get "Retry-After" r.headers)
      × (get "Cache-Control" (nocache w r).headers ≡ some (str "no-store"))
