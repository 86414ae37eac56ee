-- ===== src/Views/Page.antt =====
-- src/oauthclientbridge/views.py, `_error` and `_render`: the page of the callback.
use oauthclientbridge.Base.{ℕ, ◌==◌, String, none, some, [], ◌∷◌, eqb, if◌then◌else◌}
use oauthclientbridge.Base.Dict.{put}
use oauthclientbridge.Base.Json.{Json, null, str, Object}
use oauthclientbridge.Base.Result.{Result, ok, lift, ◌>>=◌, ◌>>◌}
use oauthclientbridge.Errors
use oauthclientbridge.Errors.{
  OAuthError, invalid_client, temporarily_unavailable, Exception, describe,
}
use oauthclientbridge.App.{World, Handler, emit}
use oauthclientbridge.Telemetry.{record_server_error}
use oauthclientbridge.Web.{Page, WebResponse, page_body, with_retry_after}

-- The error of a page: a member of the enumeration, or another text.
pub data PageError : Type 0 where
  member : OAuthError → PageError
  text : String → PageError

unfoldable pub code_of : PageError → String
code_of (member e) = Errors.value e
code_of (text s) = s

-- `if isinstance(error, OAuthError)`
description_of : PageError → Json → Result Exception Json
unfolding describe
description_of (member e) given = describe e given
description_of (text s) given = ok given

unfoldable pub status_of : PageError → ℕ
unfolding code_of
status_of e =
    if code_of e == Errors.value invalid_client
    then 401
    else if code_of e == Errors.value temporarily_unavailable
    then 503
    else 400

module _ (w : World) where
  security_headers : Object
  security_headers =
      let base : Object =
        ("Content-Type", str "text/html; charset=UTF-8")
        ∷ ("Referrer-Policy", str "no-referrer")
        ∷ ("X-Content-Type-Options", str "nosniff")
        ∷ ("Permissions-Policy", str "geolocation=(), microphone=(), camera=()")
        ∷ [] in
      elim w.settings.callback_content_security_policy [
        | none ↦ base
        | some policy ↦
            if policy == "" then base else put "Content-Security-Policy" (str policy) base
      ]

  -- `_render`, with `_set_callback_security_headers`
  unfoldable pub render : Page → WebResponse
  unfolding security_headers
  render page = record { status = 200; headers = security_headers; body = page_body page }

  -- `_error`
  unfoldable pub error_page : PageError → Json → Json → Json → Handler WebResponse
  unfolding description_of status_of code_of render with_retry_after
  error_page e given state retry_after = do
    description ← lift (description_of e given)
    emit (record_server_error (status_of e) (code_of e))
    let response =
        record (render (record {
          client_id = null;
          client_secret = null;
          state = state;
          error = str (code_of e);
          description = description;
        })) { status = status_of e }
    lift (if eqb (status_of e) 503 then with_retry_after w retry_after response else ok response)
