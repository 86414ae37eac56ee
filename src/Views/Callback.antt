-- ===== src/Views/Callback.antt =====
-- src/oauthclientbridge/views.py, `callback`: the code is traded for a token, which is stored.
pub mod State
pub mod Stored
pub mod Passed
pub mod Added
use oauthclientbridge.Base.{
  ℕ, String, Bool, true, false, ◌&&◌, ◌==◌, not, Option, none, some, List, [], ◌∷◌, if◌then◌else◌,
}
use oauthclientbridge.Base.Dict.{Dict, get, has}
use oauthclientbridge.Base.Json.{Json, null, str, Object, or_null}
use oauthclientbridge.Base.Result.{Result, pure, raise, lift, ok, err, continue, ◌>>=◌, ◌>>◌}
use oauthclientbridge.Errors.{
  OAuthError, Exception, invalid_request, invalid_state, key_error, integrity_error, description,
}
use oauthclientbridge.App.{App, World, Session, Handler, upstream}
use oauthclientbridge.Crypto.{generate_key, dumps}
use oauthclientbridge.Db
use oauthclientbridge.Db.{generate_id}
use oauthclientbridge.Fetch.{fetch}
use oauthclientbridge.Outcome.{
  authorization_errors, token_errors, normalize_error, normalize_json, validate_token,
}
use oauthclientbridge.Settings.{LogLevel}
use oauthclientbridge.Web.{Request, WebResponse, or_none, scrub_refresh_token}
use oauthclientbridge.Views.Page.{PageError, member, text, error_page, render}

-- `error.description` of a normalised error.
described : OAuthError → Result Exception (PageError × String)
described e = elim (description e) [ none ↦ err key_error | some d ↦ ok (member e, d) ]

-- `args.get("state")` is the state.
abbrev is_state : String → Option String → Bool
is_state state none = false
is_state state (some s) = state == s

abbrev pub is_given : Option String → Bool
is_given none = false
is_given (some s) = not (s == "")

-- What of a token is stored: only the refresh token matters where there is one.
unfoldable pub to_store : Object → Object
unfolding scrub_refresh_token
to_store result = if has "refresh_token" result then scrub_refresh_token result else result

-- The level that an error before the request to the provider is logged by.
unfoldable pub log_level : Dict LogLevel → String → LogLevel
log_level levels code = elim (get code levels) [ none ↦ LogLevel.error | some level ↦ level ]

module _ (w : World) where
  -- The checks before the code is used: the error of the first that fails, and its description.
  unfoldable pub callback_error :
      Option String → Request → Result Exception (Option (PageError × String))
  unfolding described
  callback_error state req = elim req.args [
    | [] ↦ ok (some (member invalid_request, "No arguments provided, request is invalid."))
    | _ ∷ _ ↦ elim state [
      | none ↦
          ok (some (member invalid_state, "State is not set, this page was probably refreshed."))
      | some s ↦
          if not (is_state s (get "state" req.args))
          then ok (some (member invalid_state, "State does not match callback state."))
          else elim (get "error" req.args) [
            | some code ↦
                elim (described (
                  normalize_error code authorization_errors OAuthError.server_error
                    w.settings.fetch.error_types)) [ err e ↦ err e | ok d ↦ ok (some d) ]
            | none ↦
                if is_given (get "code" req.args)
                then ok none
                else ok (
                    some (
                      member invalid_request,
                      "Authorization code missing from provider callback.",
                    ))
          ]
    ]
  ]

  -- The error of the provider's answer.
  unfoldable pub token_error : Object → Result Exception (Option (PageError × String))
  unfolding described
  token_error result = elim (get "error" result) [
    | some code ↦
        elim (normalize_json code token_errors OAuthError.server_error
          w.settings.fetch.error_types) [
            | err e ↦ err e
            | ok e ↦ elim (described e) [ err x ↦ err x | ok d ↦ ok (some d) ]
          ]
    | none ↦
        if validate_token result
        then ok none
        else ok (some (text "invalid_response", "Invalid response from provider."))
  ]

  -- `flask.session.pop`
  pop_session : Handler Session
  pop_session a =
      (ok a.session, record a { session = record { client_state = none; state = none } })

  abbrev pub code_form : Request → Object
  code_form req =
      ("client_id", str w.settings.oauth.client_id)
      ∷ ("client_secret", str w.settings.oauth.client_secret)
      ∷ ("code", or_none (get "code" req.args))
      ∷ ("grant_type", str "authorization_code")
      ∷ ("redirect_uri", str w.settings.oauth.redirect_uri)
      ∷ []

  -- `except db.IntegrityError`
  or_integrity : Json → Handler WebResponse → Result Exception (Unit {0}) → Handler WebResponse
  or_integrity client_state done (ok _) = done
  or_integrity client_state done (err integrity_error) =
      error_page w (text "integrity_error") (str "Database integrity error.") client_state null
  or_integrity client_state done (err e) = raise e

  -- From the provider's token to the page with the credentials.
  unfoldable pub store : Json → Object → Handler WebResponse
  unfolding or_integrity to_store
  store client_state result = do
    client_secret ← generate_key w
    token ← dumps w client_secret (to_store result)
    client_id ← generate_id w
    λ a.
        let (inserted, a') = Db.insert w client_id token a in
        or_integrity client_state
          (pure (
            render w (record {
              client_id = str client_id;
              client_secret = str client_secret;
              state = client_state;
              error = null;
              description = null;
            })))
          inserted a'

  conclude : Json → Object → Option (PageError × String) → Handler WebResponse
  unfolding store
  conclude client_state result (some (e, desc)) =
      error_page w e (str desc) client_state (or_null (get "retry_after" result))
  conclude client_state result none = store client_state result

  trade : Json → Request → Option (PageError × String) → Handler WebResponse
  unfolding conclude
  trade client_state req (some (e, desc)) = error_page w e (str desc) client_state null
  trade client_state req none = do
    result ←
        upstream
          (fetch w.provider w.settings.fetch w.settings.oauth.token_uri "token" (code_form req))
    failed ← lift (token_error result)
    conclude client_state result failed

  unfoldable pub callback : Request → Handler WebResponse
  unfolding pop_session trade
  callback req = do
    session ← pop_session
    refused ← lift (callback_error session.state req)
    trade (or_none session.client_state) req refused
