-- ===== src/Views/Callback/Passed.antt =====
-- src/oauthclientbridge/views.py, `callback`: a callback that passes every check.
use oauthclientbridge.Base.{◌≡◌, refl, arith, String, true, eq_refl, none, some, [], ◌∷◌}
use oauthclientbridge.Base.Dict.{Dict, get}
use oauthclientbridge.Base.Json.{Object}
use oauthclientbridge.Base.Result.{Result, ok}
use oauthclientbridge.Errors.{Exception}
use oauthclientbridge.App.{App, World, upstream}
use oauthclientbridge.Fetch.{fetch}
use oauthclientbridge.Outcome.{validate_token}
use oauthclientbridge.Web.{Request, or_none}
use oauthclientbridge.Views.Callback.{
  callback_error, callback, trade, conclude, store, token_error, code_form, is_given,
}

module _ (w : World) (req : Request) (a : App) where
  -- The provider's answer to the code, and the state after it, with no session.
  abbrev pub exchanged : Result Exception Object × App
  exchanged =
      upstream
        (fetch w.provider w.settings.fetch w.settings.oauth.token_uri "token" (code_form w req))
        (record a { session = record { client_state = none; state = none } })

  callback_error-none :
      (state : String) (args : Dict String)
      → get "state" args ≡ some state
      → get "error" args ≡ none
      → is_given (get "code" args) ≡ true
      → callback_error w (some state) (record req { args = args }) ≡ ok none
  unfolding callback_error get
  callback_error-none state [] s n c = absurd (ground (arith, s))
  callback_error-none state (arg ∷ args) s n c = rw (s, n, c, eq_refl state) refl

  token_error-none :
      (result : Object)
      → get "error" result ≡ none
      → validate_token result ≡ true
      → token_error w result ≡ ok none
  unfolding token_error
  token_error-none result n v = rw (token_error, n, v) refl

  -- A callback with the session's state and a code, which the provider answers with a token, goes on
  -- to store it.
  pub callback-store :
      (state : String) (result : Object)
      → a.session.state ≡ some state
      → get "state" req.args ≡ some state
      → get "error" req.args ≡ none
      → is_given (get "code" req.args) ≡ true
      → exchanged.0 ≡ ok result
      → get "error" result ≡ none
      → validate_token result ≡ true
      → callback w req a ≡ store w (or_none a.session.client_state) result exchanged.1
  unfolding callback trade conclude
  callback-store state result held given clean code answered fine valid =
      rw
        (
          held,
          callback_error-none state req.args given clean code,
          answered,
          token_error-none result fine valid,
        )
        refl
