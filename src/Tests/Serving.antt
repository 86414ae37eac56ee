-- ===== src/Tests/Serving.antt =====
-- src/oauthclientbridge/views.py: requests in the concrete world, and one whose provider refuses.
use oauthclientbridge.Base.{◌≡◌, ◌≢◌, ◌⊎◌, ◌↔◌, refl, true, false, none, some, [], ◌∷◌}
use oauthclientbridge.Base.Dict.{get, has}
use oauthclientbridge.Base.Json.{num, Object, str, null}
use oauthclientbridge.Base.Result.{ok, err, lift}
use oauthclientbridge.Errors.{error, invalid_client, invalid_grant}
use oauthclientbridge.App.{App, World}
use oauthclientbridge.Client.{ClientCredentials, validate_credentials}
use oauthclientbridge.Crypto.{validate_key}
use oauthclientbridge.Db.{find}
use oauthclientbridge.Web.{Request, jsonify, serve}
use oauthclientbridge.Views.Token.{token, read_credentials}
use oauthclientbridge.Views.Token.Secrets.{HidesRefreshToken, token-HidesRefreshToken}
use oauthclientbridge.Views.Token.Rows.{IsOwner, token-tokens}
use oauthclientbridge.Views.Token.Refusals.{token-not_known, token-gone, IsExcused, unknown_client}
use oauthclientbridge.Views.Callback.{callback, store}
use oauthclientbridge.Views.Callback.State.{callback-IsGenuine, IsGenuine}
use oauthclientbridge.Views.Metrics.{
  metrics, metrics_iff, Exports, metrics-not_ascii, bearer, is_ascii,
}
use oauthclientbridge.Net.{responded, object}
use oauthclientbridge.Uri.{UrlLib}
use oauthclientbridge.Tests.{
  world, app, row, no_session, started, uuid, key, issued, asking, request, provider,
}

abbrev sealed : App
sealed = app (row (some "x{}") ∷ []) no_session

abbrev emptied : App
emptied = app (row none ∷ []) no_session

abbrev me : ClientCredentials
me = record { client_id = uuid; client_secret = key }

token-HidesRefreshToken_example :
    HidesRefreshToken (serve world (token world (asking key)) sealed).0.body
token-HidesRefreshToken_example = token-HidesRefreshToken world (asking key) sealed

token-tokens_example :
    ((token world (asking key) sealed).1.tokens ≡ sealed.tokens)
    ⊎ IsOwner world (asking key) sealed (token world (asking key) sealed).1.tokens
token-tokens_example = token-tokens world (asking key) sealed

valid_key_example : validate_credentials world (some uuid) (some key) ≡ ok me
unfolding validate_credentials validate_key
valid_key_example = refl

given_key_example : (a : App) → (read_credentials (asking key) a).0 ≡ ok (some uuid, some key)
unfolding read_credentials get has
given_key_example a = refl

token-gone_example :
    ((token world (asking key) emptied).1.net.requests ≡ [])
    × ((token world (asking key) emptied).1.tokens ≡ row none ∷ [])
    × (IsExcused world (asking key) emptied
        → (token world (asking key) emptied).0
          ≡ ok (
              jsonify (
                ("access_token", str world.settings.revoked_grant_workaround_access_token)
                ∷ ("token_type", str "Bearer")
                ∷ ("expires_in", num world.settings.revoked_grant_workaround_expires_in)
                ∷ [])))
    × (¬ IsExcused world (asking key) emptied
        → (token world (asking key) emptied).0
          ≡ err (error invalid_grant (str "Grant has been revoked.") null null))
unfolding find
token-gone_example =
    token-gone world (asking key) emptied (some uuid) (some key) me (row none) refl
      (given_key_example emptied) valid_key_example refl refl

abbrev nobody : App
nobody = app [] no_session

token-not_known_example :
    (token world (asking key) nobody).0
    ≡ err (error invalid_client (str "Client not known.") null null)
unfolding find
token-not_known_example =
    token-not_known world (asking key) nobody (some uuid) (some key) refl (given_key_example nobody)
      (unknown_client me valid_key_example refl)

abbrev returned : Request
returned = request (("state", "s") ∷ ("code", "c") ∷ []) []

abbrev waiting : App
waiting = app [] started

callback-IsGenuine_example :
    (((callback world returned waiting).1.net.requests ≡ [])
      × ((callback world returned waiting).1.tokens ≡ []))
    ⊎ IsGenuine world returned started
callback-IsGenuine_example = callback-IsGenuine world returned waiting

abbrev after : App
after = (store world null issued nobody).1

metrics_iff_example :
    Exports world (metrics world (request [] []))
    ↔ ((true ≡ true) × (is_ascii (bearer world "m") ≡ true) × ("" ≡ bearer world "m"))
metrics_iff_example = metrics_iff world (request [] []) "m" refl

abbrev accented : Request
accented = record (request [] []) { authorization_header = "Bearer é" }

metrics-not_ascii_example :
    (is_ascii accented.authorization_header ≡ false
      → (serve world (lift (metrics world accented)) nobody).0.status ≡ 500)
    × (is_ascii accented.authorization_header ≡ true
        → accented.authorization_header ≢ bearer world "m"
        → (serve world (lift (metrics world accented)) nobody).0.status ≡ 401)
metrics-not_ascii_example = metrics-not_ascii world accented "m" nobody refl refl refl

-- A library in which a URI is its path.
abbrev plain_uris : UrlLib
plain_uris = record {
  urlsplit = λ s. record { scheme = ""; netloc = ""; path = s; query = ""; fragment = "" };
  urlunsplit = λ url. url.path;
  parse_qs = λ _. [];
  parse_qsl = λ _. [];
  urlencode = λ _. "";
  quote = λ s. s;
}

abbrev entering : Request
entering = request (("state", "mine") ∷ []) []

abbrev pub denial : Object
denial = ("error", str "invalid_grant") ∷ []

-- A provider that refuses every request.
abbrev pub strict : World
strict = record world {
  provider = record provider {
    answer = λ _ _. responded (record {
      status_code = 401;
      body = object denial;
      retry_after = none;
      content_length = 0;
      truth = false;
    });
  };
}
