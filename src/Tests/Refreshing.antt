-- ===== src/Tests/Refreshing.antt =====
-- src/oauthclientbridge/views.py: a refresh in a world whose provider rotates the refresh token, and
-- the response to a raised error.
use oauthclientbridge.Base.{◌≡◌, refl, true, none, some, [], ◌∷◌, ◌==◌, if◌then◌else◌}
use oauthclientbridge.Base.Dict.{get, has}
use oauthclientbridge.Base.Json.{Object, str, num, null}
use oauthclientbridge.Base.Result.{ok, err}
use oauthclientbridge.Errors
use oauthclientbridge.Errors.{error, temporarily_unavailable, database_error}
use oauthclientbridge.App.{App, World, Handler}
use oauthclientbridge.Client.{ClientCredentials, validate_credentials}
use oauthclientbridge.Crypto.{loads, normalize_base64_padding, validate_key}
use oauthclientbridge.Db.{TokenRecord, find}
use oauthclientbridge.Net.{responded, object}
use oauthclientbridge.Web.{WebResponse}
use oauthclientbridge.Views.Token.{token, read_credentials}
use oauthclientbridge.Views.Token.Endpoint.{IsRefreshing}
use oauthclientbridge.Tests.{world, app, row, no_session, uuid, key, asking, provider}

abbrev pub rotation : Object
rotation =
    ("access_token", str "new")
    ∷ ("token_type", str "Bearer")
    ∷ ("refresh_token", str "second")
    ∷ []

abbrev pub rotating : World
rotating = record world {
  provider = record provider {
    answer = λ _ _. responded (record {
      status_code = 200;
      body = object rotation;
      retry_after = none;
      content_length = 80;
      truth = true;
    });
  };
  json_loads = λ text.
      if text == "{}"
      then some (("refresh_token", str "second") ∷ [])
      else if text == "{1}"
      then some (("refresh_token", str "first") ∷ [])
      else none;
}

abbrev pub me : ClientCredentials
me = record { client_id = uuid; client_secret = key }

abbrev sealed : App
sealed = app (row (some "x{1}") ∷ []) no_session

abbrev pub record_of : TokenRecord
record_of = record {
  client_id = uuid;
  encrypted_token = some "x{}";
  created_at = some 1;
  last_updated_at = some 2;
}

abbrev pub old : Object
old = ("refresh_token", str "first") ∷ []

abbrev afterwards : App
afterwards = (token rotating (asking key) sealed).1

abbrev behind_lookup : App
behind_lookup = record sealed { statements = 1 }

abbrev record_read : TokenRecord
record_read = record record_of { encrypted_token = some "x{1}" }

known_example : validate_credentials rotating (some uuid) (some key) ≡ ok me
unfolding validate_credentials validate_key
known_example = refl

given_example : (a : App) → (read_credentials (asking key) a).0 ≡ ok (some uuid, some key)
unfolding read_credentials get has
given_example a = refl

opens_example : loads rotating key "x{1}" ≡ ok old
unfolding loads normalize_base64_padding
opens_example = refl

abbrev refreshing_example : IsRefreshing rotating (asking key) sealed me old (str "first")
refreshing_example = record {
  id = some uuid;
  secret = some key;
  given = given_example sealed;
  valid = known_example;
  works = refl;
  row = row (some "x{1}");
  found = unfold find in refl;
  encrypted = "x{1}";
  held = refl;
  decrypted = opens_example;
  refreshable = unfold get in refl;
}

-- A handler that is told to wait.
abbrev busy : Handler WebResponse
busy a = (err (error temporarily_unavailable (str "Busy.") null (num 7)), a)
