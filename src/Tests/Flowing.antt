-- ===== src/Tests/Flowing.antt =====
-- src/oauthclientbridge/views.py: a user who authorises, and a client that asks for the token.
use oauthclientbridge.Base.{some, [], ◌∷◌}
use oauthclientbridge.Errors
use oauthclientbridge.App.{App}
use oauthclientbridge.Uri.{UrlLib}
use oauthclientbridge.Web.{Request}
use oauthclientbridge.Views.Callback.{callback}
use oauthclientbridge.Tests.{world, app, key, request}

-- A library in which a URI is its path.
abbrev plain_uris : UrlLib
plain_uris = record {
  urlsplit = λ s. record { scheme = ""; netloc = ""; path = s; query = ""; fragment = "" };
  urlunsplit = λ url. url.path;
  parse_qs = λ _. [];
  parse_qsl = λ _. [];
  urlencode = λ _. "";
  quote = λ s. s;
}

abbrev entering : Request
entering = request (("state", "mine") ∷ []) []

abbrev coming_back : Request
coming_back = request (("state", key) ∷ ("code", "c") ∷ []) []

abbrev remembered : App
remembered = app [] (record { client_state = some "mine"; state = some key })

abbrev stored : App
stored = (callback world coming_back remembered).1
