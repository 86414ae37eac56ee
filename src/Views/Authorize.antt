-- ===== src/Views/Authorize.antt =====
-- src/oauthclientbridge/views.py, `authorize`: the redirect to the provider.
pub mod Scopes
pub mod Redirect
use oauthclientbridge.Base.{
  ℕ, String, Bool, true, false, ◌&&◌, ◌==◌, not, Option, none, some, List, [], ◌∷◌, ◌++◌, map, all,
  any, codes, eqb, if◌then◌else◌,
}
use Prim.Native.String
use oauthclientbridge.Base.Dict.{Dict, get}
use oauthclientbridge.Base.Json.{Json, null, str}
use oauthclientbridge.Base.Text.{is_space}
use oauthclientbridge.Base.Result.{pure, ok, ◌>>=◌, ◌>>◌}
use oauthclientbridge.Errors.{invalid_request, invalid_scope}
use oauthclientbridge.App.{App, World, Session, Handler}
use oauthclientbridge.Crypto.{generate_key}
use oauthclientbridge.Uri.{UrlLib, rewrite_uri}
use oauthclientbridge.Web.{Request, WebResponse, empty_body}
use oauthclientbridge.Views.Page.{member, error_page}

-- A finished word, if it has a character.
unfoldable pub close : List ℕ → List (List ℕ) → List (List ℕ)
close [] words = words
close (c ∷ cs) words = (c ∷ cs) ∷ words

-- The word that a text begins with, up to a space, and the later words.
unfoldable pub scan : List ℕ → List ℕ × List (List ℕ)
unfolding close
scan [] = ([], [])
scan (c ∷ cs) =
    let rest = scan cs in if is_space c then ([], close rest.0 rest.1) else (c ∷ rest.0, rest.1)

-- `text.split()`
unfoldable pub split : List ℕ → List (List ℕ)
unfolding scan close
split text = close (scan text).0 (scan text).1

unfoldable pub same_codes : List ℕ → List ℕ → Bool
same_codes [] [] = true
same_codes (c ∷ cs) (d ∷ ds) = eqb c d && same_codes cs ds
same_codes _ _ = false

-- `_requested_scope_is_allowed`
unfoldable pub requested_scope_is_allowed : List ℕ → Option (List String) → Bool
unfolding split same_codes
requested_scope_is_allowed requested none = true
requested_scope_is_allowed requested (some allowed) =
    all (λ word. any (λ scope. same_codes word (codes scope)) allowed) (split requested)

-- `" ".join(scopes)`
join : List String → String
join [] = ""
join (s ∷ []) = s
join (s ∷ rest) = String.◌++◌ s (String.◌++◌ " " (join rest))

abbrev pub get_or_text : String → Option String → String
get_or_text default none = default
get_or_text default (some s) = s

-- `redirect_uri and redirect_uri != expected`
abbrev pub is_other : Option String → String → Bool
is_other none expected = false
is_other (some uri) expected = not (uri == "") && not (uri == expected)

module _ (lib : UrlLib) (w : World) where
  -- `flask.session[…] = …`
  remember : Option String → String → Handler (Unit {0})
  remember client_state state a =
      (ok tt, record a { session = record { client_state = client_state; state = some state } })

  -- `oauth.redirect`
  unfoldable pub redirect : String → Dict String → WebResponse
  redirect uri params = record {
    status = 302;
    headers = ("Location", str (rewrite_uri lib uri params)) ∷ [];
    body = empty_body;
  }

  abbrev pub redirect_params : String → String → Dict String
  redirect_params scope state =
      ("client_id", w.settings.oauth.client_id)
      ∷ ("response_type", "code")
      ∷ ("redirect_uri", w.settings.oauth.redirect_uri)
      ∷ ("scope", scope)
      ∷ ("state", state)
      ∷ []

  unfoldable pub requested_scope : Request → String
  unfolding join
  requested_scope req = get_or_text (join w.settings.oauth.scopes) (get "scope" req.args)

  unfoldable pub authorize : Request → Handler WebResponse
  unfolding remember redirect generate_key
  authorize req =
      if is_other (get "redirect_uri" req.args) w.settings.oauth.redirect_uri
      then error_page w (member invalid_request) (str "Wrong redirect_uri.") null null
      else if not
          (requested_scope_is_allowed (codes (requested_scope req)) w.settings.oauth.allowed_scopes)
      then error_page w (member invalid_scope) (str "Requested scope is not allowed.") null null
      else do
        state ← generate_key w
        remember (get "state" req.args) state
        pure (
            redirect w.settings.oauth.authorization_uri
              (redirect_params (requested_scope req) state))
