-- ===== src/Views/Token/Secrets.antt =====
-- src/oauthclientbridge/views.py, `token`: what an answer never shows.
use oauthclientbridge.Base.{
  String, ◌≡◌, refl, Bool, true, false, Option, none, some, arith, Bool-cases, inl, inr, not, ◌==◌,
  if◌then◌else◌,
}
use oauthclientbridge.Base.Dict.{get, has, get-keep}
use oauthclientbridge.Base.Json.{Json, null, str, Object, or_null}
use oauthclientbridge.Base.Result.{Result, ok, err, Post, Post-bind, ◌>>=◌}
use oauthclientbridge.Errors.{Exception, OAuthError, invalid_request}
use oauthclientbridge.App.{App, World, Handler, upstream}
use oauthclientbridge.Web.{Request, WebResponse, WebBody, serve}
use oauthclientbridge.Web.Statuses.{Lacks, serve-Lacks}
use oauthclientbridge.Outcome.{validate_token}
use oauthclientbridge.Client.{ClientCredentials, validate_credentials}
use oauthclientbridge.Db.{TokenRecord}
use oauthclientbridge.Fetch.{fetch}
use oauthclientbridge.Crypto.{loads}
use oauthclientbridge.Views.Token.{
  read_credentials, accept, find_record, serve_token, serve_stored, failure_of, revoked, readable,
  refresh, refreshed, refresh_failed, save, served, token, modified_by, refresh_uri, refresh_form,
  fail, with_scope, drop_dead,
}

-- A body that shows no refresh token.
abbrev pub HidesRefreshToken : WebBody → Type 0
HidesRefreshToken = Lacks "refresh_token"

abbrev Hides : WebResponse → App → Type 0
Hides r a = HidesRefreshToken r.body

abbrev Any : App → Type 0
Any a = Unit

abbrev Anything : {A : Type 0} → A → App → Type 0
Anything v a = Unit

module _ {A : Type 0} where
  Post-Any : (x : Result Exception A × App) → Post Anything Any x
  Post-Any (ok v, a) = record { at = tt }
  Post-Any (err e, a) = record { at = tt }

  -- What follows a step of which nothing has to be known.
  Post-then :
      (m : Handler A) (f : A → Handler WebResponse) (a : App)
      → ((v : A) (a' : App) → Post Hides Any (f v a'))
      → Post Hides Any ((m >>= f) a)
  Post-then m f a k = Post-bind m f a (Post-Any (m a)) (λ v a' _. k v a')

Post-if :
    (b : Bool) (f g : Handler WebResponse) (a : App)
    → Post Hides Any (f a)
    → Post Hides Any (g a)
    → Post Hides Any ((if b then f else g) a)
Post-if true f g a h k = h
Post-if false f g a h k = k

module _ (w : World) where
  revoked-Hides : (req : Request) (a : App) → Post Hides Any (revoked w req a)
  unfolding revoked get
  revoked-Hides req a = ground arith

  served-hides : (stored answer : Object) → get "refresh_token" (served stored answer) ≡ none
  unfolding served
  served-hides stored answer =
      rw (get-keep (λ j. not ("refresh_token" == j)) "refresh_token" (with_scope stored answer))

  fail-Hides :
      (e : OAuthError) (description uri retry_after : Json) (a : App)
      → Post Hides Any (fail e description uri retry_after a)
  unfolding fail
  fail-Hides e description uri retry_after a = ground arith

  refreshed-Hides :
      (c : ClientCredentials) (r : TokenRecord) (stored answer : Object) (a : App)
      → Post Hides Any (refreshed w c r stored answer a)
  unfolding refreshed
  refreshed-Hides c r stored answer a = elim (Bool-cases (not (validate_token answer))) [
    | inl bad ↦
        rw bad (fail-Hides invalid_request (str "Invalid response from provider.") null null a)
    | inr good ↦ rw good (
        Post-then (save w c stored (modified_by stored answer)) _ a
          (λ _ a'. record { at = served-hides stored answer }))
  ]

  refresh_failed-Hides :
      (id : String) (answer : Object) (a : App) → Post Hides Any (refresh_failed w id answer a)
  unfolding refresh_failed
  refresh_failed-Hides id answer a = Post-then (drop_dead w id answer) _ a λ _ a'.
      fail-Hides (failure_of w answer) (or_null (get "error_description" answer))
        (or_null (get "error_uri" answer)) (or_null (get "retry_after" answer)) a'

  refresh-Hides :
      (c : ClientCredentials) (r : TokenRecord) (stored : Object) (v : Json) (a : App)
      → Post Hides Any (refresh w c r stored v a)
  unfolding refresh
  refresh-Hides c r stored v a =
      Post-then
        (upstream (fetch w.provider w.settings.fetch (refresh_uri w) "refresh" (refresh_form w v)))
        _ a
        λ answer a'.
          Post-if (has "error" answer) (refresh_failed w c.client_id answer)
            (refreshed w c r stored answer) a' (refresh_failed-Hides c.client_id answer a')
            (refreshed-Hides c r stored answer a')

  serve_stored-Hides :
      (c : ClientCredentials) (r : TokenRecord) (stored : Object) (v : Option Json) (a : App)
      → get "refresh_token" stored ≡ v
      → Post Hides Any (serve_stored w c r stored v a)
  unfolding serve_stored
  serve_stored-Hides c r stored none a h = record { at = h }
  serve_stored-Hides c r stored (some v) a h = refresh-Hides c r stored v a

  serve_token-Hides :
      (req : Request) (c : ClientCredentials) (r : TokenRecord) (held : Option String) (a : App)
      → Post Hides Any (serve_token w req c r held a)
  unfolding serve_token
  serve_token-Hides req c r none a = revoked-Hides req a
  serve_token-Hides req c r (some encrypted) a =
      Post-then (readable (loads w c.client_secret encrypted)) _ a
        λ stored a'. serve_stored-Hides c r stored (get "refresh_token" stored) a' refl

  token-Hides : (req : Request) (a : App) → Post Hides Any (token w req a)
  unfolding token
  token-Hides req a = Post-then (read_credentials req) _ a λ given a₁.
      Post-then (accept (validate_credentials w given.0 given.1)) _ a₁ λ c a₂.
        Post-then (find_record w c.client_id) _ a₂
          (λ r a₃. serve_token-Hides req c r r.encrypted_token a₃)

  -- Whatever the request, the table and the provider's answers, a JSON body that the token endpoint
  -- responds with, an error's too, has no key `refresh_token`.
  pub token-HidesRefreshToken :
      (req : Request) (a : App) → HidesRefreshToken (serve w (token w req) a).0.body
  token-HidesRefreshToken req a =
      serve-Lacks w "refresh_token" (refl, refl, refl) (token w req) a (token-Hides req a)
