-- ===== src/Views/Authorize/Redirect.antt =====
-- src/oauthclientbridge/views.py, `authorize`: which requests are sent to the provider, and how.
use oauthclientbridge.Base.{◌≡◌, arith, Bool, true, false, some, codes}
use oauthclientbridge.Base.Dict.{get}
use oauthclientbridge.Base.Result.{ok}
use oauthclientbridge.App.{App, World}
use oauthclientbridge.Crypto.{generate_key}
use oauthclientbridge.Uri.{UrlLib}
use oauthclientbridge.Web.{Request}
use oauthclientbridge.Views.Page.{error_page}
use oauthclientbridge.Views.Authorize.{
  authorize, redirect, redirect_params, requested_scope, requested_scope_is_allowed, is_other,
}

module _ (lib : UrlLib) (w : World) (req : Request) where
  -- The redirect URI and the scope are those that the bridge allows.
  abbrev pub is_permitted : Bool
  is_permitted = elim (is_other (get "redirect_uri" req.args) w.settings.oauth.redirect_uri) [
    | true ↦ false
    | false ↦
        requested_scope_is_allowed (codes (requested_scope lib w req))
          w.settings.oauth.allowed_scopes
  ]

  -- A permitted request is redirected to the provider with a new key as state, and the session
  -- remembers that state and the client's own; any other gets an error page, and its session stays
  -- as it was.
  pub authorize_lem :
      (a : App)
      → (is_permitted ≡ true
          → ((authorize lib w req a).0
              ≡ ok (
                  redirect lib w w.settings.oauth.authorization_uri
                    (redirect_params lib w (requested_scope lib w req) (w.new_key a.keys))))
            × ((authorize lib w req a).1.session
                ≡ record { client_state = get "state" req.args; state = some (w.new_key a.keys) }))
        × (is_permitted ≡ false → (authorize lib w req a).1.session ≡ a.session)
  unfolding authorize generate_key error_page
  authorize_lem a = ground arith
