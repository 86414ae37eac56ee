-- ===== src/Views/Token/Plain.antt =====
-- src/oauthclientbridge/views.py, `token`: a stored token that is served as it is.
use oauthclientbridge.Base.{◌+◌, ◌≡◌, String, Option, none, some, refl}
use oauthclientbridge.Base.Dict.{get}
use oauthclientbridge.Base.Json.{Object}
use oauthclientbridge.Base.Result.{ok}
use oauthclientbridge.App.{App, World, Row}
use oauthclientbridge.Client.{ClientCredentials, validate_credentials}
use oauthclientbridge.Crypto.{loads}
use oauthclientbridge.Db.{TokenRecord, find, stored}
use oauthclientbridge.Web.{Request, jsonify}
use oauthclientbridge.Views.Token.{
  read_credentials, accept, serve_token, serve_stored, readable, token,
}
use oauthclientbridge.Views.Token.Refusals.{find_record_lem, read_lem}

module _ (w : World) (req : Request) where
  serve_token-plain :
      (c : ClientCredentials) (r : TokenRecord) (encrypted : String) (d : Object) (a : App)
      → loads w c.client_secret encrypted ≡ ok d
      → get "refresh_token" d ≡ none
      → let x = serve_token w req c r (some encrypted) a in
        (x.0 ≡ ok (jsonify d)) × (x.1.net.requests ≡ a.net.requests) × (x.1.tokens ≡ a.tokens)
  unfolding serve_token readable serve_stored
  serve_token-plain c r encrypted d a h plain = rw (h, plain) (refl, refl, refl)

  -- Valid credentials whose secret decrypts the stored token get that token, if it has no refresh
  -- token: nothing is sent to the provider and no row is written.
  pub token-plain :
      (a : App) (id secret : Option String) (c : ClientCredentials) (row : Row) (encrypted : String)
      (d : Object)
      → w.fault a.statements ≡ none
      → (read_credentials req a).0 ≡ ok (id, secret)
      → validate_credentials w id secret ≡ ok c
      → find c.client_id a.tokens ≡ some row
      → stored row.token ≡ some encrypted
      → loads w c.client_secret encrypted ≡ ok d
      → get "refresh_token" d ≡ none
      → ((token w req a).0 ≡ ok (jsonify d))
        × ((token w req a).1.net.requests ≡ a.net.requests)
        × ((token w req a).1.tokens ≡ a.tokens)
  unfolding token accept
  token-plain a id secret c row encrypted d fine given valid found held h plain =
      rw
        (
          read_lem w req a id secret given,
          valid,
          find_record_lem w c.client_id a row fine found,
          held,
        )
        (serve_token-plain c
          (record {
            client_id = c.client_id;
            encrypted_token = some encrypted;
            created_at = row.created_at;
            last_updated_at = row.last_updated_at;
          })
          encrypted d (record a { statements = a.statements + 1 }) h plain)
