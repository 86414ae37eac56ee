-- ===== src/Views/Token/Rows.antt =====
-- src/oauthclientbridge/views.py, `token`: which rows a request may change.
use oauthclientbridge.Base.{ℕ, String, ◌≡◌, ◌∙◌, sym, Option, some, List, ◌⊎◌, inl, inr, subst}
use oauthclientbridge.Base.Json.{Object}
use oauthclientbridge.Base.Result.{ok, Post-bind, Post-weaken, Post-final, Post-both, ◌>>=◌}
use oauthclientbridge.App.{App, World, Row}
use oauthclientbridge.Client.{ClientCredentials, validate_credentials}
use oauthclientbridge.Crypto.{loads}
use oauthclientbridge.Db.{find, update_rows, stored}
use oauthclientbridge.Web.{Request}
use oauthclientbridge.Views.Token.{read_credentials, token}
use oauthclientbridge.Views.Token.Opening.{
  Opened, IsOpened, IsWrite, open_token, close_token, token-open_token, open_token-IsOpened,
  close_token-IsWrite,
}

-- What a request that changed the table has proved: its credentials are valid, their row holds a
-- token, and their secret decrypts it; only that row is written.
pub record IsOwner (w : World) (req : Request) (a : App) (new : List Row) : Type 0 where
  pub id : Option String
  pub secret : Option String
  pub given : (read_credentials req a).0 ≡ ok (id, secret)
  pub credentials : ClientCredentials
  pub valid : validate_credentials w id secret ≡ ok credentials
  pub row : Row
  pub found : find credentials.client_id a.tokens ≡ some row
  pub encrypted : String
  pub held : stored row.token ≡ some encrypted
  pub value : Object
  pub decrypted : loads w credentials.client_secret encrypted ≡ ok value
  pub token : Option String
  pub now : ℕ
  pub written : new ≡ update_rows credentials.client_id token now a.tokens

module _ (w : World) (req : Request) (a : App) where
  abbrev Fair : App → Type 0
  Fair a' = (a'.tokens ≡ a.tokens) ⊎ IsOwner w req a a'.tokens

  -- A write behind a request that was opened is one by the owner.
  owner :
      (o : Opened) (new : List Row)
      → IsOpened w req a o
      → IsWrite w o a.tokens new
      → IsOwner w req a new
  owner o new opened write = record {
    id = opened.id;
    secret = opened.secret;
    given = opened.given;
    credentials = o.credentials;
    valid = opened.valid;
    row = opened.row;
    found = opened.held;
    encrypted = write.encrypted;
    held = sym opened.read ∙ write.read;
    value = write.value;
    decrypted = write.decrypted;
    token = write.token;
    now = write.now;
    written = write.written;
  }

  close_token-Fair :
      (o : Opened) (a' : App)
      → IsOpened w req a o
      → a'.tokens ≡ a.tokens
      → Fair (close_token w o a').1
  close_token-Fair o a' opened h = elim (close_token-IsWrite w o a') [
    | inl same ↦ inl (same ∙ h)
    | inr write ↦
        inr (
          owner o _ opened (subst (λ rows. IsWrite w o rows (close_token w o a').1.tokens) h write))
  ]

  -- The table changes under a token request only for a client that proved its secret: the request's
  -- credentials are valid, their row holds a token that the secret decrypts, and that row alone is
  -- written. Otherwise every row is as it was.
  pub token-tokens :
      ((token w req a).1.tokens ≡ a.tokens) ⊎ IsOwner w req a (token w req a).1.tokens
  token-tokens = rw (token-open_token w req a) (
      Post-final ((open_token w req >>= close_token w) a) (
        Post-bind (open_token w req) (close_token w) a
          (Post-weaken (open_token w req a) (λ _ _ h. h) (λ _ h. inl h)
            (open_token-IsOpened w req a))
          λ o a' h. Post-both {Q = Fair} (close_token w o a') (close_token-Fair o a' h.0 h.1)))
