-- ===== src/Views/Token/Opening.antt =====
-- src/oauthclientbridge/views.py, `token`, in two parts: as far as the read of the table, and the rest.
use oauthclientbridge.Base.{
  ℕ, String, ◌≡◌, refl, Option, none, some, List, arith, ◌⊎◌, inl, inr, subst, Option-cases,
}
use oauthclientbridge.Base.Dict.{get}
use oauthclientbridge.Base.Json.{Json, Object}
use oauthclientbridge.Base.Result.{
  Result, ok, err, Post, Post-bind, Post-weaken, Post-final, pure, ◌>>=◌,
}
use oauthclientbridge.Errors.{Exception}
use oauthclientbridge.App.{App, World, Row, Handler}
use oauthclientbridge.Client.{ClientCredentials, validate_credentials}
use oauthclientbridge.Crypto.{loads}
use oauthclientbridge.Db
use oauthclientbridge.Db.{TokenRecord, find, update_rows, stored}
use oauthclientbridge.Web.{Request, WebResponse}
use oauthclientbridge.Views.Token.Refusals.{find_record_lem}
use oauthclientbridge.Views.Token.Updates.{Updated, Ends, revoked-Steady, serve_stored-Ends}
use oauthclientbridge.Views.Token.{
  read_credentials, accept, find_record, serve_token, serve_stored, revoked, readable, token,
  refresh,
}

-- A token request whose record was read.
pub record Opened : Type 0 where
  pub request : Request
  pub credentials : ClientCredentials
  pub found : TokenRecord

-- A request whose stored token has a refresh token.
pub record Refreshes (w : World) (o : Opened) (old : Object) (v : Json) : Type 0 where
  pub encrypted : String
  pub read : o.found.encrypted_token ≡ some encrypted
  pub decrypted : loads w o.credentials.client_secret encrypted ≡ ok old
  pub refreshable : get "refresh_token" old ≡ some v

-- What a request has shown when its record was read: valid credentials, of a row that stood in the
-- table with this token.
pub record IsOpened (w : World) (req : Request) (a : App) (o : Opened) : Type 0 where
  pub request : o.request ≡ req
  pub id : Option String
  pub secret : Option String
  pub given : (read_credentials req a).0 ≡ ok (id, secret)
  pub valid : validate_credentials w id secret ≡ ok o.credentials
  pub row : Row
  pub held : find o.credentials.client_id a.tokens ≡ some row
  pub read : o.found.encrypted_token ≡ stored row.token

-- A write of the rest of a request: its secret decrypts the token that was read, and one row is
-- updated.
pub record IsWrite (w : World) (o : Opened) (rows new : List Row) : Type 0 where
  pub encrypted : String
  pub read : o.found.encrypted_token ≡ some encrypted
  pub value : Object
  pub decrypted : loads w o.credentials.client_secret encrypted ≡ ok value
  pub token : Option String
  pub now : ℕ
  pub written : new ≡ update_rows o.credentials.client_id token now rows

module _ (w : World) where
  -- `token`, as far as `db.lookup`.
  unfoldable pub open_token : Request → Handler Opened
  unfolding accept find_record
  open_token req = do
    given ← read_credentials req
    c ← accept (validate_credentials w given.0 given.1)
    r ← find_record w c.client_id
    pure (record { request = req; credentials = c; found = r })

  -- The rest of `token`.
  unfoldable pub close_token : Opened → Handler WebResponse
  unfolding serve_token
  close_token o = serve_token w o.request o.credentials o.found o.found.encrypted_token

  -- The parts make up the handler.
  pub token-open_token :
      (req : Request) (a : App) → token w req a ≡ (open_token req >>= close_token) a
  unfolding token open_token close_token
  token-open_token req a = ground arith

  read_credentials-tokens : (req : Request) (a : App) → (read_credentials req a).1.tokens ≡ a.tokens
  unfolding read_credentials
  read_credentials-tokens req a = ground arith

  Post-result :
      {A : Type 0} (rows : List Row) (x : Result Exception A × App)
      → x.1.tokens ≡ rows
      → Post (λ v a. (x.0 ≡ ok v) × (a.tokens ≡ rows)) (λ a. a.tokens ≡ rows) x
  Post-result rows (ok v, a) h = record { at = (refl, h) }
  Post-result rows (err e, a) h = record { at = h }

  module _ (rows : List Row) where
    accept-rows :
        (x : Result Exception ClientCredentials) (a : App)
        → a.tokens ≡ rows
        → Post (λ c a'. (x ≡ ok c) × (a'.tokens ≡ rows)) (λ a'. a'.tokens ≡ rows) (accept x a)
    unfolding accept
    accept-rows x a h = ground arith

    find_record-rows :
        (id : String) (a : App)
        → a.tokens ≡ rows
        → Post
            (λ r a'.
              ((row : Row) × ((find id rows ≡ some row) × (r.encrypted_token ≡ stored row.token)))
              × (a'.tokens ≡ rows))
            (λ a'. a'.tokens ≡ rows)
            (find_record w id a)
    find_record-rows id a h = elim (Option-cases (w.fault a.statements)) [
      | inr (error, faulty) ↦ unfold find_record in unfold Db.lookup in ground arith
      | inl fine ↦ elim (Option-cases (find id a.tokens)) [
        | inl missing ↦ unfold find_record in unfold Db.lookup in ground arith
        | inr (row, found) ↦
            rw (find_record_lem w id a row fine found)
              (record { at = ((row, (subst (λ rs. find id rs ≡ some row) h found, refl)), h) })
      ]
    ]

  -- What is opened was read from the table, which stays as it was.
  pub open_token-IsOpened :
      (req : Request) (a : App)
      → Post
          (λ o a'. IsOpened w req a o × (a'.tokens ≡ a.tokens))
          (λ a'. a'.tokens ≡ a.tokens)
          (open_token req a)
  unfolding open_token
  open_token-IsOpened req a =
      Post-bind (read_credentials req) _ a
        (Post-result a.tokens (read_credentials req a) (read_credentials-tokens req a))
        λ given a₁ g.
          Post-bind (accept (validate_credentials w given.0 given.1)) _ a₁
            (accept-rows a.tokens (validate_credentials w given.0 given.1) a₁ g.1)
            λ c a₂ v.
              Post-bind (find_record w c.client_id) _ a₂
                (find_record-rows a.tokens c.client_id a₂ v.1)
                λ r a₃ f. record {
                  at = (
                    record {
                      request = refl;
                      id = given.0;
                      secret = given.1;
                      given = g.0;
                      valid = v.0;
                      row = f.0.0;
                      held = f.0.1.0;
                      read = f.0.1.1;
                    },
                    f.1,
                  );
                }

  module _ (o : Opened) (rows : List Row) where
    abbrev Wrote : App → Type 0
    Wrote a = (a.tokens ≡ rows) ⊎ IsWrite w o rows a.tokens

    readable-Wrote :
        (x : Result Exception Object) (a : App)
        → a.tokens ≡ rows
        → Post (λ d a'. (x ≡ ok d) × (a'.tokens ≡ rows)) Wrote (readable x a)
    unfolding readable
    readable-Wrote x a h = ground arith

    Ends-Wrote :
        (encrypted : String) (value : Object) (x : Result Exception WebResponse × App)
        → o.found.encrypted_token ≡ some encrypted
        → loads w o.credentials.client_secret encrypted ≡ ok value
        → Ends o.credentials.client_id rows x
        → Post (λ _ a. Wrote a) Wrote x
    Ends-Wrote encrypted value x read decrypted h = Post-weaken x (λ _ a. weaken a) weaken h
      where
        weaken : (a : App) → Updated o.credentials.client_id rows a → Wrote a
        weaken a (inl e) = inl e
        weaken a (inr (t, (now, e))) = inr (record {
          encrypted = encrypted;
          read = read;
          value = value;
          decrypted = decrypted;
          token = t;
          now = now;
          written = e;
        })

    serve_token-Wrote :
        (v : Option String) (a : App)
        → a.tokens ≡ rows
        → o.found.encrypted_token ≡ v
        → Post (λ _ a'. Wrote a') Wrote (serve_token w o.request o.credentials o.found v a)
    unfolding serve_token
    serve_token-Wrote none a h read =
        Post-weaken (revoked w o.request a) (λ _ a₁ e. inl (ground arith))
          (λ a₁ e. inl (ground arith)) (revoked-Steady w o.request a)
    serve_token-Wrote (some encrypted) a h read =
        Post-bind (readable (loads w o.credentials.client_secret encrypted)) _ a
          (readable-Wrote (loads w o.credentials.client_secret encrypted) a h)
          λ value a₁ k.
            let next : Option Json = get "refresh_token" value in
            Ends-Wrote encrypted value (serve_stored w o.credentials o.found value next a₁) read k.0
              (subst
                (λ rs.
                  Ends o.credentials.client_id rs
                    (serve_stored w o.credentials o.found value next a₁))
                k.1 (serve_stored-Ends w o.credentials o.found value next a₁))

  -- The rest of a request leaves the table, or writes a row whose token its secret decrypts, whatever
  -- the table holds by then.
  pub close_token-IsWrite :
      (o : Opened) (a : App)
      → ((close_token o a).1.tokens ≡ a.tokens) ⊎ IsWrite w o a.tokens (close_token o a).1.tokens
  unfolding close_token
  close_token-IsWrite o a =
      Post-final (close_token o a)
        (serve_token-Wrote o a.tokens o.found.encrypted_token a refl refl)

  pub close_token-refresh :
      (o : Opened) (old : Object) (v : Json) (a : App)
      → Refreshes w o old v
      → close_token o a ≡ refresh w o.credentials o.found old v a
  unfolding close_token serve_token readable serve_stored
  close_token-refresh o old v a h = rw (h.read, h.decrypted, h.refreshable) refl
