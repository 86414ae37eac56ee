-- ===== src/Views/Token/Endpoint.antt =====
-- src/oauthclientbridge/views.py, `token`: a whole request whose stored token is refreshed.
use oauthclientbridge.Base.{List, ◌∙◌}
use oauthclientbridge.Base.{◌+◌, ◌≡◌, refl, String, true, false, Option, none, some}
use oauthclientbridge.Base.Dict.{get, has}
use oauthclientbridge.Base.Json.{Json, Object}
use oauthclientbridge.Base.Result.{ok, err}
use oauthclientbridge.Errors.{database_error}
use oauthclientbridge.App.{App, World, Row}
use oauthclientbridge.Client.{ClientCredentials, validate_credentials}
use oauthclientbridge.Crypto.{loads}
use oauthclientbridge.Db.{TokenRecord, find, stored}
use oauthclientbridge.Outcome.{validate_token}
use oauthclientbridge.Web.{Request, jsonify}
use oauthclientbridge.Views.Token.{
  read_credentials, accept, serve_token, serve_stored, readable, token, refresh, served,
  modified_by, same_object,
}
use oauthclientbridge.Views.Token.Refreshed.{refresh_lem, refresh-same, rows_after, sealed}
use oauthclientbridge.Views.Token.Served.{
  or_else, is_volatile, get-served, get-modified_by, same_object-get,
}
use oauthclientbridge.Db.Table.{find-update_rows}
use oauthclientbridge.Base.{
  ◌≢◌, ◌⊎◌, inl, inr, Bool-cases, arith, eq_iff, eq_refl, ◌==◌, if◌then◌else◌,
}
use oauthclientbridge.Views.Token.Refusals.{find_record_lem, read_lem}
use oauthclientbridge.Views.Token.Dead.{asked}

-- A token request with valid credentials, whose row holds a token that the secret decrypts and that has
-- a refresh token; the database works at the lookup.
pub record IsRefreshing (w : World) (req : Request) (a : App) (c : ClientCredentials) (old : Object)
    (v : Json) : Type 0 where
  pub id : Option String
  pub secret : Option String
  pub given : (read_credentials req a).0 ≡ ok (id, secret)
  pub valid : validate_credentials w id secret ≡ ok c
  pub works : w.fault a.statements ≡ none
  pub row : Row
  pub found : find c.client_id a.tokens ≡ some row
  pub encrypted : String
  pub held : stored row.token ≡ some encrypted
  pub decrypted : loads w c.client_secret encrypted ≡ ok old
  pub refreshable : get "refresh_token" old ≡ some v

module _ (w : World) (req : Request) (a : App) (c : ClientCredentials) (old : Object) (v : Json)
    (h : IsRefreshing w req a c old v) where
  abbrev pub record_read : TokenRecord
  record_read = record {
    client_id = c.client_id;
    encrypted_token = some h.encrypted;
    created_at = h.row.created_at;
    last_updated_at = h.row.last_updated_at;
  }

  -- The state behind the lookup.
  abbrev pub looked_up : App
  looked_up = record a { statements = a.statements + 1 }

  serve_token-refresh :
      serve_token w req c record_read (some h.encrypted) looked_up
      ≡ refresh w c record_read old v looked_up
  unfolding serve_token readable serve_stored
  serve_token-refresh = rw (h.decrypted, h.refreshable) refl

  pub token-refresh : token w req a ≡ refresh w c record_read old v looked_up
  unfolding token accept
  token-refresh =
      rw
        (
          read_lem w req a h.id h.secret h.given,
          h.valid,
          find_record_lem w c.client_id a h.row h.works h.found,
          h.held,
        )
        serve_token-refresh

  -- What the client gets at a key: the provider's answer without its refresh token, with the stored
  -- scope where the answer has none.
  abbrev pub client_gets : Object → String → Option Json
  client_gets answer k =
      if "refresh_token" == k
      then none
      else if "scope" == k
      then or_else (get "scope" answer) (get "scope" old)
      else get k answer

  -- What is to be stored at a key: the answer's refresh token, or else the old one, and no access
  -- token, type or lifetime.
  abbrev pub row_keeps : Object → String → Option Json
  row_keeps answer k =
      if "refresh_token" == k
      then or_else (get "refresh_token" answer) (get "refresh_token" old)
      else if is_volatile k
      then none
      else get k old

  -- The row holds `kept` under the secret, and no other row changed.
  pub record IsWritten (answer : Object) (rows : List Row) : Type 0 where
    pub kept : Object
    pub keeps : (k : String) → get k kept ≡ row_keeps answer k
    pub written :
        find c.client_id rows
        ≡ some (record h.row {
          token = some (w.encrypt a.encryptions c.client_secret (w.json_dumps kept));
          last_updated_at = some (w.utcnow (a.statements + 1));
        })
    pub others : (id : String) → id ≢ c.client_id → find id rows ≡ find id a.tokens

  -- Nothing is to be changed in what is stored.
  abbrev pub IsSame : Object → Type 0
  IsSame answer = (k : String) → get k old ≡ row_keeps answer k

  same_object-IsSame :
      (answer : Object) → same_object old (modified_by old answer) ≡ true → IsSame answer
  same_object-IsSame answer same k =
      same_object-get old (modified_by old answer) same k ∙ get-modified_by k old answer

  rows_after-IsWritten :
      (answer : Object)
      → ((rows_after w c record_read old answer looked_up ≡ a.tokens) × IsSame answer)
        ⊎ IsWritten answer (rows_after w c record_read old answer looked_up)
  rows_after-IsWritten answer = elim (Bool-cases (same_object old (modified_by old answer))) [
    | inl same ↦ inl (rw same refl, same_object-IsSame answer same)
    | inr changed ↦ inr (record {
      kept = modified_by old answer;
      keeps = λ k. get-modified_by k old answer;
      written = rw changed (
          find-update_rows c.client_id c.client_id
            (some (sealed w c record_read old answer a.encryptions)) (w.utcnow (a.statements + 1))
            a.tokens
          ∙ rw (eq_refl c.client_id, h.found) refl);
      others = λ id other. rw changed (
          find-update_rows c.client_id id (some (sealed w c record_read old answer a.encryptions))
            (w.utcnow (a.statements + 1)) a.tokens
          ∙ rw (apart id other) refl);
    })
  ]
    where
      apart : (id : String) → id ≢ c.client_id → c.client_id == id ≡ false
      apart id other = ground (arith, eq_iff c.client_id id)

  -- A token request whose secret is a valid key, whose stored token is refreshed, and which the
  -- provider answers with a token. If the database works at the write, the client gets at each key the
  -- provider's answer, without its refresh token and with the stored scope where the answer has none;
  -- and its row holds, encrypted under its secret, the old token with the answer's refresh token where
  -- there is one, and without access token, type and lifetime, while no other row changes, or no row
  -- changes and the old token was just that. If the database fails at the write, no row changes, and
  -- the failure is raised or the old token was just that.
  pub token-refreshed :
      (answer : Object)
      → (asked w c record_read old v looked_up answer).0 ≡ ok answer
      → has "error" answer ≡ false
      → validate_token answer ≡ true
      → w.valid_key c.client_secret ≡ true
      → (w.fault (a.statements + 1) ≡ none
          → ((body : Object) × ((token w req a).0 ≡ ok (jsonify body))
              × ((k : String) → get k body ≡ client_gets answer k))
            × ((((token w req a).1.tokens ≡ a.tokens) × IsSame answer)
                ⊎ IsWritten answer (token w req a).1.tokens))
        × ((fault : String)
            → w.fault (a.statements + 1) ≡ some fault
            → ((token w req a).1.tokens ≡ a.tokens)
              × (((token w req a).0 ≡ err (database_error fault)) ⊎ IsSame answer))
  token-refreshed answer answered clean good valid =
      let (fine, failing) =
        refresh_lem w c record_read old answer v looked_up answered clean good valid in
      (
        λ works. rw token-refresh (
          (served old answer, (fine works).0, λ k. get-served k old answer),
          rw (fine works).1 (rows_after-IsWritten answer),
        ),
        λ fault broken.
            rw token-refresh (elim (Bool-cases (same_object old (modified_by old answer))) [
              | inr changed ↦
                  ((failing fault broken changed).1, inl (failing fault broken changed).0)
              | inl same ↦ (
                refresh-same w c record_read old answer v looked_up answered clean good same,
                inr (same_object-IsSame answer same),
              )
            ]),
      )
