-- ===== src/Views/Token/Refusals.antt =====
-- src/oauthclientbridge/views.py, `token`: who is refused.
use oauthclientbridge.Base.{
  ◌≢◌, ◌∙◌, true, false, ◌||◌, not, ◌==◌, eq_iff, Option-cases, Bool-cases, [], ◌∷◌, ◌+◌, ◌≡◌, ◌⊎◌,
  refl, inl, inr, arith, String, Option, none, some,
}
use oauthclientbridge.Base.Json.{num, null, str}
use oauthclientbridge.Base.Result.{Result, ok, err}
use oauthclientbridge.Errors.{
  Exception, error, invalid_client, invalid_grant, client_secret_invalid, invalid_token,
  value_error,
}
use oauthclientbridge.App.{App, World, Row}
use oauthclientbridge.Client.{ClientCredentials, validate_credentials}
use oauthclientbridge.Crypto.{loads}
use oauthclientbridge.Db
use oauthclientbridge.Db.{TokenRecord, find, stored, update_rows}
use oauthclientbridge.Web.{Request, WebResponse, jsonify}
use oauthclientbridge.Views.Token.{
  read_credentials, accept, find_record, serve_token, revoked, revoked_grant_workaround_response,
  readable, token, fail,
}

module _ (w : World) where
  -- The record of a row that is found without a fault of the database.
  pub find_record_lem :
      (id : String) (a : App) (row : Row)
      → w.fault a.statements ≡ none
      → find id a.tokens ≡ some row
      → find_record w id a ≡ (
        ok (record {
          client_id = id;
          encrypted_token = stored row.token;
          created_at = row.created_at;
          last_updated_at = row.last_updated_at;
        }),
        record a { statements = a.statements + 1 },
      )
  unfolding find_record Db.lookup
  find_record_lem id a row fine found = ground arith

  abbrev not_known : Result Exception WebResponse
  not_known = err (error invalid_client (str "Client not known.") null null)

  find_record-unknown :
      (id : String) (a : App)
      → w.fault a.statements ≡ none
      → find id a.tokens ≡ none
      → find_record w id a ≡ (
        err (error invalid_client (str "Client not known.") null null),
        record a { statements = a.statements + 1 },
      )
  unfolding find_record Db.lookup fail
  find_record-unknown id a fine missing = ground arith

  loads-fails :
      (key text : String) (e : Exception)
      → loads w key text ≡ err e
      → (e ≡ invalid_token) ⊎ (e ≡ value_error)
  unfolding loads
  loads-fails key text e h = ground arith

  serve_token-unreadable :
      (req : Request) (c : ClientCredentials) (r : TokenRecord) (encrypted : String) (e : Exception)
      (a : App)
      → loads w c.client_secret encrypted ≡ err e
      → serve_token w req c r (some encrypted) a ≡ (not_known, a)
  unfolding serve_token readable fail
  serve_token-unreadable req c r encrypted e a h =
      elim (loads-fails c.client_secret encrypted e h) [
        | inl p ↦ ground arith
        | inr p ↦ ground arith
      ]

  module _ (req : Request) (a : App) where
    read_credentials-same : (read_credentials req a).1 ≡ a
    unfolding read_credentials
    read_credentials-same = ground arith

    -- The ways to have no right to a token, behind a well-formed identifier.
    pub data IsStranger (id secret : Option String) : Type 0 where
      malformed_secret :
          validate_credentials w id secret ≡ err client_secret_invalid → IsStranger id secret
      unknown_client :
          (c : ClientCredentials)
          → validate_credentials w id secret ≡ ok c
          → find c.client_id a.tokens ≡ none
          → IsStranger id secret
      wrong_secret :
          (c : ClientCredentials) (row : Row) (encrypted : String) (e : Exception)
          → validate_credentials w id secret ≡ ok c
          → find c.client_id a.tokens ≡ some row
          → stored row.token ≡ some encrypted
          → loads w c.client_secret encrypted ≡ err e
          → IsStranger id secret

    pub read_lem :
        (id secret : Option String)
        → (read_credentials req a).0 ≡ ok (id, secret)
        → read_credentials req a ≡ (ok (id, secret), a)
    read_lem id secret h = ground (arith, read_credentials-same)

    -- A malformed secret, an unknown identifier and a secret that does not decrypt the stored token
    -- raise one and the same error, if the database works.
    pub token-not_known :
        (id secret : Option String)
        → w.fault a.statements ≡ none
        → (read_credentials req a).0 ≡ ok (id, secret)
        → IsStranger id secret
        → (token w req a).0 ≡ err (error invalid_client (str "Client not known.") null null)
    unfolding token accept fail
    token-not_known id secret fine given (malformed_secret bad) =
        rw (read_lem id secret given, bad) refl
    token-not_known id secret fine given (unknown_client c valid missing) =
        rw (read_lem id secret given, valid, find_record-unknown c.client_id a fine missing) refl
    token-not_known id secret fine given (wrong_secret c row encrypted e valid found held fails) =
        rw
          (
            read_lem id secret given,
            valid,
            find_record_lem c.client_id a row fine found,
            held,
            serve_token-unreadable req c
                (record {
                  client_id = c.client_id;
                  encrypted_token = some encrypted;
                  created_at = row.created_at;
                  last_updated_at = row.last_updated_at;
                })
                encrypted e (record a { statements = a.statements + 1 }) fails,
          )
          refl

    abbrev gone_answer : Result Exception WebResponse
    gone_answer = elim (revoked_grant_workaround_response w req) [
      | none ↦ err (error invalid_grant (str "Grant has been revoked.") null null)
      | some d ↦ ok (jsonify d)
    ]

    -- The workaround is configured, and its pattern is found in the request's user agent.
    pub record IsExcused : Type 0 where
      pub agents : String
      pub configured : w.settings.revoked_grant_workaround_user_agents ≡ some agents
      pub nonempty : agents ≢ ""
      pub named : req.user_agent ≢ ""
      pub matches : w.search agents req.user_agent ≡ true

    abbrev workaround : Result Exception WebResponse
    workaround = ok (
        jsonify (
          ("access_token", str w.settings.revoked_grant_workaround_access_token)
          ∷ ("token_type", str "Bearer")
          ∷ ("expires_in", num w.settings.revoked_grant_workaround_expires_in)
          ∷ []))

    gone_answer-excused : IsExcused → gone_answer ≡ workaround
    unfolding revoked_grant_workaround_response
    gone_answer-excused h = ground (
      arith,
      h.configured,
      differs h.agents h.nonempty,
      differs req.user_agent h.named,
      h.matches,
    )
      where
        differs : (s : String) → s ≢ "" → s == "" ≡ false
        differs s n = ground (arith, eq_iff s "")

    gone_answer-refused :
        ¬ IsExcused
        → gone_answer ≡ err (error invalid_grant (str "Grant has been revoked.") null null)
    unfolding revoked_grant_workaround_response
    gone_answer-refused h = elim (Option-cases w.settings.revoked_grant_workaround_user_agents) [
      | inl missing ↦ ground arith
      | inr (agents, configured) ↦
          elim (Bool-cases
            (agents == "" || req.user_agent == "" || not (w.search agents req.user_agent))) [
              | inl skipped ↦ ground arith
              | inr passed ↦ absurd (
                  h (record {
                    agents = agents;
                    configured = configured;
                    nonempty = λ e. ground (arith, passed, eq_iff agents "", e);
                    named = λ e. ground (arith, passed, eq_iff req.user_agent "", e);
                    matches = ground (arith, passed);
                  }))
            ]
    ]

    serve_token-gone :
        (c : ClientCredentials) (r : TokenRecord) (a' : App)
        → let x = serve_token w req c r none a' in
          (x.1.net.requests ≡ a'.net.requests) × (x.1.tokens ≡ a'.tokens) × (x.0 ≡ gone_answer)
    unfolding serve_token revoked fail
    serve_token-gone c r a' = ground arith

    -- Valid credentials of a row whose token is gone get, if the database works, the workaround's
    -- token where the workaround is configured by a pattern that is not empty and that is found in a
    -- user agent that is not empty, and else `invalid_grant`; nothing is sent to the provider and no row
    -- is written.
    pub token-gone :
        (id secret : Option String) (c : ClientCredentials) (row : Row)
        → w.fault a.statements ≡ none
        → (read_credentials req a).0 ≡ ok (id, secret)
        → validate_credentials w id secret ≡ ok c
        → find c.client_id a.tokens ≡ some row
        → row.token ≡ none
        → ((token w req a).1.net.requests ≡ a.net.requests)
          × ((token w req a).1.tokens ≡ a.tokens)
          × (IsExcused → (token w req a).0 ≡ workaround)
          × (¬ IsExcused
              → (token w req a).0
                ≡ err (error invalid_grant (str "Grant has been revoked.") null null))
    unfolding token accept
    token-gone id secret c row fine given valid found gone =
        let (sent, kept, answered) =
          serve_token-gone c
            (record {
              client_id = c.client_id;
              encrypted_token = none;
              created_at = row.created_at;
              last_updated_at = row.last_updated_at;
            })
            (record a { statements = a.statements + 1 }) in
        rw (read_lem id secret given, valid, find_record_lem c.client_id a row fine found, gone)
          (
            sent,
            kept,
            λ excused. answered ∙ gone_answer-excused excused,
            λ refused. answered ∙ gone_answer-refused refused,
          )
