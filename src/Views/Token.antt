-- ===== src/Views/Token.antt =====
-- src/oauthclientbridge/views.py, `token`: the stored token, refreshed where it can be.
pub mod Secrets
pub mod Updates
pub mod Rows
pub mod Refusals
pub mod Dead
pub mod Served
pub mod Plain
pub mod Refreshed
pub mod Opening
pub mod Endpoint
pub mod Denied
pub mod Rotated
use oauthclientbridge.Base.{
  ℕ, String, Bool, true, false, ◌&&◌, ◌||◌, ◌==◌, not, Option, none, some, List, [], ◌∷◌, all,
  if◌then◌else◌,
}
use oauthclientbridge.Base.Dict.{Dict, get, has, put, keep, is_some}
use oauthclientbridge.Base.Json.{Json, null, num, str, Object, or_null, same}
use oauthclientbridge.Base.Result.{Result, pure, raise, lift, ok, err, ◌>>=◌, ◌>>◌}
use oauthclientbridge.Errors
use oauthclientbridge.Errors.{
  OAuthError, Exception, invalid_request, invalid_client, invalid_grant, invalid_scope,
  unsupported_grant_type, temporarily_unavailable, lookup_error, client_id_invalid,
  client_secret_invalid, credentials_invalid, invalid_token, type_error, value_error, describe,
}
use oauthclientbridge.App.{App, World, Handler, upstream, emit}
use oauthclientbridge.Client.{ClientCredentials, validate_credentials}
use oauthclientbridge.Crypto.{dumps, loads}
use oauthclientbridge.Db
use oauthclientbridge.Db.{TokenRecord}
use oauthclientbridge.Fetch.{fetch}
use oauthclientbridge.Outcome.{TokenEndpointOutcome, token_endpoint_outcome, validate_token}
use oauthclientbridge.Telemetry.{
  record_workaround, record_refresh_token_invalidation, observe_token_grant_age,
}
use oauthclientbridge.Web.{
  Authorization, absent, undecodable, scheme, Request, WebResponse, jsonify, scrub_refresh_token,
}

-- `oauth.Error(error, description, uri, retry_after)`, which looks a missing description up.
unfoldable pub raised : {A : Type 0} → OAuthError → Json → Json → Json → Result Exception A
unfolding describe
raised e given uri retry_after = elim (describe e given) [
  | ok description ↦ err (Exception.error e description uri retry_after)
  | err x ↦ err x
]

-- `raise` of it.
unfoldable pub fail : {A : Type 0} → OAuthError → Json → Json → Json → Handler A
unfolding raised
fail e given uri retry_after = lift (raised e given uri retry_after)

abbrev pub refuse : {A : Type 0} → OAuthError → String → Handler A
refuse e description = fail e (str description) null null

-- The truth of a text that may be None.
abbrev pub is_set : Option String → Bool
is_set none = false
is_set (some s) = not (s == "")

-- The checks of the grant, and the identifier and secret that the request gives.
abbrev given_credentials :
    Authorization → Option String → Option String → Handler (Option String × Option String)
given_credentials absent id secret = pure (id, secret)
given_credentials undecodable id secret = pure (id, secret)
given_credentials (scheme kind username password) id secret =
    if not (kind == "basic")
    then refuse invalid_client "Only Basic Auth is supported."
    else if is_set id || is_set secret
    then refuse invalid_request "More than one mechanism for authenticating set."
    else pure (username, password)

unfoldable pub read_credentials : Request → Handler (Option String × Option String)
unfolding fail
read_credentials req = elim (get "grant_type" req.form) [
  | none ↦ refuse unsupported_grant_type "Only \"client_credentials\" is supported."
  | some grant ↦
      if not (grant == "client_credentials")
      then refuse unsupported_grant_type "Only \"client_credentials\" is supported."
      else if has "scope" req.form
      then refuse invalid_scope "Setting scope is not supported."
      else given_credentials req.authorization (get "client_id" req.form)
          (get "client_secret" req.form)
]

-- The error that a refused pair of credentials is answered by.
accept : Result Exception ClientCredentials → Handler ClientCredentials
unfolding fail
accept (ok c) = pure c
accept (err client_id_invalid) = refuse invalid_client "Malformed client_id."
accept (err client_secret_invalid) = refuse invalid_client "Client not known."
accept (err (credentials_invalid message)) = refuse invalid_client message
accept (err e) = raise e

-- `except LookupError`; a KeyError is one too.
known : Result Exception TokenRecord → Handler TokenRecord
unfolding fail
known (ok r) = pure r
known (err lookup_error) = refuse invalid_client "Client not known."
known (err Exception.key_error) = refuse invalid_client "Client not known."
known (err e) = raise e

-- `except (crypto.InvalidToken, TypeError, ValueError)`
readable : Result Exception Object → Handler Object
unfolding fail
readable (ok d) = pure d
readable (err invalid_token) = refuse invalid_client "Client not known."
readable (err type_error) = refuse invalid_client "Client not known."
readable (err value_error) = refuse invalid_client "Client not known."
readable (err e) = raise e

-- `a == b` of dictionaries: the same keys with the same values.
abbrev pub same_value : Option Json → Json → Bool
same_value none v = false
same_value (some w) v = same w v

abbrev pub covers : Object → Object → Bool
covers a b = all (λ (e : String × Json). same_value (get e.0 a) e.1) b

unfoldable pub same_object : Object → Object → Bool
unfolding same
same_object a b = covers a b && covers b a

-- `del d[k]`
abbrev pub without : String → Object → Object
without k = keep (λ j. not (k == j))

-- Copies the scope of the stored token where the refreshed one has none.
unfoldable pub with_scope : Object → Object → Object
with_scope stored refreshed =
    if has "scope" refreshed
    then refreshed
    else elim (get "scope" stored) [ none ↦ refreshed | some v ↦ put "scope" v refreshed ]

-- What the table should hold after a refresh.
unfoldable pub modified_by : Object → Object → Object
unfolding scrub_refresh_token
modified_by stored refreshed = elim (get "refresh_token" refreshed) [
  | none ↦ scrub_refresh_token stored
  | some v ↦ put "refresh_token" v (scrub_refresh_token stored)
]

-- What the client gets of a refreshed token.
unfoldable pub served : Object → Object → Object
unfolding with_scope
served stored refreshed = without "refresh_token" (with_scope stored refreshed)

module _ (w : World) where
  -- `_revoked_grant_workaround_response`
  unfoldable pub revoked_grant_workaround_response : Request → Option Object
  revoked_grant_workaround_response req = elim w.settings.revoked_grant_workaround_user_agents [
    | none ↦ none
    | some agents ↦
        if agents == "" || req.user_agent == "" || not (w.search agents req.user_agent)
        then none
        else some (
            ("access_token", str w.settings.revoked_grant_workaround_access_token)
            ∷ ("token_type", str "Bearer")
            ∷ ("expires_in", num w.settings.revoked_grant_workaround_expires_in)
            ∷ [])
  ]

  -- A record whose token is gone.
  pub revoked : Request → Handler WebResponse
  unfolding revoked_grant_workaround_response fail
  revoked req = elim (revoked_grant_workaround_response req) [
    | some d ↦ do emit (record_workaround "revoked_grant"); pure (jsonify d)
    | none ↦ refuse invalid_grant "Grant has been revoked."
  ]

  abbrev pub refresh_uri : String
  refresh_uri = elim w.settings.oauth.refresh_uri [
    | none ↦ w.settings.oauth.token_uri
    | some uri ↦ if uri == "" then w.settings.oauth.token_uri else uri
  ]

  abbrev pub refresh_form : Json → Object
  refresh_form refresh_token =
      ("client_id", str w.settings.oauth.client_id)
      ∷ ("client_secret", str w.settings.oauth.client_secret)
      ∷ ("grant_type", str w.settings.oauth.grant_type)
      ∷ ("refresh_token", refresh_token)
      ∷ []

  unfoldable pub refresh_outcome : Object → TokenEndpointOutcome
  refresh_outcome answer =
      token_endpoint_outcome w.provider.render (some (if has "error" answer then 400 else 200))
        answer w.settings.fetch.retry_status_codes w.settings.fetch.error_types

  abbrev pub failure_of : Object → OAuthError
  failure_of answer = elim (refresh_outcome answer).normalized_error [
    | none ↦ OAuthError.server_error
    | some e ↦ e
  ]

  -- A dead refresh token is dropped from the table.
  drop_dead : String → Object → Handler (Unit {0})
  unfolding refresh_outcome
  drop_dead client_id answer =
      if (refresh_outcome answer).invalidate_refresh_token
      then Db.update w client_id none
        >> emit (record_refresh_token_invalidation (Errors.value (failure_of answer)))
      else pure tt

  -- The answer to a refresh that has an `error`: the error is passed on.
  refresh_failed : String → Object → Handler WebResponse
  unfolding drop_dead fail
  refresh_failed client_id answer = do
    drop_dead client_id answer
    fail (failure_of answer) (or_null (get "error_description" answer))
        (or_null (get "error_uri" answer)) (or_null (get "retry_after" answer))

  -- The write of a refresh that changed what is stored.
  save : ClientCredentials → Object → Object → Handler (Unit {0})
  unfolding same_object
  save c stored modified = if same_object stored modified then pure tt else do
    token ← dumps w c.client_secret modified
    Db.update w c.client_id (some token)
    pure tt

  refreshed : ClientCredentials → TokenRecord → Object → Object → Handler WebResponse
  unfolding save modified_by served fail
  refreshed c r stored answer =
      if not (validate_token answer)
      then refuse invalid_request "Invalid response from provider."
      else do
        save c stored (modified_by stored answer)
        emit (observe_token_grant_age r.created_at)
        pure (jsonify (served stored answer))

  pub refresh : ClientCredentials → TokenRecord → Object → Json → Handler WebResponse
  unfolding refreshed refresh_failed
  refresh c r stored refresh_token = do
    answer ←
        upstream
          (fetch w.provider w.settings.fetch refresh_uri "refresh" (refresh_form refresh_token))
    if has "error" answer then refresh_failed c.client_id answer else refreshed c r stored answer

  -- What the stored token says: a token that cannot be refreshed is the answer.
  pub serve_stored : ClientCredentials → TokenRecord → Object → Option Json → Handler WebResponse
  unfolding refresh
  serve_stored c r stored none = do
    emit (observe_token_grant_age r.created_at)
    pure (jsonify stored)
  serve_stored c r stored (some refresh_token) = refresh c r stored refresh_token

  -- A record that was found, by its encrypted token.
  serve_token : Request → ClientCredentials → TokenRecord → Option String → Handler WebResponse
  unfolding revoked readable serve_stored
  serve_token req c r none = revoked req
  serve_token req c r (some encrypted) = do
    stored ← readable (loads w c.client_secret encrypted)
    serve_stored c r stored (get "refresh_token" stored)

  pub find_record : String → Handler TokenRecord
  unfolding known
  find_record client_id a = let (found, a') = Db.lookup w client_id a in known found a'

  unfoldable pub token : Request → Handler WebResponse
  unfolding serve_token find_record accept read_credentials
  token req = do
    given ← read_credentials req
    c ← accept (validate_credentials w given.0 given.1)
    r ← find_record c.client_id
    serve_token req c r r.encrypted_token
