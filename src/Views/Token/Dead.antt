-- ===== src/Views/Token/Dead.antt =====
-- src/oauthclientbridge/views.py, `token`: a refresh that the provider answers with an error.
use oauthclientbridge.Base.{false}
use oauthclientbridge.Base.{◌≡◌, ap, refl, arith, String, true, none, if◌then◌else◌}
use oauthclientbridge.Base.Dict.{get, has}
use oauthclientbridge.Base.Json.{Json, Object, or_null}
use oauthclientbridge.Fetch.{fetch}
use oauthclientbridge.Base.Result.{Result, ok}
use oauthclientbridge.Errors.{Exception, invalid_grant}
use oauthclientbridge.App.{App, World, upstream}
use oauthclientbridge.Client.{ClientCredentials}
use oauthclientbridge.Db
use oauthclientbridge.Db.{TokenRecord, find, stored, update_rows}
use oauthclientbridge.Outcome.Classes.{invalidate-error}
use oauthclientbridge.Views.Token.{
  fail, refresh, refresh_outcome, refresh_uri, refresh_form, failure_of, refresh_failed, refreshed,
  raised, drop_dead,
}

module _ (w : World) where
  failure_of-dead :
      (answer : Object)
      → (refresh_outcome w answer).invalidate_refresh_token ≡ true
      → failure_of w answer ≡ invalid_grant
  unfolding refresh_outcome
  failure_of-dead answer h =
      rw
        (
          failure_of,
          invalidate-error w.provider.render w.settings.fetch.retry_status_codes
              w.settings.fetch.error_types (if has "error" answer then 400 else 200) answer h,
        )
        refl

  drop_dead_lem :
      (id : String) (answer : Object) (a : App)
      → (refresh_outcome w answer).invalidate_refresh_token ≡ true
      → w.fault a.statements ≡ none
      → ((drop_dead w id answer a).0 ≡ ok tt)
        × ((drop_dead w id answer a).1.tokens
            ≡ update_rows id none (w.utcnow a.statements) a.tokens)
  unfolding drop_dead Db.update
  drop_dead_lem id answer a dead fine = ground arith

  module _ (c : ClientCredentials) (r : TokenRecord) (old : Object) (v : Json) (a : App)
      (answer : Object) where
    -- The provider's answer to the refresh, and the state after it.
    abbrev pub asked : Result Exception Object × App
    asked =
        upstream (fetch w.provider w.settings.fetch (refresh_uri w) "refresh" (refresh_form w v)) a

    refresh-failed :
        asked.0 ≡ ok answer
        → has "error" answer ≡ true
        → refresh w c r old v a ≡ refresh_failed w c.client_id answer asked.1
    unfolding refresh
    refresh-failed ok_answer failed = rw ok_answer (
        ap
          (λ b.
            (if b then refresh_failed w c.client_id answer else refreshed w c r old answer) asked.1)
          failed)

    refresh_failed-dead :
        (a' : App)
        → (refresh_outcome w answer).invalidate_refresh_token ≡ true
        → w.fault a'.statements ≡ none
        → ((refresh_failed w c.client_id answer a').0
            ≡ raised invalid_grant
                (or_null (get "error_description" answer))
                (or_null (get "error_uri" answer))
                (or_null (get "retry_after" answer)))
          × ((refresh_failed w c.client_id answer a').1.tokens
              ≡ update_rows c.client_id none (w.utcnow a'.statements) a'.tokens)
    unfolding refresh_failed fail
    refresh_failed-dead a' dead fine = (
      rw ((drop_dead_lem c.client_id answer a' dead fine).0, failure_of-dead answer dead) refl,
      rw (drop_dead_lem c.client_id answer a' dead fine).0
          (drop_dead_lem c.client_id answer a' dead fine).1,
    )

    -- A provider that answers a refresh with an error that ends the grant costs the row its token,
    -- if the database works: the client gets `invalid_grant` with the provider's text, and no other
    -- row changes.
    pub refresh-invalid_grant :
        asked.0 ≡ ok answer
        → has "error" answer ≡ true
        → (refresh_outcome w answer).invalidate_refresh_token ≡ true
        → w.fault a.statements ≡ none
        → ((refresh w c r old v a).0
            ≡ raised invalid_grant
                (or_null (get "error_description" answer))
                (or_null (get "error_uri" answer))
                (or_null (get "retry_after" answer)))
          × ((refresh w c r old v a).1.tokens
              ≡ update_rows c.client_id none (w.utcnow a.statements) a.tokens)
    refresh-invalid_grant ok_answer failed dead fine =
        rw (refresh-failed ok_answer failed) (refresh_failed-dead asked.1 dead fine)

    -- An error that does not end the grant leaves every row.
    pub refresh-alive :
        asked.0 ≡ ok answer
        → has "error" answer ≡ true
        → (refresh_outcome w answer).invalidate_refresh_token ≡ false
        → (refresh w c r old v a).1.tokens ≡ a.tokens
    unfolding refresh_failed drop_dead fail
    refresh-alive ok_answer failed alive = rw (refresh-failed ok_answer failed, alive) refl
