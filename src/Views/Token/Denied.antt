-- ===== src/Views/Token/Denied.antt =====
-- src/oauthclientbridge/views.py, `token`: a whole request whose refresh the provider answers with an
-- error.
use oauthclientbridge.Base.{
  ℕ, ◌⊎◌, ◌+◌, ◌≡◌, ◌≢◌, ◌∙◌, sym, ap, refl, String, true, false, none, some, List, ◌==◌, arith,
  elem, eq_iff, eq_refl, subst, Bool-cases, inl, inr, if◌then◌else◌,
}
use oauthclientbridge.Base.Dict.{get, has}
use oauthclientbridge.Base.Json.{Json, str, Object, or_null}
use oauthclientbridge.Base.Result.{ok}
use oauthclientbridge.Errors.{OAuthError, value, invalid_grant, is_error, among, from_value}
use oauthclientbridge.Errors.Codes.{is_error_lem, from_value_iff}
use oauthclientbridge.App.{App, World, Row}
use oauthclientbridge.Client.{ClientCredentials}
use oauthclientbridge.Db.{find, update_rows}
use oauthclientbridge.Db.Table.{find-update_rows}
use oauthclientbridge.Outcome.{normalize_error, token_errors, text_of}
use oauthclientbridge.Outcome.Normalize.{normalize_error_lem}
use oauthclientbridge.Outcome.Classes.{invalidate_iff}
use oauthclientbridge.Web.{Request}
use oauthclientbridge.Views.Token.{token, refresh_outcome, raised}
use oauthclientbridge.Views.Token.Dead.{asked, refresh-alive, refresh-invalid_grant}
use oauthclientbridge.Views.Token.Endpoint.{IsRefreshing, looked_up, record_read, token-refresh}

module _ (w : World) (answer : Object) (code : String)
    (found : get "error" answer ≡ some (str code))
    (plain : get code w.settings.fetch.error_types ≡ none) where
  abbrev normalized : OAuthError
  normalized =
      normalize_error code token_errors OAuthError.server_error w.settings.fetch.error_types

  normalized-cases : (normalized ≡ OAuthError.server_error) ⊎ (from_value code ≡ some normalized)
  unfolding normalize_error
  normalized-cases = ground arith

  normalized-dead : code ≡ "invalid_grant" → is_error normalized invalid_grant ≡ true
  unfolding among is_error value
  normalized-dead h =
      let (_, member, _) =
        normalize_error_lem code token_errors OAuthError.server_error invalid_grant
          w.settings.fetch.error_types refl in
      subst (λ e. is_error e invalid_grant ≡ true)
        (sym (member plain ((from_value_iff code invalid_grant).1 (sym h)))) refl

  normalized-alive : is_error normalized invalid_grant ≡ true → code ≡ "invalid_grant"
  unfolding is_error value
  normalized-alive h = elim normalized-cases [
    | inl fallback ↦
        absurd (ground (arith, subst (λ e. is_error e invalid_grant ≡ true) fallback h))
    | inr known ↦
        sym ((from_value_iff code normalized).0 known)
        ∙ ap value (is_error_lem normalized invalid_grant h)
  ]

  failed : has "error" answer ≡ true
  unfolding has
  failed = rw found refl

  -- The handler reads the answer as one of status 400.
  dead :
      code ≡ "invalid_grant"
      → elem 400 w.settings.fetch.retry_status_codes ≡ false
      → (refresh_outcome w answer).invalidate_refresh_token ≡ true
  unfolding refresh_outcome
  dead h final = rw failed (
      (invalidate_iff w.provider.render w.settings.fetch.retry_status_codes
          w.settings.fetch.error_types 400 answer).1
        (refl, final, (str code, found, normalized-dead h)))

  invalidated : (refresh_outcome w answer).invalidate_refresh_token ≡ true → code ≡ "invalid_grant"
  unfolding refresh_outcome
  invalidated h =
      let (_, _, (v, at, same)) =
        (invalidate_iff w.provider.render w.settings.fetch.retry_status_codes
            w.settings.fetch.error_types (if has "error" answer then 400 else 200) answer).0
          h in
      normalized-alive (
        subst
          (λ u.
            is_error
              (normalize_error (text_of w.provider.render u) token_errors OAuthError.server_error
                w.settings.fetch.error_types)
              invalid_grant
            ≡ true)
          (same_json at) same)
    where
      same_json : {v : Json} → get "error" answer ≡ some v → v ≡ str code
      same_json at = cc (found, at)

  alive : code ≢ "invalid_grant" → (refresh_outcome w answer).invalidate_refresh_token ≡ false
  alive h = elim (Bool-cases (refresh_outcome w answer).invalidate_refresh_token) [
    | inr kept ↦ kept
    | inl lost ↦ absurd (h (invalidated lost))
  ]

-- What the end of a grant leaves in the table: the row of `id` without its token, and the other rows.
pub record IsDropped (id : String) (row : Row) (now : ℕ) (rows new : List Row) : Type 0 where
  pub dropped : find id new ≡ some (record row { token = none; last_updated_at = some now })
  pub others : (other : String) → other ≢ id → find other new ≡ find other rows

update_rows-IsDropped :
    (id : String) (row : Row) (now : ℕ) (rows new : List Row)
    → find id rows ≡ some row
    → new ≡ update_rows id none now rows
    → IsDropped id row now rows new
update_rows-IsDropped id row now rows new found written = record {
  dropped =
      ap (find id) written ∙ (find-update_rows id id none now rows ∙ rw (eq_refl id, found) refl);
  others = λ other apart.
      ap (find other) written
      ∙ (find-update_rows id other none now rows ∙ rw (apart_lem other apart) refl);
}
  where
    apart_lem : (other : String) → other ≢ id → id == other ≡ false
    apart_lem other apart = ground (arith, eq_iff id other)

-- A token request whose stored token is refreshed, and for which `fetch` ends with an error, a text
-- that the settings do not translate, where 400 is not a retried status and the database works. If the
-- error is `invalid_grant`, then, whatever the status was that it came with, the client gets
-- `invalid_grant` with the text that came with it, its row loses the token, and no other row changes.
-- At any other error no row changes.
pub token-denied :
    (w : World) (req : Request) (a : App) (c : ClientCredentials) (old answer : Object) (v : Json)
    (code : String) (h : IsRefreshing w req a c old v)
    → (asked w c (record_read w req a c old v h) old v (looked_up w req a c old v h) answer).0
      ≡ ok answer
    → get "error" answer ≡ some (str code)
    → get code w.settings.fetch.error_types ≡ none
    → elem 400 w.settings.fetch.retry_status_codes ≡ false
    → w.fault (a.statements + 1) ≡ none
    → (code ≡ "invalid_grant"
        → ((token w req a).0
            ≡ raised invalid_grant
                (or_null (get "error_description" answer))
                (or_null (get "error_uri" answer))
                (or_null (get "retry_after" answer)))
          × IsDropped c.client_id h.row
              (w.utcnow (a.statements + 1))
              a.tokens
              (token w req a).1.tokens)
      × (code ≢ "invalid_grant" → (token w req a).1.tokens ≡ a.tokens)
token-denied w req a c old answer v code h answered found plain final fine = (
  λ dies.
      let (raises, written) =
        refresh-invalid_grant w c (record_read w req a c old v h) old v
          (looked_up w req a c old v h) answer answered (failed w answer code found plain)
          (dead w answer code found plain dies final) fine in
      rw (token-refresh w req a c old v h)
        (raises, update_rows-IsDropped c.client_id h.row _ a.tokens _ h.found written),
  λ lives. rw (token-refresh w req a c old v h) (
      refresh-alive w c (record_read w req a c old v h) old v (looked_up w req a c old v h) answer
        answered (failed w answer code found plain) (alive w answer code found plain lives)),
)
