-- ===== src/Views/Token/Refreshed.antt =====
-- src/oauthclientbridge/views.py, `token`: a refresh that works.
use oauthclientbridge.Base.{
  ℕ, ◌≡◌, ap, refl, arith, String, true, false, none, some, if◌then◌else◌, List,
}
use oauthclientbridge.Base.Dict.{has}
use oauthclientbridge.Base.Json.{Json, Object}
use oauthclientbridge.Base.Result.{ok, err}
use oauthclientbridge.Errors.{database_error}
use oauthclientbridge.App.{App, World, Row}
use oauthclientbridge.Client.{ClientCredentials}
use oauthclientbridge.Crypto.{dumps}
use oauthclientbridge.Db
use oauthclientbridge.Db.{TokenRecord, find, stored, update_rows}
use oauthclientbridge.Outcome.{validate_token}
use oauthclientbridge.Web.{jsonify}
use oauthclientbridge.Views.Token.{
  refresh, refreshed, save, served, modified_by, same_object, refresh_failed,
}
use oauthclientbridge.Views.Token.Dead.{asked}

module _ (w : World) (c : ClientCredentials) (r : TokenRecord) (old answer : Object) where
  -- The text that a refresh writes, at a state of the encryption.
  abbrev pub sealed : ℕ → String
  sealed n = w.encrypt n c.client_secret (w.json_dumps (modified_by old answer))

  -- The rows after a refresh that works.
  abbrev pub rows_after : App → List Row
  rows_after a =
      if same_object old (modified_by old answer)
      then a.tokens
      else update_rows c.client_id (some (sealed a.encryptions)) (w.utcnow a.statements) a.tokens

  save_lem :
      (a : App)
      → w.valid_key c.client_secret ≡ true
      → w.fault a.statements ≡ none
      → ((save w c old (modified_by old answer) a).0 ≡ ok tt)
        × ((save w c old (modified_by old answer) a).1.tokens ≡ rows_after a)
  unfolding save dumps Db.update
  save_lem a valid fine = ground arith

  refreshed_lem :
      (a : App)
      → validate_token answer ≡ true
      → w.valid_key c.client_secret ≡ true
      → w.fault a.statements ≡ none
      → ((refreshed w c r old answer a).0 ≡ ok (jsonify (served old answer)))
        × ((refreshed w c r old answer a).1.tokens ≡ rows_after a)
  unfolding refreshed
  refreshed_lem a good valid fine =
      rw (good, (save_lem a valid fine).0) (refl, (save_lem a valid fine).1)

  refreshed-fault :
      (a : App) (fault : String)
      → validate_token answer ≡ true
      → same_object old (modified_by old answer) ≡ false
      → w.valid_key c.client_secret ≡ true
      → w.fault a.statements ≡ some fault
      → ((refreshed w c r old answer a).0 ≡ err (database_error fault))
        × ((refreshed w c r old answer a).1.tokens ≡ a.tokens)
  unfolding refreshed save dumps Db.update
  refreshed-fault a fault good changed valid h = ground arith

  module _ (v : Json) (a : App) where
    refresh-refreshed :
        (asked w c r old v a answer).0 ≡ ok answer
        → has "error" answer ≡ false
        → refresh w c r old v a ≡ refreshed w c r old answer (asked w c r old v a answer).1
    unfolding refresh
    refresh-refreshed ok_answer clean = rw ok_answer (
        ap
          (λ b.
            (if b then refresh_failed w c.client_id answer else refreshed w c r old answer)
              (asked w c r old v a answer).1)
          clean)

    -- A refresh that the provider answers with a token: the client gets this answer without the
    -- refresh token, and the row holds, encrypted under the secret, what the answer changed; where it
    -- changed nothing, or where the database fails, no row is written, and a failure is raised in
    -- place of the token.
    pub refresh_lem :
        (asked w c r old v a answer).0 ≡ ok answer
        → has "error" answer ≡ false
        → validate_token answer ≡ true
        → w.valid_key c.client_secret ≡ true
        → (w.fault a.statements ≡ none
            → ((refresh w c r old v a).0 ≡ ok (jsonify (served old answer)))
              × ((refresh w c r old v a).1.tokens ≡ rows_after a))
          × ((fault : String)
              → w.fault a.statements ≡ some fault
              → same_object old (modified_by old answer) ≡ false
              → ((refresh w c r old v a).0 ≡ err (database_error fault))
                × ((refresh w c r old v a).1.tokens ≡ a.tokens))
    refresh_lem ok_answer clean good valid = rw (refresh-refreshed ok_answer clean) (
      refreshed_lem (asked w c r old v a answer).1 good valid,
      λ fault h changed. refreshed-fault (asked w c r old v a answer).1 fault good changed valid h,
    )

    -- A refresh that changes nothing writes nothing, even where the database fails.
    pub refresh-same :
        (asked w c r old v a answer).0 ≡ ok answer
        → has "error" answer ≡ false
        → validate_token answer ≡ true
        → same_object old (modified_by old answer) ≡ true
        → (refresh w c r old v a).1.tokens ≡ a.tokens
    unfolding refreshed save
    refresh-same ok_answer clean good same = rw (refresh-refreshed ok_answer clean, good, same) refl
