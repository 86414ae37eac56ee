-- ===== src/Tests/Sharing.antt =====
-- src/oauthclientbridge/views.py: two processes that refresh one token at the same time, of a provider
-- that accepts a refresh token once, and a request that such a process serves alone.
use oauthclientbridge.Base.{◌≢◌}
use oauthclientbridge.Base.Json.{Object}
use oauthclientbridge.Base.{
  String, ℕ, zero, suc, ◌≡◌, ◌⊎◌, refl, arith, true, false, none, some, List, [], ◌∷◌, ◌==◌,
  if◌then◌else◌,
}
use oauthclientbridge.Base.Dict.{get, has, put, keep}
use oauthclientbridge.Base.Json.{truthy, str, null}
use oauthclientbridge.Base.Result.{ok, err}
use oauthclientbridge.Errors
use oauthclientbridge.Errors.{database_error, invalid_grant}
use oauthclientbridge.Client.{validate_credentials}
use oauthclientbridge.App.{App, World, Row}
use oauthclientbridge.Crypto.{validate_key, loads, normalize_base64_padding}
use oauthclientbridge.Db.{find}
use oauthclientbridge.Fetch.{fetch}
use oauthclientbridge.Outcome.{validate_token}
use oauthclientbridge.Web.{scrub_refresh_token, jsonify}
use oauthclientbridge.Views.Token.{
  same_object, modified_by, refresh_outcome, read_credentials, token, raised,
}
use oauthclientbridge.Views.Token.Endpoint.{
  IsRefreshing, token-refreshed, client_gets, IsSame, IsWritten,
}
use oauthclientbridge.Views.Token.Denied.{token-denied, IsDropped}
use oauthclientbridge.Views.Token.Opening.{Opened, Refreshes}
use oauthclientbridge.Views.Token.Dead.{asked}
use oauthclientbridge.Workers.{Cluster, Process, Act, begin_token, end_token, run, view}
use oauthclientbridge.Workers.Owned.{Proves, Once, run-Proves}
use oauthclientbridge.Workers.Racing.{run-erased}
use oauthclientbridge.Tests.{app, row, no_session, uuid, asking, key}
use oauthclientbridge.Tests.Refreshing.{rotation, rotating, me, record_of, old}
use oauthclientbridge.Tests.Serving.{strict, denial}

-- The provider rotates for the first process and refuses the others.
abbrev worlds : ℕ → World
worlds zero = record rotating { json_loads = λ text. if text == "{}" then some old else none }
worlds (suc _) = record strict { json_loads = λ text. if text == "{}" then some old else none }

abbrev opened : Opened
opened = record { request = asking key; credentials = me; found = record_of }

abbrev busy : Process
busy = record { app = app [] no_session; opened = some opened }

abbrev idle : Process
idle = record { app = app [] no_session; opened = none }

abbrev table : List Row
table = row (some "x{}") ∷ []

abbrev racing : Cluster
racing = record { table = table; process = λ _. busy }

abbrev quiet : Cluster
quiet = record { table = table; process = λ _. idle }

abbrev one_request : List (ℕ × Act)
one_request = (0, end_token) ∷ (0, begin_token (asking key)) ∷ []

run-Proves_example :
    (now : Row) × (find uuid (run worlds quiet one_request).table ≡ some now)
    × (now.created_at ≡ some 1)
    × ((now ≡ row (some "x{}")) ⊎ Once (Proves worlds quiet uuid) one_request)
run-Proves_example =
    run-Proves worlds quiet (λ _. refl) uuid (row (some "x{}")) one_request (unfold find in refl)

reads : (i : ℕ) → loads (worlds i) key "x{}" ≡ ok old
unfolding loads normalize_base64_padding
reads zero = refl
reads (suc n) = refl

refreshes : (i : ℕ) → Refreshes (worlds i) opened old (str "first")
refreshes i = record {
  encrypted = "x{}";
  read = refl;
  decrypted = reads i;
  refreshable = unfold get in refl;
}

answered :
    (asked (worlds 0) me record_of old (str "first") (view table (app [] no_session)) rotation).0
    ≡ ok rotation
unfolding fetch get Errors.json oauthclientbridge.Fetch.Round.attempt
    oauthclientbridge.Fetch.Once.fetch_once oauthclientbridge.Fetch.Once.http_status
    oauthclientbridge.Outcome.unexpected_token_endpoint_issue has
    oauthclientbridge.Outcome.token_endpoint_outcome
answered = refl

refused :
    (rows : List Row)
    → (asked (worlds 1) me record_of old (str "first") (view rows (app [] no_session)) denial).0
      ≡ ok denial
unfolding get Errors.json oauthclientbridge.Fetch.Round.attempt
    oauthclientbridge.Fetch.Once.fetch_once oauthclientbridge.Fetch.Once.http_status
    oauthclientbridge.Outcome.unexpected_token_endpoint_issue
    oauthclientbridge.Outcome.token_endpoint_outcome has oauthclientbridge.Errors.is_error
    oauthclientbridge.Outcome.normalize_error oauthclientbridge.Errors.among
    oauthclientbridge.Errors.from_value fetch
refused rows = refl

dead : (refresh_outcome (worlds 1) denial).invalidate_refresh_token ≡ true
unfolding refresh_outcome get Errors.json oauthclientbridge.Outcome.unexpected_token_endpoint_issue
    oauthclientbridge.Outcome.token_endpoint_outcome has oauthclientbridge.Errors.is_error
    oauthclientbridge.Outcome.normalize_error oauthclientbridge.Errors.among
    oauthclientbridge.Errors.from_value
dead = refl

changed : same_object old (modified_by old rotation) ≡ false
unfolding same_object modified_by scrub_refresh_token get keep put
changed = refl

good : validate_token rotation ≡ true
unfolding validate_token get truthy
good = refl

abbrev both_ended : List (ℕ × Act)
both_ended = (1, end_token) ∷ (0, end_token) ∷ []

run-erased_example :
    (find uuid (run worlds racing ((0, end_token) ∷ [])).table
      ≡ some (record (row (some "x{}")) { token = some "x{}"; last_updated_at = some 1000 }))
    × (find uuid (run worlds racing both_ended).table
        ≡ some (record (row (some "x{}")) { token = none; last_updated_at = some 1000 }))
run-erased_example =
    run-erased worlds racing 0 1 opened opened old old rotation denial (str "first") (str "first")
      (row (some "x{}")) (omega arith) refl refl refl (unfold find in refl) (refreshes 0)
      (refreshes 1) answered (unfold has in unfold get in refl) good changed refl refl
      (refused (run worlds racing ((0, end_token) ∷ [])).table) (unfold has in unfold get in refl)
      dead refl

abbrev whole : App
whole = app table no_session

known : (i : ℕ) → validate_credentials (worlds i) (some uuid) (some key) ≡ ok me
unfolding validate_credentials validate_key
known zero = refl
known (suc n) = refl

given : (read_credentials (asking key) whole).0 ≡ ok (some uuid, some key)
unfolding read_credentials get has
given = refl

healthy : (i : ℕ) → (worlds i).fault 0 ≡ none
healthy zero = refl
healthy (suc n) = refl

abbrev refreshing : (i : ℕ) → IsRefreshing (worlds i) (asking key) whole me old (str "first")
refreshing i = record {
  id = some uuid;
  secret = some key;
  given = given;
  valid = known i;
  works = healthy i;
  row = row (some "x{}");
  found = unfold find in refl;
  encrypted = "x{}";
  held = refl;
  decrypted = reads i;
  refreshable = unfold get in refl;
}

abbrev behind_lookup : App
behind_lookup = record whole { statements = 1 }

told_token :
    (asked (worlds 0) me record_of old (str "first") behind_lookup rotation).0 ≡ ok rotation
unfolding fetch get Errors.json oauthclientbridge.Fetch.Round.attempt
    oauthclientbridge.Fetch.Once.fetch_once oauthclientbridge.Fetch.Once.http_status
    oauthclientbridge.Outcome.unexpected_token_endpoint_issue has
    oauthclientbridge.Outcome.token_endpoint_outcome
told_token = refl

told_denial : (asked (worlds 1) me record_of old (str "first") behind_lookup denial).0 ≡ ok denial
unfolding get Errors.json oauthclientbridge.Fetch.Round.attempt
    oauthclientbridge.Fetch.Once.fetch_once oauthclientbridge.Fetch.Once.http_status
    oauthclientbridge.Outcome.unexpected_token_endpoint_issue
    oauthclientbridge.Outcome.token_endpoint_outcome has oauthclientbridge.Errors.is_error
    oauthclientbridge.Outcome.normalize_error oauthclientbridge.Errors.among
    oauthclientbridge.Errors.from_value fetch
told_denial = refl

token-refreshed_example :
    ((worlds 0).fault 1 ≡ none
      → ((body : Object) × ((token (worlds 0) (asking key) whole).0 ≡ ok (jsonify body))
          × ((k : String)
              → get k body
                ≡ client_gets
                    (worlds 0)
                    (asking key)
                    whole
                    me
                    old
                    (str "first")
                    (refreshing 0)
                    rotation
                    k))
        × ((((token (worlds 0) (asking key) whole).1.tokens ≡ table)
              × IsSame (worlds 0) (asking key) whole me old (str "first") (refreshing 0) rotation)
            ⊎ IsWritten
                (worlds 0)
                (asking key)
                whole
                me
                old
                (str "first")
                (refreshing 0)
                rotation
                (token (worlds 0) (asking key) whole).1.tokens))
    × ((fault : String)
        → (worlds 0).fault 1 ≡ some fault
        → ((token (worlds 0) (asking key) whole).1.tokens ≡ table)
          × (((token (worlds 0) (asking key) whole).0 ≡ err (database_error fault))
              ⊎ IsSame (worlds 0) (asking key) whole me old (str "first") (refreshing 0) rotation))
token-refreshed_example =
    token-refreshed (worlds 0) (asking key) whole me old (str "first") (refreshing 0) rotation
      told_token (unfold has in unfold get in refl) good refl

abbrev denied : String
denied = "invalid_grant"

-- The answer has status 401.
token-denied_example :
    (denied ≡ "invalid_grant"
      → ((token (worlds 1) (asking key) whole).0 ≡ raised invalid_grant null null null)
        × IsDropped uuid
            (row (some "x{}"))
            1001
            table
            (token (worlds 1) (asking key) whole).1.tokens)
    × (denied ≢ "invalid_grant" → (token (worlds 1) (asking key) whole).1.tokens ≡ table)
unfolding get
token-denied_example =
    token-denied (worlds 1) (asking key) whole me old denial (str "first") denied (refreshing 1)
      told_denial refl refl refl refl
