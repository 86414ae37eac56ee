-- ===== src/Workers/Racing.antt =====
-- src/oauthclientbridge/views.py, two processes that refresh one token at the same time.
use oauthclientbridge.Base.{
  ℕ, String, ◌≡◌, ◌≢◌, ◌∙◌, ap, refl, arith, true, false, Option, none, some, List, [], ◌∷◌,
  eqb_iff, eq_refl,
}
use oauthclientbridge.Base.Dict.{has}
use oauthclientbridge.Base.Json.{Json, Object}
use oauthclientbridge.Base.Result.{ok}
use oauthclientbridge.App.{App, World, Row}
use oauthclientbridge.Db.{find, update_rows}
use oauthclientbridge.Db.Table.{find-update_rows}
use oauthclientbridge.Outcome.{validate_token}
use oauthclientbridge.Views.Token.{modified_by, same_object, refresh_outcome, refresh}
use oauthclientbridge.Views.Token.Opening.{Opened, Refreshes, close_token-refresh}
use oauthclientbridge.Views.Token.Dead.{asked, refresh-invalid_grant}
use oauthclientbridge.Views.Token.Refreshed.{refresh_lem, sealed}
use oauthclientbridge.Workers.{Cluster, end_token, view, act, step, run}
use oauthclientbridge.Workers.Steps.{act-end}

find-updated :
    (id : String) (token : Option String) (now : ℕ) (rows : List Row) (row : Row)
    → find id rows ≡ some row
    → find id (update_rows id token now rows)
      ≡ some (record row { token = token; last_updated_at = some now })
find-updated id token now rows row h =
    rw (find-update_rows id id token now rows, eq_refl id, h) refl

module _ (worlds : ℕ → World) (s : Cluster) (i j : ℕ) (o o' : Opened)
    (old old' answer answer' : Object) (v v' : Json) (row : Row) where
  abbrev first : App
  first = view s.table (s.process i).app

  abbrev after_first : Cluster
  after_first = run worlds s ((i, end_token) ∷ [])

  abbrev second : App
  second = view after_first.table (s.process j).app

  abbrev after_both : Cluster
  after_both = run worlds s ((j, end_token) ∷ (i, end_token) ∷ [])

  abbrev rotated : Row
  rotated = record row {
    token = some (sealed (worlds i) o.credentials o.found old answer first.encryptions);
    last_updated_at = some ((worlds i).utcnow first.statements);
  }

  after_first-table :
      (s.process i).opened ≡ some o
      → Refreshes (worlds i) o old v
      → after_first.table ≡ (refresh (worlds i) o.credentials o.found old v first).1.tokens
  unfolding run step
  after_first-table busy h =
      act-end (worlds i) s.table (s.process i) o busy
      ∙ ap (λ x. x.1.tokens) (close_token-refresh (worlds i) o old v first h)

  bystander : i ≢ j → after_first.process j ≡ s.process j
  unfolding run step
  bystander apart = ground (arith, eqb_iff j i)

  after_both-table :
      i ≢ j
      → (s.process j).opened ≡ some o'
      → Refreshes (worlds j) o' old' v'
      → after_both.table ≡ (refresh (worlds j) o'.credentials o'.found old' v' second).1.tokens
  after_both-table apart busy h =
      unfold run in
      unfold step in
      ap (λ p. (act (worlds j) end_token after_first.table p).0) (bystander apart)
      ∙ act-end (worlds j) after_first.table (s.process j) o' busy
      ∙ ap (λ x. x.1.tokens) (close_token-refresh (worlds j) o' old' v' second h)

  -- Two processes are in the middle of a token request of one client, and both have read the token
  -- before either refreshed it. The provider answers the first with a new refresh token, which the
  -- process stores; it answers the second, which still sends the old one, with an error that ends a
  -- grant. If the database works, the second then erases what the first stored: the row is left
  -- without a token.
  pub run-erased :
      i ≢ j
      → (s.process i).opened ≡ some o
      → (s.process j).opened ≡ some o'
      → o'.credentials.client_id ≡ o.credentials.client_id
      → find o.credentials.client_id s.table ≡ some row
      → Refreshes (worlds i) o old v
      → Refreshes (worlds j) o' old' v'
      → (asked (worlds i) o.credentials o.found old v first answer).0 ≡ ok answer
      → has "error" answer ≡ false
      → validate_token answer ≡ true
      → same_object old (modified_by old answer) ≡ false
      → (worlds i).valid_key o.credentials.client_secret ≡ true
      → (worlds i).fault first.statements ≡ none
      → (asked (worlds j) o'.credentials o'.found old' v' second answer').0 ≡ ok answer'
      → has "error" answer' ≡ true
      → (refresh_outcome (worlds j) answer').invalidate_refresh_token ≡ true
      → (worlds j).fault second.statements ≡ none
      → (find o.credentials.client_id after_first.table ≡ some rotated)
        × (find o.credentials.client_id after_both.table
            ≡ some (record row {
              token = none;
              last_updated_at = some ((worlds j).utcnow second.statements);
            }))
  run-erased apart busy busy' one found h h' answered clean good changed valid fine answered' failed
        dead fine' =
      (stored_first, stored_second)
    where
      stored_first : find o.credentials.client_id after_first.table ≡ some rotated
      stored_first =
          rw
            (
              after_first-table busy h,
              ((refresh_lem (worlds i) o.credentials o.found old answer v first answered clean good
                    valid).0
                  fine).1,
              changed,
            )
            (find-updated o.credentials.client_id _ _ s.table row found)

      stored_second :
          find o.credentials.client_id after_both.table
          ≡ some (record row {
            token = none;
            last_updated_at = some ((worlds j).utcnow second.statements);
          })
      stored_second =
          rw
            (
              after_both-table apart busy' h',
              (refresh-invalid_grant (worlds j) o'.credentials o'.found old' v' second answer'
                  answered' failed dead fine').1,
              one,
            )
            (find-updated o.credentials.client_id none ((worlds j).utcnow second.statements)
              after_first.table rotated stored_first)
