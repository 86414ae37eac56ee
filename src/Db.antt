-- ===== src/Db.antt =====
-- src/oauthclientbridge/db.py: the table of tokens. One operation is one call of `cursor`: it fails
-- as a whole, by a fault of the database or by its own error, and then changes no row.
pub mod Table
pub mod Operations
pub mod Refinement
pub mod Connection
pub mod Catalog
use oauthclientbridge.Base.{
  ℕ, zero, suc, ◌+◌, ◌==◌, String, Bool, true, false, not, Option, none, some, List, [], ◌∷◌, ◌++◌,
  eqb, if◌then◌else◌,
}
use oauthclientbridge.Base.Dict.{is_some}
use oauthclientbridge.Base.Result.{Result, ok, err, pure, raise, lift, ◌>>=◌, ◌>>◌}
use oauthclientbridge.Errors.{Exception, integrity_error, lookup_error, database_error}
use oauthclientbridge.Net
use oauthclientbridge.App.{App, World, Row, Handler, emit}
use oauthclientbridge.Telemetry.{record_database_error}

pub record TokenRecord : Type 0 where
  pub client_id : String
  pub encrypted_token : Option String
  pub created_at : Option ℕ
  pub last_updated_at : Option ℕ

-- `WHERE client_id = ?`
unfoldable pub find : String → List Row → Option Row
find id [] = none
find id (r ∷ rs) = if r.client_id == id then some r else find id rs

-- `INSERT`: the primary key refuses a second row.
insert_row : Row → List Row → Result Exception (List Row)
unfolding find
insert_row r rows =
    if is_some (find r.client_id rows) then err integrity_error else ok (rows ++ r ∷ [])

-- `UPDATE … SET token = ?, last_updated_at = ? WHERE client_id = ?`, and the number of rows.
unfoldable pub update_rows : String → Option String → ℕ → List Row → List Row
update_rows id token now [] = []
update_rows id token now (r ∷ rs) =
    (if r.client_id == id then record r { token = token; last_updated_at = some now } else r)
    ∷ update_rows id token now rs

unfoldable pub count_rows : String → List Row → ℕ
count_rows id [] = 0
count_rows id (r ∷ rs) = (if r.client_id == id then 1 else 0) + count_rows id rs

-- `bytes(value) if value else None`
abbrev pub stored : Option String → Option String
stored none = none
stored (some t) = if t == "" then none else some t

pub record TokenStateCounts : Type 0 where
  pub present : ℕ
  pub revoked : ℕ

unfoldable pub count_states : List Row → TokenStateCounts
count_states [] = record { present = 0; revoked = 0 }
count_states (r ∷ rs) =
    let rest = count_states rs in
    elim r.token [
      | none ↦ record rest { revoked = rest.revoked + 1 }
      | some _ ↦ record rest { present = rest.present + 1 }
    ]

module _ (w : World) where
  unfoldable pub generate_id : Handler String
  generate_id a = (ok (w.new_id a.ids), record a { ids = a.ids + 1 })

  -- The error that a failed operation reports, and what `cursor` does with the block's result.
  settle : {A : Type 0} → String → Result Exception (A × List Row) → Handler A
  settle name (ok (v, rows)) a = (ok v, record a { tokens = rows })
  settle name (err integrity_error) a =
      (err integrity_error, (emit (record_database_error name "integrity_error") a).1)
  settle name (err e) a = (err e, a)

  -- `with cursor(name) as c:` around a block that reads and writes the rows.
  cursor : {A : Type 0} → String → (List Row → Result Exception (A × List Row)) → Handler A
  unfolding settle
  cursor name block a =
      let begun = record a { statements = a.statements + 1 } in
      elim (w.fault a.statements) [
        | some error ↦
            (err (database_error error), (emit (record_database_error name error) begun).1)
        | none ↦ settle name (block a.tokens) begun
      ]

  now : Handler ℕ
  now a = (ok (w.utcnow a.statements), a)

  -- `telemetry.request_refresh()`
  request_refresh : Handler (Unit {0})
  request_refresh a = (ok tt, record a { refresh_requests = a.refresh_requests + 1 })

  inserting : Row → List Row → Result Exception (Unit {0} × List Row)
  unfolding insert_row
  inserting r rows = elim (insert_row r rows) [ err e ↦ err e | ok new ↦ ok (tt, new) ]

  unfoldable pub insert : String → String → Handler (Unit {0})
  unfolding cursor inserting now request_refresh
  insert client_id token = do
    time ← now
    cursor "insert_token" (
        inserting (record {
          client_id = client_id;
          token = some token;
          created_at = some time;
          last_updated_at = some time;
        }))
    request_refresh

  -- `LookupError` is raised behind the operation.
  to_record : String → Option Row → Result Exception TokenRecord
  to_record client_id none = err lookup_error
  to_record client_id (some r) = ok (record {
    client_id = client_id;
    encrypted_token = stored r.token;
    created_at = r.created_at;
    last_updated_at = r.last_updated_at;
  })

  unfoldable pub lookup : String → Handler TokenRecord
  unfolding cursor to_record
  lookup client_id = do
    row ← cursor "lookup_token" (λ rows. ok (find client_id rows, rows))
    lift (to_record client_id row)

  unfoldable pub update : String → Option String → Handler ℕ
  unfolding cursor now request_refresh
  update client_id token = do
    time ← now
    rowcount ←
        cursor "update_token"
          (λ rows. ok (count_rows client_id rows, update_rows client_id token time rows))
    (if eqb rowcount 0 then pure tt else request_refresh)
    pure rowcount

  -- `is_initialized`, where `present` is what SQLite's catalogue says of the table.
  unfoldable pub is_initialized : Bool → Handler Bool
  unfolding cursor
  is_initialized present = cursor "check_tokens_table" (λ rows. ok (present, rows))

  -- `_token_state_counts`, `except sqlite3.OperationalError`: a missing table has no rows.
  counted : ℕ → Result Exception TokenStateCounts × App → Result Exception TokenStateCounts × App
  counted operation (ok counts, a) = (ok counts, a)
  counted operation (err (database_error error), a) =
      if w.no_such_table operation
      then (ok (record { present = 0; revoked = 0 }), a)
      else (err (database_error error), a)
  counted operation (err e, a) = (err e, a)

  -- It opens a connection of its own, outside `cursor`.
  unfoldable pub token_state_counts : Handler TokenStateCounts
  unfolding cursor counted
  token_state_counts a = elim (w.connect_fault a.statements) [
    | some error ↦ (err (database_error error), record a { statements = a.statements + 1 })
    | none ↦
        counted a.statements (cursor "count_token_states" (λ rows. ok (count_states rows, rows)) a)
  ]
