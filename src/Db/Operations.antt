-- ===== src/Db/Operations.antt =====
-- src/oauthclientbridge/db.py: `insert`, `lookup` and `update` on every branch.
use oauthclientbridge.Base.{
  ◌+◌, ◌≡◌, ◌≢◌, eq_iff, eq_refl, String, Option, none, some, [], ◌∷◌, ◌++◌, arith, Option-cases,
}
use oauthclientbridge.Base.Result.{ok, err}
use oauthclientbridge.Errors.{integrity_error, database_error}
use oauthclientbridge.App.{App, World}
use oauthclientbridge.Db.{find, insert, lookup, update}
use oauthclientbridge.Db.Table.{IsKeyed, IsKeyed-append, IsKeyed-update_rows, find-append}

module _ (w : World) where
  -- An insert that works adds a row under a new identifier at the end of the table and asks for a
  -- refresh of the metrics; a known identifier and a fault of the database raise, and the rows
  -- stay as they were.
  pub insert_lem :
      (id token : String) (a : App)
      → (w.fault a.statements ≡ none
          → find id a.tokens ≡ none
          → ((insert w id token a).0 ≡ ok tt)
            × ((insert w id token a).1.tokens
                ≡ a.tokens
                  ++ record {
                    client_id = id;
                    token = some token;
                    created_at = some (w.utcnow a.statements);
                    last_updated_at = some (w.utcnow a.statements);
                  }
                    ∷ [])
            × ((insert w id token a).1.refresh_requests ≡ a.refresh_requests + 1))
        × (w.fault a.statements ≡ none
            → find id a.tokens ≢ none
            → ((insert w id token a).0 ≡ err integrity_error)
              × ((insert w id token a).1.tokens ≡ a.tokens))
        × ((error : String)
            → w.fault a.statements ≡ some error
            → ((insert w id token a).0 ≡ err (database_error error))
              × ((insert w id token a).1.tokens ≡ a.tokens))
  unfolding insert
  insert_lem id token a = ground arith

  -- The primary key: identifiers stay unique under an insert, whatever its outcome.
  pub insert-IsKeyed :
      (id token : String) (a : App) → IsKeyed a.tokens → IsKeyed (insert w id token a).1.tokens
  unfolding insert
  insert-IsKeyed id token a h = ground (
    arith,
    IsKeyed-append a.tokens
        (record {
          client_id = id;
          token = some token;
          created_at = some (w.utcnow a.statements);
          last_updated_at = some (w.utcnow a.statements);
        })
        h,
    Option-cases (find id a.tokens),
  )

  -- Likewise under an update.
  pub update-IsKeyed :
      (id : String) (token : Option String) (a : App)
      → IsKeyed a.tokens
      → IsKeyed (update w id token a).1.tokens
  unfolding update
  update-IsKeyed id token a h =
      ground (arith, IsKeyed-update_rows id token (w.utcnow a.statements) a.tokens h)

  -- What was inserted is found by its identifier until another operation changes it.
  pub lookup-insert :
      (id token : String) (a : App)
      → w.fault a.statements ≡ none
      → w.fault (a.statements + 1) ≡ none
      → find id a.tokens ≡ none
      → token ≢ ""
      → (lookup w id (insert w id token a).1).0
        ≡ ok (record {
          client_id = id;
          encrypted_token = some token;
          created_at = some (w.utcnow a.statements);
          last_updated_at = some (w.utcnow a.statements);
        })
  unfolding lookup insert
  lookup-insert id token a f g new h = ground (
    arith,
    eq_iff token "",
    eq_refl id,
    find-append id a.tokens
        (record {
          client_id = id;
          token = some token;
          created_at = some (w.utcnow a.statements);
          last_updated_at = some (w.utcnow a.statements);
        })
        new,
  )
