-- ===== src/Db/Catalog.antt =====
-- src/oauthclientbridge/db.py, `initialize` with schema.sql, and `upgrade`: the columns of the table
-- `tokens`, where the database has it. SQLite reports no columns of a missing table.
use oauthclientbridge.Base.{
  ◌≡◌, ◌∙◌, refl, ap, String, true, Option, none, some, List, [], ◌∷◌, ◌++◌,
}
use oauthclientbridge.Base.Result.{Result, ok, err}
use oauthclientbridge.Errors.{Exception, database_error}
use oauthclientbridge.Db.Connection
use oauthclientbridge.Db.Connection.{has_column, has_column-append, upgrade_lem}

abbrev pub Catalog : Type 0
Catalog = Option (List String)

-- `create table if not exists tokens(…)`
unfoldable pub initialize : Catalog → Catalog
initialize none = some ("client_id" ∷ "token" ∷ "created_at" ∷ "last_updated_at" ∷ [])
initialize (some columns) = some columns

-- `upgrade`: a missing table has neither column, and `ALTER TABLE` fails on it.
unfoldable pub upgrade : Catalog → Result Exception Catalog
unfolding Connection.upgrade
upgrade none = err (database_error "operational_error")
upgrade (some columns) = ok (some (Connection.upgrade columns))

-- The columns that the statements of the module name.
pub record IsUsable (c : Catalog) : Type 0 where
  pub columns : List String
  pub there : c ≡ some columns
  pub client_id : has_column "client_id" columns ≡ true
  pub token : has_column "token" columns ≡ true
  pub created_at : has_column "created_at" columns ≡ true
  pub last_updated_at : has_column "last_updated_at" columns ≡ true

has_column-left :
    (name : String) (xs ys : List String)
    → has_column name xs ≡ true
    → has_column name (xs ++ ys) ≡ true
has_column-left name xs ys h = has_column-append name xs ys ∙ rw h refl

upgrade-keeps :
    (name : String) (columns : List String)
    → has_column name columns ≡ true
    → has_column name (Connection.upgrade columns) ≡ true
unfolding Connection.upgrade
upgrade-keeps name columns h = has_column-left name _ _ (has_column-left name columns _ h)

-- A database without the table, or with that of an older version.
pub data IsOld : Catalog → Type 0 where
  empty : IsOld none
  older :
      (columns : List String)
      → has_column "client_id" columns ≡ true
      → has_column "token" columns ≡ true
      → IsOld (some columns)

upgraded :
    (columns : List String)
    → has_column "client_id" columns ≡ true
    → has_column "token" columns ≡ true
    → IsUsable (some (Connection.upgrade columns))
upgraded columns h k = record {
  columns = Connection.upgrade columns;
  there = refl;
  client_id = upgrade-keeps "client_id" columns h;
  token = upgrade-keeps "token" columns k;
  created_at = (upgrade_lem columns).0;
  last_updated_at = (upgrade_lem columns).1;
}

-- `initdb` and then `upgradedb` leave a table that has every column that the statements name, of an
-- empty database as of one with an older table, and a further round of both changes nothing;
-- `upgradedb` alone fails on an empty database.
pub initialize-IsUsable :
    (c : Catalog)
    → IsOld c
    → (new : Catalog) × (upgrade (initialize c) ≡ ok new)
      × IsUsable new
      × (upgrade (initialize new) ≡ ok new)
      × (upgrade none ≡ err (database_error "operational_error"))
unfolding initialize upgrade
initialize-IsUsable none empty = (
  some (Connection.upgrade fresh),
  refl,
  upgraded fresh refl refl,
  ap (λ cs. ok (some cs)) (upgrade_lem fresh).2,
  refl,
)
  where
    fresh : List String
    fresh = "client_id" ∷ "token" ∷ "created_at" ∷ "last_updated_at" ∷ []
initialize-IsUsable (some columns) (older _ h k) = (
  some (Connection.upgrade columns),
  refl,
  upgraded columns h k,
  ap (λ cs. ok (some cs)) (upgrade_lem columns).2,
  refl,
)
