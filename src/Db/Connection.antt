-- ===== src/Db/Connection.antt =====
-- src/oauthclientbridge/db.py: the connection of a request, the columns of the table, and how times are
-- stored. SQLite itself is not modelled: a connection is its number and what it was opened with.
use oauthclientbridge.Base.{
  ℕ, ◌+◌, ◌*◌, ◌/◌, ◌≡◌, refl, ap, arith, String, Bool, true, false, Option, none, some, List, [],
  ◌∷◌, ◌++◌, any, ◌==◌, Bool-cases, if◌then◌else◌,
}
use oauthclientbridge.Base.Result.{Result, ok, err}
use oauthclientbridge.Base.Text.{unit}
use oauthclientbridge.Errors.{Exception, value_error, type_error}
use oauthclientbridge.Settings.{DatabaseSettings}

-- `_database_connect_args`
unfoldable pub database_connect_args : DatabaseSettings → String × Bool
database_connect_args s =
    if s.database == ":memory:"
    then ("file:oauthclientbridge?mode=memory&cache=shared", true)
    else (s.database, false)

pub record Connection : Type 0 where
  pub number : ℕ
  pub database : String
  pub uri : Bool
  pub timeout : ℕ
  pub executed : List String

-- `flask.g` of a request, the number of connections opened so far, and those that were closed.
pub record Connections : Type 0 where
  pub current : Option Connection
  pub opened : ℕ
  pub closed : List ℕ

-- `_connect`
unfoldable pub connect : DatabaseSettings → ℕ → Connection
unfolding database_connect_args
connect s number = record {
  number = number;
  database = (database_connect_args s).0;
  uri = (database_connect_args s).1;
  timeout = s.timeout;
  executed = s.pragmas;
}

-- `get`
unfoldable pub get : DatabaseSettings → Connections → Connection × Connections
unfolding connect
get s c = elim c.current [
  | some connection ↦ (connection, c)
  | none ↦
      (connect s c.opened, record c { current = some (connect s c.opened); opened = c.opened + 1 })
]

-- `close`
unfoldable pub close : Connections → Connections
close c = elim c.current [
  | none ↦ c
  | some connection ↦ record c { current = none; closed = connection.number ∷ c.closed }
]

module _ (s : DatabaseSettings) (c : Connections) where
  -- A request opens one connection, however often it asks for one, and its end closes it.
  pub get_lem :
      c.current ≡ none
      → ((get s (get s c).1 ≡ get s c)
          × ((close (get s c).1).current ≡ none)
          × ((close (get s c).1).opened ≡ c.opened + 1)
          × ((close (get s c).1).closed ≡ c.opened ∷ c.closed)
          × (close (close (get s c).1) ≡ close (get s c).1))
  unfolding get close
  get_lem h = ground (arith, h)

abbrev pub has_column : String → List String → Bool
has_column name columns = any (λ (column : String). column == name) columns

-- `upgrade`, on the names of the columns, which it reads once.
unfoldable pub upgrade : List String → List String
upgrade columns =
    (columns ++ (if has_column "created_at" columns then [] else "created_at" ∷ []))
    ++ (if has_column "last_updated_at" columns then [] else "last_updated_at" ∷ [])

pub has_column-append :
    (name : String) (xs ys : List String)
    → has_column name (xs ++ ys) ≡ (if has_column name xs then true else has_column name ys)
has_column-append name [] ys = refl
has_column-append name (x ∷ xs) ys = ground (arith, has_column-append name xs ys)

append_nil : (xs : List String) → xs ++ [] ≡ xs
append_nil [] = refl
append_nil (x ∷ xs) = ap (λ ys. x ∷ ys) (append_nil xs)

module _ (columns : List String) where
  has_column-upgrade :
      (has_column "created_at" (upgrade columns) ≡ true)
      × (has_column "last_updated_at" (upgrade columns) ≡ true)
  unfolding upgrade
  has_column-upgrade = (
    rw (outer "created_at", inner "created_at")
        (ground (arith, Bool-cases (has_column "created_at" columns))),
    rw (outer "last_updated_at", inner "last_updated_at")
        (ground (arith, Bool-cases (has_column "last_updated_at" columns))),
  )
    where
      first : List String
      first = if has_column "created_at" columns then [] else "created_at" ∷ []

      second : List String
      second = if has_column "last_updated_at" columns then [] else "last_updated_at" ∷ []

      outer :
          (name : String)
          → has_column name ((columns ++ first) ++ second)
            ≡ (if has_column name (columns ++ first) then true else has_column name second)
      outer name = has_column-append name (columns ++ first) second

      inner :
          (name : String)
          → has_column name (columns ++ first)
            ≡ (if has_column name columns then true else has_column name first)
      inner name = has_column-append name columns first

upgrade-full :
    (columns : List String)
    → has_column "created_at" columns ≡ true
    → has_column "last_updated_at" columns ≡ true
    → upgrade columns ≡ columns
unfolding upgrade
upgrade-full columns h k = rw (upgrade, h, k, append_nil columns) (append_nil columns)

-- After an upgrade the table has both columns of times, and a further upgrade changes nothing.
pub upgrade_lem :
    (columns : List String)
    → (has_column "created_at" (upgrade columns) ≡ true)
      × (has_column "last_updated_at" (upgrade columns) ≡ true)
      × (upgrade (upgrade columns) ≡ upgrade columns)
upgrade_lem columns = (
  (has_column-upgrade columns).0,
  (has_column-upgrade columns).1,
  upgrade-full (upgrade columns) (has_column-upgrade columns).0 (has_column-upgrade columns).1,
)

-- What SQLite gives for a time: NULL, bytes by the text factory, a number, or something else.
pub data Cell : Type 0 where
  null_cell other_cell : Cell
  bytes_cell : String → Cell
  integer_cell : ℕ → Cell

-- `_prepare_timestamp`, of a time in millionths of a second.
unfoldable pub prepare_timestamp : Option ℕ → Cell
prepare_timestamp none = null_cell
prepare_timestamp (some time) = integer_cell (time / unit)

-- `_parse_datetime`; `int` is that of a text.
unfoldable pub parse_datetime : (String → Option ℕ) → Cell → Result Exception (Option ℕ)
parse_datetime int null_cell = ok none
parse_datetime int other_cell = err type_error
parse_datetime int (bytes_cell text) = elim (int text) [
  | none ↦ err value_error
  | some seconds ↦ ok (some (seconds * unit))
]
parse_datetime int (integer_cell seconds) = ok (some (seconds * unit))

-- A stored time reads back as the second that it is in, whether SQLite gives a number or bytes.
pub parse_datetime-prepare_timestamp :
    (int : String → Option ℕ) (time : ℕ) (text : String)
    → int text ≡ some (time / unit)
    → (parse_datetime int (prepare_timestamp (some time)) ≡ ok (some (time / unit * unit)))
      × (parse_datetime int (bytes_cell text) ≡ ok (some (time / unit * unit)))
      × (parse_datetime int (prepare_timestamp none) ≡ ok none)
unfolding parse_datetime prepare_timestamp
parse_datetime-prepare_timestamp int time text h = (refl, rw (parse_datetime, h) refl, refl)
