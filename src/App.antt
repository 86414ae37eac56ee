-- ===== src/App.antt =====
-- The state of one worker process that requests change, and what the handlers of
-- src/oauthclientbridge/views.py meet outside the program: Fernet, JSON text, UUIDs, regular
-- expressions, the wall clock and SQLite's failures.
use oauthclientbridge.Base.{ℕ, ◌≡◌, ◌≢◌, String, Bool, true, Option, some, List, length, codes}
use oauthclientbridge.Base.Json.{Object}
use oauthclientbridge.Base.Result.{Exec, ok}
use oauthclientbridge.Errors.{Exception}
use oauthclientbridge.Net
use oauthclientbridge.Net.{Net, Provider}
use oauthclientbridge.Settings.{Settings}
use oauthclientbridge.Telemetry.{Metric}

-- A row of the table `tokens`.
pub record Row : Type 0 where
  pub client_id : String
  pub token : Option String
  pub created_at : Option ℕ
  pub last_updated_at : Option ℕ

-- The cookie `flask.session`; None and a missing key are not told apart.
pub record Session : Type 0 where
  pub client_state : Option String
  pub state : Option String

-- The counters say how often an oracle was asked.
pub record App : Type 0 where
  pub net : Net
  pub tokens : List Row
  pub session : Session
  pub statements : ℕ
  pub keys : ℕ
  pub ids : ℕ
  pub encryptions : ℕ
  pub refresh_requests : ℕ

-- `fault n` is the error of the n-th database operation, where it has one, and `no_such_table n` is
-- whether it is that the table is missing; `connect_fault n` is the error of the connection that is
-- opened for the n-th operation, where that has one of its own. `int_text` is `int` of
-- a text, `search` is `re.search`.
pub record World : Type 0 where
  pub provider : Provider
  pub settings : Settings
  pub utcnow : ℕ → ℕ
  pub fault : ℕ → Option String
  pub connect_fault : ℕ → Option String
  pub no_such_table : ℕ → Bool
  pub new_key : ℕ → String
  pub new_id : ℕ → String
  pub parse_uuid : String → Option String
  pub valid_key : String → Bool
  pub encrypt : ℕ → String → String → String
  pub decrypt : String → String → Option String
  pub json_dumps : Object → String
  pub json_loads : String → Option Object
  pub int_text : String → Option ℕ
  pub search : String → String → Bool

-- What the libraries document: a valid key decrypts what it encrypted; new keys are valid and have 44 characters, new identifiers are canonical UUIDs of 36 characters,
-- and a Fernet token is never empty.
pub record IsDocumented (w : World) : Type 0 where
  pub decrypt-encrypt :
      (n : ℕ) (key text : String)
      → w.valid_key key ≡ true
      → w.decrypt key (w.encrypt n key text) ≡ some text
  pub valid_key-new_key : (n : ℕ) → w.valid_key (w.new_key n) ≡ true
  pub length-new_key : (n : ℕ) → length (codes (w.new_key n)) ≡ 44
  pub parse_uuid-new_id : (n : ℕ) → w.parse_uuid (w.new_id n) ≡ some (w.new_id n)
  pub encrypt-ne-empty : (n : ℕ) (key text : String) → w.encrypt n key text ≢ ""
  pub length-new_id : (n : ℕ) → length (codes (w.new_id n)) ≡ 36

abbrev pub Handler : Type 0 → Type 0
Handler A = Exec App Exception A

abbrev pub with_net {ℓ} : {A : Type ℓ} → App → A × Net → A × App
with_net a (r, n) = (r, record a { net = n })

-- A call into the fetching part.
abbrev pub upstream : {A : Type 0} → Net.Action A → Handler A
upstream m a = with_net a (m a.net)

abbrev pub emit : Metric → Handler (Unit {0})
emit m a = (ok tt, record a { net = (Net.emit m a.net).1 })
