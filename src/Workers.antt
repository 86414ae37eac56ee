-- ===== src/Workers.antt =====
-- src/oauthclientbridge/views.py and src/oauthclientbridge/db.py behind several worker processes: each
-- has its own state, and they share the table. A process serves one request at a time. A token request
-- reads the table once, in `db.lookup`, and writes it at most once behind that, by one statement in a
-- transaction; so another process's write falls before the read, or between it and the rest.
pub mod Steps
pub mod Owned
pub mod Racing
pub mod Serial
use oauthclientbridge.Base.{ℕ, Option, none, some, List, [], ◌∷◌, eqb, if◌then◌else◌}
use oauthclientbridge.Base.Result.{Result, ok, err}
use oauthclientbridge.Errors.{Exception}
use oauthclientbridge.App.{App, World, Row, Session}
use oauthclientbridge.Web.{Request}
use oauthclientbridge.Views.Callback.{callback}
use oauthclientbridge.Views.Token.Opening.{Opened, open_token, close_token}

-- A process, with the token request that it is in the middle of.
pub record Process : Type 0 where
  pub app : App
  pub opened : Option Opened

pub record Cluster : Type 0 where
  pub table : List Row
  pub process : ℕ → Process

-- What a process does next.
pub data Act : Type 0 where
  begin_token : Request → Act
  end_token : Act
  run_callback : Request → Session → Act

-- The process that sees the shared table.
abbrev pub view : List Row → App → App
view rows a = record a { tokens = rows }

-- The process after an opening; a request that was refused is over.
abbrev pub after_open : Result Exception Opened × App → Process
after_open (ok o, a) = record { app = a; opened = some o }
after_open (err e, a) = record { app = a; opened = none }

-- The table and the process after an act that ends a request.
abbrev pub ended : App → List Row × Process
ended a = (a.tokens, record { app = a; opened = none })

-- One act of a process. A process that is in the middle of a request begins no other, and an idle
-- one has nothing to end.
unfoldable pub act : World → Act → List Row → Process → List Row × Process
act w (begin_token req) rows p = elim p.opened [
  | some _ ↦ (rows, p)
  | none ↦ (rows, after_open (open_token w req (view rows p.app)))
]
act w end_token rows p = elim p.opened [
  | none ↦ (rows, p)
  | some o ↦ ended (close_token w o (view rows p.app)).1
]
act w (run_callback req session) rows p = elim p.opened [
  | some _ ↦ (rows, p)
  | none ↦ ended (callback w req (record p.app { tokens = rows; session = session })).1
]

-- `worlds i` is what the i-th process meets.
module _ (worlds : ℕ → World) where
  unfoldable pub step : ℕ → Act → Cluster → Cluster
  step i x s =
      let (rows, p) = act (worlds i) x s.table (s.process i) in
      record { table = rows; process = λ j. if eqb j i then p else s.process j }

  -- The cluster after these acts, the newest first.
  unfoldable pub run : Cluster → List (ℕ × Act) → Cluster
  run s [] = s
  run s ((i, x) ∷ acts) = step i x (run s acts)
