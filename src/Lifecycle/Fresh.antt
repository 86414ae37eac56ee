-- ===== src/Lifecycle/Fresh.antt =====
-- src/oauthclientbridge/db.py, telemetry/_refresh.py and utils/coalescing.py together, in one process:
-- threads that write the table and ask for a refresh, and the worker's thread that counts its rows.
pub mod Shown
use oauthclientbridge.Base.{
  ℕ, zero, suc, ◌+◌, ◌≡◌, ◌≢◌, ◌∙◌, ◌⊎◌, inl, inr, sym, ap, refl, subst, arith, String, ◌==◌, Bool,
  true, false, Option, none, some, List, [], ◌∷◌, if◌then◌else◌,
}
use oauthclientbridge.Base.Result.{ok}
use oauthclientbridge.App.{App, World, Row}
use oauthclientbridge.Coalescing
use oauthclientbridge.Coalescing.{
  Worker, Place, new, working, waiting, due, start, start_again, request, stop, startup_over, wake,
  debounce_over, work, work_done, work_raised, end,
}
use oauthclientbridge.Coalescing.Runs.{IsOrderly, Step-IsOrderly}
use oauthclientbridge.Db.{TokenStateCounts, count_states, token_state_counts}
use oauthclientbridge.Lifecycle
use oauthclientbridge.Lifecycle.{set_token_state_counts}
use oauthclientbridge.Telemetry.{Metric, set_token_state}

-- What a write says of the gauge with this label.
abbrev pub state_of : String → Metric → Option ℕ
state_of state (set_token_state s n) = if s == state then some n else none
state_of state _ = none

-- The value of the gauge, after these writes, the newest first.
abbrev pub last_state : String → List Metric → Option ℕ
last_state state [] = none
last_state state (m ∷ ms) =
    let rest = last_state state ms in elim (state_of state m) [ some n ↦ some n | none ↦ rest ]

-- The gauges show these numbers.
abbrev pub Shows : TokenStateCounts → App → Type 0
Shows c a =
    (last_state "present" a.net.metrics ≡ some c.present)
    × (last_state "revoked" a.net.metrics ≡ some c.revoked)

abbrev pub SameGauges : App → App → Type 0
SameGauges a a' =
    (last_state "present" a'.net.metrics ≡ last_state "present" a.net.metrics)
    × (last_state "revoked" a'.net.metrics ≡ last_state "revoked" a.net.metrics)

-- The worker of a process and the process; what the worker's thread has counted and not yet shown;
-- how many threads have committed a write and not yet asked for a refresh; and whether the last run
-- failed.
pub record Plant : Type 0 where
  pub worker : Worker
  pub app : App
  pub counted : Option TokenStateCounts
  pub unreported : ℕ
  pub failed : Bool

abbrev pub resting : Worker → Worker
resting v = record v { place = waiting }

-- One step of a thread. `serve` is what a request does besides its writes; `commit` the end of a
-- transaction of `db.insert` or `db.update`, and `report` the `request_refresh` behind it; `turn` any
-- step of the worker but the end of a run; `count` and `show` the two halves of the registered
-- callback; and `fail` a run that is given up.
pub data Move (w : World) (p : Plant) : Plant → Type 0 where
  serve : (a : App) → a.tokens ≡ p.app.tokens → SameGauges p.app a → Move w p (record p { app = a })
  commit :
      (a : App)
      → SameGauges p.app a
      → Move w p (record p { app = a; unreported = p.unreported + 1 })
  report :
      (n : ℕ)
      → p.unreported ≡ n + 1
      → Move w p (record p { worker = Lifecycle.request p.worker; unreported = n })
  turn :
      (v : Worker)
      → Coalescing.Step p.worker v
      → (p.worker.place ≡ working → v.place ≡ working)
      → Move w p (record p { worker = v })
  count :
      (c : TokenStateCounts) (a : App)
      → p.worker.place ≡ working
      → p.counted ≡ none
      → w.fault p.app.statements ≡ none
      → token_state_counts w p.app ≡ (ok c, a)
      → Move w p (record p { app = a; counted = some c })
  show :
      (c : TokenStateCounts) (a : App)
      → p.worker.place ≡ working
      → p.counted ≡ some c
      → set_token_state_counts c p.app ≡ (ok tt, a)
      → Move w p (record p { worker = resting p.worker; app = a; counted = none; failed = false })
  fail :
      (a : App)
      → p.worker.place ≡ working
      → a.tokens ≡ p.app.tokens
      → Move w p (record p { worker = resting p.worker; app = a; counted = none; failed = true })

-- Nobody has anything left to do: every write was followed by its request, and every request handled.
pub record IsSettled (p : Plant) : Type 0 where
  pub reported : p.unreported ≡ 0
  pub handled : p.worker.generation ≡ p.worker.handled_generation

pub data Moves (w : World) (p : Plant) : Plant → Type 0 where
  still : Moves w p p
  further : {q r : Plant} → Moves w p q → Move w q r → Moves w p r

-- A process with a new worker.
abbrev pub opening : App → Plant
opening a = record { worker = new; app = a; counted = none; unreported = 0; failed = false }
