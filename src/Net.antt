-- ===== src/Net.antt =====
-- What `fetch` of src/oauthclientbridge/oauth/_core.py meets outside the program: the clock,
-- random numbers, the provider and the process-wide retry budgets. A `Provider` says how they
-- answer; `Net` is the state that is read and changed, with its logs newest first.
use oauthclientbridge.Base.{◌≡◌, ℕ, ◌+◌, Bool, Option, List, ◌∷◌, String, length}
use oauthclientbridge.Base.Json.{Json, Object}
use oauthclientbridge.Base.Result.{Result, Exec, ok}
use oauthclientbridge.Errors.{Exception}
use oauthclientbridge.Bucket.{Bucket}
use oauthclientbridge.Telemetry.{Metric}

-- The body of a response as `resp.json()` sees it. What Python raises on handling a value that is no
-- object, AttributeError or TypeError, depends on the value.
pub data Body : Type 0 where
  object : Object → Body
  not_object : Exception → Body
  undecodable : Body

-- `truth` is the truth value that requests gives a response. Headers are code points.
pub record Response : Type 0 where
  pub status_code : ℕ
  pub body : Body
  pub retry_after : Option (List ℕ)
  pub content_length : ℕ
  pub truth : Bool

-- The classes of `requests.exceptions`, as far as `_fetch` tells them apart.
pub data Failure : Type 0 where
  connect_timeout read_timeout other_timeout : Failure
  ssl_error proxy_error connection_error : Failure
  http_error other_failure : Failure

pub data Answer : Type 0 where
  responded : Response → Answer
  failed : Failure → Option Response → Answer

-- A request that was sent, with its timeout and the time.
pub record Sent : Type 0 where
  pub uri : String
  pub form : Object
  pub timeout : ℕ
  pub at : ℕ

-- Each oracle takes the number of times it was asked before. `lag` is the time that passes before
-- a reading of the clock, `prepare` what `requests.Request.prepare` raises, `took` that of a request, `overslept` what a sleep takes too long.
pub record Provider : Type 0 where
  pub lag : ℕ → ℕ
  pub answer : ℕ → Sent → Answer
  pub took : ℕ → ℕ
  pub uniform : ℕ → ℕ → ℕ → ℕ
  pub overslept : ℕ → ℕ
  pub prepare : String → Object → Result Exception (Unit {0})
  pub parse_date : List ℕ → Result Exception (Option ℕ)
  pub wall : ℕ → ℕ
  pub render : Json → String

pub record Net : Type 0 where
  pub now : ℕ
  pub readings : ℕ
  pub draws : ℕ
  pub requests : List Sent
  pub sleeps : List ℕ
  pub closes : ℕ
  pub metrics : List Metric
  pub limiters : List Bucket

abbrev pub Action : Type 0 → Type 0
Action A = Exec Net Exception A

abbrev pub emit : Metric → Action (Unit {0})
emit m n = (ok tt, record n { metrics = m ∷ n.metrics })

-- `session.close()`
abbrev pub close_session : Action (Unit {0})
close_session n = (ok tt, record n { closes = n.closes + 1 })

module _ (p : Provider) where
  -- `time.monotonic()`
  unfoldable pub monotonic : Action ℕ
  monotonic n =
      let now = n.now + p.lag n.readings in
      (ok now, record n { now = now; readings = n.readings + 1 })

  -- `time.sleep(duration)`
  unfoldable pub sleep : ℕ → Action (Unit {0})
  sleep duration n = (
    ok tt,
    record n {
      now = n.now + duration + p.overslept (length n.sleeps);
      sleeps = duration ∷ n.sleeps;
    },
  )

  -- `random.uniform(lower, upper)`
  unfoldable pub uniform : ℕ → ℕ → Action ℕ
  uniform lower upper n = (ok (p.uniform n.draws lower upper), record n { draws = n.draws + 1 })

  -- `session.send(prepared, timeout=timeout)`
  unfoldable pub send : String → Object → ℕ → Action Answer
  send uri form timeout n =
      let request : Sent = record { uri = uri; form = form; timeout = timeout; at = n.now } in
      (
        ok (p.answer (length n.requests) request),
        record n { now = n.now + p.took (length n.requests); requests = request ∷ n.requests },
      )

-- Nothing changed but the telemetry and the count of closed sessions.
pub record IsQuiet (n n' : Net) : Type 0 where
  pub now : n'.now ≡ n.now
  pub requests : n'.requests ≡ n.requests
  pub sleeps : n'.sleeps ≡ n.sleeps
  pub limiters : n'.limiters ≡ n.limiters
