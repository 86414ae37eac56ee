-- ===== src/Fetch.antt =====
-- src/oauthclientbridge/oauth/_core.py: `fetch`, with its retries, and what it calls. The parts are
-- in the children; `Round` is the body of the `for` loop.
pub mod RetryAfter
pub mod Once
pub mod Round
pub mod Bounds
pub mod Returns
pub mod Genuine
pub mod Spacing
use oauthclientbridge.Base.{ℕ, zero, suc, ◌+◌, String, ◌&&◌, Option, none, some, ltb, if◌then◌else◌}
use oauthclientbridge.Base.Dict.{has, put}
use oauthclientbridge.Base.Json.{num, str, Object}
use oauthclientbridge.Base.Result.{pure, lift, ◌>>=◌, ◌>>◌}
use oauthclientbridge.Errors
use oauthclientbridge.Errors.{OAuthError}
use oauthclientbridge.Net.{Action, Provider, emit, monotonic}
use oauthclientbridge.Settings.{FetchSettings}
use oauthclientbridge.Telemetry.{record_retry_decision, record_client_retries}
use Round.{Call, Loop, Flow, stop, again, skip_for, attempt, refill_budget}

module _ (p : Provider) (cfg : FetchSettings) where
  module _ (c : Call) where
    -- The `else` of the loop, where no round broke it.
    exhausted : Loop → Action Loop
    exhausted s = elim s.pending [
      | none ↦ pure s
      | some decision ↦ do
        emit (record_retry_decision c.endpoint (skip_for decision.reason))
        pure s
    ]

    -- Where the loop breaks, and where it goes on.
    onward : (Loop → Action Loop) → Flow × Loop → Action Loop
    onward rest (stop, s) = pure s
    onward rest (again, s) = rest s

    -- `for i in range(…)`, with the number of rounds left and the next `i`.
    rounds : ℕ → ℕ → Loop → Action Loop
    unfolding exhausted onward
    rounds zero i s = exhausted s
    rounds (suc left) i s = do step ← attempt p cfg c i s; onward (rounds left (i + 1)) step

    finish : Loop → Action Object
    finish s = do
      emit (record_client_retries c.endpoint s.status s.completed_retries)
      pure (
          if has "error" s.result && ltb 0 s.retry
          then put "retry_after" (num s.retry) s.result
          else s.result)

  abbrev pub call_at : String → String → Object → ℕ → Call
  call_at uri endpoint form now = record {
    uri = uri;
    endpoint = endpoint;
    form = form;
    deadline = now + cfg.total_timeout;
  }

  abbrev pub before_loop : Object → Loop
  before_loop result = record {
    retry = 0;
    completed_retries = 0;
    status = none;
    pending = none;
    result = result;
  }

  -- Behind `req.prepare()`.
  unfoldable pub fetch_prepared : String → String → Object → Action Object
  unfolding rounds finish monotonic refill_budget
  fetch_prepared uri endpoint form = do
    refill_budget cfg
    now ← monotonic p
    let c = call_at uri endpoint form now
    result ←
        lift (
          Errors.json OAuthError.server_error
            (str "An unknown error occurred talking to provider."))
    s ← rounds c (cfg.total_retries + 1) 0 (before_loop result)
    answer ← finish c s
    monotonic p
    pure answer

  unfoldable pub fetch : String → String → Object → Action Object
  unfolding monotonic fetch_prepared
  fetch uri endpoint form = do
    monotonic p
    lift (p.prepare uri form)
    fetch_prepared uri endpoint form
