-- ===== src/Fetch/Round.antt =====
-- src/oauthclientbridge/oauth/_core.py: the body of the `for` loop of `fetch`.
pub mod Within
pub mod Gate
pub mod Ask
pub mod Answers
pub mod Source
pub mod Floor
pub mod Spacing
use oauthclientbridge.Base.{
  ℕ, ◌+◌, ◌-◌, ◌*◌, ◌/◌, ◌^◌, max, String, Bool, true, false, Option, none, some, List, [], ◌∷◌,
  ltb, leb, eqb, if◌then◌else◌,
}
use oauthclientbridge.Base.Dict.{Dict, get, has}
use oauthclientbridge.Base.Json.{Json, null, str, nested, Object, or_null}
use oauthclientbridge.Base.Text.{unit}
use oauthclientbridge.Base.Result.{Result, ok, err, pure, raise, lift, ◌>>=◌, ◌>>◌}
use oauthclientbridge.Bucket
use oauthclientbridge.Bucket.{Bucket}
use oauthclientbridge.Errors
use oauthclientbridge.Errors.{OAuthError, Exception, type_error, attribute_error, from_value}
use oauthclientbridge.Net.{Action, Provider, emit, monotonic, sleep, uniform}
use oauthclientbridge.Outcome.{
  TokenEndpointOutcome, is_success, token_endpoint_outcome, unexpected_token_endpoint_issue,
}
use oauthclientbridge.Retry.{
  RetryAttemptKind, RetryDecision, RetryDecisionAction, RetryReason, resource_exhausted,
  deadline_exceeded, unknown, get_retry_limiter, keep_limiter,
}
use oauthclientbridge.Settings.{FetchSettings}
use oauthclientbridge.Telemetry.{record_client_attempt, record_client_error, record_retry_decision}
use oauthclientbridge.Fetch.Once.{Fetched, fetch_once}

-- What a call of `fetch` fixes before its loop.
pub record Call : Type 0 where
  pub uri : String
  pub endpoint : String
  pub form : Object
  pub deadline : ℕ

-- The variables of the loop.
pub record Loop : Type 0 where
  pub retry : ℕ
  pub completed_retries : ℕ
  pub status : Option ℕ
  pub pending : Option RetryDecision
  pub result : Object

-- `break`, or the end of the body.
pub data Flow : Type 0 where
  stop again : Flow

abbrev pub skip_for : RetryReason → RetryDecision
skip_for reason = record { action = RetryDecisionAction.skip; reason = reason }

-- The label of `record_client_error`.
error_label : Dict OAuthError → Json → Result Exception String
error_label types (str code) = ok (elim (get code types) [
  | some e ↦ Errors.value e
  | none ↦ elim (from_value code) [ some e ↦ Errors.value e | none ↦ "invalid_error" ]
])
error_label types (nested _ _) = err type_error
error_label types _ = ok "invalid_error"

module _ (cfg : FetchSettings) where
  abbrev pub limiter : List Bucket → Bucket
  limiter = get_retry_limiter cfg.retry_budget_capacity cfg.retry_budget_refill_per_initial

  -- `retry_budget.add(…)`
  unfoldable pub refill_budget : Action (Unit {0})
  refill_budget n = (
    ok tt,
    record n {
      limiters =
          keep_limiter (Bucket.add cfg.retry_budget_refill_per_initial (limiter n.limiters))
            n.limiters;
    },
  )

  -- `retry_budget.consume()`
  unfoldable pub consume_budget : Action Bool
  consume_budget n =
      let (admitted, b) = Bucket.consume unit (limiter n.limiters) in
      (ok admitted, record n { limiters = keep_limiter b n.limiters })

module _ (p : Provider) (cfg : FetchSettings) where
  unfoldable pub jitter_delay : ℕ → Bool → Action ℕ
  unfolding uniform
  jitter_delay delay preserve_floor = do
    sample ←
        uniform p
          (if preserve_floor then max unit cfg.backoff_jitter_min else cfg.backoff_jitter_min)
          cfg.backoff_jitter_max
    pure (delay * sample / unit)

  module _ (c : Call) where
    give_up : {A : Type 0} → RetryReason → Action (Option A)
    give_up reason = do emit (record_retry_decision c.endpoint (skip_for reason)); pure none

    -- `sleep_for`
    choose_sleep : ℕ → ℕ → Action ℕ
    unfolding jitter_delay
    choose_sleep retry base_delay = do
      sleep_for ← jitter_delay base_delay (ltb 0 retry)
      pure (if eqb retry 0 then sleep_for else max (retry * unit) sleep_for)

    -- `time.sleep` and the second reading of the clock.
    nap : RetryDecision → ℕ → Loop → Action (Option (ℕ × Loop))
    unfolding give_up sleep monotonic
    nap decision sleep_for s = do
      emit (record_retry_decision c.endpoint decision)
      sleep p sleep_for
      now ← monotonic p
      (if leb c.deadline now
          then give_up deadline_exceeded
          else pure (
              some (now, record s { completed_retries = s.completed_retries + 1; pending = none })))

    -- The delay is above 0: a token of the budget, the jitter and the sleep.
    spend : RetryDecision → ℕ → ℕ → Loop → Action (Option (ℕ × Loop))
    unfolding nap choose_sleep consume_budget
    spend decision base_delay now s = do
      admitted ← consume_budget cfg
      if admitted
          then (do
            sleep_for ← choose_sleep s.retry base_delay
            if ltb c.deadline (now + sleep_for)
                then give_up deadline_exceeded
                else nap decision sleep_for s)
          else give_up resource_exhausted

    -- `retry or backoff`
    abbrev pub delay_before : ℕ → ℕ → ℕ
    delay_before i retry = if eqb retry 0 then (2 ^ i - 1) * cfg.backoff_factor else retry * unit

    -- The pending decision of round `i`: `none` where the loop breaks, or the reading of the clock
    -- that the request goes by. `x > deadline - now` is written `deadline < now + x`.
    pub gate : ℕ → ℕ → Loop → Action (Option (ℕ × Loop))
    unfolding spend
    gate i now s = elim s.pending [
      | none ↦ pure (some (now, s))
      | some decision ↦
          let delay = delay_before i s.retry in
          if ltb c.deadline (now + delay)
          then give_up deadline_exceeded
          else if ltb 0 delay
          then spend decision delay now s
          else pure (some (now, record s { pending = none }))
    ]

    -- A retryable answer is replaced by the error that it stands for.
    pub retry_later : TokenEndpointOutcome → Loop → Object → Action (Flow × Loop)
    unfolding error_label
    retry_later outcome s result = do
      let normalized : OAuthError = elim outcome.normalized_error [
        | some e ↦ e
        | none ↦ OAuthError.server_error
      ]
      error ← lift (Errors.json normalized (or_null (get "error_description" result)))
      (elim s.status [
        | none ↦ pure tt
        | some code ↦ do
          name ← lift (error_label cfg.error_types (or_null (get "error" error)))
          emit (record_client_error c.endpoint (some code) name)
      ])
      pure (
        again,
        record s {
          result = error;
          pending = some (record {
            action = RetryDecisionAction.retry;
            reason = elim outcome.retry_reason [ some r ↦ r | none ↦ unknown ];
          });
        },
      )

    -- The answer of one request. A body that is no object raises where it is first read as one.
    pub judge : Loop → Fetched → Action (Flow × Loop)
    unfolding retry_later
    judge s fetched = do
      result ← lift fetched.result
      let s' : Loop = record s {
        result = result;
        status = fetched.status;
        retry = fetched.retry_after;
      }
      lift (unexpected_token_endpoint_issue fetched.status result cfg.retry_status_codes)
      let outcome =
          token_endpoint_outcome p.render fetched.status result cfg.retry_status_codes
            cfg.error_types
      if outcome.retryable
          then retry_later outcome s' result
          else pure (stop, record s' { pending = none })

    -- The request of a round that passed its gate at the reading `now`.
    pub ask : ℕ → Loop → Action (Flow × Loop)
    unfolding judge
    ask now s = do
      emit (
          record_client_attempt c.endpoint (
            if ltb 0 s.completed_retries then RetryAttemptKind.retry else RetryAttemptKind.initial))
      if leb c.deadline now
          then (do
            emit (record_retry_decision c.endpoint (skip_for deadline_exceeded))
            pure (stop, s))
          else (do
            fetched ← fetch_once p cfg c.endpoint c.uri c.form (c.deadline - now)
            judge s fetched)

    -- Whether the round broke at its gate.
    pub proceed : Loop → Option (ℕ × Loop) → Action (Flow × Loop)
    unfolding ask
    proceed s none = pure (stop, s)
    proceed s (some (now, passed)) = ask now passed

    unfoldable pub attempt : ℕ → Loop → Action (Flow × Loop)
    unfolding gate proceed
    attempt i s = do now ← monotonic p; passed ← gate i now s; proceed s passed
