-- ===== src/Fetch/Bounds.antt =====
-- src/oauthclientbridge/oauth/_core.py: how many requests `fetch` sends, how long it sleeps and what
-- it takes from the retry budget, however the provider and the clock behave.
use oauthclientbridge.Base.{
  ℕ, zero, suc, ◌+◌, ◌*◌, ◌≤◌, ◌≡◌, refl, min, arith, length, String, Option-cases, inl, inr, [],
  ◌∷◌,
}
use oauthclientbridge.Base.Json.{Object, str}
use oauthclientbridge.Base.Text.{unit}
use oauthclientbridge.Base.Result.{
  Result, ok, err, Result-cases, Post, Post-bind, Post-weaken, Post-final,
}
use oauthclientbridge.Net.{Provider, Net}
use oauthclientbridge.Errors
use oauthclientbridge.Errors.{Exception}
use oauthclientbridge.Settings.{FetchSettings}
use oauthclientbridge.Fetch.{exhausted, rounds, onward, call_at, before_loop, fetch, fetch_prepared}
use oauthclientbridge.Fetch.Round.{Call, Loop, Flow, stop, again, limiter, refill_budget, attempt}
use oauthclientbridge.Fetch.Round.Within.{
  sum, Added, unchanged, IsTimely, IsWithin, tokens-refill_budget,
}
use oauthclientbridge.Fetch.Round.Ask.{Kept, logged-Kept, attempt-Kept}

module _ (p : Provider) (cfg : FetchSettings) (old : Net) (c : Call) where
  abbrev After : ℕ → Loop → Net → Type 0
  After k _ n = Kept p cfg old c k n

  more-Kept : {k m : ℕ} {n : Net} → Kept p cfg old c k n → k ≤ m → Kept p cfg old c m n
  more-Kept h le = record {
    few = omega (arith, h.few);
    timely = h.timely;
    slept = h.slept;
    capped = h.capped;
    paid = h.paid;
  }

  exhausted-Kept :
      (k m : ℕ) (s : Loop) (n : Net)
      → Kept p cfg old c k n
      → k ≤ m
      → Post (After m) (Kept p cfg old c m) (exhausted p cfg c s n)
  unfolding exhausted
  exhausted-Kept k m s n h le = elim (Option-cases s.pending) [
    | inl nothing ↦ rw nothing (record { at = more-Kept h le })
    | inr (decision, found) ↦ rw found (record { at = logged-Kept p cfg old c _ (more-Kept h le) })
  ]

  rounds-Kept :
      (left i k m : ℕ) (s : Loop) (n : Net)
      → Kept p cfg old c k n
      → k + left ≤ m
      → Post (After m) (Kept p cfg old c m) (rounds p cfg c left i s n)
  unfolding rounds
  rounds-Kept zero i k m s n h le = exhausted-Kept k m s n h (omega arith)
  rounds-Kept (suc left) i k m s n h le =
      Post-bind (attempt p cfg c i s) _ n
        (Post-weaken (attempt p cfg c i s n) (λ r n₁ h₁. h₁) (λ n₁ h₁. more-Kept h₁ (omega arith))
          (attempt-Kept p cfg old c i k s n h))
        λ step n₁ h₁.
          next step n₁ h₁ (λ s₁. rounds-Kept left (i + 1) (suc k) m s₁ n₁ h₁ (omega arith))
    where
      next :
          (step : Flow × Loop) (n₁ : Net)
          → Kept p cfg old c (suc k) n₁
          → ((s₁ : Loop) → Post (After m) (Kept p cfg old c m) (rounds p cfg c left (i + 1) s₁ n₁))
          → Post
              (After m)
              (Kept p cfg old c m)
              (onward p cfg c (rounds p cfg c left (i + 1)) step n₁)
      next (stop, s₁) n₁ h₁ rest = record { at = more-Kept h₁ (omega arith) }
      next (again, s₁) n₁ h₁ rest = rest s₁

-- The end of the time of a call that starts at `n`: by the second reading of the clock.
abbrev pub deadline_from : Provider → FetchSettings → Net → ℕ
deadline_from p cfg n = n.now + p.lag n.readings + p.lag (n.readings + 1) + cfg.total_timeout

module _ (p : Provider) (cfg : FetchSettings) (n : Net) where
  -- The state in which the loop starts.
  unfoldable pub started : Net
  unfolding refill_budget
  started = record (refill_budget cfg n).1 {
    now = n.now + p.lag n.readings + p.lag (n.readings + 1);
    readings = n.readings + 1 + 1;
  }

  started-IsWithin : IsWithin cfg (deadline_from p cfg n) started (length n.requests) started
  unfolding started
  started-IsWithin = record {
    few = omega arith;
    timely = unchanged;
    slept = omega arith;
    capped = omega arith;
    paid = omega arith;
  }

  unfoldable pub call_started : String → String → Object → Call
  call_started uri endpoint form =
      call_at p cfg uri endpoint form (n.now + p.lag n.readings + p.lag (n.readings + 1))

  unfoldable pub initial_result : Object
  initial_result =
      ("error", str "server_error")
      ∷ ("error_description", str "An unknown error occurred talking to provider.")
      ∷ []

  -- The state behind the first reading of the clock.
  abbrev pub called : Net
  called = record n { now = n.now + p.lag n.readings; readings = n.readings + 1 }

  module _ (uri endpoint : String) (form : Object) where
    -- A request that cannot be prepared ends the call.
    fetch-refused :
        (e : Exception) → p.prepare uri form ≡ err e → (fetch p cfg uri endpoint form n).1 ≡ called
    unfolding fetch
    fetch-refused e h = rw h refl

    pub fetch-prepared :
        p.prepare uri form ≡ ok tt
        → fetch p cfg uri endpoint form n ≡ fetch_prepared p cfg uri endpoint form called
    unfolding fetch
    fetch-prepared h = rw h refl

    prepared-IsWithin :
        IsWithin cfg
          (deadline_from p cfg n)
          started
          (length n.requests + cfg.total_retries + 1)
          (fetch_prepared p cfg uri endpoint form called).1
    unfolding fetch_prepared started call_started initial_result Errors.json
    prepared-IsWithin = Post-final (fetch_prepared p cfg uri endpoint form called) (
        Post-bind
          (rounds p cfg (call_started uri endpoint form) (cfg.total_retries + 1) 0
            (before_loop p cfg initial_result))
          _ started
          (rounds-Kept p cfg started (call_started uri endpoint form) (cfg.total_retries + 1) 0
            (length n.requests) (length n.requests + cfg.total_retries + 1)
            (before_loop p cfg initial_result) started started-IsWithin (omega arith))
          λ s n₂ h. record {
            at = record {
              few = h.few;
              timely = h.timely;
              slept = omega (arith, h.slept);
              capped = h.capped;
              paid = h.paid;
            };
          })

    fetch-IsWithin :
        p.prepare uri form ≡ ok tt
        → IsWithin cfg
            (deadline_from p cfg n)
            started
            (length n.requests + cfg.total_retries + 1)
            (fetch p cfg uri endpoint form n).1
    fetch-IsWithin h = rw (fetch-prepared h) prepared-IsWithin

    -- One call sends at most one request for the first attempt and one for each configured retry.
    pub fetch-few :
        length (fetch p cfg uri endpoint form n).1.requests
        ≤ length n.requests + cfg.total_retries + 1
    fetch-few = elim (Result-cases (p.prepare uri form)) [
      | inl (_, h) ↦ (fetch-IsWithin h).few
      | inr (e, h) ↦ rw (fetch-refused e h) (omega arith)
    ]

    -- The sleeps of one call together never pass its total timeout.
    pub fetch-capped :
        sum (fetch p cfg uri endpoint form n).1.sleeps ≤ sum n.sleeps + cfg.total_timeout
    unfolding started
    fetch-capped = elim (Result-cases (p.prepare uri form)) [
      | inl (_, h) ↦ (fetch-IsWithin h).capped
      | inr (e, h) ↦ rw (fetch-refused e h) (omega arith)
    ]

    -- Every request that one call sends is sent before its deadline, has at most the configured
    -- timeout, and has its timeout within the deadline.
    pub fetch-IsTimely :
        Added
          (IsTimely cfg (deadline_from p cfg n))
          n.requests
          (fetch p cfg uri endpoint form n).1.requests
    unfolding started
    fetch-IsTimely = elim (Result-cases (p.prepare uri form)) [
      | inl (_, h) ↦ (fetch-IsWithin h).timely
      | inr (e, h) ↦ rw (fetch-refused e h) unchanged
    ]

    -- The tokens of the budget behind `retry_budget.add`, which a request that cannot be prepared does
    -- not reach.
    abbrev pub refilled : Result Exception (Unit {0}) → ℕ
    refilled (ok _) =
        min cfg.retry_budget_capacity
          ((limiter cfg n.limiters).tokens + cfg.retry_budget_refill_per_initial)
    refilled (err _) = (limiter cfg n.limiters).tokens

    -- The sleeps that one call adds, at a whole token each, and the tokens that it leaves are covered
    -- by the budget, refilled where the request can be prepared.
    pub fetch-paid :
        let n' = (fetch p cfg uri endpoint form n).1 in
        length n'.sleeps * unit + (limiter cfg n'.limiters).tokens
        ≤ length n.sleeps * unit + refilled (p.prepare uri form)
    unfolding started
    fetch-paid = elim (Result-cases (p.prepare uri form)) [
      | inl (_, h) ↦ rw h (omega (arith, (fetch-IsWithin h).paid, tokens-refill_budget cfg n))
      | inr (e, h) ↦ rw (fetch-refused e h, h) (omega arith)
    ]
