-- ===== src/Fetch/Spacing.antt =====
-- src/oauthclientbridge/oauth/_core.py, `fetch`: when its requests follow one another.
use oauthclientbridge.Base.{ℕ, zero, suc, ◌+◌, refl, String, arith, List}
use oauthclientbridge.Base.Json.{Object}
use oauthclientbridge.Base.Result.{Result, Post, Post-bind, Post-checked, Post-final}
use oauthclientbridge.Errors
use oauthclientbridge.Errors.{Exception}
use oauthclientbridge.Net.{Provider, Net, Sent}
use oauthclientbridge.Settings.{FetchSettings}
use oauthclientbridge.Fetch.{exhausted, rounds, onward, before_loop, fetch, fetch_prepared}
use oauthclientbridge.Fetch.Bounds.{called, started, call_started, initial_result}
use oauthclientbridge.Fetch.Round.{Call, Loop, Flow, stop, again, attempt}
use oauthclientbridge.Fetch.Round.Spacing.{
  Spaced, none_sent, Ready, fresh, Goes, IsSpaced, attempt-Goes,
}

module _ (p : Provider) (cfg : FetchSettings) (old : List Sent) where
  abbrev Ends : Result Exception Loop × Net → Type 0
  Ends x = Post (λ _ n. IsSpaced p cfg old n) (IsSpaced p cfg old) x

  exhausted-Ends :
      (c : Call) (s : Loop) (n : Net) → IsSpaced p cfg old n → Ends (exhausted p cfg c s n)
  unfolding exhausted
  exhausted-Ends c s n h = ground arith

  rounds-Ends :
      (c : Call) (left i : ℕ) (s : Loop) (n : Net)
      → IsSpaced p cfg old n
      → Ready p cfg old s n
      → Ends (rounds p cfg c left i s n)
  unfolding rounds
  rounds-Ends c zero i s n h ready = exhausted-Ends c s n h
  rounds-Ends c (suc left) i s n h ready =
      Post-bind (attempt p cfg c i s) _ n (attempt-Goes p cfg old c i s n h ready)
        λ step n₁ g. next step n₁ g (rounds-Ends c left (i + 1))
    where
      next :
          (step : Flow × Loop) (n₁ : Net)
          → Goes p cfg old step n₁
          → ((s₁ : Loop) (n₂ : Net)
              → IsSpaced p cfg old n₂
              → Ready p cfg old s₁ n₂
              → Ends (rounds p cfg c left (i + 1) s₁ n₂))
          → Ends (onward p cfg c (rounds p cfg c left (i + 1)) step n₁)
      next (stop, s₁) n₁ g rest = record { at = g }
      next (again, s₁) n₁ (g, ready₁) rest = rest s₁ n₁ g ready₁

module _ (p : Provider) (cfg : FetchSettings) where
  -- One call sends its requests one after another: each no earlier than the answer to the one before
  -- it, and than the seconds of that answer's Retry-After behind it, whatever the backoff, the jitter
  -- and the clock are.
  pub fetch-Spaced :
      (uri endpoint : String) (form : Object) (n : Net)
      → Spaced p n.requests (fetch p cfg uri endpoint form n).1.requests
  unfolding fetch fetch_prepared started call_started initial_result Errors.json
  fetch-Spaced uri endpoint form n = Post-final (fetch p cfg uri endpoint form n) (
      Post-checked (p.prepare uri form) (fetch_prepared p cfg uri endpoint form) (called p cfg n)
        none_sent
        (Post-bind
          (rounds p cfg (call_started p cfg n uri endpoint form) (cfg.total_retries + 1) 0
            (before_loop p cfg (initial_result p cfg n)))
          _ (started p cfg n)
          (rounds-Ends p cfg n.requests (call_started p cfg n uri endpoint form)
            (cfg.total_retries + 1) 0 (before_loop p cfg (initial_result p cfg n)) (started p cfg n)
            none_sent (fresh refl refl))
          λ s n₂ h. record { at = h }))
