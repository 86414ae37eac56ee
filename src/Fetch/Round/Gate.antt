-- ===== src/Fetch/Round/Gate.antt =====
-- src/oauthclientbridge/oauth/_core.py: a pending retry, from its decision to the end of its sleep.
use oauthclientbridge.Base.{
  ℕ, ◌+◌, ◌*◌, if◌then◌else◌, ◌≡◌, ◌≤◌, refl, true, false, Option, none, some, ◌∷◌, arith, length,
  ltb, leb, Bool-cases, Option-cases, inl, inr, Bool,
}
use oauthclientbridge.Base.Text.{unit}
use oauthclientbridge.Base.Result.{Post, Post-bind, pure, ◌>>=◌}
use oauthclientbridge.Bucket
use oauthclientbridge.Bucket.{Bucket}
use oauthclientbridge.Bucket.Bounds
use oauthclientbridge.Net.{Provider, Net, monotonic, emit}
use oauthclientbridge.Settings.{FetchSettings}
use oauthclientbridge.Telemetry.{Metric, record_retry_decision}
use oauthclientbridge.Retry.{RetryReason, RetryDecision, deadline_exceeded, resource_exhausted}
use oauthclientbridge.Fetch.Round.{
  Call, Loop, limiter, consume_budget, choose_sleep, nap, give_up, spend, gate, delay_before,
  skip_for,
}
use oauthclientbridge.Fetch.Round.Within.{IsWithin, tokens-consume_budget}

module _ (p : Provider) (cfg : FetchSettings) (deadline : ℕ) (old : Net) where
  abbrev pub Within : ℕ → Net → Type 0
  Within = IsWithin cfg deadline old

  pub emit-Within : (m : Metric) (k : ℕ) (n : Net) → Within k n → Within k (emit m n).1
  emit-Within m k n h = record {
    few = h.few;
    timely = h.timely;
    slept = h.slept;
    capped = h.capped;
    paid = h.paid;
  }

  pub monotonic-Within :
      (k : ℕ) (n : Net)
      → Within k n
      → Post (λ now n'. Within k n' × (now ≡ n'.now)) (Within k) (monotonic p n)
  unfolding monotonic
  monotonic-Within k n h = record {
    at = (
      record {
        few = h.few;
        timely = h.timely;
        slept = omega (arith, h.slept);
        capped = h.capped;
        paid = h.paid;
      },
      refl,
    );
  }

  -- A token was taken that no sleep has used yet.
  record IsPrepaid (k now : ℕ) (n : Net) : Type 0 where
    within : Within k n
    read : now ≡ n.now
    token :
        length n.sleeps * unit + (limiter cfg n.limiters).tokens + unit
        ≤ length old.sleeps * unit + (limiter cfg old.limiters).tokens

  consume_budget-Within :
      (k now : ℕ) (n : Net)
      → Within k n
      → now ≡ n.now
      → Post
          (λ admitted n'. Within k n' × (now ≡ n'.now) × (admitted ≡ true → IsPrepaid k now n'))
          (Within k)
          (consume_budget cfg n)
  unfolding consume_budget Bucket.consume
  consume_budget-Within k now n h e =
      ground (arith, tokens-consume_budget cfg n, Bounds.consume_lem unit (limiter cfg n.limiters))

  choose_sleep-IsPrepaid :
      (c : Call) (k now retry delay : ℕ) (n : Net)
      → IsPrepaid k now n
      → Post (λ _ n'. IsPrepaid k now n') (Within k) (choose_sleep p cfg c retry delay n)
  unfolding choose_sleep
  choose_sleep-IsPrepaid c k now retry delay n h = record {
    at = record {
      within = record {
        few = h.within.few;
        timely = h.within.timely;
        slept = h.within.slept;
        capped = h.within.capped;
        paid = h.within.paid;
      };
      read = h.read;
      token = h.token;
    };
  }

  abbrev pub Passed : ℕ → Option (ℕ × Loop) → Net → Type 0
  Passed k none n = Within k n
  Passed k (some (now, s)) n = Within k n × (now ≡ n.now)

  give_up-Within :
      (c : Call) (k : ℕ) (r : RetryReason) (n : Net)
      → Within k n
      → Post (Passed k) (Within k) (give_up p cfg c r n)
  unfolding give_up
  give_up-Within c k r n h = record {
    at = emit-Within (record_retry_decision c.endpoint (skip_for r)) k n h;
  }

  nap-Within :
      (c : Call) (d : RetryDecision) (s : Loop) (k now duration : ℕ) (n : Net)
      → IsPrepaid k now n
      → now + duration ≤ deadline
      → Post (Passed k) (Within k) (nap p cfg c d duration s n)
  unfolding nap
  nap-Within c d s k now duration n h fits = elim (Bool-cases (leb c.deadline woken)) [
    | inl late ↦ rw late (give_up-Within c k deadline_exceeded after slept)
    | inr early ↦ rw early (record { at = (slept, refl) })
  ]
    where
      woken : ℕ
      woken = n.now + duration + p.overslept (length n.sleeps) + p.lag n.readings

      after : Net
      after = record n {
        now = woken;
        readings = n.readings + 1;
        sleeps = duration ∷ n.sleeps;
        metrics = record_retry_decision c.endpoint d ∷ n.metrics;
      }

      slept : Within k after
      slept = record {
        few = h.within.few;
        timely = h.within.timely;
        slept = omega (arith, h.within.slept);
        capped = omega (arith, h.within.slept);
        paid = omega (arith, h.token);
      }

  spend-Within :
      (c : Call) (decision : RetryDecision) (delay k now : ℕ) (s : Loop) (n : Net)
      → c.deadline ≡ deadline
      → Within k n
      → now ≡ n.now
      → Post (Passed k) (Within k) (spend p cfg c decision delay now s n)
  unfolding spend
  spend-Within c decision delay k now s n d h e =
      Post-bind (consume_budget cfg) _ n (consume_budget-Within k now n h e)
        λ admitted n₁ (h₁, e₁, prepaid). after admitted n₁ h₁ prepaid
    where
      chosen :
          (sleep_for : ℕ) (n₂ : Net)
          → IsPrepaid k now n₂
          → Post (Passed k) (Within k) (
              (if ltb c.deadline (now + sleep_for)
                  then give_up p cfg c deadline_exceeded
                  else nap p cfg c decision sleep_for s)
                n₂)
      chosen sleep_for n₂ h₂ = elim (Bool-cases (ltb c.deadline (now + sleep_for))) [
        | inl late ↦ rw late (give_up-Within c k deadline_exceeded n₂ h₂.within)
        | inr early ↦ rw early (nap-Within c decision s k now sleep_for n₂ h₂ (ground arith))
      ]

      after :
          (admitted : Bool) (n₁ : Net)
          → Within k n₁
          → (admitted ≡ true → IsPrepaid k now n₁)
          → Post (Passed k) (Within k) (
              (if admitted
                  then choose_sleep p cfg c s.retry delay >>= (λ sleep_for.
                    if ltb c.deadline (now + sleep_for)
                    then give_up p cfg c deadline_exceeded
                    else nap p cfg c decision sleep_for s)
                  else give_up p cfg c resource_exhausted)
                n₁)
      after false n₁ h₁ prepaid = give_up-Within c k resource_exhausted n₁ h₁
      after true n₁ h₁ prepaid =
          Post-bind (choose_sleep p cfg c s.retry delay) _ n₁
            (choose_sleep-IsPrepaid c k now s.retry delay n₁ (prepaid refl)) chosen

  pub gate-Within :
      (c : Call) (i k now : ℕ) (s : Loop) (n : Net)
      → c.deadline ≡ deadline
      → Within k n
      → now ≡ n.now
      → Post (Passed k) (Within k) (gate p cfg c i now s n)
  unfolding gate
  gate-Within c i k now s n d h e = elim (Option-cases s.pending) [
    | inl nothing ↦ rw nothing (record { at = (h, e) })
    | inr (decision, found) ↦ rw found (wait decision)
  ]
    where
      delay : ℕ
      delay = delay_before p cfg c i s.retry

      wait :
          (decision : RetryDecision)
          → Post (Passed k) (Within k) (
              (if ltb c.deadline (now + delay)
                  then give_up p cfg c deadline_exceeded
                  else if ltb 0 delay
                  then spend p cfg c decision delay now s
                  else pure (some (now, record s { pending = none })))
                n)
      wait decision = elim (Bool-cases (ltb c.deadline (now + delay))) [
        | inl late ↦ rw late (give_up-Within c k deadline_exceeded n h)
        | inr early ↦ rw early (elim (Bool-cases (ltb 0 delay)) [
          | inl positive ↦ rw positive (spend-Within c decision delay k now s n d h e)
          | inr free ↦ rw free (record { at = (h, e) })
        ])
      ]
