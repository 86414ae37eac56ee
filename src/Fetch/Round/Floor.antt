-- ===== src/Fetch/Round/Floor.antt =====
-- src/oauthclientbridge/oauth/_core.py: the gate of a retry waits as long as the provider asked for.
use oauthclientbridge.Base.{
  ℕ, ◌+◌, ◌*◌, ◌≡◌, ◌≤◌, refl, arith, Bool, true, false, Bool-cases, Option, inl, inr, none, some,
  List, ltb, if◌then◌else◌,
}
use oauthclientbridge.Base.Text.{unit}
use oauthclientbridge.Base.Result.{Post, Post-bind, pure, ◌>>=◌}
use oauthclientbridge.Net.{Provider, Net, Sent}
use oauthclientbridge.Retry.{RetryReason, RetryDecision, deadline_exceeded, resource_exhausted}
use oauthclientbridge.Settings.{FetchSettings}
use oauthclientbridge.Fetch.Round.{
  Call, Loop, give_up, choose_sleep, nap, spend, consume_budget, delay_before, gate,
}

module _ (p : Provider) (cfg : FetchSettings) (floor : ℕ) (log : List Sent) where
  -- No request was sent, and where the round goes on, it is late enough.
  abbrev pub Waits : Option (ℕ × Loop) → Net → Type 0
  Waits none n = n.requests ≡ log
  Waits (some (now, s)) n = (n.requests ≡ log) × (floor ≤ n.now)

  abbrev pub Silent : Net → Type 0
  Silent n = n.requests ≡ log

  nap-Waits :
      (c : Call) (d : RetryDecision) (s : Loop) (duration : ℕ) (n : Net)
      → n.requests ≡ log
      → floor ≤ n.now + duration
      → Post Waits Silent (nap p cfg c d duration s n)
  unfolding nap give_up
  nap-Waits c d s duration n same late = ground arith

  give_up-Waits :
      (c : Call) (r : RetryReason) (n : Net)
      → n.requests ≡ log
      → Post Waits Silent (give_up p cfg c r n)
  unfolding give_up
  give_up-Waits c r n same = record { at = same }

  consume_budget-same :
      (n : Net)
      → n.requests ≡ log
      → Post (λ _ n'. (n'.requests ≡ log) × (n'.now ≡ n.now)) Silent (consume_budget cfg n)
  unfolding consume_budget
  consume_budget-same n same = record { at = (same, refl) }

  choose_sleep-late :
      (c : Call) (retry delay : ℕ) (n : Net)
      → n.requests ≡ log
      → floor ≤ n.now + retry * unit
      → Post
          (λ sleep_for n'. (n'.requests ≡ log) × (floor ≤ n'.now + sleep_for))
          Silent
          (choose_sleep p cfg c retry delay n)
  unfolding choose_sleep
  choose_sleep-late c retry delay n same late = ground (arith, same, late)

  spend-Waits :
      (c : Call) (d : RetryDecision) (delay now : ℕ) (s : Loop) (n : Net)
      → n.requests ≡ log
      → floor ≤ n.now + s.retry * unit
      → Post Waits Silent (spend p cfg c d delay now s n)
  unfolding spend
  spend-Waits c d delay now s n same late =
      Post-bind (consume_budget cfg) _ n (consume_budget-same n same)
        λ admitted n₁ (same₁, e). after admitted n₁ same₁ (omega (arith, late, e))
    where
      chosen :
          (sleep_for : ℕ) (n₂ : Net)
          → n₂.requests ≡ log
          → floor ≤ n₂.now + sleep_for
          → (b : Bool)
          → Post Waits Silent
              ((if b then give_up p cfg c deadline_exceeded else nap p cfg c d sleep_for s) n₂)
      chosen sleep_for n₂ same₂ late₂ true = give_up-Waits c deadline_exceeded n₂ same₂
      chosen sleep_for n₂ same₂ late₂ false = nap-Waits c d s sleep_for n₂ same₂ late₂

      after :
          (admitted : Bool) (n₁ : Net)
          → n₁.requests ≡ log
          → floor ≤ n₁.now + s.retry * unit
          → Post Waits Silent (
              (if admitted
                  then choose_sleep p cfg c s.retry delay >>= (λ sleep_for.
                    if ltb c.deadline (now + sleep_for)
                    then give_up p cfg c deadline_exceeded
                    else nap p cfg c d sleep_for s)
                  else give_up p cfg c resource_exhausted)
                n₁)
      after false n₁ same₁ late₁ = give_up-Waits c resource_exhausted n₁ same₁
      after true n₁ same₁ late₁ =
          Post-bind (choose_sleep p cfg c s.retry delay) _ n₁
            (choose_sleep-late c s.retry delay n₁ same₁ late₁)
            λ sleep_for n₂ (same₂, late₂).
              chosen sleep_for n₂ same₂ late₂ (ltb c.deadline (now + sleep_for))

  pub gate-Waits :
      (c : Call) (i now : ℕ) (s : Loop) (n : Net) (d : RetryDecision)
      → s.pending ≡ some d
      → n.requests ≡ log
      → floor ≤ n.now + s.retry * unit
      → Post Waits Silent (gate p cfg c i now s n)
  unfolding gate
  gate-Waits c i now s n d pending same late =
      rw pending (wait (ltb c.deadline (now + delay_before p cfg c i s.retry)))
    where
      wait :
          (b : Bool)
          → Post Waits Silent (
              (if b
                  then give_up p cfg c deadline_exceeded
                  else if ltb 0 (delay_before p cfg c i s.retry)
                  then spend p cfg c d (delay_before p cfg c i s.retry) now s
                  else pure (some (now, record s { pending = none })))
                n)
      wait true = give_up-Waits c deadline_exceeded n same
      wait false = elim (Bool-cases (ltb 0 (delay_before p cfg c i s.retry))) [
        | inl long ↦ rw long (spend-Waits c d (delay_before p cfg c i s.retry) now s n same late)
        | inr none_left ↦ rw none_left (record { at = (same, ground (arith, late, none_left)) })
      ]
