-- ===== src/Fetch/Round/Within.antt =====
-- src/oauthclientbridge/oauth/_core.py: what the loop of `fetch` keeps to, and the budget's part.
use oauthclientbridge.Base.{ℕ, ◌+◌, ◌*◌, min, ap, ◌≡◌, ◌≤◌, ◌<◌, List, [], ◌∷◌, arith, length}
use oauthclientbridge.Base.Text.{unit}
use oauthclientbridge.Bucket
use oauthclientbridge.Bucket.{Bucket}
use oauthclientbridge.Net.{Net, Sent}
use oauthclientbridge.Settings.{FetchSettings}
use oauthclientbridge.Retry.{keep_limiter}
use oauthclientbridge.Retry.Limiter.{get_retry_limiter-capacity, get_retry_limiter-keep_limiter}
use oauthclientbridge.Fetch.Round.{limiter, consume_budget, refill_budget}

abbrev pub sum : List ℕ → ℕ
sum [] = 0
sum (d ∷ ds) = d + sum ds

-- Every entry that a log has gained since it was `old`.
pub data Added {ℓ κ} {A : Type ℓ} (P : A → Type κ) (old : List A) : List A → Type (ℓ ⊔ κ) where
  unchanged : Added P old old
  gained : {x : A} {xs : List A} → P x → Added P old xs → Added P old (x ∷ xs)

-- A request ends by its timeout within the call's time.
abbrev pub IsTimely : FetchSettings → ℕ → Sent → Type 0
IsTimely cfg deadline r =
    (r.at < deadline) × (r.at + r.timeout ≤ deadline) × (r.timeout ≤ cfg.timeout)

-- Since the net was `old`, in a call with this deadline, after at most `sent` requests in all:
-- the sleeps took their time and are paid by the budget.
pub record IsWithin (cfg : FetchSettings) (deadline : ℕ) (old : Net) (sent : ℕ) (n : Net)
    : Type 0 where
  pub few : length n.requests ≤ sent
  pub timely : Added (IsTimely cfg deadline) old.requests n.requests
  pub slept : sum n.sleeps + deadline ≤ sum old.sleeps + n.now + cfg.total_timeout
  pub capped : sum n.sleeps ≤ sum old.sleeps + cfg.total_timeout
  pub paid :
      length n.sleeps * unit + (limiter cfg n.limiters).tokens
      ≤ length old.sleeps * unit + (limiter cfg old.limiters).tokens

pub limiter-keep_limiter :
    (cfg : FetchSettings) (b : Bucket) (bs : List Bucket)
    → b.capacity ≡ cfg.retry_budget_capacity
    → b.refill_amount ≡ cfg.retry_budget_refill_per_initial
    → limiter cfg (keep_limiter b bs) ≡ b
limiter-keep_limiter cfg b bs h k = cc (get_retry_limiter-keep_limiter b bs)

-- What a refill and a consumption leave in the budget.
pub tokens-refill_budget :
    (cfg : FetchSettings) (n : Net)
    → (limiter cfg (refill_budget cfg n).1.limiters).tokens
      ≡ min cfg.retry_budget_capacity
          ((limiter cfg n.limiters).tokens + cfg.retry_budget_refill_per_initial)
unfolding refill_budget Bucket.add
tokens-refill_budget cfg n =
    let (same_capacity, same_refill) =
      get_retry_limiter-capacity cfg.retry_budget_capacity cfg.retry_budget_refill_per_initial
        n.limiters in
    rw
      (limiter-keep_limiter cfg
        (Bucket.add cfg.retry_budget_refill_per_initial (limiter cfg n.limiters)) n.limiters
        same_capacity same_refill)
      (rw same_capacity)

pub tokens-consume_budget :
    (cfg : FetchSettings) (n : Net)
    → (limiter cfg (consume_budget cfg n).1.limiters).tokens
      ≡ (Bucket.consume unit (limiter cfg n.limiters)).1.tokens
unfolding consume_budget Bucket.consume
tokens-consume_budget cfg n =
    let (same_capacity, same_refill) =
      get_retry_limiter-capacity cfg.retry_budget_capacity cfg.retry_budget_refill_per_initial
        n.limiters in
    ap (λ b. b.tokens)
      (limiter-keep_limiter cfg (Bucket.consume unit (limiter cfg n.limiters)).1 n.limiters
        (ground arith) (ground arith))
