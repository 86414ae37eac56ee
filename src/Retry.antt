-- ===== src/Retry.antt =====
-- src/oauthclientbridge/oauth/_retry.py: kinds of attempts, retry decisions, and the process-wide
-- retry budget.
pub mod Limiter
use oauthclientbridge.Base.{
  ℕ, ◌≡◌, Bool, true, false, ◌&&◌, ◌||◌, List, [], ◌∷◌, eqb, elem, if◌then◌else◌,
}
use oauthclientbridge.Bucket
use oauthclientbridge.Bucket.{Bucket}

pub data RetryAttemptKind : Type 0 where
  initial retry : RetryAttemptKind

pub data RetryDecisionAction : Type 0 where
  retry skip : RetryDecisionAction

pub data RetryReason : Type 0 where
  unavailable resource_exhausted deadline_exceeded unknown : RetryReason

pub record RetryDecision : Type 0 where
  pub action : RetryDecisionAction
  pub reason : RetryReason

abbrev is_for : ℕ → ℕ → Bucket → Bool
is_for capacity refill b = eqb b.capacity capacity && eqb b.refill_amount refill

-- The `lru_cache` of `get_retry_limiter`: the bucket made for these arguments, or a new one.
unfoldable pub get_retry_limiter : ℕ → ℕ → List Bucket → Bucket
unfolding Bucket.new
get_retry_limiter capacity refill [] = Bucket.new capacity refill
get_retry_limiter capacity refill (b ∷ bs) =
    if is_for capacity refill b then b else get_retry_limiter capacity refill bs

-- The cached object is shared: a call of one of its methods is seen by the next user.
unfoldable pub keep_limiter : Bucket → List Bucket → List Bucket
keep_limiter b [] = b ∷ []
keep_limiter b (c ∷ cs) =
    if is_for b.capacity b.refill_amount c then b ∷ cs else c ∷ keep_limiter b cs

unfoldable pub retry_reason_for_status : ℕ → RetryReason
retry_reason_for_status status =
    if eqb status 429
    then resource_exhausted
    else if elem status (502 ∷ 503 ∷ 504 ∷ [])
    then unavailable
    else unknown
