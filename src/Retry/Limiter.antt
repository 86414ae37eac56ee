-- ===== src/Retry/Limiter.antt =====
-- src/oauthclientbridge/oauth/_retry.py: the cache of budgets gives back the bucket that was kept.
use oauthclientbridge.Base.{ℕ, ◌≡◌, refl, List, [], ◌∷◌, arith}
use oauthclientbridge.Bucket.{Bucket}
use oauthclientbridge.Retry.{get_retry_limiter, keep_limiter}

-- A budget is made for the arguments that it is asked by.
pub get_retry_limiter-capacity :
    (capacity refill : ℕ) (bs : List Bucket)
    → ((get_retry_limiter capacity refill bs).capacity ≡ capacity)
      × ((get_retry_limiter capacity refill bs).refill_amount ≡ refill)
unfolding get_retry_limiter
get_retry_limiter-capacity capacity refill [] = (refl, refl)
get_retry_limiter-capacity capacity refill (b ∷ bs) =
    ground (arith, get_retry_limiter-capacity capacity refill bs)

-- What is done to a budget is seen by whoever asks for it next.
pub get_retry_limiter-keep_limiter :
    (b : Bucket) (bs : List Bucket)
    → get_retry_limiter b.capacity b.refill_amount (keep_limiter b bs) ≡ b
unfolding get_retry_limiter keep_limiter
get_retry_limiter-keep_limiter b [] = ground arith
get_retry_limiter-keep_limiter b (c ∷ cs) = ground (arith, get_retry_limiter-keep_limiter b cs)
