-- ===== src/Bucket.antt =====
-- src/oauthclientbridge/utils/bucket.py: a token bucket. Each method runs under the bucket's lock,
-- so calls from any number of threads are one sequence of calls. A float is a number of
-- millionths.
pub mod Bounds
use oauthclientbridge.Base.{ℕ, ◌+◌, ◌-◌, min, Bool, true, false, List, [], ◌∷◌, ltb, if◌then◌else◌}

pub record Bucket : Type 0 where
  pub capacity : ℕ
  pub refill_amount : ℕ
  pub tokens : ℕ

-- `Bucket(capacity, refill_amount)`
unfoldable pub new : ℕ → ℕ → Bucket
new capacity refill_amount = record {
  capacity = capacity;
  refill_amount = refill_amount;
  tokens = capacity;
}

unfoldable pub add : ℕ → Bucket → Bucket
add tokens b = record b { tokens = min b.capacity (b.tokens + tokens) }

unfoldable pub consume : ℕ → Bucket → Bool × Bucket
consume tokens b =
    if ltb b.tokens tokens then (false, b) else (true, record b { tokens = b.tokens - tokens })

-- The calls that threads make.
pub data Call : Type 0 where
  to_add to_consume : ℕ → Call

unfoldable pub call : Call → Bucket → Bucket
unfolding add consume
call (to_add n) b = add n b
call (to_consume n) b = (consume n b).1

unfoldable pub run : List Call → Bucket → Bucket
run [] b = b
run (c ∷ cs) b = run cs (call c b)

-- What the calls put in, and what the admitted ones take out.
unfoldable pub added : List Call → ℕ
added [] = 0
added (to_add n ∷ cs) = n + added cs
added (to_consume n ∷ cs) = added cs

unfoldable pub granted : List Call → Bucket → ℕ
unfolding call
granted [] b = 0
granted (to_add n ∷ cs) b = granted cs (call (to_add n) b)
granted (to_consume n ∷ cs) b =
    (if (consume n b).0 then n else 0) + granted cs (call (to_consume n) b)
