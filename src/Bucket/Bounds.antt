-- ===== src/Bucket/Bounds.antt =====
-- src/oauthclientbridge/utils/bucket.py: what any sequence of calls is bounded by.
use oauthclientbridge.Base.{ℕ, ◌+◌, ◌≤◌, ◌≡◌, ◌↔◌, true, false, List, [], ◌∷◌, arith, if◌then◌else◌}
use oauthclientbridge.Bucket.{
  Bucket, add, consume, Call, to_add, to_consume, call, run, added, granted,
}

abbrev pub IsBounded : Bucket → Type 0
IsBounded b = b.tokens ≤ b.capacity

call-IsBounded : (c : Call) (b : Bucket) → IsBounded b → IsBounded (call c b)
unfolding call
call-IsBounded (to_add n) b h = ground arith
call-IsBounded (to_consume n) b h = ground arith

-- The tokens never pass the capacity, whatever calls are made on a bucket within it.
pub run-IsBounded : (cs : List Call) (b : Bucket) → IsBounded b → IsBounded (run cs b)
unfolding run
run-IsBounded [] b h = h
run-IsBounded (c ∷ cs) b h = run-IsBounded cs (call c b) (call-IsBounded c b h)

call-conserves :
    (n : ℕ) (b : Bucket)
    → ((call (to_add n) b).tokens ≤ b.tokens + n)
      × ((if (consume n b).0 then n else 0) + (call (to_consume n) b).tokens ≡ b.tokens)
unfolding call
call-conserves n b = ground arith

-- What is granted and what is left together never exceed what was there and what was added.
pub granted-le :
    (cs : List Call) (b : Bucket) → granted cs b + (run cs b).tokens ≤ b.tokens + added cs
unfolding run granted added
granted-le [] b = omega arith
granted-le (to_add n ∷ cs) b =
    omega (arith, granted-le cs (call (to_add n) b), (call-conserves n b).0)
granted-le (to_consume n ∷ cs) b =
    omega (arith, granted-le cs (call (to_consume n) b), (call-conserves n b).1)

-- A call to consume is admitted exactly when the bucket holds that much; then it takes exactly
-- that much, and a refused call changes nothing.
pub consume_lem :
    (n : ℕ) (b : Bucket)
    → (((consume n b).0 ≡ true) ↔ (n ≤ b.tokens))
      × ((consume n b).0 ≡ true → (consume n b).1.tokens + n ≡ b.tokens)
      × ((consume n b).0 ≡ false → (consume n b).1 ≡ b)
unfolding consume
consume_lem n b = ground arith

-- A bucket that refused is ready again once as much was added, within its capacity.
pub consume-add : (n : ℕ) (b : Bucket) → n ≤ b.capacity → (consume n (add n b)).0 ≡ true
unfolding consume add
consume-add n b h = ground arith
