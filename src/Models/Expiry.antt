-- ===== src/Models/Expiry.antt =====
-- src/oauthclientbridge/models.py: how the computed expiry agrees with the lifetime of the token.
use oauthclientbridge.Base.{ℕ, ◌+◌, ◌*◌, ◌/◌, ◌≡◌, ◌≤◌, ◌<◌, arith, true, false, none, some}
use oauthclientbridge.Base.Text.{unit}
use oauthclientbridge.Models.{TokenResponse, is_expired, calculate_expires_at}

div-le : (n : ℕ) → n / unit * unit ≤ n
div-le n = omega arith

lt-div : (n : ℕ) → n < n / unit * unit + unit
lt-div n = omega arith

abbrev stamped : ℕ → TokenResponse → TokenResponse
stamped at t = record t { expires_at = some at }

calculate_expires_at-stamped :
    (t : TokenResponse) (received lifetime : ℕ)
    → t.expires_at ≡ none
    → t.expires_in ≡ some lifetime
    → 0 < lifetime
    → calculate_expires_at received t ≡ stamped ((received + lifetime * unit) / unit) t
unfolding calculate_expires_at
calculate_expires_at-stamped t received lifetime e f positive = ground (arith, e, f)

calculate_expires_at-kept :
    (t : TokenResponse) (now at : ℕ)
    → 0 < at
    → calculate_expires_at now (stamped at t) ≡ stamped at t
unfolding calculate_expires_at
calculate_expires_at-kept t now at positive = ground arith

-- A token that came with a lifetime alone: while it is not reported as expired, its lifetime, less
-- the leeway, is not over; and it is reported at most one second too early.
pub is_expired-calculate_expires_at :
    (t : TokenResponse) (received later leeway lifetime : ℕ)
    → t.expires_at ≡ none
    → t.expires_in ≡ some lifetime
    → 0 < lifetime
    → let expired = is_expired leeway later (calculate_expires_at received t) in
      (expired ≡ false → later + leeway * unit ≤ received + lifetime * unit)
      × (expired ≡ true → received + lifetime * unit < later + leeway * unit + unit)
      × (calculate_expires_at later (calculate_expires_at received t)
          ≡ calculate_expires_at received t)
unfolding is_expired
is_expired-calculate_expires_at t received later leeway lifetime e f positive =
    rw (calculate_expires_at-stamped t received lifetime e f positive) (
      (λ h. ground (arith, h, lt-div (received + lifetime * unit))),
      (λ h. ground (arith, h, lt-div (received + lifetime * unit))),
      calculate_expires_at-kept t later ((received + lifetime * unit) / unit) (omega arith),
    )
