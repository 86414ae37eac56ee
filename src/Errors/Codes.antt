-- ===== src/Errors/Codes.antt =====
-- src/oauthclientbridge/errors.py: codes and members determine each other.
use oauthclientbridge.Base.{
  String, ◌≡◌, refl, true, ◌↔◌, inl, inr, some, List, [], ◌∷◌, arith, ◌==◌, eq_iff, Bool-cases,
  subst,
}
use oauthclientbridge.Errors.{OAuthError, is_error, value, members, find, from_value}

find-value :
    (code : String) (es : List OAuthError) (e : OAuthError) → find code es ≡ some e → value e ≡ code
unfolding find
find-value code [] e h = ground arith
find-value code (d ∷ ds) e h = elim (Bool-cases (value d == code)) [
  | inl same ↦ ground (arith, (eq_iff (value d) code).0 same)
  | inr other ↦ find-value code ds e (ground arith)
]

from_value-value : (e : OAuthError) → from_value (value e) ≡ some e
unfolding from_value
from_value-value OAuthError.access_denied = refl
from_value-value _ = refl

-- A text is read as a member exactly when it is that member's value.
pub from_value_iff :
    (code : String) (e : OAuthError) → (from_value code ≡ some e) ↔ (value e ≡ code)
unfolding from_value
from_value_iff code e = (
  λ h. find-value code members e h,
  λ h. subst (λ c. from_value c ≡ some e) h (from_value-value e),
)

-- The code tells the members of the enumeration apart.
pub is_error_lem : (a b : OAuthError) → is_error a b ≡ true → a ≡ b
unfolding is_error
is_error_lem a b h =
    ground
      (arith, eq_iff (value a) (value b), from_value_iff (value a) a, from_value_iff (value a) b)
