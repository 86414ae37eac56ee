-- ===== src/Models.antt =====
-- src/oauthclientbridge/models.py: the token response that a client of the bridge validates. The clock
-- is an argument, in millionths of a second; a set of scopes is a list.
pub mod Expiry
pub mod Coercions
use oauthclientbridge.Base.{
  ℕ, ◌+◌, ◌*◌, ◌/◌, String, Bool, true, false, not, ◌&&◌, Option, none, some, List, ltb, eqb,
  if◌then◌else◌,
}
use oauthclientbridge.Base.Json.{Object}
use oauthclientbridge.Base.Text.{unit}

pub record ErrorResponse : Type 0 where
  pub error : String
  pub error_description : Option String
  pub error_uri : Option String

-- `extra` holds the other fields.
pub record TokenResponse : Type 0 where
  pub token_type : String
  pub access_token : String
  pub refresh_token : Option String
  pub id_token : Option String
  pub scope : Option (List String)
  pub expires_at : Option ℕ
  pub expires_in : Option ℕ
  pub extra : Object

-- `is_expired`, at the time `now`, with a leeway in seconds.
unfoldable pub is_expired : ℕ → ℕ → TokenResponse → Bool
is_expired leeway now t = elim t.expires_at [
  | none ↦ false
  | some at ↦ ltb (at * unit) (now + leeway * unit)
]

-- The truth of a number that may be None.
abbrev pub is_number : Option ℕ → Bool
is_number none = false
is_number (some n) = not (eqb n 0)

abbrev expiry : ℕ → Option ℕ → Option ℕ
expiry now none = none
expiry now (some seconds) = some ((now + seconds * unit) / unit)

-- `_calculate_expires_at_from_expires_in`
unfoldable pub calculate_expires_at : ℕ → TokenResponse → TokenResponse
calculate_expires_at now t =
    if is_number t.expires_in && not (is_number t.expires_at)
    then record t { expires_at = expiry now t.expires_in }
    else t
