-- ===== src/Outcome/Normalize.antt =====
-- src/oauthclientbridge/oauth/_outcome.py: what `normalize_error` may answer.
use oauthclientbridge.Base.{String, ◌≡◌, ◌≢◌, true, none, some, List, arith}
use oauthclientbridge.Base.Dict.{Dict, get}
use oauthclientbridge.Errors.{OAuthError, among, from_value, description}
use oauthclientbridge.Outcome.{normalize_error, token_errors, authorization_errors}

-- An error code is always answered by an allowed error, if the fallback is one.
pub normalize_error-among :
    (code : String) (allowed : List OAuthError) (fallback : OAuthError) (types : Dict OAuthError)
    → among fallback allowed ≡ true
    → among (normalize_error code allowed fallback types) allowed ≡ true
unfolding normalize_error
normalize_error-among code allowed fallback types h = ground arith

-- A configured translation wins over the code's own member, the member over the fallback; an error
-- that is not allowed is answered by the fallback.
pub normalize_error_lem :
    (code : String) (allowed : List OAuthError) (fallback e : OAuthError) (types : Dict OAuthError)
    → among e allowed ≡ true
    → (get code types ≡ some e → normalize_error code allowed fallback types ≡ e)
      × (get code types ≡ none
          → from_value code ≡ some e
          → normalize_error code allowed fallback types ≡ e)
      × (get code types ≡ none
          → from_value code ≡ none
          → normalize_error code allowed fallback types ≡ fallback)
unfolding normalize_error
normalize_error_lem code allowed fallback e types h = ground arith

-- The errors that the two endpoints may answer all have a description.
pub description-among :
    (e : OAuthError)
    → (among e token_errors ≡ true → description e ≢ none)
      × (among e authorization_errors ≡ true → description e ≢ none)
unfolding among description
description-among OAuthError.access_denied = ground arith
description-among _ = ground arith
