-- ===== src/Outcome.antt =====
-- src/oauthclientbridge/oauth/_outcome.py: what a token endpoint's answer means. A status is its
-- number, and None is `none`.
pub mod Normalize
pub mod Classes
use oauthclientbridge.Base.{
  ℕ, String, ◌≡◌, Bool, true, false, not, ◌&&◌, ◌||◌, Option, none, some, List, [], ◌∷◌, ltb, leb,
  eqb, elem, ◌==◌, if◌then◌else◌,
}
use oauthclientbridge.Base.Dict.{Dict, get, has}
use oauthclientbridge.Base.Json.{Json, null, str, nested, Object, truthy, or_null}
use oauthclientbridge.Base.Result.{Result, ok, err}
use oauthclientbridge.Errors
use oauthclientbridge.Errors.{
  OAuthError, access_denied, invalid_client, invalid_grant, invalid_request, invalid_scope,
  temporarily_unavailable, unauthorized_client, unsupported_grant_type, unsupported_response_type,
  is_error, among, from_value, Exception, type_error,
}
use oauthclientbridge.Retry.{RetryReason, unavailable, retry_reason_for_status}

-- `AUTHORIZATION_ERRORS`
abbrev pub authorization_errors : List OAuthError
authorization_errors =
    invalid_request ∷ unauthorized_client ∷ access_denied ∷ unsupported_response_type
    ∷ invalid_scope ∷ OAuthError.server_error ∷ temporarily_unavailable ∷ []

-- `TOKEN_ERRORS`
abbrev pub token_errors : List OAuthError
token_errors =
    invalid_request ∷ invalid_client ∷ invalid_grant ∷ unauthorized_client ∷ unsupported_grant_type
    ∷ invalid_scope ∷ OAuthError.server_error ∷ temporarily_unavailable ∷ []

pub record TokenEndpointOutcome : Type 0 where
  pub retryable : Bool
  pub normalized_error : Option OAuthError
  pub invalidate_refresh_token : Bool
  pub retry_reason : Option RetryReason

pub data UpstreamResult : Type 0 where
  success client_error server_error rate_limited timeout unknown : UpstreamResult

-- `HTTPStatus.is_success` and its companions: the hundreds of the code.
abbrev within : ℕ → ℕ → ℕ → Bool
within low high n = leb low n && leb n high

unfoldable pub is_success : ℕ → Bool
is_success = within 200 299

unfoldable pub upstream_result_for_status : ℕ → UpstreamResult
unfolding is_success
upstream_result_for_status status =
    if is_success status
    then UpstreamResult.success
    else if within 300 399 status
    then client_error
    else if eqb status 429
    then rate_limited
    else if within 400 499 status
    then client_error
    else if within 500 599 status
    then UpstreamResult.server_error
    else UpstreamResult.unknown

-- The error that a code stands for, before the check against the allowed ones.
resolve : String → Dict OAuthError → OAuthError → OAuthError
resolve error_code error_types fallback = elim (get error_code error_types) [
  | some e ↦ e
  | none ↦ elim (from_value error_code) [ some e ↦ e | none ↦ fallback ]
]

-- `normalize_error`; a caller that leaves `error_types` out passes those of the settings.
unfoldable pub normalize_error :
    String → List OAuthError → OAuthError → Dict OAuthError → OAuthError
unfolding resolve
normalize_error error_code allowed_types fallback_type error_types =
    let error = resolve error_code error_types fallback_type in
    if among error allowed_types then error else fallback_type

-- `normalize_error` at a value that need not be a text: no key equals a scalar, and a list or an
-- object cannot be hashed.
unfoldable pub normalize_json :
    Json → List OAuthError → OAuthError → Dict OAuthError → Result Exception OAuthError
unfolding normalize_error
normalize_json (str code) allowed fallback types = ok (normalize_error code allowed fallback types)
normalize_json (nested _ _) allowed fallback types = err type_error
normalize_json _ allowed fallback types = ok fallback

unfoldable pub validate_token : Object → Bool
validate_token token =
    truthy (or_null (get "access_token" token)) && truthy (or_null (get "token_type" token))

-- `str(v)`, where `render` is Python's text of a value that is not a text.
abbrev pub text_of : (Json → String) → Json → String
text_of render (str s) = s
text_of render v = render v

-- `d.get(k, default)`
abbrev pub get_or_else : Json → Option Json → Json
get_or_else default none = default
get_or_else default (some v) = v

-- The last two returns of `token_endpoint_outcome`, for a status that is not retried.
final_outcome : (Json → String) → ℕ → Object → Dict OAuthError → TokenEndpointOutcome
final_outcome render status result error_types =
    if is_success status && validate_token result
    then record {
      retryable = false;
      normalized_error = none;
      invalidate_refresh_token = false;
      retry_reason = none;
    }
    else if is_success status
    then record {
      retryable = false;
      normalized_error = some (
          normalize_error
            (text_of render (get_or_else (str (Errors.value invalid_request)) (get "error" result)))
            token_errors invalid_request error_types);
      invalidate_refresh_token = false;
      retry_reason = none;
    }
    else let normalized : Option OAuthError = elim (get "error" result) [
      | none ↦ none
      | some v ↦
          some (normalize_error (text_of render v) token_errors OAuthError.server_error error_types)
    ] in
      record {
        retryable = false;
        normalized_error = normalized;
        invalidate_refresh_token =
            eqb status 400 && elim normalized [ none ↦ false | some e ↦ is_error e invalid_grant ];
        retry_reason = none;
      }

abbrev retryable_outcome : RetryReason → TokenEndpointOutcome
retryable_outcome reason = record {
  retryable = true;
  normalized_error = some temporarily_unavailable;
  invalidate_refresh_token = false;
  retry_reason = some reason;
}

-- The status `none` is a missing answer.
unfoldable pub token_endpoint_outcome :
    (Json → String) → Option ℕ → Object → List ℕ → Dict OAuthError → TokenEndpointOutcome
unfolding final_outcome retry_reason_for_status
token_endpoint_outcome render none result retry_status_codes error_types =
    retryable_outcome unavailable
token_endpoint_outcome render (some status) result retry_status_codes error_types =
    if elem status retry_status_codes
    then retryable_outcome (retry_reason_for_status status)
    else final_outcome render status result error_types

abbrev expected_retry_error : Json → Bool
expected_retry_error null = true
expected_retry_error (str s) = s == Errors.value temporarily_unavailable
expected_retry_error _ = false

-- `_unexpected_token_endpoint_issue`, which runs where a logger is given. Looking a list or an
-- object up in a set raises TypeError.
unfoldable pub unexpected_token_endpoint_issue :
    Option ℕ → Object → List ℕ → Result Exception (Option String)
unfolding validate_token is_success
unexpected_token_endpoint_issue none result retry_status_codes = ok (some "transport_failure")
unexpected_token_endpoint_issue (some status) result retry_status_codes =
    if elem status retry_status_codes
    then elim (or_null (get "error" result)) [
      | nested _ _ ↦ err type_error
      | other ↦
          if not (expected_retry_error other)
          then ok (some "retryable_status_with_contradictory_oauth_error")
          else if validate_token result
          then ok (some "retryable_status_with_success_payload")
          else ok none
    ]
    else if is_success status && not (validate_token result)
    then ok (some "success_status_with_error_payload")
    else ok none
