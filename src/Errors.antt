-- ===== src/Errors.antt =====
-- src/oauthclientbridge/errors.py: the OAuth error codes, their texts and their JSON form.
pub mod Codes
use oauthclientbridge.Base.{
  String, Bool, true, false, Option, none, some, List, [], ◌∷◌, ◌==◌, any, if◌then◌else◌,
}
use oauthclientbridge.Base.Json.{Json, str, Object, truthy}
use oauthclientbridge.Base.Result.{Result, ok, err}

pub data OAuthError : Type 0 where
  access_denied invalid_client invalid_grant invalid_request invalid_scope invalid_state :
      OAuthError
  invalid_response server_error temporarily_unavailable unauthorized_client : OAuthError
  unsupported_grant_type unsupported_response_type : OAuthError

-- A member's value. The class is a `StrEnum`: members compare as these texts.
unfoldable pub value : OAuthError → String
value access_denied = "access_denied"
value invalid_client = "invalid_client"
value invalid_grant = "invalid_grant"
value invalid_request = "invalid_request"
value invalid_scope = "invalid_scope"
value invalid_state = "invalid_state"
value invalid_response = "invalid_response"
value server_error = "server_error"
value temporarily_unavailable = "temporarily_unavailable"
value unauthorized_client = "unauthorized_client"
value unsupported_grant_type = "unsupported_grant_type"
value unsupported_response_type = "unsupported_response_type"

-- The members, in the order of the class.
abbrev pub members : List OAuthError
members =
    access_denied ∷ invalid_client ∷ invalid_grant ∷ invalid_request ∷ invalid_scope ∷ invalid_state
    ∷ invalid_response ∷ server_error ∷ temporarily_unavailable ∷ unauthorized_client
    ∷ unsupported_grant_type ∷ unsupported_response_type ∷ []

-- `a == b`
unfoldable pub is_error : OAuthError → OAuthError → Bool
unfolding value
is_error a b = value a == value b

-- `error in errors`
unfoldable pub among : OAuthError → List OAuthError → Bool
unfolding is_error
among error errors = any (is_error error) errors

find : String → List OAuthError → Option OAuthError
unfolding value
find code [] = none
find code (e ∷ es) = if value e == code then some e else find code es

-- `OAuthError(code)`, and `none` where `code in OAuthError` is false.
unfoldable pub from_value : String → Option OAuthError
unfolding find
from_value code = find code members

-- `_DESCRIPTIONS[self]`; `none` where the lookup raises KeyError.
unfoldable pub description : OAuthError → Option String
description invalid_request =
    some
      "The request is missing a required parameter, includes an invalid parameter value, includes a parameter more than once, or is otherwise malformed."
description invalid_client =
    some
      "Client authentication failed (e.g., unknown client, no client authentication included, or unsupported authentication method)."
description invalid_grant =
    some "The provided authorization grant or refresh token is invalid, expired or revoked."
description unauthorized_client = some "The client is not authorized to perform this action."
description access_denied = some "The resource owner or authorization server denied the request."
description unsupported_response_type =
    some
      "The authorization server does not support obtaining an authorization code using this method."
description unsupported_grant_type =
    some "The authorization grant type is not supported by the authorization server."
description invalid_scope = some "The requested scope is invalid, unknown, or malformed."
description server_error =
    some
      "The server encountered an unexpected condition that prevented it from fulfilling the request."
description temporarily_unavailable =
    some
      "The server is currently unable to handle the request due to a temporary overloading or maintenance of the server."
description _ = none

-- What Python code of the bridge raises. `error` is `oauth.Error`, with its description, its URI
-- and its `retry_after`, where `null` is None.
pub data Exception : Type 0 where
  error : OAuthError → Json → Json → Json → Exception
  key_error value_error type_error attribute_error lookup_error : Exception
  runtime_error integrity_error : Exception
  database_error : String → Exception
  invalid_token client_id_invalid client_secret_invalid : Exception
  credentials_invalid : String → Exception

-- `given or error.description`
unfoldable pub describe : OAuthError → Json → Result Exception Json
unfolding description truthy
describe e given =
    if truthy given
    then ok given
    else elim (description e) [ none ↦ err key_error | some text ↦ ok (str text) ]

-- `error.json(description=given)`
unfoldable pub json : OAuthError → Json → Result Exception Object
unfolding describe value
json e given = elim (describe e given) [
  | err x ↦ err x
  | ok text ↦ ok (("error", str (value e)) ∷ ("error_description", text) ∷ [])
]
