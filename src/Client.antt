-- ===== src/Client.antt =====
-- src/oauthclientbridge/client.py: the credentials that the bridge issued.
use oauthclientbridge.Base.{String, Bool, Option, none, some, ◌==◌, if◌then◌else◌}
use oauthclientbridge.Base.Result.{Result, ok, err}
use oauthclientbridge.Errors.{
  Exception, credentials_invalid, client_id_invalid, client_secret_invalid,
}
use oauthclientbridge.App.{World}
use oauthclientbridge.Crypto.{validate_key}

pub record ClientCredentials : Type 0 where
  pub client_id : String
  pub client_secret : String

-- `a == b` for a text that may be None.
abbrev pub is_text : String → Option String → Bool
is_text s none = Bool.false
is_text s (some t) = s == t

module _ (w : World) where
  -- The secret, once the identifier is a UUID.
  validate_secret : String → Option String → Result Exception ClientCredentials
  unfolding validate_key
  validate_secret id none = err (credentials_invalid "client_secret must be set.")
  validate_secret id (some secret) =
      if secret == ""
      then err (credentials_invalid "client_secret must be set.")
      else elim (validate_key w secret) [
        | err _ ↦ err client_secret_invalid
        | ok key ↦ ok (record { client_id = id; client_secret = key })
      ]

  unfoldable pub validate_credentials :
      Option String → Option String → Result Exception ClientCredentials
  unfolding validate_secret
  validate_credentials none secret = err (credentials_invalid "client_id must be set.")
  validate_credentials (some id) secret =
      if id == ""
      then err (credentials_invalid "client_id must be set.")
      else if is_text id secret
      then err (credentials_invalid "client_id and client_secret set to same value.")
      else elim (w.parse_uuid id) [
        | none ↦ err client_id_invalid
        | some client_id ↦ validate_secret client_id secret
      ]
