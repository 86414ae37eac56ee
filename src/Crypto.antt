-- ===== src/Crypto.antt =====
-- src/oauthclientbridge/crypto.py: Fernet keys and the encrypted tokens.
use Prim.Native.String
use oauthclientbridge.Base.{◌+◌, ◌%◌, String, none, some, eqb, length, codes, if◌then◌else◌}
use oauthclientbridge.Base.Json.{Object}
use oauthclientbridge.Base.Result.{Result, ok, err}
use oauthclientbridge.Errors.{Exception, invalid_token, value_error}
use oauthclientbridge.App.{World, Handler}

unfoldable pub normalize_base64_padding : String → String
normalize_base64_padding key =
    let remainder = length (codes key) % 4 in
    if eqb remainder 2
    then String.◌++◌ key "=="
    else if eqb remainder 3
    then String.◌++◌ key "="
    else key

module _ (w : World) where
  unfoldable pub generate_key : Handler String
  generate_key a = (ok (w.new_key a.keys), record a { keys = a.keys + 1 })

  unfoldable pub validate_key : String → Result Exception String
  unfolding normalize_base64_padding
  validate_key key =
      let normalized = normalize_base64_padding key in
      if w.valid_key normalized then ok normalized else err invalid_token

  -- The key is not padded here: one that Fernet refuses raises ValueError.
  unfoldable pub dumps : String → Object → Handler String
  dumps key d a =
      if w.valid_key key
      then (
        ok (w.encrypt a.encryptions key (w.json_dumps d)),
        record a { encryptions = a.encryptions + 1 },
      )
      else (err value_error, a)

  -- A stored text that is no JSON object raises ValueError.
  unfoldable pub loads : String → String → Result Exception Object
  unfolding normalize_base64_padding
  loads key token =
      let normalized = normalize_base64_padding key in
      if w.valid_key normalized
      then elim (w.decrypt normalized token) [
        | none ↦ err invalid_token
        | some text ↦ elim (w.json_loads text) [ none ↦ err value_error | some d ↦ ok d ]
      ]
      else err invalid_token
