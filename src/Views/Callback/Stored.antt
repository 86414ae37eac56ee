-- ===== src/Views/Callback/Stored.antt =====
-- src/oauthclientbridge/views.py, `callback` and `token`: credentials that were given out serve the
-- token that was stored under them.
use oauthclientbridge.Base.{
  ℕ, ◌≡◌, refl, ap, arith, length, codes, eq_iff, eq_refl, String, false, none, some, ◌==◌, [], ◌∷◌,
  ◌++◌, ◌∙◌,
}
use oauthclientbridge.Base.Dict.{has}
use oauthclientbridge.Base.Json.{Json, Object, null, str}
use oauthclientbridge.Base.Result.{ok}
use oauthclientbridge.App.{App, World, Row, IsDocumented}
use oauthclientbridge.Client.{validate_credentials}
use oauthclientbridge.Crypto.{normalize_base64_padding, validate_key, generate_key, dumps, loads}
use oauthclientbridge.Db
use oauthclientbridge.Db.{TokenRecord, find, stored, generate_id}
use oauthclientbridge.Db.Table.{find-append}
use oauthclientbridge.Web.{Request, jsonify}
use oauthclientbridge.Views.Page.{render}
use oauthclientbridge.Views.Callback.{store, to_store}
use oauthclientbridge.Views.Token.{token, read_credentials}
use oauthclientbridge.Views.Token.Plain.{token-plain}

normalize-44 : (key : String) → length (codes key) ≡ 44 → normalize_base64_padding key ≡ key
unfolding normalize_base64_padding
normalize-44 key h = rw h refl

-- A token without a refresh token is stored as it is.
to_store-plain : (d : Object) → has "refresh_token" d ≡ false → to_store d ≡ d
unfolding to_store
to_store-plain d h = rw h refl

module _ (w : World) (doc : IsDocumented w) where
  -- What was encrypted under a generated key reads back with it, where its JSON text reads back.
  pub loads-dumps_lem :
      (k : ℕ) (d : Object) (a : App)
      → w.json_loads (w.json_dumps d) ≡ some d
      → (dumps w (w.new_key k) d a).0 ≡ ok (w.encrypt a.encryptions (w.new_key k) (w.json_dumps d))
        × (loads w (w.new_key k) (w.encrypt a.encryptions (w.new_key k) (w.json_dumps d)) ≡ ok d)
  unfolding dumps loads
  loads-dumps_lem k d a text =
      rw
        (
          normalize-44 (w.new_key k) (doc.length-new_key k),
          doc.valid_key-new_key k,
          doc.decrypt-encrypt a.encryptions (w.new_key k) (w.json_dumps d)
              (doc.valid_key-new_key k),
          text,
        )
        (refl, refl)

  key-ne-empty : (k : ℕ) → (w.new_key k == "") ≡ false
  key-ne-empty k = ground (
    arith,
    eq_iff (w.new_key k) "",
    doc.length-new_key k,
    λ (e : w.new_key k ≡ ""). ap (λ s. length (codes s)) e,
  )

  id-ne-empty : (m : ℕ) → (w.new_id m == "") ≡ false
  id-ne-empty m = ground (
    arith,
    eq_iff (w.new_id m) "",
    doc.length-new_id m,
    λ (e : w.new_id m ≡ ""). ap (λ s. length (codes s)) e,
  )

  id-ne-key : (m k : ℕ) → (w.new_id m == w.new_key k) ≡ false
  id-ne-key m k = ground (
    arith,
    eq_iff (w.new_id m) (w.new_key k),
    doc.length-new_id m,
    doc.length-new_key k,
    λ (e : w.new_id m ≡ w.new_key k). ap (λ s. length (codes s)) e,
  )

  -- Generated credentials are valid, and stay what they are.
  pub validate_credentials-new :
      (m k : ℕ)
      → validate_credentials w (some (w.new_id m)) (some (w.new_key k))
        ≡ ok (record { client_id = w.new_id m; client_secret = w.new_key k })
  unfolding validate_credentials validate_key
  validate_credentials-new m k =
      rw
        (
          id-ne-empty m,
          id-ne-key m k,
          doc.parse_uuid-new_id m,
          key-ne-empty k,
          normalize-44 (w.new_key k) (doc.length-new_key k),
          doc.valid_key-new_key k,
        )
        refl

  module _ (result : Object) (a : App) where
    -- The row that a callback writes.
    abbrev pub written : Row
    written = record {
      client_id = w.new_id a.ids;
      token = some (w.encrypt a.encryptions (w.new_key a.keys) (w.json_dumps (to_store result)));
      created_at = some (w.utcnow a.statements);
      last_updated_at = some (w.utcnow a.statements);
    }

  module _ (client_state : Json) (result : Object) (a : App) (fine : w.fault a.statements ≡ none)
      (fresh : find (w.new_id a.ids) a.tokens ≡ none) where
    -- A callback's page shows generated credentials, and the table has one row more, with the token
    -- encrypted under the secret of the page; the secret itself is not in the row.
    pub store_lem :
        ((store w client_state result a).0
          ≡ ok (
              render w (record {
                client_id = str (w.new_id a.ids);
                client_secret = str (w.new_key a.keys);
                state = client_state;
                error = null;
                description = null;
              })))
        × ((store w client_state result a).1.tokens ≡ a.tokens ++ (written result a) ∷ [])
    unfolding store generate_key dumps generate_id Db.insert
    store_lem = rw (doc.valid_key-new_key a.keys) (ground arith)

    -- The credentials of the page serve the stored token: where the provider gave no refresh token
    -- and its answer's JSON text reads back, a later token request with the credentials, while the
    -- table is as the callback left it and the database works, gets exactly the provider's answer.
    pub token-store :
        (req : Request) (a' : App)
        → has "refresh_token" result ≡ false
        → w.json_loads (w.json_dumps (to_store result)) ≡ some (to_store result)
        → a'.tokens ≡ (store w client_state result a).1.tokens
        → w.fault a'.statements ≡ none
        → (read_credentials req a').0 ≡ ok (some (w.new_id a.ids), some (w.new_key a.keys))
        → (token w req a').0 ≡ ok (jsonify result)
    token-store req a' plain text same later given =
        (token-plain w req a' (some (w.new_id a.ids)) (some (w.new_key a.keys))
          (record { client_id = w.new_id a.ids; client_secret = w.new_key a.keys })
          (written result a)
          (w.encrypt a.encryptions (w.new_key a.keys) (w.json_dumps (to_store result))) result later
          given (validate_credentials-new a.ids a.keys) found held (readable-as plain)
          (unfold has in ground arith)).0
      where
        readable-as :
            has "refresh_token" result ≡ false
            → loads w
                (w.new_key a.keys)
                (w.encrypt a.encryptions (w.new_key a.keys) (w.json_dumps (to_store result)))
              ≡ ok result
        readable-as p =
            (loads-dumps_lem a.keys (to_store result) a text).1 ∙ ap ok (to_store-plain result p)

        found : find (w.new_id a.ids) a'.tokens ≡ some (written result a)
        found =
            rw
              (
                same,
                store_lem.1,
                find-append (w.new_id a.ids) a.tokens (written result a) fresh,
                eq_refl (w.new_id a.ids),
              )
              refl

        held :
            stored (written result a).token
            ≡ some (w.encrypt a.encryptions (w.new_key a.keys) (w.json_dumps (to_store result)))
        held = ground (
          arith,
          eq_iff (w.encrypt a.encryptions (w.new_key a.keys) (w.json_dumps (to_store result))) "",
          doc.encrypt-ne-empty a.encryptions (w.new_key a.keys) (w.json_dumps (to_store result)),
        )
