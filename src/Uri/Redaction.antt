-- ===== src/Uri/Redaction.antt =====
-- src/oauthclientbridge/utils/uri.py, `sanitize_url`: what it keeps of a URL.
use oauthclientbridge.Base.{◌≡◌, ◌≢◌, refl, arith, String, eq_iff, some, List, [], ◌∷◌}
use Prim.Native.String
use oauthclientbridge.Uri.{UrlLib, redacted, sanitize_url}

abbrev pub keys : List (String × String) → List String
keys [] = []
keys ((k, _) ∷ rest) = k ∷ keys rest

module _ (lib : UrlLib) where
  -- The text of the redacted query, from its keys alone.
  hidden : List String → String
  hidden [] = ""
  hidden (k ∷ []) = String.◌++◌ (lib.quote k) "=<REDACTED>"
  hidden (k ∷ rest) = String.◌++◌ (lib.quote k) (String.◌++◌ "=<REDACTED>&" (hidden rest))

  redacted-keys : (pairs : List (String × String)) → redacted lib pairs ≡ hidden (keys pairs)
  unfolding redacted hidden
  redacted-keys [] = refl
  redacted-keys ((k, v) ∷ []) = refl
  redacted-keys ((k, v) ∷ (j, u) ∷ rest) = rw (redacted-keys ((j, u) ∷ rest)) refl

  -- Two URLs with queries that differ in the values of the queries at most.
  pub record AreAlike (u v : String) : Type 0 where
    pub scheme : (lib.urlsplit u).scheme ≡ (lib.urlsplit v).scheme
    pub netloc : (lib.urlsplit u).netloc ≡ (lib.urlsplit v).netloc
    pub path : (lib.urlsplit u).path ≡ (lib.urlsplit v).path
    pub fragment : (lib.urlsplit u).fragment ≡ (lib.urlsplit v).fragment
    pub asks : (lib.urlsplit u).query ≢ ""
    pub asks_too : (lib.urlsplit v).query ≢ ""
    pub names :
        keys (lib.parse_qsl (lib.urlsplit u).query) ≡ keys (lib.parse_qsl (lib.urlsplit v).query)

  sanitized :
      (u : String)
      → (lib.urlsplit u).query ≢ ""
      → sanitize_url lib (some u)
        ≡ some (
            lib.urlunsplit (record (lib.urlsplit u) {
              query = hidden (keys (lib.parse_qsl (lib.urlsplit u).query));
            }))
  unfolding sanitize_url
  sanitized u asks = ground (
    arith,
    eq_iff (lib.urlsplit u).query "",
    redacted-keys (lib.parse_qsl (lib.urlsplit u).query),
  )

  -- No value of a query passes: URLs that differ in the values of their queries at most have the
  -- same sanitized URL.
  pub sanitize_url-hides :
      (u v : String) → AreAlike u v → sanitize_url lib (some u) ≡ sanitize_url lib (some v)
  sanitize_url-hides u v h =
      rw
        (
          sanitized u h.asks,
          sanitized v h.asks_too,
          h.scheme,
          h.netloc,
          h.path,
          h.fragment,
          h.names,
        )
        refl
