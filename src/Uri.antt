-- ===== src/Uri.antt =====
-- src/oauthclientbridge/utils/uri.py: rewriting the query of a URI, over `urllib.parse`.
pub mod Query
pub mod Redaction
use oauthclientbridge.Base.{
  String, Bool, Option, none, some, List, [], ◌∷◌, ◌++◌, ◌==◌, map, if◌then◌else◌,
}
use oauthclientbridge.Base.Dict.{Dict, put}
use Prim.Native.String

-- `urlsplit`'s parts.
pub record Url : Type 0 where
  pub scheme : String
  pub netloc : String
  pub path : String
  pub query : String
  pub fragment : String

-- `urllib.parse`, with blank values kept.
pub record UrlLib : Type 0 where
  pub urlsplit : String → Url
  pub urlunsplit : Url → String
  pub parse_qs : String → Dict (List String)
  pub parse_qsl : String → List (String × String)
  pub urlencode : List (String × String) → String
  pub quote : String → String

-- `query[p] = [value]` for each parameter.
override : Dict String → Dict (List String) → Dict (List String)
override [] query = query
override ((p, value) ∷ params) query = override params (put p (value ∷ []) query)

-- Each value of each key, as a pair.
pairs : Dict (List String) → List (String × String)
pairs [] = []
pairs ((q, values) ∷ query) = map (λ value. (q, value)) values ++ pairs query

-- The list that `_rewrite_query` encodes.
unfoldable pub rewritten : Dict (List String) → Dict String → List (String × String)
unfolding override pairs
rewritten query params = pairs (override params query)

module _ (lib : UrlLib) where
  unfoldable pub rewrite_query : String → Dict String → String
  rewrite_query original params = lib.urlencode (rewritten (lib.parse_qs original) params)

  unfoldable pub rewrite_uri : String → Dict String → String
  unfolding rewrite_query
  rewrite_uri uri params =
      let url = lib.urlsplit uri in
      lib.urlunsplit (record url { query = rewrite_query url.query params })

  redacted : List (String × String) → String
  redacted [] = ""
  redacted ((key, _) ∷ []) = String.◌++◌ (lib.quote key) "=<REDACTED>"
  redacted ((key, _) ∷ rest) =
      String.◌++◌ (lib.quote key) (String.◌++◌ "=<REDACTED>&" (redacted rest))

  unfoldable pub sanitize_url : Option String → Option String
  unfolding redacted
  sanitize_url none = none
  sanitize_url (some url) =
      let parts = lib.urlsplit url in
      if parts.query == ""
      then some url
      else some (lib.urlunsplit (record parts { query = redacted (lib.parse_qsl parts.query) }))
