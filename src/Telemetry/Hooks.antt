-- ===== src/Telemetry/Hooks.antt =====
-- src/oauthclientbridge/telemetry/_otel.py: what the hooks of the instrumentation write on a span. A
-- header is looked up in a case-insensitive dictionary, which is a function.
pub mod Hiding
use oauthclientbridge.Base.{
  ℕ, ◌≡◌, ◌≢◌, refl, arith, String, Bool, true, false, not, ◌==◌, Option, none, some, List, [], ◌∷◌,
  if◌then◌else◌, map,
}
use oauthclientbridge.Base.Dict.{Dict, get, put}
use oauthclientbridge.Base.Json.{Json, str, num, Object}
use oauthclientbridge.Uri.{UrlLib, Url, sanitize_url}

-- A span and its attributes.
pub record Span : Type 0 where
  pub is_recording : Bool
  pub attributes : Object

-- `span.set_attribute(key, value)`
abbrev pub set_attribute : String → Json → Span → Span
set_attribute k v span = record span { attributes = put k v span.attributes }

-- Where there is a value.
abbrev set_some : String → Option String → Span → Span
set_some k none span = span
set_some k (some v) span = set_attribute k (str v) span

-- `if not span or not span.is_recording(): return`
abbrev on_recording : (Span → Span) → Option Span → Option Span
on_recording f none = none
on_recording f (some span) = if span.is_recording then some (f span) else some span

unfoldable pub requests_response_hook : ℕ → (String → Option String) → Option Span → Option Span
requests_response_hook size headers = on_recording (λ span.
    set_some "http.response.header.retry_after" (headers "Retry-After") (
      set_some "http.response.header.content_type" (headers "Content-Type") (
        set_some "http.response.header.content_length" (headers "Content-Length")
          (set_attribute "http.response.body.size" (num size) span))))

module _ (lib : UrlLib) where
  unfoldable pub flask_response_hook : (String → Option String) → Option Span → Option Span
  flask_response_hook headers = on_recording (λ span.
      set_some "http.response.header.retry_after" (headers "Retry-After") (
        set_some "http.response.header.content_type" (headers "Content-Type") (
          set_some "http.response.header.cache_control" (headers "Cache-Control") (
            set_some "http.response.header.location" (sanitize_url lib (headers "Location"))
              span))))

  -- The query is that of a URL that is not empty.
  abbrev record_query : String → Span → Span
  record_query url span =
      if url == "" then span else set_attribute "url.query" (str (lib.urlsplit url).query) span

  abbrev record_url : Option String → Span → Span
  record_url none span = span
  record_url (some url) span =
      record_query url
        (set_attribute "url.full" (str url) (set_attribute "http.url" (str url) span))

  -- `url` is what `request_uri` makes of the environment.
  unfoldable pub flask_request_hook : String → Option Span → Option Span
  flask_request_hook url = on_recording (record_url (sanitize_url lib (some url)))
