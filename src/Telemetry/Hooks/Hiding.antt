-- ===== src/Telemetry/Hooks/Hiding.antt =====
-- src/oauthclientbridge/telemetry/_otel.py: which of a URL reaches a span.
use oauthclientbridge.Base.{◌≡◌, refl, String, Option, some}
use oauthclientbridge.Uri.{UrlLib}
use oauthclientbridge.Uri.Redaction.{AreAlike, sanitize_url-hides}
use oauthclientbridge.Telemetry.Hooks.{Span, flask_request_hook, flask_response_hook}

module _ (lib : UrlLib) (u v : String) (h : AreAlike lib u v) where
  -- For two URLs that differ in the values of their queries at most: the request hook leaves the same of
  -- a span for requests to either of them; and the response hook does for responses that redirect to
  -- either of them and have the same Cache-Control, Content-Type and Retry-After, whatever the other
  -- headers are.
  pub hooks-hide :
      (headers others : String → Option String) (span : Option Span)
      → headers "Location" ≡ some u
      → others "Location" ≡ some v
      → headers "Cache-Control" ≡ others "Cache-Control"
      → headers "Content-Type" ≡ others "Content-Type"
      → headers "Retry-After" ≡ others "Retry-After"
      → (flask_request_hook lib u span ≡ flask_request_hook lib v span)
        × (flask_response_hook lib headers span ≡ flask_response_hook lib others span)
  unfolding flask_request_hook flask_response_hook
  hooks-hide headers others span here there cache type wait = (
    rw (sanitize_url-hides lib u v h) refl,
    rw (here, there, cache, type, wait, sanitize_url-hides lib u v h) refl,
  )
