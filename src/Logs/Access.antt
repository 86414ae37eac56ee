-- ===== src/Logs/Access.antt =====
-- src/oauthclientbridge/logs.py: what the access log keeps to itself, and how often it is set up.
use oauthclientbridge.Base.{ℕ, zero, suc, ◌+◌, ◌≡◌, ◌∙◌, ap, refl, arith, String, true, false}
use oauthclientbridge.Base.Json.{Json}
use oauthclientbridge.Uri.{UrlLib}
use oauthclientbridge.Uri.Redaction.{AreAlike, sanitize_url-hides}
use oauthclientbridge.Logs.{
  LoggedRequest, LoggedResponse, Format, after_request_log_context, AccessLogs, init_access_logs,
}

-- No line of the access log holds a value of a request's query, whatever the format is: requests
-- whose URLs differ in such values at most have the same line.
pub after_request_log_context-hides :
    (lib : UrlLib) (render : Json → String) (form : Format) (req : LoggedRequest)
    (resp : LoggedResponse) (duration : ℕ) (other : String)
    → AreAlike lib req.url other
    → after_request_log_context lib render form req resp duration
      ≡ after_request_log_context lib render form (record req { url = other }) resp duration
unfolding after_request_log_context
after_request_log_context-hides lib render form req resp duration other h =
    rw (sanitize_url-hides lib req.url other h) refl

abbrev pub repeated : ℕ → AccessLogs → AccessLogs
repeated zero a = a
repeated (suc n) a = repeated n (init_access_logs a)

repeated-initialized :
    (n k m : ℕ)
    → repeated n (record { initialized = true; hooks = k; warnings = m })
      ≡ record { initialized = true; hooks = k; warnings = m + n }
unfolding init_access_logs
repeated-initialized zero k m = ground arith
repeated-initialized (suc n) k m =
    repeated-initialized n k (m + 1)
    ∙ ap (λ i. record { initialized = true; hooks = k; warnings = i }) (omega arith)

-- However often the access log is set up for one application, its hooks are registered once, and
-- each further time is a warning.
pub repeated-fresh :
    (n : ℕ)
    → repeated (suc n) (record { initialized = false; hooks = 0; warnings = 0 })
      ≡ record { initialized = true; hooks = 1; warnings = n }
unfolding init_access_logs
repeated-fresh n =
    repeated-initialized n 1 0
    ∙ ap (λ i. record { initialized = true; hooks = 1; warnings = i }) (omega arith)
