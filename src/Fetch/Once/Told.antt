-- ===== src/Fetch/Once/Told.antt =====
-- src/oauthclientbridge/oauth/_core.py, `_fetch`: the seconds that an answer asks to wait.
use oauthclientbridge.Base.{
  ℕ, suc, ◌+◌, ◌≡◌, refl, min, String, Option, none, some, List, ◌∷◌, length, arith,
}
use oauthclientbridge.Base.Json.{Object}
use oauthclientbridge.Base.Result.{Result, ok, err, Post, Post-weaken}
use oauthclientbridge.Errors.{Exception}
use oauthclientbridge.Net.{Provider, Net, Sent, Answer, responded, failed, http_error, IsQuiet}
use oauthclientbridge.Settings.{FetchSettings}
use oauthclientbridge.Fetch.RetryAfter.{parse_retry}
use oauthclientbridge.Fetch.Once.{receive, fetch_once}

abbrev or_zero : Result Exception ℕ → ℕ
or_zero (ok seconds) = seconds
or_zero (err e) = 0

-- The seconds of an answer's Retry-After: that of a response, or of the response that an HTTPError
-- carries; none where reading them raises, which ends the call.
abbrev told : (Option (List ℕ) → Result Exception ℕ) → Answer → ℕ
told parse (responded r) = or_zero (parse r.retry_after)
told parse (failed http_error (some r)) = or_zero (parse r.retry_after)
told parse (failed f r) = 0

-- The seconds of the answer to the request with this number, by the clock behind it.
abbrev pub asked_seconds : Provider → ℕ → Sent → ℕ
asked_seconds p k r = told (parse_retry p.parse_date (p.wall (suc k))) (p.answer k r)

-- One request was sent, and the answer to it is over.
pub record IsSent (p : Provider) (n : Net) (r : Sent) (n' : Net) : Type 0 where
  pub sent : n'.requests ≡ r ∷ n.requests
  pub at : r.at ≡ n.now
  pub now : n'.now ≡ n.now + p.took (length n.requests)

module _ (p : Provider) (cfg : FetchSettings) (endpoint : String) where
  receive-told :
      (parse : Option (List ℕ) → Result Exception ℕ) (answer : Answer) (n : Net)
      → Post
          (λ f n'. (f.retry_after ≡ told parse answer) × IsQuiet n n')
          (IsQuiet n)
          (receive p cfg endpoint parse answer n)
  unfolding receive
  receive-told parse (failed http_error none) n = ground arith
  receive-told parse (failed http_error (some r)) n = ground arith
  receive-told parse (failed f r) n = ground arith
  receive-told parse (responded r) n = ground arith

  pub fetch_once-IsSent :
      (uri : String) (form : Object) (timeout : ℕ) (n : Net)
      → let r : Sent = record {
        uri = uri;
        form = form;
        timeout = min cfg.timeout timeout;
        at = n.now;
      } in
        Post
          (λ f n'. (f.retry_after ≡ asked_seconds p (length n.requests) r) × IsSent p n r n')
          (IsSent p n r)
          (fetch_once p cfg endpoint uri form timeout n)
  unfolding fetch_once
  fetch_once-IsSent uri form timeout n =
      Post-weaken
        (receive p cfg endpoint (parse_retry p.parse_date (p.wall (suc (length n.requests))))
          (p.answer (length n.requests) request) sent)
        (λ f n' (e, q). (e, record { sent = q.requests; at = refl; now = q.now }))
        (λ n' q. record { sent = q.requests; at = refl; now = q.now })
        (receive-told (parse_retry p.parse_date (p.wall (suc (length n.requests))))
          (p.answer (length n.requests) request) sent)
    where
      request : Sent
      request = record { uri = uri; form = form; timeout = min cfg.timeout timeout; at = n.now }

      sent : Net
      sent = record n { now = n.now + p.took (length n.requests); requests = request ∷ n.requests }
