-- ===== src/Fetch/Once/Frame.antt =====
-- src/oauthclientbridge/oauth/_core.py, `_fetch`: what one request changes.
use oauthclientbridge.Base.{ℕ, suc, ◌+◌, min, String, ◌≡◌, refl, Option, List, ◌∷◌, length, arith}
use oauthclientbridge.Base.Json.{Object}
use oauthclientbridge.Base.Result.{Post, Result, ok, err}
use oauthclientbridge.Errors.{Exception}
use oauthclientbridge.Net.{Provider, Net, Sent, IsQuiet, Answer, responded, failed}
use oauthclientbridge.Settings.{FetchSettings}
use oauthclientbridge.Fetch.RetryAfter.{parse_retry}
use oauthclientbridge.Fetch.Once.{Fetched, receive, fetch_once}

abbrev pub Quiet : {A : Type 0} → Net → A → Net → Type 0
Quiet n _ n' = IsQuiet n n'

module _ (p : Provider) (cfg : FetchSettings) (endpoint : String)
    (parse : Option (List ℕ) → Result Exception ℕ) where
  receive-IsQuiet :
      (answer : Answer) (n : Net)
      → Post (Quiet n) (IsQuiet n) (receive p cfg endpoint parse answer n)
  unfolding receive
  receive-IsQuiet (failed failure response) n = ground arith
  receive-IsQuiet (responded resp) n = ground arith

-- `_fetch` sends one request, with the smaller of the two timeouts, and changes nothing else but
-- the clock, the telemetry and the session.
pub record IsAsked (p : Provider) (cfg : FetchSettings) (timeout : ℕ) (n n' : Net) : Type 0 where
  pub request : Sent
  pub sent : n'.requests ≡ request ∷ n.requests
  pub at : request.at ≡ n.now
  pub within : request.timeout ≡ min cfg.timeout timeout
  pub now : n'.now ≡ n.now + p.took (length n.requests)
  pub sleeps : n'.sleeps ≡ n.sleeps
  pub limiters : n'.limiters ≡ n.limiters

pub fetch_once-IsAsked :
    (p : Provider) (cfg : FetchSettings) (endpoint uri : String) (form : Object) (timeout : ℕ)
    (n : Net)
    → Post
        (λ _ n'. IsAsked p cfg timeout n n')
        (IsAsked p cfg timeout n)
        (fetch_once p cfg endpoint uri form timeout n)
unfolding fetch_once
fetch_once-IsAsked p cfg endpoint uri form timeout n = weaken (
    receive-IsQuiet p cfg endpoint (parse_retry p.parse_date (p.wall (suc (length n.requests))))
      answer sent)
  where
    request : Sent
    request = record { uri = uri; form = form; timeout = min cfg.timeout timeout; at = n.now }

    answer : Answer
    answer = p.answer (length n.requests) request

    sent : Net
    sent = record n { now = n.now + p.took (length n.requests); requests = request ∷ n.requests }

    asked : {n' : Net} → IsQuiet sent n' → IsAsked p cfg timeout n n'
    asked q = record {
      request = request;
      sent = q.requests;
      at = refl;
      within = refl;
      now = q.now;
      sleeps = q.sleeps;
      limiters = q.limiters;
    }

    weaken :
        {x : Result Exception Fetched × Net}
        → Post (Quiet sent) (IsQuiet sent) x
        → Post (λ _ n'. IsAsked p cfg timeout n n') (IsAsked p cfg timeout n) x
    weaken {x = (ok a, n')} h = record { at = asked h.at }
    weaken {x = (err e, n')} h = record { at = asked h.at }
