-- ===== src/Fetch/Once/Answers.antt =====
-- src/oauthclientbridge/oauth/_core.py, `_fetch`: which answers it turns into a result.
use oauthclientbridge.Base.{
  ℕ, suc, ◌≡◌, arith, String, true, Option, none, some, List, elem, min, length,
}
use oauthclientbridge.Base.Dict.{get}
use oauthclientbridge.Base.Json.{Json, nested, Object}
use oauthclientbridge.Base.Result.{Result, ok, err, Post}
use oauthclientbridge.Errors
use oauthclientbridge.Errors.{OAuthError, Exception}
use oauthclientbridge.Net.{
  Provider, Net, Answer, responded, failed, http_error, Body, object, not_object, undecodable, Sent,
}
use oauthclientbridge.Settings.{FetchSettings}
use oauthclientbridge.Fetch.RetryAfter.{parse_retry, IsReadableHeader, parse_retry-returns}
use oauthclientbridge.Fetch.Once.{http_status, Fetched, receive, fetch_once}

-- An `error` that the program can look up in a set.
abbrev pub IsFlat : Option Json → Type 0
IsFlat (some (nested _ _)) = ⊥
IsFlat _ = Unit

-- A body that is an object, or no JSON at all.
abbrev pub IsReadable : List ℕ → ℕ → Body → Type 0
IsReadable retried status (not_object e) = ⊥
IsReadable retried status undecodable = Unit
IsReadable retried status (object d) = elem status retried ≡ true → IsFlat (get "error" d)

abbrev pub IsRegular : Provider → FetchSettings → Answer → Type 0
IsRegular p cfg (responded r) =
    (http_status r.status_code ≡ ok r.status_code)
    × IsReadable cfg.retry_status_codes r.status_code r.body
    × IsReadableHeader p.parse_date r.retry_after
IsRegular p cfg (failed http_error none) = ⊥
IsRegular p cfg (failed http_error (some r)) =
    (http_status r.status_code ≡ ok r.status_code) × IsReadableHeader p.parse_date r.retry_after
IsRegular p cfg (failed _ none) = Unit
IsRegular p cfg (failed _ (some r)) = http_status r.status_code ≡ ok r.status_code

-- Nothing is raised, and the value is so.
abbrev pub Returning : {A : Type 0} → (A → Type 0) → Result Exception A × Net → Type 0
Returning P x = Post (λ v _. P v) (λ _. ⊥) x

abbrev pub Any : {A : Type 0} → A → Type 0
Any v = Unit

abbrev pub IsFit : List ℕ → Result Exception Object → Option ℕ → Type 0
IsFit retried (err e) status = ⊥
IsFit retried (ok d) none = Unit
IsFit retried (ok d) (some status) = elem status retried ≡ true → IsFlat (get "error" d)

module _ (p : Provider) (cfg : FetchSettings) where
  abbrev pub CanJudge : Fetched → Type 0
  CanJudge f = IsFit cfg.retry_status_codes f.result f.status

  receive-Returning :
      (endpoint : String) (parse : Option (List ℕ) → Result Exception ℕ) (answer : Answer) (n : Net)
      → ((v : Option (List ℕ))
          → IsReadableHeader p.parse_date v
          → (seconds : ℕ) × (parse v ≡ ok seconds))
      → IsRegular p cfg answer
      → Returning CanJudge (receive p cfg endpoint parse answer n)
  unfolding receive get Errors.json
  receive-Returning endpoint parse (responded r) n k h =
      let (_, _, header) = h in let (seconds, read) = k r.retry_after header in ground arith
  receive-Returning endpoint parse (failed http_error none) n k h = elim h [ ]
  receive-Returning endpoint parse (failed http_error (some r)) n k h =
      let (seconds, read) = k r.retry_after h.1 in ground arith
  receive-Returning endpoint parse (failed f none) n k h = ground arith
  receive-Returning endpoint parse (failed f (some r)) n k h = ground arith

  pub fetch_once-Returning :
      (endpoint uri : String) (form : Object) (timeout : ℕ) (n : Net)
      → ((k : ℕ) (r : Sent) → IsRegular p cfg (p.answer k r))
      → Returning CanJudge (fetch_once p cfg endpoint uri form timeout n)
  unfolding fetch_once
  fetch_once-Returning endpoint uri form timeout n h =
      receive-Returning endpoint (parse_retry p.parse_date (p.wall (suc (length n.requests))))
        (p.answer (length n.requests) request) _
        (parse_retry-returns p.parse_date (p.wall (suc (length n.requests))))
        (h (length n.requests) request)
    where
      request : Sent
      request = record { uri = uri; form = form; timeout = min cfg.timeout timeout; at = n.now }
