-- ===== src/Fetch/Once/Source.antt =====
-- src/oauthclientbridge/oauth/_core.py, `_fetch`: where an object that is no error comes from.
use oauthclientbridge.Base.{
  ℕ, suc, ◌≡◌, refl, ap, Bool, arith, String, false, true, Option, some, List, elem, min, length,
  if◌then◌else◌,
}
use oauthclientbridge.Base.Dict.{get, has}
use oauthclientbridge.Base.Json.{Object}
use oauthclientbridge.Base.Result.{Result, ok, err, Post, Post-bind, Post-weaken, lift, pure}
use oauthclientbridge.Errors
use oauthclientbridge.Errors.{Exception}
use oauthclientbridge.Net.{
  Provider, Net, Sent, Answer, responded, failed, Failure, Response, Body, object, not_object,
  undecodable, close_session,
}
use oauthclientbridge.Settings.{FetchSettings}
use oauthclientbridge.Fetch.RetryAfter.{parse_retry}
use oauthclientbridge.Fetch.Once.{http_status, Fetched, decode, receive, fetch_once}

-- What is asked of a value holds where nothing is raised.
abbrev pub Yields : {A : Type 0} → (A → Type 0) → Result Exception A × Net → Type 0
Yields P x = Post (λ v _. P v) (λ _. Unit) x

-- The object is the body of this answer, a response with this status.
pub record IsBodyOf (answer : Answer) (status : Option ℕ) (d : Object) : Type 0 where
  pub response : Response
  pub answered : answer ≡ responded response
  pub body : response.body ≡ object d
  pub code : status ≡ some response.status_code

abbrev pub IsRead : Answer → Fetched → Type 0
IsRead answer f =
    (d : Object) → f.result ≡ ok d → has "error" d ≡ false → IsBodyOf answer f.status d

pub known : {A : Type 0} (r : Result Exception A) (n : Net) → Yields (λ v. r ≡ ok v) (lift r n)
known (ok a) n = record { at = refl }
known (err e) n = record { at = tt }

http_status-same : (code : ℕ) (n : Net) → Yields (λ v. v ≡ code) (lift (http_status code) n)
unfolding http_status
http_status-same code n = ground arith

module _ (p : Provider) (cfg : FetchSettings) where
  decode-object :
      (r : Response) (b : Body) (d : Object)
      → r.body ≡ b
      → decode cfg r ≡ ok (ok d)
      → has "error" d ≡ false
      → b ≡ object d
  unfolding decode get has Errors.json
  decode-object r (object c) d e h n = ground arith
  decode-object r (not_object x) d e h n = ground arith
  decode-object r undecodable d e h n = ground arith

  receive-error :
      (endpoint : String) (parse : Option (List ℕ) → Result Exception ℕ) (f : Failure)
      (r : Option Response) (n : Net)
      → Yields
          (λ v. (d : Object) → v.result ≡ ok d → has "error" d ≡ true)
          (receive p cfg endpoint parse (failed f r) n)
  unfolding receive get has Errors.json
  receive-error endpoint parse f r n = ground arith

  receive-IsRead :
      (endpoint : String) (parse : Option (List ℕ) → Result Exception ℕ) (answer : Answer) (n : Net)
      → Yields (IsRead answer) (receive p cfg endpoint parse answer n)
  unfolding receive http_status
  receive-IsRead endpoint parse (failed f r) n =
      Post-weaken (receive p cfg endpoint parse (failed f r) n)
        (λ v _ h d e clean. absurd (ground (arith, h d e))) (λ _ h. h)
        (receive-error endpoint parse f r n)
  receive-IsRead endpoint parse (responded r) n =
      Post-bind (lift (decode cfg r)) _ n (known (decode cfg r) n) λ result n₁ decoded.
        Post-bind (lift (http_status r.status_code)) _ n₁ (http_status-same r.status_code n₁)
          λ status n₂ same.
            Post-bind (lift (parse r.retry_after)) _ n₂ (known (parse r.retry_after) n₂) λ _ n₂ _.
              Post-bind (if elem status cfg.retry_status_codes then close_session else pure tt) _ n₂
                (any (elem status cfg.retry_status_codes) n₂)
                λ _ n₃ _. record {
                  at = λ d e clean. record {
                    response = r;
                    answered = refl;
                    body = decode-object r r.body d refl (ground arith) clean;
                    code = ap some same;
                  };
                }
    where
      any : (b : Bool) (n : Net) → Yields (λ _. Unit {0}) ((if b then close_session else pure tt) n)
      any true n = record { at = tt }
      any false n = record { at = tt }

  -- Where the object of a request is no error, it is the body of the response to this request.
  pub fetch_once-IsRead :
      (endpoint uri : String) (form : Object) (timeout : ℕ) (n : Net)
      → Yields
          (λ f. (k : ℕ) × (r : Sent) × (r.uri ≡ uri) × (r.form ≡ form) × IsRead (p.answer k r) f)
          (fetch_once p cfg endpoint uri form timeout n)
  unfolding fetch_once
  fetch_once-IsRead endpoint uri form timeout n =
      Post-weaken
        (receive p cfg endpoint (parse_retry p.parse_date (p.wall (suc (length n.requests))))
          (p.answer (length n.requests) request) _)
        (λ f _ h. (length n.requests, request, refl, refl, h)) (λ _ h. h)
        (receive-IsRead endpoint (parse_retry p.parse_date (p.wall (suc (length n.requests))))
          (p.answer (length n.requests) request) _)
    where
      request : Sent
      request = record { uri = uri; form = form; timeout = min cfg.timeout timeout; at = n.now }
