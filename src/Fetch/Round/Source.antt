-- ===== src/Fetch/Round/Source.antt =====
-- src/oauthclientbridge/oauth/_core.py: what a round leaves as the result, where that is no error.
use oauthclientbridge.Base.{
  String, ℕ, ◌-◌, ◌≡◌, refl, arith, false, true, Option, none, some, elem, Bool, leb, if◌then◌else◌,
}
use oauthclientbridge.Base.Dict.{get, has}
use oauthclientbridge.Base.Json.{Json, Object}
use oauthclientbridge.Base.Result.{Result, ok, err, Post-bind, lift}
use oauthclientbridge.Errors
use oauthclientbridge.Errors.{OAuthError, Exception}
use oauthclientbridge.Net.{Provider, Net, Sent, responded, Response, object, monotonic, Action}
use oauthclientbridge.Settings.{FetchSettings}
use oauthclientbridge.Outcome.{
  TokenEndpointOutcome, token_endpoint_outcome, unexpected_token_endpoint_issue,
}
use oauthclientbridge.Fetch.Once.{fetch_once}
use oauthclientbridge.Fetch.Once.Source.{Yields, IsBodyOf, IsRead, known, fetch_once-IsRead}
use oauthclientbridge.Fetch.Round.{
  Call, Loop, Flow, gate, ask, judge, retry_later, proceed, attempt,
}

-- The object is the body of a response to a request with this form to this URI, and the status of
-- the response is not retried.
pub record IsGenuine (p : Provider) (cfg : FetchSettings) (uri : String) (form d : Object)
    : Type 0 where
  pub index : ℕ
  pub request : Sent
  pub addressed : request.uri ≡ uri
  pub carried : request.form ≡ form
  pub response : Response
  pub answered : p.answer index request ≡ responded response
  pub body : response.body ≡ object d
  pub settled : elem response.status_code cfg.retry_status_codes ≡ false

module _ (p : Provider) (cfg : FetchSettings) where
  abbrev pub IsSettled : Call → Loop → Type 0
  IsSettled c s = has "error" s.result ≡ false → IsGenuine p cfg c.uri c.form s.result

  abbrev AreSettled : Call → Flow × Loop → Type 0
  AreSettled c (_, s) = IsSettled c s

  error-json :
      (e : OAuthError) (v : Json) (d : Object) → Errors.json e v ≡ ok d → has "error" d ≡ true
  unfolding Errors.json has get
  error-json e v d h = ground arith

  retry_later-IsSettled :
      (c : Call) (o : TokenEndpointOutcome) (s : Loop) (d : Object) (n : Net)
      → Yields (AreSettled c) (retry_later p cfg c o s d n)
  unfolding retry_later has get Errors.json
  retry_later-IsSettled c o s d n = ground arith

  kept-status :
      (status : Option ℕ) (code : ℕ) (d : Object)
      → status ≡ some code
      → (token_endpoint_outcome p.render status d cfg.retry_status_codes cfg.error_types).retryable
        ≡ false
      → elem code cfg.retry_status_codes ≡ false
  unfolding token_endpoint_outcome
  kept-status status code d e h = ground arith

  abbrev Passes : Loop → Option (ℕ × Loop) → Type 0
  Passes s none = Unit
  Passes s (some (_, s')) = s'.result ≡ s.result

  gate-result :
      (c : Call) (i now : ℕ) (s : Loop) (n : Net) → Yields (Passes s) (gate p cfg c i now s n)
  unfolding gate
  gate-result c i now s n = ground arith

  Yields-if :
      {A : Type 0} (P : A → Type 0) (b : Bool) (f g : Action A) (n : Net)
      → Yields P (f n)
      → (b ≡ false → Yields P (g n))
      → Yields P ((if b then f else g) n)
  Yields-if P true f g n h k = h
  Yields-if P false f g n h k = k refl

  judge_read-IsSettled :
      (c : Call) (s : Loop) (result : Result Exception Object) (status : Option ℕ) (seconds k : ℕ)
      (r : Sent) (n : Net)
      → r.uri ≡ c.uri
      → r.form ≡ c.form
      → IsRead (p.answer k r) (record { result = result; status = status; retry_after = seconds })
      → Yields
          (AreSettled c)
          (judge p cfg c s (record { result = result; status = status; retry_after = seconds }) n)
  unfolding judge
  judge_read-IsSettled c s (err e) status seconds k r n u g h = record { at = tt }
  judge_read-IsSettled c s (ok d) status seconds k r n u g h =
      Post-bind (lift (unexpected_token_endpoint_issue status d cfg.retry_status_codes)) _ n
        (known (unexpected_token_endpoint_issue status d cfg.retry_status_codes) n)
        λ issue n₁ _.
          Yields-if (AreSettled c)
            (token_endpoint_outcome p.render status d cfg.retry_status_codes
              cfg.error_types).retryable
            _ _ n₁
            (retry_later-IsSettled c
              (token_endpoint_outcome p.render status d cfg.retry_status_codes cfg.error_types)
              (record s { retry = seconds; status = status; result = d }) d n₁)
            (λ over. record { at = λ clean. source over (h d refl clean) })
    where
      source :
          (token_endpoint_outcome p.render status d cfg.retry_status_codes
              cfg.error_types).retryable
            ≡ false
          → IsBodyOf (p.answer k r) status d
          → IsGenuine p cfg c.uri c.form d
      source over b = record {
        index = k;
        request = r;
        addressed = u;
        carried = g;
        response = b.response;
        answered = b.answered;
        body = b.body;
        settled = kept-status status b.response.status_code d b.code over;
      }

  ask-IsSettled :
      (c : Call) (now : ℕ) (s : Loop) (n : Net)
      → IsSettled c s
      → Yields (AreSettled c) (ask p cfg c now s n)
  unfolding ask
  ask-IsSettled c now s n h =
      Yields-if (AreSettled c) (leb c.deadline now) _ _ _ (record { at = h })
        λ _.
          Post-bind (fetch_once p cfg c.endpoint c.uri c.form (c.deadline - now)) _ _
            (fetch_once-IsRead p cfg c.endpoint c.uri c.form (c.deadline - now) _)
            λ f n₁ (k, r, u, g, read).
              judge_read-IsSettled c s f.result f.status f.retry_after k r n₁ u g read

  pub attempt-IsSettled :
      (c : Call) (i : ℕ) (s : Loop) (n : Net)
      → IsSettled c s
      → Yields (AreSettled c) (attempt p cfg c i s n)
  unfolding attempt monotonic
  attempt-IsSettled c i s n h = Post-bind (gate p cfg c i _ s) _ _ (gate-result c i _ s _) next
    where
      next :
          (passed : Option (ℕ × Loop)) (n₁ : Net)
          → Passes s passed
          → Yields (AreSettled c) (proceed p cfg c s passed n₁)
      next none n₁ _ = record { at = h }
      next (some (now, s')) n₁ same = ask-IsSettled c now s' n₁ (rw same h)
