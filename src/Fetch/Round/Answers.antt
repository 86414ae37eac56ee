-- ===== src/Fetch/Round/Answers.antt =====
-- src/oauthclientbridge/oauth/_core.py: a round that raises nothing.
use oauthclientbridge.Base.{
  ℕ, ◌-◌, ◌≡◌, refl, arith, Bool, true, false, Option, none, some, leb, if◌then◌else◌,
}
use oauthclientbridge.Base.Dict.{get}
use oauthclientbridge.Base.Json.{Object}
use oauthclientbridge.Base.Result.{Result, ok, err, Post-bind, lift}
use oauthclientbridge.Errors
use oauthclientbridge.Errors.{OAuthError, Exception, temporarily_unavailable}
use oauthclientbridge.Net.{Provider, Net, Sent, Action, monotonic}
use oauthclientbridge.Settings.{FetchSettings}
use oauthclientbridge.Outcome.{
  TokenEndpointOutcome, token_endpoint_outcome, unexpected_token_endpoint_issue,
}
use oauthclientbridge.Fetch.Once.{Fetched, fetch_once}
use oauthclientbridge.Fetch.Once.Answers.{
  IsRegular, IsFit, CanJudge, Returning, Any, fetch_once-Returning,
}
use oauthclientbridge.Fetch.Round.{Call, Loop, gate, ask, judge, retry_later, proceed, attempt}

module _ (p : Provider) (cfg : FetchSettings) where
  -- What a retryable answer is replaced by can be described.
  retry_later-Returning :
      (c : Call) (o : TokenEndpointOutcome) (s : Loop) (d : Object) (n : Net)
      → o.normalized_error ≡ some temporarily_unavailable
      → Returning Any (retry_later p cfg c o s d n)
  unfolding retry_later get Errors.json
  retry_later-Returning c o s d n h = ground arith

  retryable-error :
      (status : Option ℕ) (d : Object)
      → (token_endpoint_outcome p.render status d cfg.retry_status_codes cfg.error_types).retryable
        ≡ true
      → (token_endpoint_outcome p.render status d cfg.retry_status_codes
          cfg.error_types).normalized_error
        ≡ some temporarily_unavailable
  unfolding token_endpoint_outcome
  retryable-error status d h = ground arith

  issue-Returning :
      (status : Option ℕ) (d : Object) (n : Net)
      → IsFit cfg.retry_status_codes (ok d) status
      → Returning Any (lift (unexpected_token_endpoint_issue status d cfg.retry_status_codes) n)
  unfolding unexpected_token_endpoint_issue
  issue-Returning none d n h = record { at = tt }
  issue-Returning (some status) d n h = ground arith

  Returning-if :
      {A : Type 0} (b : Bool) (f g : Action A) (n : Net)
      → (b ≡ true → Returning Any (f n))
      → Returning Any (g n)
      → Returning Any ((if b then f else g) n)
  Returning-if true f g n h k = h refl
  Returning-if false f g n h k = k

  judge_fit-Returning :
      (c : Call) (s : Loop) (result : Result Exception Object) (status : Option ℕ) (seconds : ℕ)
      (n : Net)
      → IsFit cfg.retry_status_codes result status
      → Returning Any
          (judge p cfg c s (record { result = result; status = status; retry_after = seconds }) n)
  unfolding judge
  judge_fit-Returning c s (err e) status seconds n h = elim h [ ]
  judge_fit-Returning c s (ok d) status seconds n h =
      Post-bind (lift (unexpected_token_endpoint_issue status d cfg.retry_status_codes)) _ n
        (issue-Returning status d n h)
        λ issue n₁ _.
          Returning-if
            (token_endpoint_outcome p.render status d cfg.retry_status_codes
              cfg.error_types).retryable
            _ _ n₁
            (λ retried.
              retry_later-Returning c
                (token_endpoint_outcome p.render status d cfg.retry_status_codes cfg.error_types)
                (record s { retry = seconds; status = status; result = d }) d n₁
                (retryable-error status d retried))
            (record { at = tt })

  judge-Returning :
      (c : Call) (s : Loop) (f : Fetched) (n : Net)
      → CanJudge p cfg f
      → Returning Any (judge p cfg c s f n)
  judge-Returning c s f n h = judge_fit-Returning c s f.result f.status f.retry_after n h

  gate-Returning :
      (c : Call) (i now : ℕ) (s : Loop) (n : Net) → Returning Any (gate p cfg c i now s n)
  unfolding gate
  gate-Returning c i now s n = ground arith

  ask-Returning :
      (c : Call) (now : ℕ) (s : Loop) (n : Net)
      → ((k : ℕ) (r : Sent) → IsRegular p cfg (p.answer k r))
      → Returning Any (ask p cfg c now s n)
  unfolding ask
  ask-Returning c now s n h =
      Returning-if (leb c.deadline now) _ _ _ (λ _. record { at = tt })
        (Post-bind (fetch_once p cfg c.endpoint c.uri c.form (c.deadline - now)) _ _
          (fetch_once-Returning p cfg c.endpoint c.uri c.form (c.deadline - now) _ h)
          (λ f n₁ fit. judge-Returning c s f n₁ fit))

  pub attempt-Returning :
      (c : Call) (i : ℕ) (s : Loop) (n : Net)
      → ((k : ℕ) (r : Sent) → IsRegular p cfg (p.answer k r))
      → Returning Any (attempt p cfg c i s n)
  unfolding attempt monotonic
  attempt-Returning c i s n h = Post-bind (gate p cfg c i _ s) _ _ (gate-Returning c i _ s _) next
    where
      next :
          (passed : Option (ℕ × Loop)) (n₁ : Net)
          → Unit {0}
          → Returning Any (proceed p cfg c s passed n₁)
      next none n₁ _ = record { at = tt }
      next (some (now, s₁)) n₁ _ = ask-Returning c now s₁ n₁ h
