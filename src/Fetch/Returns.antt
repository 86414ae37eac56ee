-- ===== src/Fetch/Returns.antt =====
-- src/oauthclientbridge/oauth/_core.py: `fetch` always ends with an answer, where the provider's
-- responses can be read.
use oauthclientbridge.Base.{ℕ, zero, suc, ◌+◌, ◌≡◌, refl, arith, String}
use oauthclientbridge.Base.Json.{Object}
use oauthclientbridge.Base.Result.{Result, ok, err, Post-bind}
use oauthclientbridge.Errors
use oauthclientbridge.Errors.{Exception}
use oauthclientbridge.Net.{Provider, Net, Sent}
use oauthclientbridge.Settings.{FetchSettings}
use oauthclientbridge.Fetch.{exhausted, rounds, onward, before_loop, fetch, fetch_prepared}
use oauthclientbridge.Fetch.Bounds.{called, fetch-prepared, started, call_started, initial_result}
use oauthclientbridge.Fetch.Round.{Call, Loop, Flow, stop, again, attempt}
use oauthclientbridge.Fetch.Round.Answers.{attempt-Returning}
use oauthclientbridge.Fetch.Once.Answers.{IsRegular, Returning, Any}

module _ (p : Provider) (cfg : FetchSettings)
    (h : (k : ℕ) (r : Sent) → IsRegular p cfg (p.answer k r)) where
  exhausted-Returning : (c : Call) (s : Loop) (n : Net) → Returning Any (exhausted p cfg c s n)
  unfolding exhausted
  exhausted-Returning c s n = ground arith

  rounds-Returning :
      (c : Call) (left i : ℕ) (s : Loop) (n : Net) → Returning Any (rounds p cfg c left i s n)
  unfolding rounds
  rounds-Returning c zero i s n = exhausted-Returning c s n
  rounds-Returning c (suc left) i s n =
      Post-bind (attempt p cfg c i s) _ n (attempt-Returning p cfg c i s n h)
        λ step n₁ _. next step n₁ (λ s₁. rounds-Returning c left (i + 1) s₁ n₁)
    where
      next :
          (step : Flow × Loop) (n₁ : Net)
          → ((s₁ : Loop) → Returning Any (rounds p cfg c left (i + 1) s₁ n₁))
          → Returning Any (onward p cfg c (rounds p cfg c left (i + 1)) step n₁)
      next (stop, s₁) n₁ rest = record { at = tt }
      next (again, s₁) n₁ rest = rest s₁

  returned : {A : Type 0} (x : Result Exception A × Net) → Returning Any x → (a : A) × (x.0 ≡ ok a)
  returned (ok a, n) r = (a, refl)
  returned (err e, n) r = elim (r.at) [ ]

  prepared-returns :
      (uri endpoint : String) (form : Object) (n : Net)
      → Returning Any (fetch_prepared p cfg uri endpoint form (called p cfg n))
  unfolding fetch_prepared started call_started initial_result Errors.json
  prepared-returns uri endpoint form n =
      Post-bind
        (rounds p cfg (call_started p cfg n uri endpoint form) (cfg.total_retries + 1) 0
          (before_loop p cfg (initial_result p cfg n)))
        _ (started p cfg n)
        (rounds-Returning (call_started p cfg n uri endpoint form) (cfg.total_retries + 1) 0
          (before_loop p cfg (initial_result p cfg n)) (started p cfg n))
        λ s n₂ _. record { at = tt }

  -- Where requests can prepare the request, every response of the provider has a status that
  -- `http.HTTPStatus` knows, a body that is a JSON object or no JSON, with an `error` that is no list
  -- and no object where the status is retried, and a Retry-After that can be read, and every HTTP error
  -- carries such a response, `fetch` ends with an object and raises nothing, whatever the clock, the
  -- failures and the retry budget are.
  pub fetch-returns :
      (uri endpoint : String) (form : Object) (n : Net)
      → p.prepare uri form ≡ ok tt
      → (d : Object) × ((fetch p cfg uri endpoint form n).0 ≡ ok d)
  fetch-returns uri endpoint form n prepared =
      rw (fetch-prepared p cfg n uri endpoint form prepared) (
        returned (fetch_prepared p cfg uri endpoint form (called p cfg n))
          (prepared-returns uri endpoint form n))
