-- ===== src/Fetch/Genuine.antt =====
-- src/oauthclientbridge/oauth/_core.py: where the result of `fetch` comes from, when it is no error.
use oauthclientbridge.Base.{
  ℕ, zero, suc, ◌+◌, ◌≡◌, arith, subst, Bool-cases, ◌&&◌, ltb, if◌then◌else◌, String, false, inl,
  inr,
}
use oauthclientbridge.Base.Dict.{has, put, get, get-put}
use oauthclientbridge.Base.Json.{Object, num}
use oauthclientbridge.Base.Result.{Result, ok, err, Post-bind, Post-checked}
use oauthclientbridge.Errors
use oauthclientbridge.Errors.{Exception}
use oauthclientbridge.Net.{Provider, Net}
use oauthclientbridge.Settings.{FetchSettings}
use oauthclientbridge.Fetch.{exhausted, rounds, onward, before_loop, fetch, fetch_prepared}
use oauthclientbridge.Fetch.Bounds.{called, started, call_started, initial_result}
use oauthclientbridge.Fetch.Once.Source.{Yields}
use oauthclientbridge.Fetch.Round.{Call, Loop, Flow, stop, again, attempt}
use oauthclientbridge.Fetch.Round.Source.{IsGenuine, IsSettled, attempt-IsSettled}

module _ (p : Provider) (cfg : FetchSettings) where
  exhausted-IsSettled :
      (c : Call) (s : Loop) (n : Net)
      → IsSettled p cfg c s
      → Yields (IsSettled p cfg c) (exhausted p cfg c s n)
  unfolding exhausted
  exhausted-IsSettled c s n h = ground arith

  rounds-IsSettled :
      (c : Call) (left i : ℕ) (s : Loop) (n : Net)
      → IsSettled p cfg c s
      → Yields (IsSettled p cfg c) (rounds p cfg c left i s n)
  unfolding rounds
  rounds-IsSettled c zero i s n h = exhausted-IsSettled c s n h
  rounds-IsSettled c (suc left) i s n h =
      Post-bind (attempt p cfg c i s) _ n (attempt-IsSettled p cfg c i s n h)
        λ (f, s₁) n₁ h₁. next f s₁ n₁ h₁ (rounds-IsSettled c left (i + 1) s₁ n₁ h₁)
    where
      next :
          (f : Flow) (s₁ : Loop) (n₁ : Net)
          → IsSettled p cfg c s₁
          → Yields (IsSettled p cfg c) (rounds p cfg c left (i + 1) s₁ n₁)
          → Yields (IsSettled p cfg c) (onward p cfg c (rounds p cfg c left (i + 1)) (f, s₁) n₁)
      next stop s₁ n₁ h₁ rest = record { at = h₁ }
      next again s₁ n₁ h₁ rest = rest

  yielded :
      {A : Type 0} {P : A → Type 0} (x : Result Exception A × Net) (a : A)
      → Yields P x
      → x.0 ≡ ok a
      → P a
  yielded {P = P} (ok v, n) a r e = subst P (ground (arith, e)) (r.at)
  yielded (err v, n) a r e = absurd (ground (arith, e))

  -- The seconds to wait are added to an error only.
  pub finished-IsSettled :
      (c : Call) (s : Loop)
      → IsSettled p cfg c s
      → let d =
          if has "error" s.result && ltb 0 s.retry
          then put "retry_after" (num s.retry) s.result
          else s.result in
        has "error" d ≡ false → IsGenuine p cfg c.uri c.form d
  unfolding has
  finished-IsSettled c s h clean = elim (Bool-cases (has "error" s.result)) [
    | inl wrong ↦
        absurd (ground (arith, wrong, clean, get-put "retry_after" "error" (num s.retry) s.result))
    | inr right ↦ rw right (h right)
  ]

  -- A result of `fetch` without `error` is the body of a response that the provider sent to a
  -- request with this form to this URI, and the status of the response is not among the retried
  -- ones: neither an answer that was to be retried nor one made up by the bridge passes for success.
  pub fetch-IsGenuine :
      (uri endpoint : String) (form : Object) (n : Net) (d : Object)
      → (fetch p cfg uri endpoint form n).0 ≡ ok d
      → has "error" d ≡ false
      → IsGenuine p cfg uri form d
  unfolding fetch fetch_prepared has get started call_started initial_result Errors.json
  fetch-IsGenuine uri endpoint form n d =
      yielded {P = λ d. has "error" d ≡ false → IsGenuine p cfg uri form d}
        (fetch p cfg uri endpoint form n) d
        (Post-checked (p.prepare uri form) (fetch_prepared p cfg uri endpoint form) (called p cfg n)
          tt
          (Post-bind
            (rounds p cfg (call_started p cfg n uri endpoint form) (cfg.total_retries + 1) 0
              (before_loop p cfg (initial_result p cfg n)))
            _ (started p cfg n)
            (rounds-IsSettled (call_started p cfg n uri endpoint form) (cfg.total_retries + 1) 0
              (before_loop p cfg (initial_result p cfg n)) (started p cfg n)
              (λ clean. absurd (ground (arith, clean))))
            λ s n₂ h. record {
              at = finished-IsSettled (call_started p cfg n uri endpoint form) s h;
            }))
