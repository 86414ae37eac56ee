-- ===== src/Fetch/Round/Ask.antt =====
-- src/oauthclientbridge/oauth/_core.py: the request of a round, and a whole round.
use oauthclientbridge.Base.{
  ℕ, suc, ◌+◌, ◌-◌, ◌≡◌, ◌<◌, refl, Option, none, some, List, arith, ltb, leb, Bool-cases, inl, inr,
  if◌then◌else◌,
}
use oauthclientbridge.Base.Json.{Object}
use oauthclientbridge.Base.Result.{Post, Post-bind, Post-weaken}
use oauthclientbridge.Net.{Provider, Net, emit, IsQuiet}
use oauthclientbridge.Outcome.{TokenEndpointOutcome}
use oauthclientbridge.Settings.{FetchSettings}
use oauthclientbridge.Telemetry.{Metric, record_client_attempt}
use oauthclientbridge.Retry.{RetryAttemptKind}
use oauthclientbridge.Fetch.Once.{Fetched, fetch_once}
use oauthclientbridge.Fetch.Once.Frame.{Quiet, IsAsked, fetch_once-IsAsked}
use oauthclientbridge.Fetch.Round.{
  Call, Loop, Flow, retry_later, judge, ask, gate, proceed, attempt,
}
use oauthclientbridge.Fetch.Round.Within.{gained, IsWithin}
use oauthclientbridge.Fetch.Round.Gate.{Passed, gate-Within}

module _ (p : Provider) (cfg : FetchSettings) (c : Call) where
  retry_later-IsQuiet :
      (o : TokenEndpointOutcome) (s : Loop) (d : Object) (n : Net)
      → Post (Quiet n) (IsQuiet n) (retry_later p cfg c o s d n)
  unfolding retry_later
  retry_later-IsQuiet o s d n = ground arith

  pub judge-IsQuiet :
      (s : Loop) (f : Fetched) (n : Net) → Post (Quiet n) (IsQuiet n) (judge p cfg c s f n)
  unfolding judge
  judge-IsQuiet s f n = ground arith

module _ (p : Provider) (cfg : FetchSettings) (old : Net) (c : Call) where
  abbrev pub Kept : ℕ → Net → Type 0
  Kept = IsWithin cfg c.deadline old

  quiet-Kept : {k : ℕ} {n n' : Net} → Kept k n → IsQuiet n n' → Kept k n'
  quiet-Kept h q = record {
    few = rw q.requests h.few;
    timely = rw q.requests h.timely;
    slept = rw (q.sleeps, q.now) h.slept;
    capped = rw q.sleeps h.capped;
    paid = rw (q.sleeps, q.limiters) h.paid;
  }

  asked-Kept :
      {k timeout : ℕ} {n n' : Net}
      → Kept k n
      → n.now < c.deadline
      → timeout ≡ c.deadline - n.now
      → IsAsked p cfg timeout n n'
      → Kept (suc k) n'
  asked-Kept h early e q = record {
    few = rw q.sent (omega (arith, h.few));
    timely = rw q.sent (
        gained
          (omega (arith, q.at, q.within), omega (arith, q.at, q.within), omega (arith, q.within))
          h.timely);
    slept = rw (q.sleeps, q.now) (omega (arith, h.slept));
    capped = rw q.sleeps h.capped;
    paid = rw (q.sleeps, q.limiters) h.paid;
  }

  pub logged-Kept :
      {k : ℕ} {n : Net} (ms : List Metric) → Kept k n → Kept k (record n { metrics = ms })
  logged-Kept ms h = record {
    few = h.few;
    timely = h.timely;
    slept = h.slept;
    capped = h.capped;
    paid = h.paid;
  }

  fewer-Kept : {k : ℕ} {n : Net} → Kept k n → Kept (suc k) n
  fewer-Kept h = record {
    few = omega (arith, h.few);
    timely = h.timely;
    slept = h.slept;
    capped = h.capped;
    paid = h.paid;
  }

  -- One round sends at most one request.
  abbrev pub Done : ℕ → (Flow × Loop) → Net → Type 0
  Done k _ n = Kept (suc k) n

  ask-Kept :
      (k now : ℕ) (s : Loop) (n : Net)
      → Kept k n
      → now ≡ n.now
      → Post (Done k) (Kept (suc k)) (ask p cfg c now s n)
  unfolding ask
  ask-Kept k now s n h e = elim (Bool-cases (leb c.deadline now)) [
    | inl late ↦ rw late (record { at = logged-Kept _ (fewer-Kept h) })
    | inr early ↦ rw early (
        Post-bind (fetch_once p cfg c.endpoint c.uri c.form (c.deadline - now)) _ started
          (Post-weaken (fetch_once p cfg c.endpoint c.uri c.form (c.deadline - now) started)
            (λ f n₂ q. asked-Kept kept (ground arith) (omega arith) q)
            (λ n₂ q. asked-Kept kept (ground arith) (omega arith) q)
            (fetch_once-IsAsked p cfg c.endpoint c.uri c.form (c.deadline - now) started))
          λ f n₂ h₂.
            Post-weaken (judge p cfg c s f n₂) (λ r n₃ q. quiet-Kept h₂ q) (λ n₃ q. quiet-Kept h₂ q)
              (judge-IsQuiet p cfg c s f n₂))
  ]
    where
      started : Net
      started =
          (emit
            (record_client_attempt c.endpoint (
              if ltb 0 s.completed_retries
              then RetryAttemptKind.retry
              else RetryAttemptKind.initial))
            n).1

      kept : Kept k started
      kept = logged-Kept started.metrics h

  pub attempt-Kept :
      (i k : ℕ) (s : Loop) (n : Net)
      → Kept k n
      → Post (Done k) (Kept (suc k)) (attempt p cfg c i s n)
  unfolding attempt
  attempt-Kept i k s n h =
      Post-bind (gate p cfg c i now s) _ read
        (Post-weaken (gate p cfg c i now s read) (λ passed n₁ h₁. h₁) (λ n₁ h₁. fewer-Kept h₁)
          (gate-Within p cfg c.deadline old c i k now s read refl kept refl))
        next
    where
      now : ℕ
      now = n.now + p.lag n.readings

      read : Net
      read = record n { now = now; readings = n.readings + 1 }

      kept : Kept k read
      kept = record {
        few = h.few;
        timely = h.timely;
        slept = omega (arith, h.slept);
        capped = h.capped;
        paid = h.paid;
      }

      next :
          (passed : Option (ℕ × Loop)) (n₁ : Net)
          → Passed p cfg c.deadline old k passed n₁
          → Post (Done k) (Kept (suc k)) (proceed p cfg c s passed n₁)
      next none n₁ h₁ = record { at = fewer-Kept h₁ }
      next (some (now', s')) n₁ (h₁, e₁) = ask-Kept k now' s' n₁ h₁ e₁
