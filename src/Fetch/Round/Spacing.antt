-- ===== src/Fetch/Round/Spacing.antt =====
-- src/oauthclientbridge/oauth/_core.py: a round sends its request once the wait that the last answer
-- asked for is over.
use oauthclientbridge.Base.{
  ℕ, ◌+◌, ◌*◌, ◌-◌, ◌≡◌, ◌≢◌, ◌∙◌, ◌≤◌, refl, sym, arith, true, Bool-cases, Option, inl, inr, none,
  some, List, ◌∷◌, length, ltb, leb, if◌then◌else◌, ◌⊎◌, subst, min,
}
use oauthclientbridge.Base.Dict.{is_some}
use oauthclientbridge.Base.Text.{unit}
use oauthclientbridge.Base.Result.{Result, ok, Post, Post-bind, Post-weaken}
use oauthclientbridge.Net.{Provider, Net, Sent, IsQuiet, emit, monotonic}
use oauthclientbridge.Telemetry.{record_client_attempt}
use oauthclientbridge.Retry.{RetryAttemptKind, RetryDecision}
use oauthclientbridge.Settings.{FetchSettings}
use oauthclientbridge.Fetch.Once.{Fetched, fetch_once}
use oauthclientbridge.Fetch.Once.Told.{asked_seconds, IsSent, fetch_once-IsSent}
use oauthclientbridge.Fetch.Round.{
  Call, Loop, Flow, stop, again, gate, ask, judge, proceed, attempt,
}
use oauthclientbridge.Fetch.Round.Floor.{Waits, gate-Waits}

-- When a request may follow another, which was the `k`-th: behind its answer, and behind the seconds
-- that the answer asked to wait.
abbrev pub may_follow : Provider → ℕ → Sent → ℕ
may_follow p k r = r.at + p.took k + asked_seconds p k r * unit

-- The requests that were sent since the log was `old`, each as late as the one before asked.
pub data Spaced (p : Provider) (old : List Sent) : List Sent → Type 0 where
  none_sent : Spaced p old old
  one_sent : (r : Sent) → Spaced p old (r ∷ old)
  next_sent :
      (later earlier : Sent) (rest : List Sent)
      → may_follow p (length rest) earlier ≤ later.at
      → Spaced p old (earlier ∷ rest)
      → Spaced p old (later ∷ earlier ∷ rest)

module _ (p : Provider) (cfg : FetchSettings) (old : List Sent) where
  -- Before a round: no request was sent, or the last one's answer is to be retried.
  pub data Ready (s : Loop) (n : Net) : Type 0 where
    fresh : n.requests ≡ old → s.pending ≡ none → Ready s n
    retrying :
        (r : Sent) (rest : List Sent) (d : RetryDecision)
        → n.requests ≡ r ∷ rest
        → s.pending ≡ some d
        → may_follow p (length rest) r ≤ n.now + s.retry * unit
        → Ready s n

  abbrev pub IsSpaced : Net → Type 0
  IsSpaced n = Spaced p old n.requests

  abbrev pub Goes : Flow × Loop → Net → Type 0
  Goes (stop, s) n = IsSpaced n
  Goes (again, s) n = IsSpaced n × Ready s n

  abbrev pub Keeps : Result oauthclientbridge.Errors.Exception (Flow × Loop) × Net → Type 0
  Keeps x = Post Goes IsSpaced x

  -- What a judgement makes of the variables: where a further round follows, the seconds are those of
  -- the answer and a decision is pending.
  abbrev Judged : ℕ → Net → Flow × Loop → Net → Type 0
  Judged seconds n (stop, s) n' = IsQuiet n n'
  Judged seconds n (again, s) n' = IsQuiet n n' × (s.retry ≡ seconds) × (is_some s.pending ≡ true)

  judge-Judged :
      (c : Call) (s : Loop) (f : Fetched) (n : Net)
      → Post (Judged f.retry_after n) (IsQuiet n) (judge p cfg c s f n)
  unfolding judge
  judge-Judged c s f n = ground arith

  -- A request may be sent now.
  abbrev pub MaySend : Net → Type 0
  MaySend n =
      (n.requests ≡ old)
      ⊎ ((r : Sent) × ((rest : List Sent) × ((n.requests ≡ r ∷ rest)
              × (may_follow p (length rest) r ≤ n.now))))

  sent-IsSpaced : (n n' : Net) (r : Sent) → IsSpaced n → MaySend n → IsSent p n r n' → IsSpaced n'
  sent-IsSpaced n n' r h (inl none_before) q =
      subst (Spaced p old) (sym q.sent) (rw none_before (one_sent r))
  sent-IsSpaced n n' r h (inr (earlier, (rest, (e, late)))) q =
      subst (Spaced p old) (sym q.sent)
        (rw e (next_sent r earlier rest (omega (arith, q.at, late)) (subst (Spaced p old) e h)))

  quiet-IsSpaced : (n n' : Net) → IsSpaced n → IsQuiet n n' → IsSpaced n'
  quiet-IsSpaced n n' h q = subst (Spaced p old) (sym q.requests) h

  is_some-value : {A : Type 0} (o : Option A) → is_some o ≡ true → (a : A) × (o ≡ some a)
  is_some-value none h = absurd (cc)
  is_some-value (some a) h = (a, refl)

  Judged-Goes :
      (n n₁ n₂ : Net) (r : Sent) (step : Flow × Loop)
      → IsSpaced n₁
      → IsSent p n r n₁
      → Judged (asked_seconds p (length n.requests) r) n₁ step n₂
      → Goes step n₂
  Judged-Goes n n₁ n₂ r (stop, s) h q k = quiet-IsSpaced n₁ n₂ h k
  Judged-Goes n n₁ n₂ r (again, s) h q (quiet, e, pending) =
      let (d, there) = is_some-value s.pending pending in
      (
        quiet-IsSpaced n₁ n₂ h quiet,
        retrying r n.requests d (ground (arith, quiet.requests, q.sent)) there
            (rw e (omega (arith, q.at, q.now, quiet.now))),
      )

  ask-Goes :
      (c : Call) (now : ℕ) (s : Loop) (n : Net)
      → IsSpaced n
      → MaySend n
      → Keeps (ask p cfg c now s n)
  unfolding ask
  ask-Goes c now s n h may = elim (Bool-cases (leb c.deadline now)) [
    | inl over ↦ rw over (record { at = h })
    | inr early ↦ rw early (
        Post-bind (fetch_once p cfg c.endpoint c.uri c.form (c.deadline - now)) _ started
          (Post-weaken (fetch_once p cfg c.endpoint c.uri c.form (c.deadline - now) started)
            (λ f n₁ q. q) (λ n₁ q. sent-IsSpaced started n₁ request h may q)
            (fetch_once-IsSent p cfg c.endpoint c.uri c.form (c.deadline - now) started))
          λ f n₁ (e, q).
            Post-weaken (judge p cfg c s f n₁)
              (λ step n₂ k.
                Judged-Goes started n₁ n₂ request step (sent-IsSpaced started n₁ request h may q) q
                  (subst (λ seconds. Judged seconds n₁ step n₂) e k))
              (λ n₂ k. quiet-IsSpaced n₁ n₂ (sent-IsSpaced started n₁ request h may q) k)
              (judge-Judged c s f n₁))
  ]
    where
      started : Net
      started =
          (emit
            (record_client_attempt c.endpoint (
              if ltb 0 s.completed_retries
              then RetryAttemptKind.retry
              else RetryAttemptKind.initial))
            n).1

      request : Sent
      request = record {
        uri = c.uri;
        form = c.form;
        timeout = min cfg.timeout (c.deadline - now);
        at = n.now;
      }

  proceed-Goes :
      (c : Call) (s : Loop) (passed : Option (ℕ × Loop)) (n n₁ : Net)
      → IsSpaced n
      → n₁.requests ≡ n.requests
      → (passed ≢ none → MaySend n₁)
      → Keeps (proceed p cfg c s passed n₁)
  unfolding proceed
  proceed-Goes c s none n n₁ h same may = record { at = subst (Spaced p old) (sym same) h }
  proceed-Goes c s (some (now, s')) n n₁ h same may =
      ask-Goes c now s' n₁ (subst (Spaced p old) (sym same) h) (may (λ e. cc))

  gate-fresh :
      (c : Call) (i now : ℕ) (s : Loop) (n : Net)
      → s.pending ≡ none
      → gate p cfg c i now s n ≡ (ok (some (now, s)), n)
  unfolding gate
  gate-fresh c i now s n h = ground arith

  -- A round keeps the spacing.
  pub attempt-Goes :
      (c : Call) (i : ℕ) (s : Loop) (n : Net)
      → IsSpaced n
      → Ready s n
      → Keeps (attempt p cfg c i s n)
  unfolding attempt monotonic
  attempt-Goes c i s n h (fresh none_before nothing) =
      rw (gate-fresh c i (n.now + p.lag n.readings) s _ nothing) (
        proceed-Goes c s (some (n.now + p.lag n.readings, s)) n
          (record n { now = n.now + p.lag n.readings; readings = n.readings + 1 }) h refl
          (λ _. inl none_before))
  attempt-Goes c i s n h (retrying r rest d e pending late) =
      Post-bind (gate p cfg c i (n.now + p.lag n.readings) s) _ read
        (Post-weaken (gate p cfg c i (n.now + p.lag n.readings) s read) (λ passed n₁ k. k)
          (λ n₁ k. subst (Spaced p old) (sym k) h)
          (gate-Waits p cfg (may_follow p (length rest) r) n.requests c i (n.now + p.lag n.readings)
            s read d pending refl (omega (arith, late))))
        next
    where
      read : Net
      read = record n { now = n.now + p.lag n.readings; readings = n.readings + 1 }

      next :
          (passed : Option (ℕ × Loop)) (n₁ : Net)
          → Waits p cfg (may_follow p (length rest) r) n.requests passed n₁
          → Keeps (proceed p cfg c s passed n₁)
      next none n₁ k = proceed-Goes c s none n n₁ h k (λ e. absurd (e refl))
      next (some (now, s')) n₁ (k, over) =
          proceed-Goes c s (some (now, s')) n n₁ h k (λ _. inr (r, (rest, (k ∙ e, over))))
