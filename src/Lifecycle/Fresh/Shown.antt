-- ===== src/Lifecycle/Fresh/Shown.antt =====
-- src/oauthclientbridge/db.py, telemetry/_refresh.py and utils/coalescing.py together: what the gauges
-- show when nothing is left to do.
use oauthclientbridge.Base.{
  ℕ, ◌+◌, ◌≡◌, ◌≢◌, ◌∙◌, ◌⊎◌, inl, inr, sym, ap, refl, subst, arith, true, false, length, none,
  some, [],
}
use oauthclientbridge.Base.Result.{ok}
use oauthclientbridge.App.{App, World}
use oauthclientbridge.Coalescing
use oauthclientbridge.Coalescing.{
  Worker, Place, new, working, waiting, due, start, start_again, request, stop, startup_over, wake,
  debounce_over, work, work_done, work_raised, end,
}
use oauthclientbridge.Coalescing.Runs.{IsOrderly, Step-IsOrderly}
use oauthclientbridge.Db.{TokenStateCounts, count_states, token_state_counts}
use oauthclientbridge.Db.Table.{having, count_states-having}
use oauthclientbridge.Lifecycle
use oauthclientbridge.Lifecycle.{set_token_state_counts}
use oauthclientbridge.Lifecycle.Fresh.{
  last_state, Shows, SameGauges, Plant, resting, Move, serve, commit, report, turn, count, show,
  fail, IsSettled, Moves, still, further, opening,
}

record IsCurrent (p : Plant) : Type 0 where
  pub orderly : IsOrderly p.worker
  pub idle : p.worker.place ≢ working → p.counted ≡ none
  pub right :
      (c : TokenStateCounts) → IsSettled p → p.counted ≡ some c → c ≡ count_states p.app.tokens
  pub shown :
      IsSettled p
      → p.worker.place ≢ working
      → p.worker.runs ≢ []
      → p.failed ≡ false
      → Shows (count_states p.app.tokens) p.app

count-tokens :
    (w : World) (a a' : App) (c : TokenStateCounts)
    → w.fault a.statements ≡ none
    → token_state_counts w a ≡ (ok c, a')
    → (c ≡ count_states a.tokens) × (a'.tokens ≡ a.tokens) × SameGauges a a'
unfolding token_state_counts
count-tokens w a a' c fine h = ground arith

show-Shows :
    (a a' : App) (c : TokenStateCounts)
    → set_token_state_counts c a ≡ (ok tt, a')
    → (a'.tokens ≡ a.tokens) × Shows c a'
unfolding set_token_state_counts
show-Shows a a' c h = ground arith

settled-before :
    (w v : Worker)
    → Coalescing.Step w v
    → IsOrderly w
    → v.generation ≡ v.handled_generation
    → v.place ≢ working
    → (w.generation ≡ w.handled_generation) × (v.runs ≡ w.runs)
settled-before w v (start f p) h e n = (e, refl)
settled-before w v (start_again s) h e n = (e, refl)
settled-before w v request h e n = absurd (omega (arith, h.behind))
settled-before w v stop h e n = (e, refl)
settled-before w v (startup_over p s) h e n = (e, refl)
settled-before w v (wake p s m) h e n = (e, refl)
settled-before w v (debounce_over p s) h e n = (e, refl)
settled-before w v (work p s) h e n = absurd (n refl)
settled-before w v (work_done p) h e n = (e, refl)
settled-before w v (work_raised p) h e n = (e, refl)
settled-before w v (end s p q) h e n = (e, refl)

settled-or_away :
    (w v : Worker)
    → Coalescing.Step w v
    → IsOrderly w
    → v.generation ≡ v.handled_generation
    → (w.generation ≡ w.handled_generation) ⊎ (w.place ≢ working)
settled-or_away w v (start f p) h e = inl e
settled-or_away w v (start_again s) h e = inl e
settled-or_away w v request h e = absurd (omega (arith, h.behind))
settled-or_away w v stop h e = inl e
settled-or_away w v (startup_over p s) h e = inl e
settled-or_away w v (wake p s m) h e = inl e
settled-or_away w v (debounce_over p s) h e = inl e
settled-or_away w v (work p s) h e = inr (λ g. cc)
settled-or_away w v (work_done p) h e = inl e
settled-or_away w v (work_raised p) h e = inl e
settled-or_away w v (end s p q) h e = inl e

some-same : (c d : TokenStateCounts) → some d ≡ some c → c ≡ d
some-same c d e = cc

module _ (w : World) (p : Plant) (h : IsCurrent p) where
  serve-IsCurrent :
      (a : App) → a.tokens ≡ p.app.tokens → SameGauges p.app a → IsCurrent (record p { app = a })
  serve-IsCurrent a same gauges = record {
    orderly = h.orderly;
    idle = h.idle;
    right = λ c s e. h.right c (record { reported = s.reported; handled = s.handled }) e ∙ rw same;
    shown = λ s away ran well.
        let old : Shows (count_states p.app.tokens) p.app =
          h.shown (record { reported = s.reported; handled = s.handled }) away ran well in
        rw same (gauges.0 ∙ old.0, gauges.1 ∙ old.1);
  }

  commit-IsCurrent : (a : App) → IsCurrent (record p { app = a; unreported = p.unreported + 1 })
  commit-IsCurrent a = record {
    orderly = h.orderly;
    idle = h.idle;
    right = λ c s e. absurd (omega (arith, s.reported));
    shown = λ s away ran well. absurd (omega (arith, s.reported));
  }

  report-IsCurrent :
      (n : ℕ) → IsCurrent (record p { worker = Lifecycle.request p.worker; unreported = n })
  report-IsCurrent n = record {
    orderly = Step-IsOrderly p.worker (Lifecycle.request p.worker) request h.orderly;
    idle = h.idle;
    right = λ c s e. absurd (omega (arith, s.handled, h.orderly.behind));
    shown = λ s away ran well. absurd (omega (arith, s.handled, h.orderly.behind));
  }

  turn-IsCurrent :
      (v : Worker)
      → Coalescing.Step p.worker v
      → (p.worker.place ≡ working → v.place ≡ working)
      → IsCurrent (record p { worker = v })
  turn-IsCurrent v step keep = record {
    orderly = Step-IsOrderly p.worker v step h.orderly;
    idle = λ away. h.idle (λ e. away (keep e));
    right = λ c s e. elim (settled-or_away p.worker v step h.orderly s.handled) [
      | inl before ↦ h.right c (record { reported = s.reported; handled = before }) e
      | inr away ↦ absurd (cc (h.idle away))
    ];
    shown = λ s away ran well.
        let (before, same) = settled-before p.worker v step h.orderly s.handled away in
        h.shown (record { reported = s.reported; handled = before }) (λ e. away (keep e))
          (λ e. ran (same ∙ e)) well;
  }

  count-IsCurrent :
      (c : TokenStateCounts) (a : App)
      → p.worker.place ≡ working
      → w.fault p.app.statements ≡ none
      → token_state_counts w p.app ≡ (ok c, a)
      → IsCurrent (record p { app = a; counted = some c })
  count-IsCurrent c a busy fine e =
      let (right, same, _) = count-tokens w p.app a c fine e in
      record {
        orderly = h.orderly;
        idle = λ away. absurd (away busy);
        right = λ d s g. some-same d c g ∙ (right ∙ ap count_states (sym same));
        shown = λ s away ran well. absurd (away busy);
      }

  show-IsCurrent :
      (c : TokenStateCounts) (a : App)
      → p.counted ≡ some c
      → set_token_state_counts c p.app ≡ (ok tt, a)
      → (busy : p.worker.place ≡ working)
      → IsCurrent (record p { worker = resting p.worker; app = a; counted = none; failed = false })
  show-IsCurrent c a found e busy =
      let (same, shows) = show-Shows p.app a c e in
      record {
        orderly = Step-IsOrderly p.worker (resting p.worker) (work_done busy) h.orderly;
        idle = λ _. refl;
        right = λ d s g. absurd (cc);
        shown = λ s away ran well.
            let right : c ≡ count_states p.app.tokens =
              h.right c (record { reported = s.reported; handled = s.handled }) found in
            rw same (subst (λ d. Shows d a) right shows);
      }

  fail-IsCurrent :
      (a : App)
      → (busy : p.worker.place ≡ working)
      → IsCurrent (record p { worker = resting p.worker; app = a; counted = none; failed = true })
  fail-IsCurrent a busy = record {
    orderly = Step-IsOrderly p.worker (resting p.worker) (work_done busy) h.orderly;
    idle = λ _. refl;
    right = λ d s g. absurd (cc);
    shown = λ s away ran well. absurd (cc);
  }

Move-IsCurrent : (w : World) (p q : Plant) → Move w p q → IsCurrent p → IsCurrent q
Move-IsCurrent w p q (serve a same gauges) h = serve-IsCurrent w p h a same gauges
Move-IsCurrent w p q (commit a gauges) h = commit-IsCurrent w p h a
Move-IsCurrent w p q (report n e) h = report-IsCurrent w p h n
Move-IsCurrent w p q (turn v step keep) h = turn-IsCurrent w p h v step keep
Move-IsCurrent w p q (count c a busy _ fine e) h = count-IsCurrent w p h c a busy fine e
Move-IsCurrent w p q (show c a busy found e) h = show-IsCurrent w p h c a found e busy
Move-IsCurrent w p q (fail a busy _) h = fail-IsCurrent w p h a busy

opening-IsCurrent : (a : App) → IsCurrent (opening a)
opening-IsCurrent a = record {
  orderly = record { behind = omega arith; few = omega arith; fits = tt };
  idle = λ _. refl;
  right = λ c s e. absurd (cc);
  shown = λ s away ran well. absurd (ran refl);
}

Moves-IsCurrent : (w : World) (a : App) (p : Plant) → Moves w (opening a) p → IsCurrent p
Moves-IsCurrent w a p still = opening-IsCurrent a
Moves-IsCurrent w a p (further {q = q} before step) =
    Move-IsCurrent w q p step (Moves-IsCurrent w a q before)

-- However the writes of requests and the worker interleave: once every write was followed by its
-- request, every request is handled, the work is over, it ran and its last run did not fail, the two
-- gauges show how many rows of the table hold a token and how many do not.
pub settled-Shows :
    (w : World) (a : App) (p : Plant)
    → Moves w (opening a) p
    → IsSettled p
    → p.worker.place ≢ working
    → p.worker.runs ≢ []
    → p.failed ≡ false
    → (last_state "present" p.app.net.metrics ≡ some (length (having true p.app.tokens)))
      × (last_state "revoked" p.app.net.metrics ≡ some (length (having false p.app.tokens)))
settled-Shows w a p moves settled away ran well =
    subst (λ c. Shows c p.app) (count_states-having p.app.tokens)
      ((Moves-IsCurrent w a p moves).shown settled away ran well)
