-- ===== src/Coalescing/Runs.antt =====
-- src/oauthclientbridge/utils/coalescing.py: how often the work runs.
use oauthclientbridge.Base.{ℕ, ◌+◌, ◌≡◌, ◌≢◌, ◌≤◌, ◌<◌, max, subst, false, ◌∷◌, length, arith, refl}
use oauthclientbridge.Coalescing.{
  Place, unborn, delaying, waiting, debouncing, due, working, gone, Worker, new, begun, Step, start,
  start_again, request, stop, startup_over, wake, debounce_over, work, work_done, work_raised, end,
  Steps, none, more,
}

-- A generation that the thread is about to handle is newer than the handled one, and was requested.
abbrev Fits : ℕ → ℕ → Place → Type 0
Fits handled generation (debouncing g) = (handled < g) × (g ≤ generation)
Fits handled generation (due g) = (handled < g) × (g ≤ generation)
Fits handled generation _ = Unit

pub record IsOrderly (w : Worker) : Type 0 where
  pub behind : w.handled_generation ≤ w.generation
  pub few : length w.runs ≤ w.handled_generation
  pub fits : Fits w.handled_generation w.generation w.place

Fits-request :
    (handled generation : ℕ) (p : Place)
    → Fits handled generation p
    → Fits handled (generation + 1) p
Fits-request handled generation (debouncing g) h = (h.0, omega (arith, h.1))
Fits-request handled generation (due g) h = (h.0, omega (arith, h.1))
Fits-request handled generation _ h = tt

Fits-place :
    (w : Worker) (p : Place) → w.place ≡ p → IsOrderly w → Fits w.handled_generation w.generation p
Fits-place w p e h = subst (Fits w.handled_generation w.generation) e h.fits

pub Step-IsOrderly : (w v : Worker) → Step w v → IsOrderly w → IsOrderly v
Step-IsOrderly w v (start f p) h = record { behind = h.behind; few = h.few; fits = tt }
Step-IsOrderly w v (start_again s) h = h
Step-IsOrderly w v request h = record {
  behind = omega (arith, h.behind);
  few = h.few;
  fits = Fits-request w.handled_generation w.generation w.place h.fits;
}
Step-IsOrderly w v stop h = record { behind = h.behind; few = h.few; fits = h.fits }
Step-IsOrderly w v (startup_over p s) h = record { behind = h.behind; few = h.few; fits = tt }
Step-IsOrderly w v (wake p s n) h = record {
  behind = h.behind;
  few = h.few;
  fits = (omega (arith, h.behind), omega arith);
}
Step-IsOrderly w v (debounce_over {generation = g} p s) h = record {
  behind = h.behind;
  few = h.few;
  fits = Fits-place w (debouncing g) p h;
}
Step-IsOrderly w v (work {generation = g} p s) h = record {
  behind = omega (arith, (Fits-place w (due g) p h).1);
  few = omega (arith, h.few, (Fits-place w (due g) p h).0);
  fits = tt;
}
Step-IsOrderly w v (work_done p) h = record { behind = h.behind; few = h.few; fits = tt }
Step-IsOrderly w v (work_raised p) h = record { behind = h.behind; few = h.few; fits = tt }
Step-IsOrderly w v (end s p q) h = record { behind = h.behind; few = h.few; fits = tt }

pub Steps-IsOrderly : (w v : Worker) → Steps w v → IsOrderly w → IsOrderly v
Steps-IsOrderly w v none h = h
Steps-IsOrderly w v (more {v = u} steps step) h =
    Step-IsOrderly u v step (Steps-IsOrderly w u steps h)

-- However the threads interleave, the work never runs more often than it was requested.
pub runs-le : (w : Worker) → Steps new w → length w.runs ≤ w.generation
runs-le w steps = omega (arith, h.few, h.behind)
  where
    h : IsOrderly w
    h = Steps-IsOrderly new w steps (record { behind = omega arith; few = omega arith; fits = tt })

-- A run of the work that handles everything requested so far can follow.
pub record IsServed (w : Worker) : Type 0 where
  pub final : Worker
  pub steps : Steps w final
  pub ran : final.runs ≡ w.generation ∷ w.runs
  pub handled : final.handled_generation ≡ w.generation
  pub quiet : final.generation ≡ w.generation

max-le : (g n : ℕ) → g ≤ n → max g n ≡ n
max-le g n h = omega arith

IsServed-due :
    (w v : Worker) (g : ℕ)
    → Steps w v
    → v.place ≡ due g
    → v.stopped ≡ false
    → g ≤ w.generation
    → v.generation ≡ w.generation
    → v.runs ≡ w.runs
    → IsServed w
IsServed-due w v g steps p s le same runs = record {
  final = begun g v;
  steps = more steps (work p s);
  ran = rw (same, runs, max-le g w.generation le) refl;
  handled = rw (same, max-le g w.generation le) refl;
  quiet = same;
}

IsServed-debouncing :
    (w v : Worker) (g : ℕ)
    → Steps w v
    → v.place ≡ debouncing g
    → v.stopped ≡ false
    → g ≤ w.generation
    → v.generation ≡ w.generation
    → v.runs ≡ w.runs
    → IsServed w
IsServed-debouncing w v g steps p s le same runs =
    IsServed-due w (record v { place = due g }) g (more steps (debounce_over p s)) refl s le same
      runs

IsServed-waiting :
    (w v : Worker)
    → Steps w v
    → v.place ≡ waiting
    → v.stopped ≡ false
    → w.generation ≢ w.handled_generation
    → v.generation ≡ w.generation
    → v.handled_generation ≡ w.handled_generation
    → v.runs ≡ w.runs
    → IsServed w
IsServed-waiting w v steps p s new same old runs =
    IsServed-debouncing w (record v { place = debouncing v.generation }) v.generation
      (more steps (wake p s (λ e. new (ground arith)))) refl s (omega arith) same runs

IsServed-at :
    (p : Place) (w : Worker)
    → w.place ≡ p
    → Steps new w
    → w.stopped ≡ false
    → w.generation ≢ w.handled_generation
    → p ≢ unborn
    → p ≢ gone
    → IsServed w
IsServed-at unborn w e steps s n u g = absurd (u refl)
IsServed-at gone w e steps s n u g = absurd (g refl)
IsServed-at delaying w e steps s n u g =
    IsServed-waiting w (record w { place = waiting }) (more none (startup_over e s)) refl s n refl
      refl refl
IsServed-at waiting w e steps s n u g = IsServed-waiting w w none e s n refl refl refl
IsServed-at working w e steps s n u g =
    IsServed-waiting w (record w { place = waiting }) (more none (work_done e)) refl s n refl refl
      refl
IsServed-at (debouncing k) w e steps s n u g =
    IsServed-debouncing w w k none e s (orderly).1 refl refl
  where
    orderly : Fits w.handled_generation w.generation (debouncing k)
    orderly = Fits-place w (debouncing k) e (
        Steps-IsOrderly new w steps (record { behind = omega arith; few = omega arith; fits = tt }))
IsServed-at (due k) w e steps s n u g = IsServed-due w w k none e s (orderly).1 refl refl
  where
    orderly : Fits w.handled_generation w.generation (due k)
    orderly = Fits-place w (due k) e (
        Steps-IsOrderly new w steps (record { behind = omega arith; few = omega arith; fits = tt }))

-- No request is lost: in any reachable state with a request that is not handled, a worker whose
-- thread was started and has not ended, and that is not stopped, can go on, with no new request, to
-- one run of the work that handles all requests so far.
pub request-IsServed :
    (w : Worker)
    → Steps new w
    → w.stopped ≡ false
    → w.place ≢ unborn
    → w.place ≢ gone
    → w.generation ≢ w.handled_generation
    → IsServed w
request-IsServed w steps s u g n = IsServed-at w.place w refl steps s n u g
