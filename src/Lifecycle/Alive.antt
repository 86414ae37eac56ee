-- ===== src/Lifecycle/Alive.antt =====
-- src/oauthclientbridge/telemetry/_refresh.py over src/oauthclientbridge/utils/coalescing.py: while
-- a worker is registered, its thread lives and every request for a refresh is served.
use oauthclientbridge.Base.{
  ℕ, ◌≡◌, ◌≢◌, refl, arith, Bool, true, false, Option, none, some, List, [], ◌∷◌, subst,
}
use oauthclientbridge.Base.Result.{Result, ok, err}
use oauthclientbridge.Errors.{Exception}
use oauthclientbridge.Db.{is_initialized}
use oauthclientbridge.App.{App, World, Handler}
use oauthclientbridge.Coalescing
use oauthclientbridge.Coalescing.{
  Worker, new, begun, Place, unborn, delaying, waiting, debouncing, due, working, gone, Step, Steps,
  more,
}
use oauthclientbridge.Coalescing.Runs.{IsServed, IsOrderly, Steps-IsOrderly, request-IsServed}
use oauthclientbridge.Lifecycle.{
  Services, fresh, start, request, add_refresher, request_refresh, start_background_refresh,
  start_runtime_services, stop_runtime_services, start_first, launch, checked,
}

-- What a worker's thread does by itself. The work catches what it raises, so it always ends.
pub data Turn : Worker → Worker → Type 0 where
  startup_over :
      {w : Worker} → w.place ≡ delaying → w.stopped ≡ false → Turn w (record w { place = waiting })
  wake :
      {w : Worker}
      → w.place ≡ waiting
      → w.stopped ≡ false
      → w.generation ≢ w.handled_generation
      → Turn w (record w { place = debouncing w.generation })
  debounce_over :
      {w : Worker} {generation : ℕ}
      → w.place ≡ debouncing generation
      → w.stopped ≡ false
      → Turn w (record w { place = due generation })
  work :
      {w : Worker} {generation : ℕ}
      → w.place ≡ due generation
      → w.stopped ≡ false
      → Turn w (begun generation w)
  work_done : {w : Worker} → w.place ≡ working → Turn w (record w { place = waiting })
  end :
      {w : Worker}
      → w.stopped ≡ true
      → w.place ≢ unborn
      → w.place ≢ working
      → Turn w (record w { place = gone })

Turn-Step : {w v : Worker} → Turn w v → Step w v
Turn-Step (startup_over p s) = Coalescing.startup_over p s
Turn-Step (wake p s n) = Coalescing.wake p s n
Turn-Step (debounce_over p s) = Coalescing.debounce_over p s
Turn-Step (work p s) = Coalescing.work p s
Turn-Step (work_done p) = Coalescing.work_done p
Turn-Step (end s u k) = Coalescing.end s u k

-- What happens to the services of a process.
pub data Act : Services → Services → Type 0 where
  registers : {s : Services} (r : Handler (Unit {0})) → Act s (add_refresher r s)
  starts :
      {s : Services} (w : World) (present : Bool) (a : App)
      → Act s (start_runtime_services w present (s, a)).1.0
  asks : {s : Services} → Act s (request_refresh s)
  stops : {s : Services} → Act s (stop_runtime_services s).1
  turns :
      {s : Services} {w v : Worker}
      → s.worker ≡ some w
      → Turn w v
      → Act s (record s { worker = some v })

pub data Acts : Services → Type 0 where
  booted : Acts fresh
  next : {s t : Services} → Acts s → Act s t → Acts t

-- A registered worker: reached from a new one, running and not stopped.
pub record IsAlive (w : Worker) : Type 0 where
  pub steps : Steps new w
  pub stopped : w.stopped ≡ false
  pub born : w.place ≢ unborn
  pub stays : w.place ≢ gone

abbrev Living : Option Worker → Type 0
Living none = Unit
Living (some w) = IsAlive w

started-IsAlive : IsAlive (start new)
started-IsAlive = record {
  steps = more Steps.none (Coalescing.start refl refl);
  stopped = refl;
  born = λ e. ground (arith, e);
  stays = λ e. ground (arith, e);
}

request-IsAlive : (w : Worker) → IsAlive w → IsAlive (request w)
request-IsAlive w h = record {
  steps = more h.steps Coalescing.request;
  stopped = h.stopped;
  born = h.born;
  stays = h.stays;
}

Turn-stopped : (w v : Worker) → Turn w v → v.stopped ≡ w.stopped
Turn-stopped w v (startup_over p s) = refl
Turn-stopped w v (wake p s n) = refl
Turn-stopped w v (debounce_over p s) = refl
Turn-stopped w v (work p s) = refl
Turn-stopped w v (work_done p) = refl
Turn-stopped w v (end s u k) = refl

Turn-stays : (w v : Worker) → Turn w v → w.stopped ≡ false → (v.place ≢ unborn) × (v.place ≢ gone)
Turn-stays w v (startup_over p s) h = (λ e. ground (arith, e), λ e. ground (arith, e))
Turn-stays w v (wake p s n) h = (λ e. ground (arith, e), λ e. ground (arith, e))
Turn-stays w v (debounce_over p s) h = (λ e. ground (arith, e), λ e. ground (arith, e))
Turn-stays w v (work p s) h = (λ e. ground (arith, e), λ e. ground (arith, e))
Turn-stays w v (work_done p) h = (λ e. ground (arith, e), λ e. ground (arith, e))
Turn-stays w v (end s u k) h = absurd (ground (arith, s, h))

Turn-IsAlive : (w v : Worker) → Turn w v → IsAlive w → IsAlive v
Turn-IsAlive w v t h = record {
  steps = more h.steps (Turn-Step t);
  stopped = rw (Turn-stopped w v t) h.stopped;
  born = (Turn-stays w v t h.stopped).0;
  stays = (Turn-stays w v t h.stopped).1;
}

request_refresh-Living : (s : Services) → Living s.worker → Living (request_refresh s).worker
unfolding request_refresh
request_refresh-Living s h = go s.worker h
  where
    go : (o : Option Worker) → Living o → Living (request_refresh (record s { worker = o })).worker
    go none h = tt
    go (some w) h = request-IsAlive w h

start_background_refresh-Living :
    (s : Services) → Living s.worker → Living (start_background_refresh s).worker
unfolding start_background_refresh start_first
start_background_refresh-Living s h = go s.worker s.refreshers h
  where
    go :
        (o : Option Worker) (rs : List (Handler (Unit {0})))
        → Living o
        → Living (start_background_refresh (record s { worker = o; refreshers = rs })).worker
    go none [] h = tt
    go none (r ∷ rs) h = request-IsAlive (start new) started-IsAlive
    go (some w) rs h = h

stop_runtime_services-Living :
    (s : Services) → Living s.worker → Living (stop_runtime_services s).1.worker
unfolding stop_runtime_services
stop_runtime_services-Living s h = go s.worker h
  where
    go :
        (o : Option Worker)
        → Living o
        → Living (stop_runtime_services (record s { worker = o })).1.worker
    go none h = tt
    go (some w) h = tt

launch-Living :
    (w : World) (present : Bool) (s : Services) (a : App)
    → Living s.worker
    → Living (launch w present (s, a)).1.0.worker
unfolding launch
launch-Living w false s a h = h
launch-Living w true s a h =
    request_refresh-Living (start_background_refresh s) (start_background_refresh-Living s h)

checked-Living :
    (w : World) (x : Result Exception Bool × App) (s : Services)
    → Living s.worker
    → Living (checked w x s).1.0.worker
unfolding checked
checked-Living w (ok present, a) s h = launch-Living w present s a h
checked-Living w (err e, a) s h = h

start_runtime_services-Living :
    (w : World) (present : Bool) (s : Services) (a : App)
    → Living s.worker
    → Living (start_runtime_services w present (s, a)).1.0.worker
unfolding start_runtime_services
start_runtime_services-Living w present s a h = go s.started
  where
    go :
        (b : Bool)
        → Living (start_runtime_services w present (record s { started = b }, a)).1.0.worker
    go true = h
    go false = checked-Living w (is_initialized w present a) (record s { started = false }) h

Act-Living : (s t : Services) → Act s t → Living s.worker → Living t.worker
Act-Living s t (registers r) h = h
Act-Living s t (starts w present a) h = start_runtime_services-Living w present s a h
Act-Living s t asks h = request_refresh-Living s h
Act-Living s t stops h = stop_runtime_services-Living s h
Act-Living s t (turns {w = w} {v = v} e turn) h = Turn-IsAlive w v turn (subst Living e h)

Acts-Living : (s : Services) → Acts s → Living s.worker
Acts-Living s booted = tt
Acts-Living s (next {s = r} acts act) = Act-Living r s act (Acts-Living r acts)

-- However registering, starting, stopping, requests and the turns of the thread are ordered: after a
-- request for a refresh that finds a worker, this worker can go on, with no new request, to one run of
-- the work that handles all requests so far, as the thread of a registered worker lives.
pub request_refresh-IsServed :
    (s : Services) (w : Worker) → Acts s → s.worker ≡ some w → IsServed (request w)
request_refresh-IsServed s w acts e =
    request-IsServed (request w) alive.steps alive.stopped alive.born alive.stays
      (λ same. absurd (omega (arith, same, orderly.behind)))
  where
    before : IsAlive w
    before = subst Living e (Acts-Living s acts)

    alive : IsAlive (request w)
    alive = request-IsAlive w before

    orderly : IsOrderly w
    orderly =
        Steps-IsOrderly new w before.steps
          (record { behind = omega arith; few = omega arith; fits = tt })
