-- ===== src/Tests/Running.antt =====
-- src/oauthclientbridge/__init__.py and src/oauthclientbridge/telemetry/_refresh.py: a process that
-- starts its services.
use oauthclientbridge.Base.{
  if◌then◌else◌, ◌+◌, ◌≡◌, refl, arith, String, true, false, none, some, [], ◌∷◌,
}
use oauthclientbridge.Base.Result.{ok}
use oauthclientbridge.App.{App}
use oauthclientbridge.Coalescing
use oauthclientbridge.Coalescing.{new, Place, waiting, working, debouncing, due}
use oauthclientbridge.Coalescing.Runs.{IsServed}
use oauthclientbridge.Db.Table.{having}
use oauthclientbridge.Db.{count_states, token_state_counts}
use oauthclientbridge.Lifecycle.{
  Services, fresh, start, request, add_refresher, create_app, refresh_counts,
  start_runtime_services, refresh_metrics_in_app, set_token_state_counts,
}
use oauthclientbridge.Lifecycle.Fresh.{
  last_state, Plant, opening, resting, Moves, still, further, commit, report, turn, count, show,
}
use oauthclientbridge.Lifecycle.Fresh.Shown.{settled-Shows}
use oauthclientbridge.Lifecycle.Alive.{
  Acts, booted, next, registers, starts, request_refresh-IsServed,
}
use oauthclientbridge.Lifecycle.Counts.{refresh_metrics_in_app_lem}
use oauthclientbridge.Telemetry.{set_token_state, record_database_error}
use oauthclientbridge.Tests.{world, app, row, no_session}

abbrev pair : App
pair = app (row (some "t") ∷ record (row none) { client_id = "b" } ∷ []) no_session

abbrev begun : Services
begun = (start_runtime_services world true (add_refresher (refresh_counts world) fresh, pair)).1.0

begun-Acts : Acts begun
begun-Acts = next (next booted (registers (refresh_counts world))) (starts world true pair)

request_refresh-IsServed_example : IsServed (request (request (request (start new))))
request_refresh-IsServed_example =
    request_refresh-IsServed begun (request (request (start new))) begun-Acts
      (unfold start_runtime_services in refl)

refresh_metrics_in_app_lem_example :
    let x = refresh_metrics_in_app (create_app world).refreshers pair in
    (x.0 ≡ ok tt)
    × (x.1.tokens ≡ pair.tokens)
    × (x.1.net.requests ≡ [])
    × (world.connect_fault 0 ≡ none
        → world.fault 0 ≡ none
        → x.1.net.metrics ≡ set_token_state "revoked" 1 ∷ set_token_state "present" 1 ∷ [])
    × ((fault : String) → world.connect_fault 0 ≡ some fault → x.1.net.metrics ≡ [])
    × ((fault : String)
        → world.connect_fault 0 ≡ none
        → world.fault 0 ≡ some fault
        → x.1.net.metrics ≡ (
            if world.no_such_table 0
            then set_token_state "revoked" 0
              ∷ set_token_state "present" 0
              ∷ record_database_error "count_token_states" fault
              ∷ []
            else record_database_error "count_token_states" fault ∷ []))
unfolding having
refresh_metrics_in_app_lem_example = refresh_metrics_in_app_lem world pair

abbrev written : Plant
written = record (opening (app [] no_session)) {
  app = pair;
  worker = request (opening (app [] no_session)).worker;
}

abbrev placed : Place → Plant
placed place = record written {
  worker = record {
    generation = 0 + 1;
    handled_generation = 0;
    started = true;
    stopped = false;
    place = place;
    runs = [];
  };
}

abbrev at_work : Plant
at_work = record written {
  worker = record {
    generation = 0 + 1;
    handled_generation = 1;
    started = true;
    stopped = false;
    place = working;
    runs = 1 ∷ [];
  };
}

abbrev read_app : App
read_app = (token_state_counts world pair).1

abbrev shown_app : App
shown_app = (set_token_state_counts (count_states pair.tokens) read_app).1

abbrev settled : Plant
settled = record at_work { worker = resting at_work.worker; app = shown_app }

written-Moves : Moves world (opening (app [] no_session)) written
written-Moves = further (further still (commit pair (refl, refl))) (report 0 refl)

at_work-Moves : Moves world (opening (app [] no_session)) at_work
at_work-Moves =
    further
      (further
        (further
          (further
            (further written-Moves (turn _ (Coalescing.start refl refl) (λ e. ground (arith, e))))
            (turn (placed waiting).worker (Coalescing.startup_over refl refl)
              (λ e. ground (arith, e))))
          (turn (placed (debouncing 1)).worker (Coalescing.wake refl refl (λ e. omega (arith, e)))
            (λ e. ground (arith, e))))
        (turn (placed (due 1)).worker (Coalescing.debounce_over refl refl)
          (λ e. ground (arith, e))))
      (turn at_work.worker (Coalescing.work refl refl) (λ e. ground (arith, e)))

settled-Moves : Moves world (opening (app [] no_session)) settled
unfolding token_state_counts set_token_state_counts count_states
settled-Moves =
    further (further at_work-Moves (count (count_states pair.tokens) read_app refl refl refl refl))
      (show (count_states pair.tokens) shown_app refl refl refl)

settled-Shows_example :
    (last_state "present" shown_app.net.metrics ≡ some 1)
    × (last_state "revoked" shown_app.net.metrics ≡ some 1)
unfolding having set_token_state_counts token_state_counts
settled-Shows_example =
    settled-Shows world (app [] no_session) settled settled-Moves
      (record { reported = refl; handled = refl }) (λ e. ground (arith, e)) (λ e. ground (arith, e))
      refl
