-- ===== src/Lifecycle/Starting.antt =====
-- src/oauthclientbridge/__init__.py, `start_runtime_services` on every branch.
use oauthclientbridge.Base.{
  ◌≡◌, refl, arith, String, Bool, true, false, Option, none, some, List, ◌∷◌,
}
use oauthclientbridge.Base.Result.{ok, err}
use oauthclientbridge.Errors.{runtime_error, database_error}
use oauthclientbridge.App.{App, World, Handler}
use oauthclientbridge.Coalescing.{Worker, new}
use oauthclientbridge.Lifecycle.{Services, start, request, start_runtime_services}

module _ (w : World) (present : Bool) (r : Handler (Unit {0})) (rs : List (Handler (Unit {0})))
    (a : App) where
  -- The services with these callbacks.
  abbrev pub services : Option Worker → Bool → Services
  services worker started = record { refreshers = r ∷ rs; worker = worker; started = started }

  -- Where callbacks are registered, starting the services gives a process one worker with two
  -- requests pending; a started process is left as it is. A database that fails or that has no
  -- table makes the start raise, and the services stay as they were.
  pub start_runtime_services_lem :
      ((worker : Option Worker)
        → start_runtime_services w present (services worker true, a)
          ≡ (ok tt, (services worker true, a)))
      × (w.fault a.statements ≡ none
          → present ≡ true
          → ((start_runtime_services w present (services none false, a)).0 ≡ ok tt)
            × ((start_runtime_services w present (services none false, a)).1.0
                ≡ services (some (request (request (start new)))) true))
      × (w.fault a.statements ≡ none
          → present ≡ false
          → ((start_runtime_services w present (services none false, a)).0 ≡ err runtime_error)
            × ((start_runtime_services w present (services none false, a)).1.0
                ≡ services none false))
      × ((fault : String)
          → w.fault a.statements ≡ some fault
          → ((start_runtime_services w present (services none false, a)).0
              ≡ err (database_error fault))
            × ((start_runtime_services w present (services none false, a)).1.0
                ≡ services none false))
  unfolding start_runtime_services
  start_runtime_services_lem = (
    λ worker. refl,
    λ fine there. ground arith,
    λ fine missing. ground arith,
    λ fault h. ground arith,
  )
