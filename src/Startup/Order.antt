-- ===== src/Startup/Order.antt =====
-- src/oauthclientbridge/wsgi.py: which processes serve requests.
use oauthclientbridge.Base.{◌≡◌, ◌∙◌, refl, arith, String, true, false, none, some}
use oauthclientbridge.Base.Dict.{is_some}
use oauthclientbridge.Base.Result.{ok, err}
use oauthclientbridge.Errors.{runtime_error, database_error}
use oauthclientbridge.App.{World}
use oauthclientbridge.Coalescing.{new, Worker}
use oauthclientbridge.Db.Catalog.{Catalog, initialize}
use oauthclientbridge.Lifecycle
use oauthclientbridge.Lifecycle.{
  start, request, stop, start_runtime_services, stop_runtime_services,
}
use oauthclientbridge.Telemetry.Resources.{Process}
use oauthclientbridge.Startup.{StartSettings, Installed, Machine, boot, leave}

is_some-initialize : (catalog : Catalog) → is_some (initialize catalog) ≡ true
unfolding initialize
is_some-initialize none = refl
is_some-initialize (some columns) = refl

module _ (w : World) (p : Process) (s : StartSettings) (installed : Installed) (m : Machine) where
  abbrev booted : Catalog → Machine
  booted catalog = (boot w p s installed catalog m).1

  boot-ready :
      (catalog : Catalog)
      → w.fault m.app.statements ≡ none
      → is_some catalog ≡ true
      → ((boot w p s installed catalog m).0 ≡ ok tt)
        × ((booted catalog).services.worker ≡ some (request (request (start new))))
        × ((booted catalog).at_exit ≡ true)
  unfolding boot Lifecycle.create_app start_runtime_services
  boot-ready catalog fine there = (ground arith, ground arith, ground arith)

  leave-worker :
      (x : Machine) (worker : Worker)
      → x.at_exit ≡ true
      → x.services.worker ≡ some worker
      → ((leave x).0 ≡ some (stop worker)) × ((leave x).1.services.worker ≡ none)
  unfolding leave stop_runtime_services
  leave-worker x worker h e = (ground arith, ground arith)

  leave-nothing : (x : Machine) → x.at_exit ≡ false → leave x ≡ (none, x)
  unfolding leave
  leave-nothing x h = ground arith

  boot-missing :
      w.fault m.app.statements ≡ none
      → ((boot w p s installed none m).0 ≡ err runtime_error)
        × ((booted none).services.worker ≡ none)
        × ((booted none).at_exit ≡ m.at_exit)
  unfolding boot Lifecycle.create_app start_runtime_services
  boot-missing fine = (ground arith, ground arith, ground arith)

  boot-fault :
      (catalog : Catalog) (fault : String)
      → w.fault m.app.statements ≡ some fault
      → ((boot w p s installed catalog m).0 ≡ err (database_error fault))
        × ((booted catalog).services.worker ≡ none)
        × ((booted catalog).at_exit ≡ m.at_exit)
  unfolding boot Lifecycle.create_app start_runtime_services
  boot-fault catalog fault h = (ground arith, ground arith, ground arith)

  -- A process whose database works and has the table, as `initialize` leaves any database, starts: its
  -- application has one worker, asked twice for a refresh, which the end of the process stops and
  -- removes. Where the table is missing or the database fails, the start raises, no worker is started
  -- and nothing is left to do at the end.
  pub boot_lem :
      (catalog : Catalog)
      → m.at_exit ≡ false
      → (w.fault m.app.statements ≡ none
          → ((boot w p s installed (initialize catalog) m).0 ≡ ok tt)
            × ((booted (initialize catalog)).services.worker ≡ some (request (request (start new))))
            × ((leave (booted (initialize catalog))).0
                ≡ some (stop (request (request (start new)))))
            × ((leave (booted (initialize catalog))).1.services.worker ≡ none))
        × (w.fault m.app.statements ≡ none
            → ((boot w p s installed none m).0 ≡ err runtime_error)
              × ((booted none).services.worker ≡ none)
              × (leave (booted none) ≡ (none, booted none)))
        × ((fault : String)
            → w.fault m.app.statements ≡ some fault
            → ((boot w p s installed catalog m).0 ≡ err (database_error fault))
              × ((booted catalog).services.worker ≡ none)
              × (leave (booted catalog) ≡ (none, booted catalog)))
  boot_lem catalog first = (
    λ fine.
        let (started, worker, registered) =
          boot-ready (initialize catalog) fine (is_some-initialize catalog) in
        let (stopped, gone) =
          leave-worker (booted (initialize catalog)) (request (request (start new))) registered
            worker in
        (started, worker, stopped, gone),
    λ fine.
        let (raised, idle, same) = boot-missing fine in
        (raised, idle, leave-nothing (booted none) (same ∙ first)),
    λ fault h.
        let (raised, idle, same) = boot-fault catalog fault h in
        (raised, idle, leave-nothing (booted catalog) (same ∙ first)),
  )
