-- ===== src/Lifecycle/Counts.antt =====
-- src/oauthclientbridge/telemetry/_refresh.py, src/oauthclientbridge/db.py and
-- src/oauthclientbridge/__init__.py: what one run of the background refresh writes.
use oauthclientbridge.Base.{
  ℕ, true, false, if◌then◌else◌, ◌≡◌, arith, String, none, some, ◌∷◌, length,
}
use oauthclientbridge.Base.Result.{ok}
use oauthclientbridge.App.{App, World}
use oauthclientbridge.Db.{token_state_counts}
use oauthclientbridge.Db.Table.{having, count_states-having}
use oauthclientbridge.Telemetry.{set_token_state, record_database_error}
use oauthclientbridge.Lifecycle.{create_app, refresh_metrics_in_app}

module _ (w : World) (a : App) where
  abbrev held : ℕ
  held = length (having true a.tokens)

  abbrev gone : ℕ
  gone = length (having false a.tokens)

  -- One run of the registered refresh returns, whatever the database does, changes no row and sends
  -- nothing. If the connection opens and the database works, it sets the gauge of the tokens that are
  -- present to the number of rows that hold a token, and that of the revoked ones to the number of the
  -- others. If the connection cannot be opened, nothing is noted. If the statement fails, its error is
  -- noted, and both gauges are set to 0 where the table is missing, and left at any other error.
  pub refresh_metrics_in_app_lem :
      let x = refresh_metrics_in_app (create_app w).refreshers a in
      (x.0 ≡ ok tt)
      × (x.1.tokens ≡ a.tokens)
      × (x.1.net.requests ≡ a.net.requests)
      × (w.connect_fault a.statements ≡ none
          → w.fault a.statements ≡ none
          → x.1.net.metrics
            ≡ set_token_state "revoked" gone ∷ set_token_state "present" held ∷ a.net.metrics)
      × ((fault : String)
          → w.connect_fault a.statements ≡ some fault
          → x.1.net.metrics ≡ a.net.metrics)
      × ((fault : String)
          → w.connect_fault a.statements ≡ none
          → w.fault a.statements ≡ some fault
          → x.1.net.metrics ≡ (
              if w.no_such_table a.statements
              then set_token_state "revoked" 0
                ∷ set_token_state "present" 0
                ∷ record_database_error "count_token_states" fault
                ∷ a.net.metrics
              else record_database_error "count_token_states" fault ∷ a.net.metrics))
  unfolding refresh_metrics_in_app create_app token_state_counts
  refresh_metrics_in_app_lem = (
    ground arith,
    ground arith,
    ground arith,
    λ opens works. ground (arith, count_states-having a.tokens),
    ground arith,
    ground arith,
  )
