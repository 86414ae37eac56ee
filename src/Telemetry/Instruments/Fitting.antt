-- ===== src/Telemetry/Instruments/Fitting.antt =====
-- src/oauthclientbridge/telemetry: what the calls write fits the instruments that are declared.
use oauthclientbridge.Base.{
  ℕ, ◌≡◌, refl, Bool, true, not, ◌&&◌, String, ◌==◌, Option, none, some, List, [], ◌∷◌, map, any,
  All, All-append,
}
use oauthclientbridge.Base.Dict.{Dict}
use oauthclientbridge.Settings.{TelemetrySettings}
use oauthclientbridge.Telemetry.{
  Metric, record_database_error, record_server_error, record_client_attempt, record_retry_decision,
  record_client_error, record_client_retries, record_client_response,
  record_refresh_token_invalidation, record_workaround, observe_token_grant_age, set_token_state,
}
use oauthclientbridge.Telemetry.Prometheus.{Observation, latency, response_size, request_size}
use oauthclientbridge.Telemetry.Resources.{Process}
use oauthclientbridge.Telemetry.Instruments.Registry.{
  Kind, counter, histogram, gauge, Instrument, registry,
}
use oauthclientbridge.Telemetry.Instruments.{
  Action, inc, observe, set, Sample, Meeting, write, write_request, record_database_latency,
  set_build_info, response_sizes, status_label,
}

-- What `prometheus_client` asks of a call: a counter is increased, a histogram observed and a gauge
-- set, and the labels are those that were declared.
abbrev pub Takes : Kind → Action → Type 0
Takes counter inc = Unit
Takes (histogram _) (observe _) = Unit
Takes (gauge _) (set _) = Unit
Takes _ _ = ⊥

abbrev pub Fits : Sample → Type 0
Fits s =
    (map (λ (e : String × String). e.0) s.labels ≡ s.instrument.labels)
    × Takes s.instrument.kind s.action
    × (any (λ (i : Instrument). i.name == s.instrument.name) registry ≡ true)

-- The names of the instruments are different.
abbrev all_distinct : List Instrument → Bool
all_distinct [] = true
all_distinct (i ∷ is) = not (any (λ (j : Instrument). j.name == i.name) is) && all_distinct is

response_sizes-Fits :
    (m : Meeting) (labels : Dict String) (size : Option ℕ)
    → map (λ (e : String × String). e.0) labels ≡ "endpoint" ∷ "status" ∷ []
    → All Fits (response_sizes m labels size)
response_sizes-Fits m labels none h = tt
response_sizes-Fits m labels (some size) h = ((h, tt, refl), tt)

write-Fits : (m : Meeting) (x : Metric) → All Fits (write m x)
unfolding write
write-Fits m (record_database_error name error) = ((refl, tt, refl), tt)
write-Fits m (record_server_error code error) = ((refl, tt, refl), tt)
write-Fits m (record_client_attempt name kind) = ((refl, tt, refl), tt)
write-Fits m (record_retry_decision name decision) = ((refl, tt, refl), tt)
write-Fits m (record_client_error name code error) = ((refl, tt, refl), tt)
write-Fits m (record_client_retries name code count) = ((refl, tt, refl), tt)
write-Fits m (record_client_response name code size) =
    All-append Fits
      (response_sizes m (("endpoint", name) ∷ ("status", status_label m code) ∷ []) size) _
      (response_sizes-Fits m (("endpoint", name) ∷ ("status", status_label m code) ∷ []) size refl)
      ((refl, tt, refl), tt)
write-Fits m (record_refresh_token_invalidation reason) = ((refl, tt, refl), tt)
write-Fits m (record_workaround workaround) = ((refl, tt, refl), tt)
write-Fits m (observe_token_grant_age none) = tt
write-Fits m (observe_token_grant_age (some created_at)) = ((refl, tt, refl), tt)
write-Fits m (set_token_state state count) = ((refl, tt, refl), tt)

write_request-Fits : (o : Observation) → All Fits (write_request o)
unfolding write_request
write_request-Fits (latency rule code took) = ((refl, tt, refl), tt)
write_request-Fits (response_size rule code size) = ((refl, tt, refl), tt)
write_request-Fits (request_size rule code size) = ((refl, tt, refl), tt)

-- The instruments have different names. Whatever a call writes, of a request to the provider, an
-- error, a request that is served, an operation of the database, the table or the build: it goes to one
-- of them, with exactly the labels that it declares, and does to it what its kind takes.
pub registry-Fits :
    (all_distinct registry ≡ true)
    × ((m : Meeting) (x : Metric) → All Fits (write m x))
    × ((o : Observation) → All Fits (write_request o))
    × ((name : String) (took : ℕ) → All Fits (record_database_latency name took))
    × ((p : Process) (s : TelemetrySettings) → All Fits (set_build_info p s))
unfolding record_database_latency set_build_info
registry-Fits = (
  refl,
  write-Fits,
  write_request-Fits,
  λ name took. ((refl, tt, refl), tt),
  λ p s. ((refl, tt, refl), tt),
)
