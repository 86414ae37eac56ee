-- ===== src/Capture.antt =====
-- src/pytest_otel_capture/_helpers.py and src/pytest_otel_capture/_mocker.py: the search through what
-- a test captured of spans, logs and metrics. The captured values are the library's; what the search
-- reads of them is a record.
pub mod Unique
pub mod Sentry
use oauthclientbridge.Base.{
  ℕ, String, Bool, true, false, ◌&&◌, ◌==◌, all, any, Option, none, some, List, [], ◌∷◌, ◌++◌, map,
  if◌then◌else◌,
}
use oauthclientbridge.Base.Dict.{get}
use oauthclientbridge.Base.Json.{Json, same, Object, or_null}
use oauthclientbridge.Base.Result.{Result, ok, err, ◌>>=◌}

pub data CaptureError : Type 0 where
  value_error lookup_error assertion_error : CaptureError

-- A span or a log; a log has no name.
pub record Collected : Type 0 where
  pub name : String
  pub attributes : Option Object
  pub scope : Option String
  pub trace_id : ℕ

-- The types of the points of a metric.
pub data PointType : Type 0 where
  number_point histogram_point exponential_point : PointType

pub record Point : Type 0 where
  pub type : PointType
  pub attributes : Option Object

pub record CollectedMetric : Type 0 where
  pub name : String
  pub scope : Option String
  pub points : List Point

unfoldable pub matches_attributes : Option Object → Option Object → Bool
matches_attributes item none = true
matches_attributes none (some expected) = false
matches_attributes (some item) (some expected) =
    all (λ (e : String × Json). same (or_null (get e.0 item)) e.1) expected

unfoldable pub matches_scope : Option String → Option String → Bool
matches_scope item none = true
matches_scope none (some expected) = false
matches_scope (some item) (some expected) = item == expected

-- The elements that pass, in their order.
unfoldable pub select : {A : Type 0} → (A → Bool) → List A → List A
select p [] = []
select p (x ∷ xs) = let rest = select p xs in if p x then x ∷ rest else rest

abbrev pub span_matches : String → Option Object → Option String → Collected → Bool
span_matches name attributes scope span =
    (span.name == name)
    && matches_attributes span.attributes attributes
    && matches_scope span.scope scope

unfoldable pub find_spans : List Collected → String → Option Object → Option String → List Collected
unfolding select
find_spans spans name attributes scope = select (span_matches name attributes scope) spans

-- The one result, where there is at most one.
unfoldable pub the_one : {A : Type 0} → List A → Result CaptureError (Option A)
the_one [] = ok none
the_one (x ∷ []) = ok (some x)
the_one (_ ∷ _ ∷ _) = err value_error

unfoldable pub get_span :
    List Collected → String → Option Object → Option String → Result CaptureError (Option Collected)
unfolding the_one find_spans
get_span spans name attributes scope = the_one (find_spans spans name attributes scope)

abbrev pub log_matches : Option Object → Option String → Collected → Bool
log_matches attributes scope log =
    matches_attributes log.attributes attributes && matches_scope log.scope scope

unfoldable pub find_logs : List Collected → Option Object → Option String → List Collected
unfolding select
find_logs logs attributes scope = select (log_matches attributes scope) logs

unfoldable pub get_log :
    List Collected → Option Object → Option String → Result CaptureError (Option Collected)
unfolding the_one find_logs
get_log logs attributes scope = the_one (find_logs logs attributes scope)

-- The attributes are those of the points, of which one has to match.
abbrev point_matches : Option Object → List Point → Bool
point_matches none points = true
point_matches (some expected) points =
    any (λ (q : Point). matches_attributes q.attributes (some expected)) points

abbrev pub metric_matches : String → Option Object → Option String → CollectedMetric → Bool
metric_matches name attributes scope m =
    (m.name == name) && matches_scope m.scope scope && point_matches attributes m.points

unfoldable pub find_metrics :
    List CollectedMetric → String → Option Object → Option String → List CollectedMetric
unfolding select
find_metrics metrics name attributes scope = select (metric_matches name attributes scope) metrics

unfoldable pub get_metric :
    List CollectedMetric
    → String
    → Option Object
    → Option String
    → Result CaptureError (Option CollectedMetric)
unfolding the_one find_metrics
get_metric metrics name attributes scope = the_one (find_metrics metrics name attributes scope)

abbrev same_type : PointType → PointType → Bool
same_type number_point number_point = true
same_type histogram_point histogram_point = true
same_type exponential_point exponential_point = true
same_type _ _ = false

-- `points[-1]`, where there is a point.
abbrev pub last : List Point → Option Point
last [] = none
last (q ∷ []) = some q
last (_ ∷ q ∷ rest) = last (q ∷ rest)

abbrev latest : PointType → Option CollectedMetric → Result CaptureError Point
latest type none = err assertion_error
latest type (some m) = elim (last m.points) [
  | none ↦ err assertion_error
  | some q ↦ if same_type q.type type then ok q else err assertion_error
]

unfoldable pub latest_metric_data :
    List CollectedMetric
    → String
    → PointType
    → Option Object
    → Option String
    → Result CaptureError Point
unfolding get_metric
latest_metric_data metrics name type attributes scope =
    elim (get_metric metrics name attributes scope) [ err e ↦ err e | ok found ↦ latest type found ]

-- `OTelMocker.get_finished_spans` and `get_finished_logs`: what the exporter has, which is emptied.
unfoldable pub get_finished : List Collected → List Collected × List Collected
get_finished exported = (exported, [])

-- `OTelMocker.get_metrics_data`: the metrics of each scope of each resource.
unfoldable pub get_metrics_data : List (List (List CollectedMetric)) → List CollectedMetric
get_metrics_data [] = []
get_metrics_data (scopes ∷ resources) = flatten scopes ++ get_metrics_data resources
  where
    flatten : List (List CollectedMetric) → List CollectedMetric
    flatten [] = []
    flatten (metrics ∷ rest) = metrics ++ flatten rest
