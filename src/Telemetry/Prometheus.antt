-- ===== src/Telemetry/Prometheus.antt =====
-- src/oauthclientbridge/telemetry/_prometheus.py: the labels, the metrics of one request, and the
-- registry that is exported. Floats of seconds are numbers of millionths.
pub mod Registries
use oauthclientbridge.Base.{
  ℕ, ◌+◌, ◌-◌, eqb, String, Option, none, some, List, [], ◌∷◌, if◌then◌else◌,
}
use Prim.Native.String
use oauthclientbridge.Base.Dict.{Dict, get, put}
use oauthclientbridge.Base.Result.{Result, ok, err, Exec, pure, lift, ◌>>=◌, ◌>>◌}
use oauthclientbridge.Errors.{Exception, value_error}
use oauthclientbridge.Settings.{PrometheusSettings}

-- What the module keeps: the labels by status, the registries by directory, how many registries were
-- made, and the observations, the newest first.
pub data Observation : Type 0 where
  latency : String → String → ℕ → Observation
  response_size : String → String → ℕ → Observation
  request_size : String → String → ℕ → Observation

pub record Store : Type 0 where
  pub labels : List (ℕ × String)
  pub registries : Dict ℕ
  pub made : ℕ
  pub observations : List Observation

-- `d.get(n)` of a dictionary with number keys.
unfoldable pub label_of : ℕ → List (ℕ × String) → Option String
label_of code [] = none
label_of code ((n, s) ∷ rest) = if eqb n code then some s else label_of code rest

-- `HTTPStatus(code)` and then `status`; `phrase` is the name of a status in lower case, with its
-- spaces and dashes as underscores, where there is such a status.
unfoldable pub status : (ℕ → Option String) → ℕ → Exec Store Exception String
unfolding label_of
status phrase code s = elim (phrase code) [
  | none ↦ (err value_error, s)
  | some name ↦ elim (label_of code s.labels) [
    | some known ↦ (ok known, s)
    | none ↦ (
      ok (String.◌++◌ "http_" name),
      record s { labels = (code, String.◌++◌ "http_" name) ∷ s.labels },
    )
  ]
]

-- The endpoint of the rule that matched, where one did.
unfoldable pub endpoint : Option String → String
endpoint none = "notfound"
endpoint (some rule) = rule

abbrev observe : Observation → Exec Store Exception (Unit {0})
observe o s = (ok tt, record s { observations = o ∷ s.observations })

-- `int(text)` of a header, by a function of the interpreter.
abbrev number : (String → Option ℕ) → String → Result Exception ℕ
number int text = elim (int text) [ none ↦ err value_error | some n ↦ ok n ]

-- `finalize_metrics` of a response with this status and this Content-Length, for a request with this
-- length that took this time.
unfoldable pub finalize_metrics :
    (ℕ → Option String)
    → (String → Option ℕ)
    → Option String
    → ℕ
    → ℕ
    → Option String
    → Option ℕ
    → Exec Store Exception (Unit {0})
unfolding status
finalize_metrics phrase int rule took code response_length request_length = do
  name ← status phrase code
  observe (latency (endpoint rule) name took)
  (elim response_length [
    | none ↦ pure tt
    | some text ↦ do
      size ← lift (number int text)
      observe (response_size (endpoint rule) name size)
  ])
  (elim request_length [
    | none ↦ pure tt
    | some size ↦ observe (request_size (endpoint rule) name size)
  ])

-- The registry that `export_metrics` exports: that of the module, or that of a directory.
pub data Registry : Type 0 where
  of_process : Registry
  of_directory : ℕ → Registry

-- The registry by `multiproc_dir`.
export_from : Option String → Exec Store Exception Registry
export_from none s = (ok of_process, s)
export_from (some dir) s = elim (get dir s.registries) [
  | some n ↦ (ok (of_directory n), s)
  | none ↦ (
    ok (of_directory s.made),
    record s { registries = put dir s.made s.registries; made = s.made + 1 },
  )
]

unfoldable pub export_metrics : PrometheusSettings → Exec Store Exception Registry
unfolding export_from
export_metrics settings = export_from settings.multiproc_dir
