-- ===== src/Capture/Sentry.antt =====
-- src/pytest_sentry_capture/plugin.py: the search through what a test captured for Sentry. An envelope
-- holds an event or a transaction.
use oauthclientbridge.Base.{
  ◌≡◌, arith, String, Bool, true, Option, none, some, List, [], ◌∷◌, ◌++◌, if◌then◌else◌,
}
use oauthclientbridge.Base.Dict.{get}
use oauthclientbridge.Base.Json.{Json, str, same, Object, or_null}
use oauthclientbridge.Base.Result.{Result, ok, err}
use oauthclientbridge.Capture.{CaptureError, lookup_error}

pub record Event : Type 0 where
  pub breadcrumbs : List Object
  pub exceptions : List Object

-- A span that is no dictionary is `none`.
pub record Transaction : Type 0 where
  pub name : Json
  pub spans : List (Option Object)

pub record Envelope : Type 0 where
  pub event : Option Event
  pub transaction : Option Transaction

-- `FakeTransport.capture_envelope`
unfoldable pub capture_envelope : Envelope → List Envelope → List Envelope
capture_envelope e envelopes = envelopes ++ e ∷ []

unfoldable pub get_events : List Envelope → List Event
get_events [] = []
get_events (e ∷ es) = elim e.event [ none ↦ get_events es | some x ↦ x ∷ get_events es ]

unfoldable pub get_transactions : List Envelope → List Transaction
get_transactions [] = []
get_transactions (e ∷ es) = elim e.transaction [
  | none ↦ get_transactions es
  | some t ↦ t ∷ get_transactions es
]

dictionaries : List (Option Object) → List Object
dictionaries [] = []
dictionaries (none ∷ rest) = dictionaries rest
dictionaries (some d ∷ rest) = d ∷ dictionaries rest

spans_of : List Transaction → List Object
unfolding dictionaries
spans_of [] = []
spans_of (t ∷ ts) = dictionaries t.spans ++ spans_of ts

unfoldable pub get_spans : List Envelope → List Object
unfolding spans_of get_transactions
get_spans envelopes = spans_of (get_transactions envelopes)

breadcrumbs_of : List Event → List Object
breadcrumbs_of [] = []
breadcrumbs_of (e ∷ es) = e.breadcrumbs ++ breadcrumbs_of es

unfoldable pub get_breadcrumbs : List Envelope → List Object
unfolding breadcrumbs_of get_events
get_breadcrumbs envelopes = breadcrumbs_of (get_events envelopes)

exceptions_of : List Event → List Object
exceptions_of [] = []
exceptions_of (e ∷ es) = e.exceptions ++ exceptions_of es

unfoldable pub get_exceptions : List Envelope → List Object
unfolding exceptions_of get_events
get_exceptions envelopes = exceptions_of (get_events envelopes)

-- The first that passes; LookupError where none does.
unfoldable pub first : {A : Type 0} → (A → Bool) → List A → Result CaptureError A
first p [] = err lookup_error
first p (x ∷ xs) = let rest = first p xs in if p x then ok x else rest

-- `d.get(key) == value`
abbrev pub says : String → String → Object → Bool
says key value d = same (or_null (get key d)) (str value)

unfoldable pub find_transaction_by_name : List Envelope → String → Result CaptureError Transaction
unfolding first get_transactions
find_transaction_by_name envelopes name =
    first (λ (t : Transaction). same t.name (str name)) (get_transactions envelopes)

unfoldable pub find_span_by_op : List Envelope → String → Result CaptureError Object
unfolding first get_spans
find_span_by_op envelopes op = first (says "op" op) (get_spans envelopes)

unfoldable pub find_breadcrumb_by_message : List Envelope → String → Result CaptureError Object
unfolding first get_breadcrumbs
find_breadcrumb_by_message envelopes message =
    first (says "message" message) (get_breadcrumbs envelopes)

unfoldable pub find_breadcrumb_by_level : List Envelope → String → Result CaptureError Object
unfolding first get_breadcrumbs
find_breadcrumb_by_level envelopes level = first (says "level" level) (get_breadcrumbs envelopes)

unfoldable pub find_exception_by_type : List Envelope → String → Result CaptureError Object
unfolding first get_exceptions
find_exception_by_type envelopes type = first (says "type" type) (get_exceptions envelopes)

first_lem : {A : Type 0} (p : A → Bool) (x : A) (xs : List A) → first p xs ≡ ok x → p x ≡ true
unfolding first
first_lem p x [] h = absurd (ground (arith, h))
first_lem p x (y ∷ ys) h = ground (arith, h, first_lem p x ys)
