-- ===== src/Tests.antt =====
-- Concrete settings, a provider and a world, on which the theorems are applied.
mod Fetching
mod Serving
mod Storing
mod Parts
mod Background
mod Refreshing
mod Running
mod Tooling
mod Flowing
mod Sharing
mod Booting
use oauthclientbridge.Base.{
  ℕ, zero, suc, ◌+◌, ◌*◌, ◌≡◌, ◌≢◌, refl, ap, arith, String, Bool, true, false, Option, none, some,
  List, [], ◌∷◌, length, codes, eqb, if◌then◌else◌, ◌==◌,
}
use Prim.Native.String
use oauthclientbridge.Base.Json.{str, num, Object}
use oauthclientbridge.Base.Result.{ok}
use oauthclientbridge.Errors.{OAuthError}
use oauthclientbridge.Net.{Provider, Net, Response, object, undecodable, Answer, responded, Sent}
use oauthclientbridge.Settings.{FetchSettings, OAuthSettings, Settings}
use oauthclientbridge.App.{App, World, Row, Session, IsDocumented}
use oauthclientbridge.Web.{Request, Authorization, absent}

abbrev pub issued : Object
issued = ("access_token", str "secret") ∷ ("token_type", str "Bearer") ∷ []

-- A first answer with status 503, and a token in each later one.
abbrev reply : ℕ → Answer
reply zero = responded (record {
  status_code = 503;
  body = undecodable;
  retry_after = none;
  content_length = 0;
  truth = false;
})
reply (suc _) = responded (record {
  status_code = 200;
  body = object issued;
  retry_after = none;
  content_length = 60;
  truth = true;
})

abbrev pub provider : Provider
provider = record {
  lag = λ _. 1000;
  answer = λ n _. reply n;
  took = λ _. 50000;
  uniform = λ _ lower _. lower;
  overslept = λ _. 100;
  prepare = λ _ _. ok tt;
  parse_date = λ _. ok none;
  wall = λ _. 0;
  render = λ _. "";
}

abbrev pub fetching : FetchSettings
fetching = record {
  total_timeout = 20000000;
  timeout = 5000000;
  total_retries = 3;
  retry_budget_capacity = 2000000;
  retry_budget_refill_per_initial = 250000;
  retry_status_codes = 429 ∷ 503 ∷ [];
  unavailable_status_codes = 503 ∷ [];
  error_types = [];
  backoff_factor = 100000;
  backoff_jitter_min = 900000;
  backoff_jitter_max = 1100000;
}

abbrev pub net : Net
net = record {
  now = 5;
  readings = 0;
  draws = 0;
  requests = [];
  sleeps = [];
  closes = 0;
  metrics = [];
  limiters = [];
}

abbrev pub settings : Settings
settings = record {
  auth_realm = "bridge";
  metrics_enabled = true;
  metrics_token = some "m";
  callback_content_security_policy = none;
  revoked_grant_workaround_user_agents = none;
  revoked_grant_workaround_access_token = "revoked";
  revoked_grant_workaround_expires_in = 3600;
  oauth = record {
    client_id = "bridge";
    client_secret = "hidden";
    grant_type = "refresh_token";
    scopes = "read" ∷ "write" ∷ [];
    allowed_scopes = some ("read" ∷ "write" ∷ []);
    authorization_uri = "https://provider.example/authorize";
    token_uri = "https://provider.example/token";
    refresh_uri = none;
    redirect_uri = "https://bridge.example/callback";
  };
  fetch = fetching;
}

abbrev pub key : String
key = "AAAAAAAAAAAAAAAAAAAAAAAAAAAAAAAAAAAAAAAAAAA="

abbrev pub uuid : String
uuid = "00000000-0000-4000-8000-000000000000"

-- A cipher that keeps the text behind one character.
abbrev seal : String → String
seal text = String.◌∷◌ "x" text

abbrev unseal : String → Option String
unseal String.[] = none
unseal (String.◌∷◌ c text) = some text

-- A world with one kind of JSON text, one key and one identifier.
abbrev pub world : World
world = record {
  provider = provider;
  settings = settings;
  utcnow = λ n. 1000 + n;
  fault = λ _. none;
  connect_fault = λ _. none;
  no_such_table = λ _. false;
  new_key = λ _. key;
  new_id = λ _. uuid;
  parse_uuid = λ s. some s;
  valid_key = λ _. true;
  encrypt = λ _ _ text. seal text;
  decrypt = λ _ token. unseal token;
  json_dumps = λ _. "{}";
  json_loads = λ text. if text == "{}" then some issued else none;
  int_text = λ _. none;
  search = λ _ _. false;
}

pub world-IsDocumented : IsDocumented world
world-IsDocumented = record {
  decrypt-encrypt = λ n k text h. refl;
  valid_key-new_key = λ n. refl;
  length-new_key = λ n. refl;
  parse_uuid-new_id = λ n. refl;
  encrypt-ne-empty = λ n k text h. absurd (ground (arith, ap (λ s. length (codes s)) h));
  length-new_id = λ n. refl;
}

abbrev pub row : Option String → Row
row token = record {
  client_id = uuid;
  token = token;
  created_at = some 1;
  last_updated_at = some 2;
}

-- A process with these rows and this session.
abbrev pub app : List Row → Session → App
app rows session = record {
  net = net;
  tokens = rows;
  session = session;
  statements = 0;
  keys = 0;
  ids = 0;
  encryptions = 0;
  refresh_requests = 0;
}

abbrev pub no_session : Session
no_session = record { client_state = none; state = none }

abbrev pub started : Session
started = record { client_state = some "mine"; state = some "s" }

abbrev pub request : List (String × String) → List (String × String) → Request
request args form = record {
  args = args;
  form = form;
  authorization = absent;
  authorization_header = "";
  user_agent = "agent";
}

-- A token request with a secret.
abbrev pub asking : String → Request
asking secret =
    request []
      (("grant_type", "client_credentials") ∷ ("client_id", uuid) ∷ ("client_secret", secret) ∷ [])
