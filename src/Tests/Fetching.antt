-- ===== src/Tests/Fetching.antt =====
-- src/oauthclientbridge/oauth/_core.py: the bounds of `fetch` on a call that is retried once.
use oauthclientbridge.Base.{
  ℕ, zero, suc, ◌+◌, ◌*◌, ◌≤◌, ◌≡◌, min, length, [], ◌∷◌, none, some, refl, arith,
}
use oauthclientbridge.Base.Text.{unit, is_space}
use oauthclientbridge.Fetch.{fetch}
use oauthclientbridge.Fetch.Bounds.{
  fetch-few, fetch-capped, fetch-IsTimely, fetch-paid, deadline_from,
}
use oauthclientbridge.Fetch.RetryAfter.{parse_retry, parse_retry-ascii, has_separator}
use oauthclientbridge.Fetch.Round.{limiter, attempt}
use oauthclientbridge.Fetch.Spacing.{fetch-Spaced}
use oauthclientbridge.Fetch.Round.Spacing.{Spaced}
use oauthclientbridge.Retry.{RetryDecisionAction, RetryReason}
use oauthclientbridge.Fetch.Round.Within.{sum, Added, IsTimely}
use oauthclientbridge.Base.Json.{Object}
use oauthclientbridge.Base.Result.{ok}
use oauthclientbridge.Base.Dict.{get, has}
use oauthclientbridge.Errors
use oauthclientbridge.Outcome.{unexpected_token_endpoint_issue, token_endpoint_outcome}
use oauthclientbridge.Fetch.Genuine.{fetch-IsGenuine}
use oauthclientbridge.Fetch.Round.Source.{IsGenuine}
use oauthclientbridge.Fetch.Once.{http_status, fetch_once}
use oauthclientbridge.Fetch.Once.Answers.{IsRegular}
use oauthclientbridge.Fetch.Returns.{fetch-returns}
use oauthclientbridge.Net.{Net, Sent}
use oauthclientbridge.Tests.{provider, fetching, net, issued}

abbrev after : Net
after = (fetch provider fetching "https://provider.example/token" "token" [] net).1

fetch-few_example : length after.requests ≤ length net.requests + fetching.total_retries + 1
fetch-few_example = fetch-few provider fetching net "https://provider.example/token" "token" []

fetch-capped_example : sum after.sleeps ≤ sum net.sleeps + fetching.total_timeout
fetch-capped_example =
    fetch-capped provider fetching net "https://provider.example/token" "token" []

fetch-IsTimely_example :
    Added (IsTimely fetching (deadline_from provider fetching net)) net.requests after.requests
fetch-IsTimely_example =
    fetch-IsTimely provider fetching net "https://provider.example/token" "token" []

fetch-paid_example :
    length after.sleeps * unit + (limiter fetching after.limiters).tokens
    ≤ length net.sleeps * unit
      + min fetching.retry_budget_capacity
          ((limiter fetching net.limiters).tokens + fetching.retry_budget_refill_per_initial)
fetch-paid_example = fetch-paid provider fetching net "https://provider.example/token" "token" []

provider-IsRegular : (k : ℕ) (r : Sent) → IsRegular provider fetching (provider.answer k r)
unfolding http_status
provider-IsRegular zero r = (refl, tt, tt)
provider-IsRegular (suc k) r = (refl, (λ retried. ground (arith, retried)), tt)

fetch-returns_example :
    (d : Object) × ((fetch provider fetching "https://provider.example/token" "token" [] net).0
      ≡ ok d)
fetch-returns_example =
    fetch-returns provider fetching provider-IsRegular "https://provider.example/token" "token" []
      net refl

fetch-IsGenuine_example : IsGenuine provider fetching "https://provider.example/token" [] issued
unfolding get has Errors.json attempt fetch_once http_status unexpected_token_endpoint_issue
    token_endpoint_outcome oauthclientbridge.Bucket.consume oauthclientbridge.Bucket.add
    oauthclientbridge.Retry.get_retry_limiter oauthclientbridge.Retry.keep_limiter
fetch-IsGenuine_example =
    fetch-IsGenuine provider fetching "https://provider.example/token" "token" [] net issued
      (unfold fetch in refl) (unfold has in refl)

-- The header ` 120`.
parse_retry-ascii_example : parse_retry (λ _. ok none) 0 (some (32 ∷ 49 ∷ 50 ∷ 48 ∷ [])) ≡ ok 120
unfolding is_space has_separator
parse_retry-ascii_example =
    parse_retry-ascii (λ _. ok none) 0 (32 ∷ []) [] (2 ∷ 0 ∷ []) 1 (refl, tt) tt
      (ground arith, (ground arith, (ground arith, tt)))

fetch-Spaced_example :
    Spaced provider []
      (fetch provider fetching "https://provider.example/token" "token" [] net).1.requests
fetch-Spaced_example =
    fetch-Spaced provider fetching "https://provider.example/token" "token" [] net
