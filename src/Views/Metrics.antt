-- ===== src/Views/Metrics.antt =====
-- src/oauthclientbridge/views.py, `metrics`: the guard of the metrics endpoint.
use Prim.Native.String
use oauthclientbridge.Base.{
  String, ◌≡◌, ◌≢◌, ◌↔◌, ◌==◌, not, Bool, true, false, none, some, [], ◌∷◌, if◌then◌else◌, arith,
  eq_iff, all, ltb, codes, ◌&&◌,
}
use oauthclientbridge.Base.Json.{str}
use oauthclientbridge.Base.Result.{Result, ok, err, lift}
use oauthclientbridge.Errors.{Exception, type_error}
use oauthclientbridge.App.{App, World}
use oauthclientbridge.Web.{
  Request, WebResponse, metrics_body, empty_body, serve, fallback_error_handler, nocache,
}

-- Whether all characters are ASCII.
abbrev pub is_ascii : String → Bool
is_ascii s = all (λ c. ltb c 128) (codes s)

module _ (w : World) where
  abbrev pub bearer : String → String
  bearer secret = String.◌++◌ "Bearer " secret

  -- `hmac.compare_digest` of two texts, which raises TypeError for one that is not ASCII.
  compare_digest : String → String → Result Exception Bool
  compare_digest a b = if is_ascii a && is_ascii b then ok (a == b) else err type_error

  unfoldable pub metrics : Request → Result Exception WebResponse
  unfolding compare_digest
  metrics req =
      let exported : WebResponse = record { status = 200; headers = []; body = metrics_body } in
      if not w.settings.metrics_enabled
      then ok (record { status = 404; headers = []; body = empty_body })
      else elim w.settings.metrics_token [
        | none ↦ ok exported
        | some secret ↦ elim (compare_digest req.authorization_header (bearer secret)) [
          | err e ↦ err e
          | ok true ↦ ok exported
          | ok false ↦ ok (record {
            status = 401;
            headers = ("WWW-Authenticate", str "Bearer") ∷ [];
            body = empty_body;
          })
        ]
      ]

  -- The response that gives the metrics out.
  abbrev pub Exports : Result Exception WebResponse → Type 0
  Exports (ok r) = r.body ≡ metrics_body
  Exports (err e) = ⊥

  -- Where a token is configured, the metrics are given out exactly if they are enabled and the
  -- Authorization header is `Bearer` with that token, all of it ASCII.
  pub metrics_iff :
      (req : Request) (secret : String)
      → w.settings.metrics_token ≡ some secret
      → Exports (metrics req) ↔ (
          (w.settings.metrics_enabled ≡ true)
          × (is_ascii (bearer secret) ≡ true)
          × (req.authorization_header ≡ bearer secret))
  unfolding metrics
  metrics_iff req secret h = ground (arith, eq_iff req.authorization_header (bearer secret))

  -- Where the metrics are enabled and a token is configured, all of it ASCII, a header that is not ASCII
  -- is answered with status 500, and not with 401 as any other wrong header is: the comparison raises
  -- TypeError.
  pub metrics-not_ascii :
      (req : Request) (secret : String) (a : App)
      → w.settings.metrics_enabled ≡ true
      → w.settings.metrics_token ≡ some secret
      → is_ascii (bearer secret) ≡ true
      → (is_ascii req.authorization_header ≡ false
          → (serve w (lift (metrics req)) a).0.status ≡ 500)
        × (is_ascii req.authorization_header ≡ true
            → req.authorization_header ≢ bearer secret
            → (serve w (lift (metrics req)) a).0.status ≡ 401)
  unfolding metrics serve fallback_error_handler nocache
  metrics-not_ascii req secret a e h n =
      ground (arith, eq_iff req.authorization_header (bearer secret))
