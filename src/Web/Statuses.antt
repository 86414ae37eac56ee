-- ===== src/Web/Statuses.antt =====
-- src/oauthclientbridge/oauth/_core.py, `error_handler`, `fallback_error_handler` and `nocache`: what
-- a client gets when a handler raises.
use oauthclientbridge.Base.{String, ◌≡◌, sym, subst, refl, false, none, arith, ◌==◌}
use oauthclientbridge.Base.Dict.{get}
use oauthclientbridge.Base.Json.{Json, null}
use oauthclientbridge.Base.Result.{Result, ok, err, Post}
use oauthclientbridge.Errors
use oauthclientbridge.Errors.{
  OAuthError, invalid_client, temporarily_unavailable, Exception, error, value,
}
use oauthclientbridge.App.{App, World, Handler}
use oauthclientbridge.Web.{
  WebResponse, WebBody, json_body, jsonify, with_retry_after, error_object, error_response,
  error_handler, answer_error, fallback_error_handler, nocache, conclude, serve,
}

-- A body that has no such key.
abbrev pub Lacks : String → WebBody → Type 0
Lacks k (json_body d) = get k d ≡ none
Lacks k _ = Unit

abbrev pub IsOther : String → Type 0
IsOther k =
    (("error" == k) ≡ false) × (("error_description" == k) ≡ false) × (("error_uri" == k) ≡ false)

module _ (w : World) (k : String) (other : IsOther k) where
  error_object-lacks :
      (e : OAuthError) (description uri : Json) → get k (error_object w e description uri) ≡ none
  unfolding error_object get
  error_object-lacks e description null = ground arith
  error_object-lacks e description _ = ground arith

  fallback-Lacks : (a : App) → Lacks k (fallback_error_handler w a).0.body
  unfolding fallback_error_handler get Errors.json
  fallback-Lacks a = ground arith

  with_retry_after-body :
      (v : Json) (r r' : WebResponse) → with_retry_after w v r ≡ ok r' → r'.body ≡ r.body
  unfolding with_retry_after
  with_retry_after-body null r r' h = ground arith
  with_retry_after-body v r r' h = ground arith

  error_response-body :
      (e : OAuthError) (description uri retry_after : Json) (r : WebResponse)
      → error_response w e description uri retry_after ≡ ok r
      → r.body ≡ json_body (error_object w e description uri)
  unfolding error_response
  error_response-body e description uri retry_after r h = ground (
    arith,
    with_retry_after-body retry_after
        (record (jsonify (error_object w e description uri)) { status = 503 }) r,
  )

  answer_error-Lacks :
      (e : OAuthError) (x : Result Exception WebResponse) (a : App)
      → ((r : WebResponse) → x ≡ ok r → Lacks k r.body)
      → Lacks k (answer_error w e x a).0.body
  unfolding answer_error
  answer_error-Lacks e (err _) a own = fallback-Lacks a
  answer_error-Lacks e (ok r) a own = own r refl

  error_handler-Lacks :
      (e : OAuthError) (description uri retry_after : Json) (a : App)
      → Lacks k (error_handler w e description uri retry_after a).0.body
  unfolding error_handler
  error_handler-Lacks e description uri retry_after a =
      answer_error-Lacks e (error_response w e description uri retry_after) a λ r h.
        subst (Lacks k) (sym (error_response-body e description uri retry_after r h))
          (error_object-lacks e description uri)

  raised-Lacks : (x : Exception) (a : App) → Lacks k (conclude w (err x, a)).0.body
  unfolding conclude
  raised-Lacks (error e description uri retry_after) a =
      error_handler-Lacks e description uri retry_after a
  raised-Lacks x a = fallback-Lacks a

  nocache-body : (r : WebResponse) → (nocache w r).body ≡ r.body
  unfolding nocache
  nocache-body r = ground arith

  conclude-Lacks :
      (x : Result Exception WebResponse × App)
      → Post (λ r _. Lacks k r.body) (λ _. Unit) x
      → Lacks k (conclude w x).0.body
  conclude-Lacks (ok r, a) own = unfold conclude in own.at
  conclude-Lacks (err x, a) own = raised-Lacks x a

  -- A handler whose own responses lack a key answers without it, whatever it raises.
  pub serve-Lacks :
      (handler : Handler WebResponse) (a : App)
      → Post (λ r _. Lacks k r.body) (λ _. Unit) (handler a)
      → Lacks k (serve w handler a).0.body
  unfolding serve
  serve-Lacks handler a own =
      subst (Lacks k) (sym (nocache-body (conclude w (handler a)).0))
        (conclude-Lacks (handler a) own)
