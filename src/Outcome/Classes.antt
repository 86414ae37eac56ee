-- ===== src/Outcome/Classes.antt =====
-- src/oauthclientbridge/oauth/_outcome.py: when an answer is retried, accepted or final.
use oauthclientbridge.Base.{
  ℕ, String, ◌≡◌, ◌↔◌, true, false, none, some, List, arith, Option-cases, inl, inr, elem,
}
use oauthclientbridge.Base.Dict.{Dict, get}
use oauthclientbridge.Base.Json.{Json, Object}
use oauthclientbridge.Errors.{OAuthError, invalid_grant, is_error}
use oauthclientbridge.Errors.Codes.{is_error_lem}
use oauthclientbridge.Outcome.{
  token_endpoint_outcome, normalize_error, token_errors, text_of, validate_token, is_success,
}

module _ (render : Json → String) (codes : List ℕ) (types : Dict OAuthError) where
  -- An answer is retried exactly when it is missing or its status is one of the configured ones.
  pub retryable_iff :
      (status : ℕ) (result : Object)
      → ((token_endpoint_outcome render none result codes types).retryable ≡ true)
        × (((token_endpoint_outcome render (some status) result codes types).retryable ≡ true)
            ↔ (elem status codes ≡ true))
  unfolding token_endpoint_outcome
  retryable_iff status result = ground arith

  -- The stored refresh token is given up exactly for a status 400 that is not retried, with an
  -- `error` that normalises to `invalid_grant`.
  pub invalidate_iff :
      (status : ℕ) (result : Object)
      → ((token_endpoint_outcome render (some status) result codes types).invalidate_refresh_token
          ≡ true)
        ↔ ((status ≡ 400)
            × (elem status codes ≡ false)
            × ((v : Json) × (get "error" result ≡ some v)
                × (is_error
                      (normalize_error
                        (text_of render v)
                        token_errors
                        OAuthError.server_error
                        types)
                      invalid_grant
                    ≡ true)))
  unfolding token_endpoint_outcome is_success
  invalidate_iff status result = (
    λ h. elim (Option-cases (get "error" result)) [
      | inl missing ↦ absurd (ground arith)
      | inr (v, found) ↦ (ground arith, ground arith, (v, found, ground arith))
    ],
    λ h. ground arith,
  )

  -- Among the answers with a success status that is not retried, those with a token are the ones
  -- that carry no error.
  pub accepted_iff :
      (status : ℕ) (result : Object)
      → elem status codes ≡ false
      → is_success status ≡ true
      → ((token_endpoint_outcome render (some status) result codes types).normalized_error ≡ none)
        ↔ (validate_token result ≡ true)
  unfolding token_endpoint_outcome
  accepted_iff status result h s = ground arith

  -- The error of an answer that ends a grant.
  pub invalidate-error :
      (status : ℕ) (result : Object)
      → (token_endpoint_outcome render (some status) result codes types).invalidate_refresh_token
        ≡ true
      → (token_endpoint_outcome render (some status) result codes types).normalized_error
        ≡ some invalid_grant
  unfolding token_endpoint_outcome is_success
  invalidate-error status result h = elim (Option-cases (get "error" result)) [
    | inl missing ↦ absurd (ground arith)
    | inr (v, found) ↦ ground (
      arith,
      is_error_lem (normalize_error (text_of render v) token_errors OAuthError.server_error types)
          invalid_grant,
    )
  ]
