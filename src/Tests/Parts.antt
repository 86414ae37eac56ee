-- ===== src/Tests/Parts.antt =====
-- The parts on their own: bucket, budgets, outcomes, error codes, queries and scopes.
use oauthclientbridge.Base.{ℕ, ◌≡◌, ◌↔◌, ◌++◌, refl, true, String, some, List, [], ◌∷◌, arith, All}
use oauthclientbridge.Base.Json.{Json, str}
use oauthclientbridge.Base.Text.{is_space}
use oauthclientbridge.Base.Dict.{Dict, get}
use oauthclientbridge.Bucket.{Bucket}
use oauthclientbridge.Errors.{OAuthError}
use oauthclientbridge.Uri.{rewritten}
use oauthclientbridge.Uri.Query.{values_of, values_of-rewritten}
use oauthclientbridge.Views.Authorize.{requested_scope_is_allowed}
use oauthclientbridge.Views.Authorize.Scopes.{requested_scope_is_allowed_iff, IsListed, spaced}

abbrev bucket : Bucket
bucket = record { capacity = 2000000; refill_amount = 250000; tokens = 1000000 }

abbrev no_types : Dict OAuthError
no_types = []

abbrev refused : List (String × Json)
refused = ("error", str "invalid_grant") ∷ []

abbrev status : ℕ
status = 400

values_of-rewritten_example :
    values_of "state" (rewritten (("state", "old" ∷ []) ∷ []) (("state", "new") ∷ [])) ≡ "new" ∷ []
unfolding get
values_of-rewritten_example =
    values_of-rewritten "state" (("state", "old" ∷ []) ∷ []) (("state", "new") ∷ []) (refl, tt)
      (refl, tt)

-- The scopes `r w`, of which both are configured.
requested_scope_is_allowed_iff_example :
    (requested_scope_is_allowed ((114 ∷ []) ++ spaced 32 ((119 ∷ []) ∷ [])) (some ("r" ∷ "w" ∷ []))
      ≡ true)
    ↔ All (IsListed ("r" ∷ "w" ∷ [])) ((114 ∷ []) ∷ (119 ∷ []) ∷ [])
unfolding is_space
requested_scope_is_allowed_iff_example =
    requested_scope_is_allowed_iff 32 (114 ∷ []) ((119 ∷ []) ∷ []) ("r" ∷ "w" ∷ []) refl
      ((λ e. ground arith), (refl, tt)) (((λ e. ground arith), (refl, tt)), tt)
