-- ===== src/Views/Token/Updates.antt =====
-- src/oauthclientbridge/views.py, `token`: each step behind a decrypted token updates at most one row.
use oauthclientbridge.Base.{
  ℕ, String, ◌≡◌, refl, Bool, true, false, Option, none, some, List, arith, ◌⊎◌, inl, inr, not,
  if◌then◌else◌, Option-cases, subst,
}
use oauthclientbridge.Base.Dict.{get, has}
use oauthclientbridge.Base.Json.{Json, Object, null, str, or_null}
use oauthclientbridge.Base.Result.{
  Result, Post, Post-bind, Post-weaken, Post-both, pure, ◌>>=◌, ◌>>◌,
}
use oauthclientbridge.Errors
use oauthclientbridge.Telemetry.{record_refresh_token_invalidation}
use oauthclientbridge.Errors.{Exception, OAuthError, invalid_request}
use oauthclientbridge.App.{App, World, Row, Handler, upstream, emit}
use oauthclientbridge.Client.{ClientCredentials}
use oauthclientbridge.Crypto.{dumps}
use oauthclientbridge.Db
use oauthclientbridge.Db.{TokenRecord, find, update_rows, stored}
use oauthclientbridge.Fetch.{fetch}
use oauthclientbridge.Outcome.{validate_token}
use oauthclientbridge.Web.{Request}
use oauthclientbridge.Views.Token.{
  serve_stored, revoked, refresh, refreshed, refresh_failed, save, modified_by, refresh_uri,
  refresh_form, fail, drop_dead, failure_of, refresh_outcome, same_object,
}

abbrev pub Holds : List Row → App → Type 0
Holds rows a = a.tokens ≡ rows

-- At most one update of the row with that identifier.
abbrev pub Updated : String → List Row → App → Type 0
Updated id rows a =
    Holds rows a ⊎ ((t : Option String) × ((now : ℕ) × (a.tokens ≡ update_rows id t now rows)))

abbrev pub Steady : {A : Type 0} → List Row → Result Exception A × App → Type 0
Steady rows x = Post (λ _ a. Holds rows a) (Holds rows) x

abbrev pub Ends : {A : Type 0} → String → List Row → Result Exception A × App → Type 0
Ends id rows x = Post (λ _ a. Updated id rows a) (Updated id rows) x

Ends-Steady :
    {A : Type 0} (id : String) (rows : List Row) (x : Result Exception A × App)
    → Steady rows x
    → Ends id rows x
Ends-Steady id rows x h = Post-weaken x (λ _ a e. inl e) (λ a e. inl e) h

Ends-if :
    {A : Type 0} (id : String) (rows : List Row) (b : Bool) (f g : Handler A) (a : App)
    → Ends id rows (f a)
    → Ends id rows (g a)
    → Ends id rows ((if b then f else g) a)
Ends-if id rows true f g a h k = h
Ends-if id rows false f g a h k = k

-- A step that leaves the rows, after a step that may update them.
Updated-Steady :
    {A : Type 0} (id : String) (rows : List Row) (m : Handler A) (a : App)
    → Steady a.tokens (m a)
    → Updated id rows a
    → Ends id rows (m a)
Updated-Steady id rows m a h (inl e) =
    Post-weaken (m a) (λ _ a' k. inl (ground arith)) (λ a' k. inl (ground arith)) h
Updated-Steady id rows m a h (inr (t, (now, e))) =
    Post-weaken (m a) (λ _ a' k. inr (t, (now, ground arith)))
      (λ a' k. inr (t, (now, ground arith))) h

Steady-bind :
    {A B : Type 0} (id : String) (rows : List Row) (m : Handler A) (f : A → Handler B) (a : App)
    → Steady rows (m a)
    → ((v : A) (a' : App) → Holds rows a' → Ends id rows (f v a'))
    → Ends id rows ((m >>= f) a)
Steady-bind id rows m f a h k =
    Post-bind m f a (Post-weaken (m a) (λ _ a' e. e) (λ a' e. inl e) h) k

Ends-bind :
    {A B : Type 0} (id : String) (rows : List Row) (m : Handler A) (f : A → Handler B) (a : App)
    → Ends id rows (m a)
    → ((v : A) (a' : App) → Steady a'.tokens (f v a'))
    → Ends id rows ((m >>= f) a)
Ends-bind id rows m f a h k =
    Post-bind m f a h (λ v a' u. Updated-Steady id rows (f v) a' (k v a') u)

fail-Steady :
    {A : Type 0} (e : OAuthError) (description uri retry_after : Json) (a : App)
    → Steady a.tokens (fail {A = A} e description uri retry_after a)
unfolding fail
fail-Steady e description uri retry_after a = ground arith

module _ (w : World) where
  update-Ends : (id : String) (t : Option String) (a : App) → Ends id a.tokens (Db.update w id t a)
  update-Ends id t a = Post-both (Db.update w id t a) (elim (Option-cases (w.fault a.statements)) [
    | inl fine ↦ inr (t, (w.utcnow a.statements, unfold Db.update in ground arith))
    | inr (error, faulty) ↦ inl (unfold Db.update in ground arith)
  ])

  pub revoked-Steady : (req : Request) (a : App) → Steady a.tokens (revoked w req a)
  unfolding revoked
  revoked-Steady req a = ground arith

  dumps-Steady : (key : String) (d : Object) (a : App) → Steady a.tokens (dumps w key d a)
  unfolding dumps
  dumps-Steady key d a = ground arith

  save-Ends :
      (c : ClientCredentials) (old new : Object) (a : App)
      → Ends c.client_id a.tokens (save w c old new a)
  unfolding save
  save-Ends c old new a =
      Ends-if c.client_id a.tokens (same_object old new) (pure tt) _ a (record { at = inl refl })
        (Steady-bind c.client_id a.tokens (dumps w c.client_secret new) _ a
          (dumps-Steady c.client_secret new a)
          λ t a₁ h.
            Ends-bind c.client_id a.tokens (Db.update w c.client_id (some t)) _ a₁
              (subst (λ rows. Ends c.client_id rows (Db.update w c.client_id (some t) a₁)) h
                (update-Ends c.client_id (some t) a₁))
              (λ n a₂. record { at = refl }))

  drop_dead-Ends :
      (id : String) (answer : Object) (a : App) → Ends id a.tokens (drop_dead w id answer a)
  unfolding drop_dead
  drop_dead-Ends id answer a =
      Ends-if id a.tokens (refresh_outcome w answer).invalidate_refresh_token
        (Db.update w id none >> counted) (pure tt) a
        (Ends-bind id a.tokens (Db.update w id none) (λ _. counted) a (update-Ends id none a)
          (λ n a₁. record { at = refl }))
        (record { at = inl refl })
    where
      counted : Handler (Unit {0})
      counted = emit (record_refresh_token_invalidation (Errors.value (failure_of w answer)))

  refresh_failed-Ends :
      (id : String) (answer : Object) (a : App) → Ends id a.tokens (refresh_failed w id answer a)
  unfolding refresh_failed
  refresh_failed-Ends id answer a =
      Ends-bind id a.tokens (drop_dead w id answer) _ a (drop_dead-Ends id answer a) λ _ a₁.
        fail-Steady (failure_of w answer) (or_null (get "error_description" answer))
          (or_null (get "error_uri" answer)) (or_null (get "retry_after" answer)) a₁

  refreshed-Ends :
      (c : ClientCredentials) (r : TokenRecord) (old answer : Object) (a : App)
      → Ends c.client_id a.tokens (refreshed w c r old answer a)
  unfolding refreshed
  refreshed-Ends c r old answer a =
      Ends-if c.client_id a.tokens (not (validate_token answer)) _ _ a
        (Ends-Steady c.client_id a.tokens _
          (fail-Steady invalid_request (str "Invalid response from provider.") null null a))
        (Ends-bind c.client_id a.tokens (save w c old (modified_by old answer)) _ a
          (save-Ends c old (modified_by old answer) a) (λ _ a₁. record { at = refl }))

  fetching-Steady :
      (v : Json) (a : App)
      → Steady a.tokens (
          upstream
            (fetch w.provider w.settings.fetch (refresh_uri w) "refresh" (refresh_form w v))
            a)
  fetching-Steady v a = Post-both _ refl

  refresh-Ends :
      (c : ClientCredentials) (r : TokenRecord) (old : Object) (v : Json) (a : App)
      → Ends c.client_id a.tokens (refresh w c r old v a)
  unfolding refresh
  refresh-Ends c r old v a =
      Steady-bind c.client_id a.tokens
        (upstream (fetch w.provider w.settings.fetch (refresh_uri w) "refresh" (refresh_form w v)))
        _ a (fetching-Steady v a)
        λ answer a₁ h.
          Ends-if c.client_id a.tokens (has "error" answer) (refresh_failed w c.client_id answer)
            (refreshed w c r old answer) a₁
            (subst (λ rows. Ends c.client_id rows (refresh_failed w c.client_id answer a₁)) h
              (refresh_failed-Ends c.client_id answer a₁))
            (subst (λ rows. Ends c.client_id rows (refreshed w c r old answer a₁)) h
              (refreshed-Ends c r old answer a₁))

  pub serve_stored-Ends :
      (c : ClientCredentials) (r : TokenRecord) (old : Object) (v : Option Json) (a : App)
      → Ends c.client_id a.tokens (serve_stored w c r old v a)
  unfolding serve_stored
  serve_stored-Ends c r old none a = record { at = inl refl }
  serve_stored-Ends c r old (some v) a = refresh-Ends c r old v a
