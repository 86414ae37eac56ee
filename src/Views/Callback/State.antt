-- ===== src/Views/Callback/State.antt =====
-- src/oauthclientbridge/views.py, `callback`: the session, and which callbacks are let through.
use oauthclientbridge.Base.{
  String, ◌≡◌, ◌∙◌, ◌⊎◌, refl, true, Option, none, some, arith, inl, inr, Option-cases, eq_iff,
}
use oauthclientbridge.Base.Dict.{get}
use oauthclientbridge.Base.Json.{Json, Object, str, null, or_null}
use oauthclientbridge.Base.Result.{Result, ok, err, Post, Post-bind, Post-both, Post-final, lift}
use oauthclientbridge.Errors.{Exception}
use oauthclientbridge.App.{App, World, Session, upstream}
use oauthclientbridge.Crypto.{generate_key, dumps}
use oauthclientbridge.Db
use oauthclientbridge.Fetch.{fetch}
use oauthclientbridge.Web.{Request, or_none}
use oauthclientbridge.Views.Page.{PageError, error_page}
use oauthclientbridge.Views.Callback.{
  callback_error, callback, trade, conclude, store, token_error, code_form, is_given,
}

abbrev empty : Session
empty = record { client_state = none; state = none }

abbrev IsPopped : App → Type 0
IsPopped a = a.session ≡ empty

abbrev Popped : {A : Type 0} → Result Exception A × App → Type 0
Popped x = Post (λ _ a. IsPopped a) IsPopped x

module _ (w : World) where
  error_page-session :
      (e : PageError) (given state retry_after : Json) (a : App)
      → (error_page w e given state retry_after a).1.session ≡ a.session
  unfolding error_page
  error_page-session e given state retry_after a = ground arith

  store-session :
      (client_state : Json) (result : Object) (a : App)
      → (store w client_state result a).1.session ≡ a.session
  unfolding store generate_key dumps Db.generate_id Db.insert error_page
  store-session client_state result a = ground arith

  conclude-session :
      (client_state : Json) (result : Object) (refused : Option (PageError × String)) (a : App)
      → (conclude w client_state result refused a).1.session ≡ a.session
  unfolding conclude
  conclude-session client_state result none a = store-session client_state result a
  conclude-session client_state result (some (e, d)) a =
      error_page-session e (str d) client_state (or_null (get "retry_after" result)) a

  trade-session :
      (client_state : Json) (req : Request) (refused : Option (PageError × String)) (a : App)
      → (trade w client_state req refused a).1.session ≡ a.session
  unfolding trade
  trade-session client_state req (some (e, d)) a = error_page-session e (str d) client_state null a
  trade-session client_state req none a = Post-final (trade w client_state req none a) (
      Post-bind
        (upstream
          (fetch w.provider w.settings.fetch w.settings.oauth.token_uri "token" (code_form w req)))
        _ a (Post-both {Q = same} _ refl)
        λ result a₁ h₁.
          Post-bind (lift (token_error w result)) _ a₁ (Post-both {Q = same} _ h₁)
            λ failed a₂ h₂. Post-both _ (conclude-session client_state result failed a₂ ∙ h₂))
    where
      same : App → Type 0
      same a' = a'.session ≡ a.session

  -- The session is used up by a callback, however it ends: its state and the client's are gone
  -- from the cookie.
  pub callback-session :
      (req : Request) (a : App)
      → (callback w req a).1.session ≡ record { client_state = none; state = none }
  unfolding callback
  callback-session req a = Post-final (callback w req a) (
      Post-bind (lift (callback_error w a.session.state req)) _ (record a { session = empty })
        (Post-both {Q = IsPopped} _ refl)
        λ refused a₁ h.
          Post-both _ (trade-session (or_none a.session.client_state) req refused a₁ ∙ h))

  -- What lets a callback through: the state that the session holds, no error, and a code.
  pub record IsGenuine (req : Request) (s : Session) : Type 0 where
    pub state : String
    pub expected : s.state ≡ some state
    pub returned : get "state" req.args ≡ some state
    pub no_error : get "error" req.args ≡ none
    pub coded : is_given (get "code" req.args) ≡ true

  genuine : (req : Request) (s : Session) → callback_error w s.state req ≡ ok none → IsGenuine req s
  unfolding callback_error
  genuine req s h = elim (Option-cases s.state) [
    | inl unset ↦ absurd (ground arith)
    | inr (state, set) ↦ elim (Option-cases (get "state" req.args)) [
      | inl missing ↦ absurd (ground arith)
      | inr (returned, given) ↦ record {
        state = state;
        expected = set;
        returned = ground (arith, eq_iff state returned);
        no_error = ground arith;
        coded = ground arith;
      }
    ]
  ]

  -- Nothing is sent to the provider and no row is written.
  abbrev Idle : App → App → Type 0
  Idle a a' = (a'.net.requests ≡ a.net.requests) × (a'.tokens ≡ a.tokens)

  error_page-Idle :
      (e : PageError) (given state retry_after : Json) (a : App)
      → Idle a (error_page w e given state retry_after a).1
  unfolding error_page
  error_page-Idle e given state retry_after a = ground arith

  -- A callback sends a request to the provider, or changes the table, only if it returns the state
  -- that the session holds, has a code and reports no error.
  pub callback-IsGenuine :
      (req : Request) (a : App)
      → (((callback w req a).1.net.requests ≡ a.net.requests)
          × ((callback w req a).1.tokens ≡ a.tokens))
        ⊎ IsGenuine req a.session
  unfolding callback trade
  callback-IsGenuine req a = split (callback_error w a.session.state req) refl
    where
      popped : App
      popped = record a { session = empty }

      split :
          (x : Result Exception (Option (PageError × String)))
          → callback_error w a.session.state req ≡ x
          → Idle a (callback w req a).1 ⊎ IsGenuine req a.session
      split (err e) h = inl (rw h (refl, refl))
      split (ok none) h = inr (genuine req a.session h)
      split (ok (some (e, d))) h =
          inl (rw h (error_page-Idle e (str d) (or_none a.session.client_state) null popped))
