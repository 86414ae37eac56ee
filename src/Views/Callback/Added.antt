-- ===== src/Views/Callback/Added.antt =====
-- src/oauthclientbridge/views.py, `callback`: what it does to the table.
use oauthclientbridge.Base.{
  String, ◌≡◌, sym, ◌∙◌, refl, Option, none, some, List, [], ◌∷◌, ◌++◌, arith, inl, inr,
  Option-cases, subst,
}
use oauthclientbridge.Base.Json.{Json, Object, str, null, or_null}
use oauthclientbridge.Base.Dict.{get}
use oauthclientbridge.Base.Result.{
  Result, ok, Post, Post-bind, Post-both, Post-final, Post-weaken, lift,
}
use oauthclientbridge.Errors.{Exception}
use oauthclientbridge.App.{App, World, Row, upstream}
use oauthclientbridge.Crypto.{generate_key, dumps}
use oauthclientbridge.Db
use oauthclientbridge.Db.{find}
use oauthclientbridge.Db.Operations.{insert_lem}
use oauthclientbridge.Fetch.{fetch}
use oauthclientbridge.Web.{Request, WebResponse, or_none}
use oauthclientbridge.Views.Page.{PageError, error_page}
use oauthclientbridge.Views.Callback.{
  callback, callback_error, trade, conclude, store, or_integrity, token_error, code_form, to_store,
  pop_session,
}

-- The table as it was, or with one row more, under an identifier that was not in it.
pub data Added (rows : List Row) : List Row → Type 0 where
  same : {new : List Row} → new ≡ rows → Added rows new
  added :
      {new : List Row} (row : Row)
      → find row.client_id rows ≡ none
      → new ≡ rows ++ row ∷ []
      → Added rows new

module _ (w : World) where
  module _ (rows : List Row) where
    abbrev Kept : App → Type 0
    Kept a = a.tokens ≡ rows

    abbrev Adds : App → Type 0
    Adds a = Added rows a.tokens

    abbrev Keeping : {A : Type 0} → Result Exception A × App → Type 0
    Keeping x = Post (λ _ a. Kept a) Adds x

    Kept-Adds : {A : Type 0} (x : Result Exception A × App) → Kept x.1 → Post (λ _ a. Adds a) Adds x
    Kept-Adds x h = Post-both {Q = Adds} x (same h)

    keeping : {A : Type 0} (x : Result Exception A × App) → Kept x.1 → Keeping x
    keeping x h = Post-weaken x (λ _ a e. e) (λ a e. same e) (Post-both {Q = Kept} x h)

    insert-Adds : (id token : String) (a : App) → Kept a → Adds (Db.insert w id token a).1
    insert-Adds id token a h = elim (Option-cases (w.fault a.statements)) [
      | inr (error, faulty) ↦ same (((insert_lem w id token a).2 error faulty).1 ∙ h)
      | inl fine ↦ elim (Option-cases (find id a.tokens)) [
        | inl missing ↦
            subst (λ rs. Added rs (Db.insert w id token a).1.tokens) h
              (added
                (record {
                  client_id = id;
                  token = some token;
                  created_at = some (w.utcnow a.statements);
                  last_updated_at = some (w.utcnow a.statements);
                })
                missing ((insert_lem w id token a).0 fine missing).1)
        | inr (row, found) ↦ same (((insert_lem w id token a).1 fine (λ e. cc)).1 ∙ h)
      ]
    ]

    or_integrity-tokens :
        (client_state : Json) (done : WebResponse) (x : Result Exception (Unit {0})) (a : App)
        → (or_integrity w client_state (λ b. (ok done, b)) x a).1.tokens ≡ a.tokens
    unfolding or_integrity error_page
    or_integrity-tokens client_state done x a = ground arith

    store-Adds :
        (client_state : Json) (result : Object) (a : App)
        → Kept a
        → Post (λ _ a'. Adds a') Adds (store w client_state result a)
    unfolding store
    store-Adds client_state result a h =
        Post-bind (generate_key w) _ a (keeping _ (unfold generate_key in h)) λ secret a₁ h₁.
          Post-bind (dumps w secret (to_store result)) _ a₁
            (keeping _ (unfold dumps in ground arith))
            λ token a₂ h₂.
              Post-bind (Db.generate_id w) _ a₂ (keeping _ (unfold Db.generate_id in h₂))
                λ id a₃ h₃. Post-both {Q = Adds} _ (
                  subst (λ new. Added rows new)
                    (sym (
                      or_integrity-tokens client_state _ (Db.insert w id token a₃).0
                        (Db.insert w id token a₃).1))
                    (insert-Adds id token a₃ h₃))

    error_page-Adds :
        (e : PageError) (given state retry_after : Json) (a : App)
        → Kept a
        → Post (λ _ a'. Adds a') Adds (error_page w e given state retry_after a)
    error_page-Adds e given state retry_after a h = Kept-Adds _ (unfold error_page in ground arith)

    conclude-Adds :
        (client_state : Json) (result : Object) (refused : Option (PageError × String)) (a : App)
        → Kept a
        → Post (λ _ a'. Adds a') Adds (conclude w client_state result refused a)
    unfolding conclude
    conclude-Adds client_state result none a h = store-Adds client_state result a h
    conclude-Adds client_state result (some (e, d)) a h =
        error_page-Adds e (str d) client_state (or_null (get "retry_after" result)) a h

    trade-Adds :
        (client_state : Json) (req : Request) (refused : Option (PageError × String)) (a : App)
        → Kept a
        → Post (λ _ a'. Adds a') Adds (trade w client_state req refused a)
    unfolding trade
    trade-Adds client_state req (some (e, d)) a h = error_page-Adds e (str d) client_state null a h
    trade-Adds client_state req none a h =
        Post-bind
          (upstream (
            fetch w.provider w.settings.fetch w.settings.oauth.token_uri "token" (code_form w req)))
          _ a (keeping _ h)
          λ result a₁ h₁.
            Post-bind (lift (token_error w result)) _ a₁ (keeping _ h₁)
              λ failed a₂ h₂. conclude-Adds client_state result failed a₂ h₂

  -- A callback adds one row at most, under a new identifier, and changes no row.
  pub callback-Added : (req : Request) (a : App) → Added a.tokens (callback w req a).1.tokens
  unfolding callback
  callback-Added req a = Post-final (callback w req a) (
      Post-bind (pop_session w) _ a
        (keeping a.tokens (pop_session w a) (unfold pop_session in refl))
        λ session a₁ h.
          Post-bind (lift (callback_error w session.state req)) _ a₁ (keeping a.tokens _ h)
            λ refused a₂ k. trade-Adds a.tokens (or_none session.client_state) req refused a₂ k)
