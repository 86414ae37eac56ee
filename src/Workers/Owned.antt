-- ===== src/Workers/Owned.antt =====
-- src/oauthclientbridge/views.py, several processes: who may change a row, however they interleave.
use oauthclientbridge.Base.{
  ℕ, String, ◌≡◌, ◌∙◌, sym, refl, none, some, List, [], ◌∷◌, ◌⊎◌, inl, inr, Bool-cases, eqb,
  eqb_iff, subst,
}
use oauthclientbridge.Base.Json.{Object}
use oauthclientbridge.Base.Result.{ok}
use oauthclientbridge.App.{App, World, Row}
use oauthclientbridge.Crypto.{loads}
use oauthclientbridge.Db.{find, stored}
use oauthclientbridge.Views.Token.Opening.{Opened, IsOpened}
use oauthclientbridge.Workers.{Process, Cluster, Act, begin_token, view, act, step, run}
use oauthclientbridge.Workers.Steps.{act-opened, act-Kept, IsEnded, Kept}

-- One of the acts, with those before it, satisfies `P`.
abbrev pub Once : (ℕ → Act → List (ℕ × Act) → Type 0) → List (ℕ × Act) → Type 0
Once P [] = ⊥
Once P ((i, x) ∷ acts) = P i x acts ⊎ Once P acts

module _ (worlds : ℕ → World) (s : Cluster) where
  abbrev table_after : List (ℕ × Act) → List Row
  table_after acts = (run worlds s acts).table

  abbrev app_after : List (ℕ × Act) → ℕ → App
  app_after acts i = view (table_after acts) ((run worlds s acts).process i).app

  -- The act begins the token request `o` of the process `i`.
  abbrev Begins : ℕ → Opened → ℕ → Act → List (ℕ × Act) → Type 0
  Begins i o j x acts =
      (j ≡ i) × (x ≡ begin_token o.request) × IsOpened (worlds i) o.request (app_after acts i) o

  -- Each request that a process is in the middle of was begun by it.
  run-Begins :
      ((j : ℕ) → (s.process j).opened ≡ none)
      → (i : ℕ) (o : Opened) (acts : List (ℕ × Act))
      → ((run worlds s acts).process i).opened ≡ some o
      → Once (Begins i o) acts
  unfolding run step
  run-Begins idle i o [] h = absurd (cc (idle i))
  run-Begins idle i o ((j, x) ∷ acts) h = elim (Bool-cases (eqb i j)) [
    | inr other ↦ inr (run-Begins idle i o acts (rw other at h))
    | inl own ↦
        let e : i ≡ j = (eqb_iff i j).0 own in
        elim (act-opened (worlds j) x (table_after acts) ((run worlds s acts).process j) o
          (rw own at h)) [
            | inl busy ↦ inr (
                run-Begins idle i o acts
                  (subst (λ k. ((run worlds s acts).process k).opened ≡ some o) (sym e) busy))
            | inr (begun, opened) ↦ inl (
              sym e,
              begun,
              subst (λ k. IsOpened (worlds k) o.request (app_after acts k) o) (sym e) opened,
            )
          ]
  ]

  -- An act that begins a token request of a client that holds the secret of `id`: its credentials are
  -- valid and those of `id`, and they decrypt the token that the table holds at that act.
  pub record Proves (id : String) (i : ℕ) (x : Act) (acts : List (ℕ × Act)) : Type 0 where
    pub o : Opened
    pub begun : x ≡ begin_token o.request
    pub opened : IsOpened (worlds i) o.request (app_after acts i) o
    pub is_id : o.credentials.client_id ≡ id
    pub encrypted : String
    pub held : stored opened.row.token ≡ some encrypted
    pub value : Object
    pub decrypted : loads (worlds i) o.credentials.client_secret encrypted ≡ ok value

  Begins-Proves :
      (id : String) (i : ℕ) (p : Process) (e : IsEnded (worlds i) id p) (j : ℕ) (x : Act)
      (acts : List (ℕ × Act))
      → Begins i e.o j x acts
      → Proves id j x acts
  Begins-Proves id i p e j x acts (by, begun, opened) =
      subst (λ k. Proves id k x acts) (sym by)
        (record {
          o = e.o;
          begun = begun;
          opened = opened;
          is_id = e.is_id;
          encrypted = e.encrypted;
          held = sym opened.read ∙ e.read;
          value = e.value;
          decrypted = e.decrypted;
        })

  Once-map :
      {P Q : ℕ → Act → List (ℕ × Act) → Type 0}
      → ((i : ℕ) (x : Act) (acts : List (ℕ × Act)) → P i x acts → Q i x acts)
      → (acts : List (ℕ × Act)) → Once P acts
      → Once Q acts
  Once-map f [] h = elim h [ ]
  Once-map f ((i, x) ∷ acts) (inl h) = inl (f i x acts h)
  Once-map f ((i, x) ∷ acts) (inr h) = inr (Once-map f acts h)

  changed-Proves :
      ((j : ℕ) → (s.process j).opened ≡ none)
      → (id : String) (row now : Row) (i : ℕ) (x : Act) (acts : List (ℕ × Act))
      → (now ≡ row) ⊎ Once (Proves id) acts
      → (k : Kept id now
          (act (worlds i) x (table_after acts) ((run worlds s acts).process i)).0
          (IsEnded (worlds i) id ((run worlds s acts).process i)))
      → (k.now ≡ row) ⊎ Once (Proves id) ((i, x) ∷ acts)
  changed-Proves idle id row now i x acts before k = elim k.changed [
    | inr e ↦ inr (
        inr (
          Once-map (Begins-Proves id i ((run worlds s acts).process i) e) acts
            (run-Begins idle i e.o acts e.busy)))
    | inl same_row ↦ elim before [
      | inl first ↦ inl (same_row ∙ first)
      | inr proved ↦ inr (inr proved)
    ]
  ]

  -- However the requests of several processes interleave, from a state where none is in the middle of
  -- one: no row is lost, its time of creation stays, and it is changed only if a client began a token
  -- request with valid credentials of this row, whose secret decrypts the token that the table held
  -- when the request read it.
  pub run-Proves :
      ((j : ℕ) → (s.process j).opened ≡ none)
      → (id : String) (row : Row) (acts : List (ℕ × Act)) → find id s.table ≡ some row
      → (now : Row) × (find id (run worlds s acts).table ≡ some now)
        × (now.created_at ≡ row.created_at)
        × ((now ≡ row) ⊎ Once (Proves id) acts)
  unfolding run step
  run-Proves idle id row [] found = (row, found, refl, inl refl)
  run-Proves idle id row ((i, x) ∷ acts) found =
      let (now, there, created, before) = run-Proves idle id row acts found in
      let k : Kept id now (act (worlds i) x (table_after acts) ((run worlds s acts).process i)).0
          (IsEnded (worlds i) id ((run worlds s acts).process i)) =
        act-Kept (worlds i) x (table_after acts) ((run worlds s acts).process i) id now there in
      (k.now, k.found, k.created_at ∙ created, changed-Proves idle id row now i x acts before k)
