-- ===== src/Workers/Serial.antt =====
-- src/oauthclientbridge/views.py, several processes whose requests do not overlap.
use std.Path.{fun_ext}
use oauthclientbridge.Base.{
  ℕ, Bool, true, false, ◌≡◌, ◌∙◌, sym, ap, refl, none, inl, inr, List, [], ◌∷◌, eqb, eqb_iff,
  Bool-cases, if◌then◌else◌,
}
use oauthclientbridge.Base.Result.{Result, ok, err, Post, continue}
use oauthclientbridge.Errors.{Exception}
use oauthclientbridge.App.{App, World, Row, Session}
use oauthclientbridge.Web.{Request}
use oauthclientbridge.Views.Token.{token}
use oauthclientbridge.Views.Token.Opening.{
  Opened, IsOpened, open_token, close_token, open_token-IsOpened, token-open_token,
}
use oauthclientbridge.Views.Callback.{callback}
use oauthclientbridge.Workers.{
  Process, Cluster, Act, begin_token, end_token, run_callback, view, after_open, ended, act, step,
  run,
}

-- A whole request.
pub data Visit : Type 0 where
  ask_token : Request → Visit
  come_back : Request → Session → Visit

-- The state after the handler of a request alone.
abbrev pub alone : World → Visit → App → App
alone w (ask_token req) a = (token w req a).1
alone w (come_back req session) a = (callback w req (record a { session = session })).1

module _ (w : World) (rows : List Row) where
  end-after_open :
      (req : Request) (a : App) (x : Result Exception Opened × App)
      → Post (λ o a'. IsOpened w req a o × (a'.tokens ≡ rows)) (λ a'. a'.tokens ≡ rows) x
      → act w end_token rows (after_open x) ≡ ended (continue x.0 (close_token w) x.1).1
  unfolding act
  end-after_open req a (ok o, a') h = ap (λ rs. ended (close_token w o (view rs a')).1) (sym h.at.1)
  end-after_open req a (err e, a') h =
      ap (λ rs. (rs, record { app = a'; opened = none })) (sym h.at)

  begin-idle :
      (req : Request) (p : Process)
      → p.opened ≡ none
      → act w (begin_token req) rows p ≡ (rows, after_open (open_token w req (view rows p.app)))
  unfolding act
  begin-idle req p idle = rw idle refl

  -- A process that begins and ends a token request serves it.
  act-token :
      (req : Request) (p : Process)
      → p.opened ≡ none
      → act w end_token rows (act w (begin_token req) rows p).1
        ≡ ended (token w req (view rows p.app)).1
  act-token req p idle =
      ap (λ q. act w end_token rows q.1) (begin-idle req p idle)
      ∙ end-after_open req (view rows p.app) (open_token w req (view rows p.app))
          (open_token-IsOpened w req (view rows p.app))
      ∙ ap (λ x. ended x.1) (sym (token-open_token w req (view rows p.app)))

  act-callback :
      (req : Request) (session : Session) (p : Process)
      → p.opened ≡ none
      → act w (run_callback req session) rows p
        ≡ ended (alone w (come_back req session) (view rows p.app))
  unfolding act
  act-callback req session p idle = rw idle refl

-- The acts of a request that nothing interrupts.
abbrev pub acts_of : List (ℕ × Visit) → List (ℕ × Act)
acts_of [] = []
acts_of ((i, ask_token req) ∷ visits) = (i, end_token) ∷ (i, begin_token req) ∷ acts_of visits
acts_of ((i, come_back req session) ∷ visits) = (i, run_callback req session) ∷ acts_of visits

abbrev pub IsIdle : Cluster → Type 0
IsIdle s = (i : ℕ) → (s.process i).opened ≡ none

if-if :
    {A : Type 0} (b : Bool) (x y z : A)
    → (if b then x else (if b then y else z)) ≡ (if b then x else z)
if-if true x y z = refl
if-if false x y z = refl

module _ (worlds : ℕ → World) where
  -- The cluster after the process `i` served a request alone.
  abbrev pub serve_alone : ℕ → Visit → Cluster → Cluster
  serve_alone i x s =
      let (rows, p) = ended (alone (worlds i) x (view s.table (s.process i).app)) in
      record { table = rows; process = λ j. if eqb j i then p else s.process j }

  -- Requests that are served one after another, the newest first.
  abbrev pub serve_in_turn : Cluster → List (ℕ × Visit) → Cluster
  serve_in_turn s [] = s
  serve_in_turn s ((i, x) ∷ visits) = serve_alone i x (serve_in_turn s visits)

  serve_in_turn-IsIdle :
      (s : Cluster) (visits : List (ℕ × Visit)) → IsIdle s → IsIdle (serve_in_turn s visits)
  serve_in_turn-IsIdle s [] idle j = idle j
  serve_in_turn-IsIdle s ((i, x) ∷ visits) idle j = elim (Bool-cases (eqb j i)) [
    | inl own ↦ rw own refl
    | inr other ↦ rw other (serve_in_turn-IsIdle s visits idle j)
  ]

  -- The last of two acts of one process is all that is seen of them.
  step-step :
      (i : ℕ) (x y : Act) (s : Cluster) (q : List Row × Process)
      → act
          (worlds i)
          y
          (act (worlds i) x s.table (s.process i)).0
          (act (worlds i) x s.table (s.process i)).1
        ≡ q
      → step worlds i y (step worlds i x s)
        ≡ record { table = q.0; process = λ j. if eqb j i then q.1 else s.process j }
  unfolding step
  step-step i x y s q h =
      rw ((eqb_iff i i).1 refl, h)
        (ap (λ f. record { table = q.0; process = f })
          (fun_ext
            λ j. if-if (eqb j i) q.1 (act (worlds i) x s.table (s.process i)).1 (s.process j)))

  run-visit :
      (i : ℕ) (x : Visit) (s : Cluster)
      → IsIdle s
      → run worlds s (acts_of ((i, x) ∷ [])) ≡ serve_alone i x s
  unfolding run
  run-visit i (ask_token req) s idle = step-step i (begin_token req) end_token s _ (
      ap
        (λ rs.
          act (worlds i) end_token rs (act (worlds i) (begin_token req) s.table (s.process i)).1)
        (ap (λ r. r.0) (begin-idle (worlds i) s.table req (s.process i) (idle i)))
      ∙ act-token (worlds i) s.table req (s.process i) (idle i))
  run-visit i (come_back req session) s idle =
      unfold step in
      ap
        (λ (r : List Row × Process). record {
          table = r.0;
          process = λ j. if eqb j i then r.1 else s.process j;
        })
        (act-callback (worlds i) s.table req session (s.process i) (idle i))

  run-acts_of :
      (i : ℕ) (x : Visit) (s : Cluster) (visits : List (ℕ × Visit))
      → run worlds s (acts_of ((i, x) ∷ visits))
        ≡ run worlds (run worlds s (acts_of visits)) (acts_of ((i, x) ∷ []))
  unfolding run
  run-acts_of i (ask_token req) s visits = refl
  run-acts_of i (come_back req session) s visits = refl

  -- Requests that do not overlap leave the cluster as if each had been served alone, one after
  -- another: the table and the state of every process are those after the handlers `token` and
  -- `callback`, each applied to the table that the one before it left. No process may be in the
  -- middle of a request at first.
  pub run-serve_in_turn :
      (s : Cluster) (visits : List (ℕ × Visit))
      → IsIdle s
      → run worlds s (acts_of visits) ≡ serve_in_turn s visits
  run-serve_in_turn s [] idle = unfold run in refl
  run-serve_in_turn s ((i, x) ∷ visits) idle =
      run-acts_of i x s visits
      ∙ ap (λ t. run worlds t (acts_of ((i, x) ∷ []))) (run-serve_in_turn s visits idle)
      ∙ run-visit i x (serve_in_turn s visits) (serve_in_turn-IsIdle s visits idle)
