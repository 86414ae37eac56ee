-- ===== src/Workers/Steps.antt =====
-- src/oauthclientbridge/views.py, several processes: what one act does to the table and the process.
use oauthclientbridge.Base.{
  String, ◌≡◌, ◌∙◌, sym, ap, refl, some, List, [], ◌∷◌, ◌++◌, arith, ◌⊎◌, inl, inr, Option-cases,
  Bool-cases, eq_iff, subst, ◌==◌,
}
use oauthclientbridge.Base.Json.{Object}
use oauthclientbridge.Base.Result.{Result, ok, err, Post}
use oauthclientbridge.Errors.{Exception}
use oauthclientbridge.App.{App, World, Row}
use oauthclientbridge.Crypto.{loads}
use oauthclientbridge.Db.{find}
use oauthclientbridge.Db.Table.{find-update_rows}
use oauthclientbridge.Web.{Request}
use oauthclientbridge.Views.Callback.Added.{Added, same, added, callback-Added}
use oauthclientbridge.Views.Token.Opening.{
  Opened, IsOpened, IsWrite, open_token, close_token, open_token-IsOpened, close_token-IsWrite,
}
use oauthclientbridge.Workers.{
  Process, Act, begin_token, end_token, run_callback, view, after_open, act,
}

find-append_some :
    (id : String) (rows : List Row) (r row : Row)
    → find id rows ≡ some row
    → find id (rows ++ r ∷ []) ≡ some row
unfolding find
find-append_some id [] r row h = cc
find-append_some id (x ∷ xs) r row h = ground (arith, find-append_some id xs r row)

find-Added :
    (id : String) (rows new : List Row) (row : Row)
    → Added rows new
    → find id rows ≡ some row
    → find id new ≡ some row
find-Added id rows new row (same e) h = subst (λ rs. find id rs ≡ some row) (sym e) h
find-Added id rows new row (added r _ e) h =
    subst (λ rs. find id rs ≡ some row) (sym e) (find-append_some id rows r row h)

after_open-IsOpened :
    (w : World) (req : Request) (a : App) (o : Opened) (x : Result Exception Opened × App)
    → Post (λ o' a'. IsOpened w req a o' × (a'.tokens ≡ a.tokens)) (λ a'. a'.tokens ≡ a.tokens) x
    → (after_open x).opened ≡ some o
    → IsOpened w req a o
after_open-IsOpened w req a o (ok o', a') opened h =
    subst (λ v. IsOpened w req a v) (cc) opened.at.0
after_open-IsOpened w req a o (err e, a') opened h = absurd (cc)

-- The request that a process is in the middle of after an act is that of before, or one it begins.
pub act-opened :
    (w : World) (x : Act) (rows : List Row) (p : Process) (o : Opened)
    → (act w x rows p).1.opened ≡ some o
    → (p.opened ≡ some o) ⊎ ((x ≡ begin_token o.request) × IsOpened w o.request (view rows p.app) o)
unfolding act
act-opened w (begin_token req) rows p o h = elim (Option-cases p.opened) [
  | inr (o', busy) ↦ inl (ground arith)
  | inl free ↦
      let opened : IsOpened w req (view rows p.app) o =
        after_open-IsOpened w req (view rows p.app) o (open_token w req (view rows p.app))
          (open_token-IsOpened w req (view rows p.app)) (ground arith) in
      inr (
        ap begin_token (sym opened.request),
        subst (λ r. IsOpened w r (view rows p.app) o) (sym opened.request) opened,
      )
]
act-opened w end_token rows p o h = elim (Option-cases p.opened) [
  | inr (o', busy) ↦ absurd (ground arith)
  | inl free ↦ inl (ground arith)
]
act-opened w (run_callback req session) rows p o h = elim (Option-cases p.opened) [
  | inr (o', busy) ↦ inl (ground arith)
  | inl free ↦ absurd (ground arith)
]

-- What has changed a row: the end of a request for it whose secret decrypts the token that it read.
pub record IsEnded (w : World) (id : String) (p : Process) : Type 0 where
  pub o : Opened
  pub busy : p.opened ≡ some o
  pub is_id : o.credentials.client_id ≡ id
  pub encrypted : String
  pub read : o.found.encrypted_token ≡ some encrypted
  pub value : Object
  pub decrypted : loads w o.credentials.client_secret encrypted ≡ ok value

-- The row of `id` in the new table is one that was created when `row` was, and is `row` or `Q`.
pub record Kept (id : String) (row : Row) (new : List Row) (Q : Type 0) : Type 0 where
  pub now : Row
  pub found : find id new ≡ some now
  pub created_at : now.created_at ≡ row.created_at
  pub changed : (now ≡ row) ⊎ Q

unchanged :
    {Q : Type 0} (id : String) (row : Row) (new : List Row)
    → find id new ≡ some row
    → Kept id row new Q
unchanged id row new h = record { now = row; found = h; created_at = refl; changed = inl refl }

IsWrite-Kept :
    (w : World) (o : Opened) (rows new : List Row) (p : Process) (id : String) (row : Row)
    → p.opened ≡ some o
    → find id rows ≡ some row
    → IsWrite w o rows new
    → Kept id row new (IsEnded w id p)
IsWrite-Kept w o rows new p id row busy h write =
    elim (Bool-cases (o.credentials.client_id == id)) [
      | inr other ↦ unchanged id row new (
          ap (find id) write.written
          ∙ (find-update_rows o.credentials.client_id id write.token write.now rows ∙ rw other h))
      | inl own ↦ record {
        now = record row { token = write.token; last_updated_at = some write.now };
        found =
            ap (find id) write.written
            ∙ (find-update_rows o.credentials.client_id id write.token write.now rows
                ∙ rw (own, h) refl);
        created_at = refl;
        changed = inr (record {
          o = o;
          busy = busy;
          is_id = (eq_iff o.credentials.client_id id).0 own;
          encrypted = write.encrypted;
          read = write.read;
          value = write.value;
          decrypted = write.decrypted;
        });
      }
    ]

pub act-end :
    (w : World) (rows : List Row) (p : Process) (o : Opened)
    → p.opened ≡ some o
    → (act w end_token rows p).0 ≡ (close_token w o (view rows p.app)).1.tokens
unfolding act
act-end w rows p o busy = rw busy refl

pub act-Kept :
    (w : World) (x : Act) (rows : List Row) (p : Process) (id : String) (row : Row)
    → find id rows ≡ some row
    → Kept id row (act w x rows p).0 (IsEnded w id p)
unfolding act
act-Kept w (begin_token req) rows p id row h =
    unchanged id row _
      (elim (Option-cases p.opened) [ inr (o, busy) ↦ rw busy h | inl free ↦ rw free h ])
act-Kept w end_token rows p id row h = elim (Option-cases p.opened) [
  | inl free ↦ unchanged id row _ (rw free h)
  | inr (o, busy) ↦ elim (close_token-IsWrite w o (view rows p.app)) [
    | inl idle ↦ unchanged id row _ (rw busy (subst (λ rs. find id rs ≡ some row) (sym idle) h))
    | inr write ↦
        subst (λ new. Kept id row new (IsEnded w id p)) (sym (act-end w rows p o busy))
          (IsWrite-Kept w o rows (close_token w o (view rows p.app)).1.tokens p id row busy h write)
  ]
]
act-Kept w (run_callback req session) rows p id row h = elim (Option-cases p.opened) [
  | inr (o, busy) ↦ unchanged id row _ (rw busy h)
  | inl free ↦ unchanged id row _ (
      rw free (
        find-Added id rows _ row
          (callback-Added w req (record p.app { tokens = rows; session = session })) h))
]
