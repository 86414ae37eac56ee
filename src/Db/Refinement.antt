-- ===== src/Db/Refinement.antt =====
-- src/oauthclientbridge/db.py: what the table of tokens promises, as a function from identifiers to
-- rows, and that `insert`, `lookup` and `update` keep the promise.
use oauthclientbridge.Base.{
  ℕ, ◌+◌, subst, ◌≡◌, ◌==◌, refl, arith, eq_iff, String, Option, none, some, List, [], ◌∷◌, ◌++◌,
  Bool-cases, inl, inr, if◌then◌else◌,
}
use oauthclientbridge.Base.Result.{Result, ok, err}
use oauthclientbridge.Errors.{Exception, integrity_error, lookup_error, database_error}
use oauthclientbridge.App.{App, World, Row}
use oauthclientbridge.Db.{TokenRecord, find, stored, insert, lookup, update}
use oauthclientbridge.Db.Table.{
  IsKeyed, IsKeyed-append, IsKeyed-update_rows, find-append, find-append_ne, find-update_rows,
  count_rows-IsKeyed,
}

pub data Command : Type 0 where
  insert_token : String → String → Command
  lookup_token : String → Command
  update_token : String → Option String → Command

-- What a caller sees of a command.
pub data Reply : Type 0 where
  inserted : Result Exception (Unit {0}) → Reply
  found : Result Exception TokenRecord → Reply
  changed : Result Exception ℕ → Reply

abbrev pub Rows : Type 0
Rows = String → Option Row

-- The map with one identifier written.
abbrev pub written : String → Row → Rows → Rows
written id r m j = if id == j then some r else m j

module _ (w : World) where
  abbrev pub perform : Command → App → Reply × App
  perform (insert_token id token) a = let (r, a') = insert w id token a in (inserted r, a')
  perform (lookup_token id) a = let (r, a') = lookup w id a in (found r, a')
  perform (update_token id token) a = let (r, a') = update w id token a in (changed r, a')

  -- The replies of a list of commands and the state after them.
  abbrev pub perform_all : List Command → App → List Reply × App
  perform_all [] a = ([], a)
  perform_all (c ∷ cs) a =
      let (r, a') = perform c a in let (rs, a'') = perform_all cs a' in (r ∷ rs, a'')

  -- A command on a map, where the database does not fail.
  abbrev pub obey : ℕ → Command → Rows → Reply × Rows
  obey now (insert_token id token) m = elim (m id) [
    | some _ ↦ (inserted (err integrity_error), m)
    | none ↦ (
      inserted (ok tt),
      written id
          (record {
            client_id = id;
            token = some token;
            created_at = some now;
            last_updated_at = some now;
          })
          m,
    )
  ]
  obey now (lookup_token id) m = elim (m id) [
    | none ↦ (found (err lookup_error), m)
    | some r ↦ (
      found (
          ok (record {
            client_id = id;
            encrypted_token = stored r.token;
            created_at = r.created_at;
            last_updated_at = r.last_updated_at;
          })),
      m,
    )
  ]
  obey now (update_token id token) m = elim (m id) [
    | none ↦ (changed (ok 0), m)
    | some r ↦
        (changed (ok 1), written id (record r { token = token; last_updated_at = some now }) m)
  ]

  abbrev pub refused : String → Command → Reply
  refused fault (insert_token _ _) = inserted (err (database_error fault))
  refused fault (lookup_token _) = found (err (database_error fault))
  refused fault (update_token _ _) = changed (err (database_error fault))

  -- The n-th command of the process on a map: one that the database refuses changes nothing.
  abbrev pub serve_rows : ℕ → Command → Rows → Reply × Rows
  serve_rows n c m = elim (w.fault n) [
    | some fault ↦ (refused fault c, m)
    | none ↦ obey (w.utcnow n) c m
  ]

  abbrev pub serve_all : ℕ → List Command → Rows → List Reply × Rows
  serve_all n [] m = ([], m)
  serve_all n (c ∷ cs) m =
      let (r, m') = serve_rows n c m in let (rs, m'') = serve_all (n + 1) cs m' in (r ∷ rs, m'')

-- The map that a table stands for.
abbrev pub Represents : List Row → Rows → Type 0
Represents rows m = (id : String) → find id rows ≡ m id

record IsStep (w : World) (c : Command) (a : App) (m : Rows) : Type 0 where
  reply : (perform w c a).0 ≡ (serve_rows w a.statements c m).0
  represents : Represents (perform w c a).1.tokens (serve_rows w a.statements c m).1
  keyed : IsKeyed (perform w c a).1.tokens
  counted : (perform w c a).1.statements ≡ a.statements + 1

module _ (w : World) (a : App) (m : Rows) (keyed : IsKeyed a.tokens)
    (h : Represents a.tokens m) where
  lookup-IsStep : (id : String) → IsStep w (lookup_token id) a m
  unfolding lookup
  lookup-IsStep id = record {
    reply = ground (arith, h id);
    represents = λ j. ground (arith, h j);
    keyed = ground arith;
    counted = ground arith;
  }

  find-written :
      (r : Row) (j : String)
      → find r.client_id a.tokens ≡ none
      → find j (a.tokens ++ r ∷ []) ≡ written r.client_id r m j
  find-written r j new = elim (Bool-cases (r.client_id == j)) [
    | inl e ↦
        ground (arith, find-append j a.tokens r (ground (arith, eq_iff r.client_id j, e, new)), e)
    | inr e ↦ ground (arith, find-append_ne j a.tokens r, eq_iff r.client_id j, h j, e)
  ]

  insert-IsStep : (id token : String) → IsStep w (insert_token id token) a m
  unfolding insert
  insert-IsStep id token = record {
    reply = ground (arith, h id);
    represents = λ j. ground (arith, h id, h j, find-written row j);
    keyed = ground (arith, keyed, IsKeyed-append a.tokens row);
    counted = ground arith;
  }
    where
      row : Row
      row = record {
        client_id = id;
        token = some token;
        created_at = some (w.utcnow a.statements);
        last_updated_at = some (w.utcnow a.statements);
      }

  update-IsStep : (id : String) (token : Option String) → IsStep w (update_token id token) a m
  unfolding update
  update-IsStep id token = record {
    reply = ground (arith, h id, count_rows-IsKeyed id a.tokens keyed);
    represents = λ j. ground (
      arith,
      h id,
      h j,
      find-update_rows id j token (w.utcnow a.statements) a.tokens,
      eq_iff id j,
    );
    keyed = ground (arith, keyed, IsKeyed-update_rows id token (w.utcnow a.statements) a.tokens);
    counted = ground arith;
  }

perform-IsStep :
    (w : World) (c : Command) (a : App) (m : Rows)
    → IsKeyed a.tokens
    → Represents a.tokens m
    → IsStep w c a m
perform-IsStep w (insert_token id token) a m k h = insert-IsStep w a m k h id token
perform-IsStep w (lookup_token id) a m k h = lookup-IsStep w a m k h id
perform-IsStep w (update_token id token) a m k h = update-IsStep w a m k h id token

-- However the commands are ordered and whichever of them the database refuses: a table with unique
-- identifiers replies to a list of commands as the map that it stands for, and stands for the map's
-- state after them, with identifiers still unique.
pub perform_all-serve_all :
    (w : World) (cs : List Command) (a : App) (m : Rows)
    → IsKeyed a.tokens
    → Represents a.tokens m
    → ((perform_all w cs a).0 ≡ (serve_all w a.statements cs m).0)
      × Represents (perform_all w cs a).1.tokens (serve_all w a.statements cs m).1
      × IsKeyed (perform_all w cs a).1.tokens
perform_all-serve_all w [] a m k h = (refl, h, k)
perform_all-serve_all w (c ∷ cs) a m k h =
    subst
      (λ n.
        let (r, m') = serve_rows w a.statements c m in
        let (rs, m'') = serve_all w n cs m' in
        let (qs, a') = perform_all w cs (perform w c a).1 in
        (((perform w c a).0 ∷ qs) ≡ (r ∷ rs)) × Represents a'.tokens m'' × IsKeyed a'.tokens)
      step.counted
      (combine (
        perform_all-serve_all w cs (perform w c a).1 (serve_rows w a.statements c m).1 step.keyed
          step.represents))
  where
    step : IsStep w c a m
    step = perform-IsStep w c a m k h

    combine :
        {qs rs : List Reply} {P Q : Type 0}
        → (qs ≡ rs) × P × Q
        → (((perform w c a).0 ∷ qs) ≡ ((serve_rows w a.statements c m).0 ∷ rs)) × P × Q
    combine (e, p, q) = (rw (step.reply, e) refl, p, q)
