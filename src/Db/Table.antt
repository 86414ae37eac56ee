-- ===== src/Db/Table.antt =====
-- src/oauthclientbridge/db.py: what the operations do to the rows.
use oauthclientbridge.Base.{
  Bool, true, false, not, ℕ, ◌+◌, ◌==◌, ◌≡◌, ◌≢◌, subst, refl, eq_iff, String, Option, none, some,
  List, [], ◌∷◌, ◌++◌, arith, length, Bool-cases, inl, inr, if◌then◌else◌,
}
use oauthclientbridge.App.{Row}
use oauthclientbridge.Base.Dict.{is_some}
use oauthclientbridge.Db.{find, update_rows, count_rows, count_states}

-- No two rows have the same identifier.
abbrev pub IsKeyed : List Row → Type 0
IsKeyed [] = Unit
IsKeyed (r ∷ rs) = (find r.client_id rs ≡ none) × IsKeyed rs

pub find-append :
    (id : String) (rows : List Row) (r : Row)
    → find id rows ≡ none
    → find id (rows ++ r ∷ []) ≡ (if r.client_id == id then some r else none)
unfolding find
find-append id [] r h = refl
find-append id (x ∷ xs) r h = ground (arith, find-append id xs r)

pub find-append_ne :
    (id : String) (rows : List Row) (r : Row)
    → r.client_id ≢ id
    → find id (rows ++ r ∷ []) ≡ find id rows
unfolding find
find-append_ne id [] r h = ground (arith, eq_iff r.client_id id)
find-append_ne id (x ∷ xs) r h = ground (arith, find-append_ne id xs r h)

pub IsKeyed-append :
    (rows : List Row) (r : Row)
    → IsKeyed rows
    → find r.client_id rows ≡ none
    → IsKeyed (rows ++ r ∷ [])
unfolding find
IsKeyed-append [] r h e = (refl, tt)
IsKeyed-append (x ∷ xs) r (h, k) e = (
  ground (
    arith,
    find-append_ne x.client_id xs r,
    eq_iff x.client_id r.client_id,
    eq_iff r.client_id x.client_id,
  ),
  IsKeyed-append xs r k (ground arith),
)

-- An update writes the token and the time of the row with the identifier, and no other row.
pub find-update_rows :
    (id other : String) (token : Option String) (now : ℕ) (rows : List Row)
    → find other (update_rows id token now rows) ≡ (
        if id == other
        then elim (find other rows) as (λ _. Option Row) [
          | none ↦ none
          | some r ↦ some (record r { token = token; last_updated_at = some now })
        ]
        else find other rows)
unfolding find update_rows
find-update_rows id other token now [] = ground arith
find-update_rows id other token now (x ∷ xs) = ground (
  arith,
  eq_iff id other,
  eq_iff x.client_id id,
  eq_iff x.client_id other,
  find-update_rows id other token now xs,
)

-- How many rows an update reports: one for a known identifier, where identifiers are unique.
pub count_rows-IsKeyed :
    (id : String) (rows : List Row)
    → IsKeyed rows
    → count_rows id rows ≡ (elim (find id rows) as (λ _. ℕ) [ none ↦ 0 | some _ ↦ 1 ])
unfolding find count_rows
count_rows-IsKeyed id [] h = refl
count_rows-IsKeyed id (x ∷ xs) (h, k) = elim (Bool-cases (x.client_id == id)) [
  | inl e ↦
      rw (e, count_rows-IsKeyed id xs k)
        (rw (subst (λ j. find j xs ≡ none) ((eq_iff x.client_id id).0 e) h))
  | inr e ↦ rw (e, count_rows-IsKeyed id xs k) (omega arith)
]

keys-update_rows :
    (id other : String) (token : Option String) (now : ℕ) (rows : List Row)
    → find other rows ≡ none
    → find other (update_rows id token now rows) ≡ none
unfolding find update_rows
keys-update_rows id other token now [] h = refl
keys-update_rows id other token now (x ∷ xs) h =
    ground (arith, keys-update_rows id other token now xs)

pub IsKeyed-update_rows :
    (id : String) (token : Option String) (now : ℕ) (rows : List Row)
    → IsKeyed rows
    → IsKeyed (update_rows id token now rows)
unfolding update_rows
IsKeyed-update_rows id token now [] h = tt
IsKeyed-update_rows id token now (x ∷ xs) (h, k) = (
  ground (arith, keys-update_rows id x.client_id token now xs h),
  IsKeyed-update_rows id token now xs k,
)

-- Every stored token is counted once, as present or as revoked.
pub count_states_total :
    (rows : List Row) → (count_states rows).present + (count_states rows).revoked ≡ length rows
unfolding count_states
count_states_total [] = refl
count_states_total (x ∷ xs) = ground (arith, count_states_total xs)

abbrev same_truth : Bool → Bool → Bool
same_truth a true = a
same_truth a false = not a

-- The rows that hold a token, or those that hold none.
unfoldable pub having : Bool → List Row → List Row
having b [] = []
having b (r ∷ rs) =
    let rest = having b rs in if same_truth (is_some r.token) b then r ∷ rest else rest

-- What is counted is how many rows hold a token and how many hold none.
pub count_states-having :
    (rows : List Row)
    → count_states rows
      ≡ record { present = length (having true rows); revoked = length (having false rows) }
unfolding count_states having
count_states-having [] = refl
count_states-having (x ∷ xs) = ground (arith, count_states-having xs)

pub having_total :
    (rows : List Row) → length (having true rows) + length (having false rows) ≡ length rows
unfolding having
having_total [] = refl
having_total (x ∷ xs) = ground (arith, having_total xs)
