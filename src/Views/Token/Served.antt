-- ===== src/Views/Token/Served.antt =====
-- src/oauthclientbridge/views.py, `token`: what a refresh gives out and what it stores.
use oauthclientbridge.Base.{
  ◌≡◌, ◌∙◌, sym, ap, String, Bool, true, false, Option, none, some, arith, eq_iff, ◌==◌, not, ◌||◌,
  if◌then◌else◌, Bool-cases, ◌⊎◌, Option-cases, inl, inr, any, [], ◌∷◌,
}
use oauthclientbridge.Base.Dict.{get, has, put, get-keep, get-put}
use oauthclientbridge.Base.Json.{Json, Object, same, same_iff}
use oauthclientbridge.Web.{scrub_refresh_token}
use oauthclientbridge.Views.Token.{served, modified_by, with_scope, same_object, same_value, covers}

abbrev pub or_else : Option Json → Option Json → Option Json
or_else none v = v
or_else (some v) _ = some v

get-with_scope :
    (k : String) (stored answer : Object)
    → get k (with_scope stored answer)
      ≡ (if "scope" == k then or_else (get "scope" answer) (get "scope" stored) else get k answer)
unfolding with_scope has
get-with_scope k stored answer = elim (Option-cases (get "scope" answer)) [
  | inl e ↦ elim (Option-cases (get "scope" stored)) [
    | inl n ↦ ground (arith, eq_iff "scope" k)
    | inr (v, n) ↦ ground (arith, get-put "scope" k v answer, eq_iff "scope" k)
  ]
  | inr (v, e) ↦ ground (arith, eq_iff "scope" k)
]

-- What the client gets of a refreshed token: the provider's answer without its refresh token, and
-- with the stored scope where the answer has none.
pub get-served :
    (k : String) (stored answer : Object)
    → get k (served stored answer) ≡ (
        if "refresh_token" == k
        then none
        else if "scope" == k
        then or_else (get "scope" answer) (get "scope" stored)
        else get k answer)
unfolding served
get-served k stored answer = ground (
  arith,
  get-keep (λ j. not ("refresh_token" == j)) k (with_scope stored answer),
  get-with_scope k stored answer,
)

abbrev pub is_volatile : String → Bool
is_volatile k = ("access_token" == k) || ("expires_in" == k) || ("token_type" == k)

get-scrub :
    (k : String) (d : Object)
    → get k (scrub_refresh_token d) ≡ (if is_volatile k then none else get k d)
unfolding scrub_refresh_token
get-scrub k d = ground (
  arith,
  get-keep
      (λ j. not (
        any (λ (removed : String). removed == j)
          ("access_token" ∷ "expires_in" ∷ "token_type" ∷ [])))
      k d,
)

module _ (stored answer : Object) where
  modified_by-none :
      get "refresh_token" answer ≡ none → modified_by stored answer ≡ scrub_refresh_token stored
  unfolding modified_by
  modified_by-none h = ground arith

  modified_by-some :
      (v : Json)
      → get "refresh_token" answer ≡ some v
      → modified_by stored answer ≡ put "refresh_token" v (scrub_refresh_token stored)
  unfolding modified_by
  modified_by-some v h = ground arith

-- What the table holds after a refresh: the new refresh token where the provider rotated it and
-- else the old one, never the access token, its type or its lifetime, and of the rest what it held.
pub get-modified_by :
    (k : String) (stored answer : Object)
    → get k (modified_by stored answer) ≡ (
        if "refresh_token" == k
        then or_else (get "refresh_token" answer) (get "refresh_token" stored)
        else if is_volatile k
        then none
        else get k stored)
get-modified_by k stored answer = elim (Option-cases (get "refresh_token" answer)) [
  | inl e ↦
      rw (modified_by-none stored answer e, e) (kept_or_old (Bool-cases ("refresh_token" == k)))
  | inr (v, e) ↦
      rw (modified_by-some stored answer v e, e)
        (ground (
          arith,
          get-put "refresh_token" k v (scrub_refresh_token stored),
          get-scrub k stored,
          eq_iff "refresh_token" k,
        ))
]
  where
    kept_or_old :
        ("refresh_token" == k ≡ true) ⊎ ("refresh_token" == k ≡ false)
        → get k (scrub_refresh_token stored) ≡ (
            if "refresh_token" == k
            then get "refresh_token" stored
            else if is_volatile k
            then none
            else get k stored)
    kept_or_old (inl e) = rw (← (eq_iff "refresh_token" k).0 e) (get-scrub "refresh_token" stored)
    kept_or_old (inr e) = rw e (get-scrub k stored)

same_value-some : (x : Option Json) (v : Json) → same_value x v ≡ true → x ≡ some v
same_value-some none v h = absurd (ground (arith, h))
same_value-some (some u) v h = ap some ((same_iff u v).0 h)

covers-get :
    (k : String) (v : Json) (a b : Object) → covers a b ≡ true → get k b ≡ some v → get k a ≡ some v
unfolding get
covers-get k v a [] h e = absurd (ground (arith, e))
covers-get k v a ((j, u) ∷ rest) h e = elim (Bool-cases (j == k)) [
  | inl same ↦ ground (arith, (eq_iff j k).0 same, same_value-some (get j a) u (ground (arith, h)))
  | inr other ↦ covers-get k v a rest (ground (arith, h)) (ground (arith, e))
]

-- Dictionaries that compare as equal have the same value at every key.
pub same_object-get : (a b : Object) → same_object a b ≡ true → (k : String) → get k a ≡ get k b
unfolding same_object
same_object-get a b h k = elim (Option-cases (get k b)) [
  | inr (v, e) ↦ covers-get k v a b (ground (arith, h)) e ∙ sym e
  | inl e ↦ elim (Option-cases (get k a)) [
    | inl n ↦ n ∙ sym e
    | inr (v, n) ↦ absurd (cc (covers-get k v b a (ground (arith, h)) n))
  ]
]
