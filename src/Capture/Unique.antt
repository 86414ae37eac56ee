-- ===== src/Capture/Unique.antt =====
-- src/pytest_otel_capture/_helpers.py: what the search for one span promises.
use oauthclientbridge.Base.{
  ℕ, ◌+◌, ◌≡◌, ◌↔◌, ◌≤◌, refl, arith, String, Bool, true, Option, none, some, List, [], ◌∷◌, length,
  Bool-cases, inl, inr, if◌then◌else◌,
}
use oauthclientbridge.Base.Json.{Object}
use oauthclientbridge.Base.Result.{ok, err}
use oauthclientbridge.Capture.{value_error, Collected, select, the_one, get_span, span_matches}

-- How many elements pass.
unfoldable pub count : {A : Type 0} → (A → Bool) → List A → ℕ
count p [] = 0
count p (x ∷ xs) = (if p x then 1 else 0) + count p xs

module _ {A : Type 0} (p : A → Bool) where
  length-select : (xs : List A) → length (select p xs) ≡ count p xs
  unfolding select count
  length-select [] = refl
  length-select (x ∷ xs) = ground (arith, length-select xs)

  abbrev Passing : List A → Type 0
  Passing [] = Unit
  Passing (x ∷ xs) = (p x ≡ true) × Passing xs

  select-Passing : (xs : List A) → Passing (select p xs)
  unfolding select
  select-Passing [] = tt
  select-Passing (x ∷ xs) = elim (Bool-cases (p x)) [
    | inl here ↦ rw (select, here) (here, select-Passing xs)
    | inr there ↦ rw (select, there) (select-Passing xs)
  ]

  the_one_lem :
      (xs : List A)
      → Passing xs
      → ((the_one xs ≡ ok none) ↔ (length xs ≡ 0))
        × ((the_one xs ≡ err value_error) ↔ (2 ≤ length xs))
        × ((x : A) → the_one xs ≡ ok (some x) → (p x ≡ true) × (length xs ≡ 1))
  unfolding the_one
  the_one_lem [] h = ground arith
  the_one_lem (x ∷ []) h = ground (arith, h)
  the_one_lem (x ∷ y ∷ xs) h = ground arith

-- The search for one span says none where no span matches, raises ValueError where several do, and
-- else gives the one that does.
pub get_span_lem :
    (spans : List Collected) (name : String) (attributes : Option Object) (scope : Option String)
    → let p = span_matches name attributes scope in
      ((get_span spans name attributes scope ≡ ok none) ↔ (count p spans ≡ 0))
      × ((get_span spans name attributes scope ≡ err value_error) ↔ (2 ≤ count p spans))
      × ((x : Collected)
          → get_span spans name attributes scope ≡ ok (some x)
          → (p x ≡ true) × (count p spans ≡ 1))
unfolding get_span
get_span_lem spans name attributes scope =
    rw (← length-select (span_matches name attributes scope) spans) (
      the_one_lem (span_matches name attributes scope)
        (select (span_matches name attributes scope) spans)
        (select-Passing (span_matches name attributes scope) spans))
