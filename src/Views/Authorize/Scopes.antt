-- ===== src/Views/Authorize/Scopes.antt =====
-- src/oauthclientbridge/views.py, `_requested_scope_is_allowed`: which scopes are let through.
use oauthclientbridge.Base.{
  ℕ, ◌≡◌, ◌≢◌, ◌↔◌, ◌++◌, refl, ap, arith, String, true, false, some, List, [], ◌∷◌, ◌⊎◌, All, all,
  any, codes, eqb_iff,
}
use oauthclientbridge.Base.Text.{is_space}
use oauthclientbridge.Views.Authorize.{scan, close, split, same_codes, requested_scope_is_allowed}

same_codes_iff : (a b : List ℕ) → (same_codes a b ≡ true) ↔ (a ≡ b)
unfolding same_codes
same_codes_iff [] [] = (λ _. refl, λ _. refl)
same_codes_iff [] (x ∷ b) = ground arith
same_codes_iff (x ∷ a) [] = ground arith
same_codes_iff (x ∷ a) (y ∷ b) = ground (arith, same_codes_iff a b, eqb_iff x y)

-- A word: characters that are no spaces, at least one.
abbrev pub IsWord : List ℕ → Type 0
IsWord word = (word ≢ []) × All (λ c. is_space c ≡ false) word

-- Text from words, each behind a space.
abbrev pub spaced : ℕ → List (List ℕ) → List ℕ
spaced space [] = []
spaced space (word ∷ words) = space ∷ word ++ spaced space words

scan-word :
    (word rest : List ℕ)
    → All (λ c. is_space c ≡ false) word
    → scan (word ++ rest) ≡ (word ++ (scan rest).0, (scan rest).1)
unfolding scan
scan-word [] rest h = refl
scan-word (c ∷ word) rest (p, h) = rw (p, scan-word word rest h) refl

append-nil : (word : List ℕ) → word ++ [] ≡ word
append-nil [] = refl
append-nil (c ∷ word) = ap (λ rest. c ∷ rest) (append-nil word)

close-word : (word : List ℕ) (words : List (List ℕ)) → word ≢ [] → close word words ≡ word ∷ words
unfolding close
close-word [] words h = absurd (h refl)
close-word (c ∷ word) words h = refl

module _ (space : ℕ) (blank : is_space space ≡ true) where
  scan-spaced : (words : List (List ℕ)) → All IsWord words → scan (spaced space words) ≡ ([], words)
  unfolding scan
  scan-spaced [] h = refl
  scan-spaced (word ∷ words) ((full, solid), h) =
      rw
        (
          blank,
          scan-word word (spaced space words) solid,
          scan-spaced words h,
          append-nil word,
          close-word word words full,
        )
        refl

  -- `split` gives back the words of a text that has one blank between them.
  pub split-joined :
      (word : List ℕ) (words : List (List ℕ))
      → IsWord word
      → All IsWord words
      → split (word ++ spaced space words) ≡ word ∷ words
  unfolding split
  split-joined word words (full, solid) h =
      rw
        (
          scan-word word (spaced space words) solid,
          scan-spaced words h,
          append-nil word,
          close-word word words full,
        )
        refl

-- One of the configured scopes.
abbrev pub IsListed : List String → List ℕ → Type 0
IsListed [] word = ⊥
IsListed (scope ∷ allowed) word = (word ≡ codes scope) ⊎ IsListed allowed word

any_iff :
    (word : List ℕ) (allowed : List String)
    → (any (λ scope. same_codes word (codes scope)) allowed ≡ true) ↔ IsListed allowed word
any_iff word [] = ground arith
any_iff word (scope ∷ allowed) =
    ground (arith, any_iff word allowed, same_codes_iff word (codes scope))

all_iff :
    (allowed : List String) (words : List (List ℕ))
    → (all (λ word. any (λ scope. same_codes word (codes scope)) allowed) words ≡ true)
      ↔ All (IsListed allowed) words
all_iff allowed [] = ground arith
all_iff allowed (word ∷ words) = ground (arith, any_iff word allowed, all_iff allowed words)

-- A requested scope, written as words with one blank between them, is let through exactly if every
-- word is one of the configured scopes, where scopes are configured.
pub requested_scope_is_allowed_iff :
    (space : ℕ) (word : List ℕ) (words : List (List ℕ)) (allowed : List String)
    → is_space space ≡ true
    → IsWord word
    → All IsWord words
    → (requested_scope_is_allowed (word ++ spaced space words) (some allowed) ≡ true)
      ↔ All (IsListed allowed) (word ∷ words)
unfolding requested_scope_is_allowed
requested_scope_is_allowed_iff space word words allowed blank h k =
    rw (split-joined space blank word words h k) (all_iff allowed (word ∷ words))
