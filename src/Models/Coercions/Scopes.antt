-- ===== src/Models/Coercions/Scopes.antt =====
-- src/oauthclientbridge/models.py, `_coerce_scope_to_set`: which scopes a text holds.
use oauthclientbridge.Base.{
  ℕ, ◌≡◌, ◌≢◌, ◌∙◌, refl, ap, arith, eqb, eqb_iff, true, false, ◌↔◌, List, [], ◌∷◌, ◌++◌, All,
  Bool-cases, inl, inr,
}
use oauthclientbridge.Models.Coercions.{
  text_value, set_value, coerce_scope_to_set, split, glue, same_text, contains, to_set,
}

-- The words behind one another, with a blank between them.
abbrev pub behind : List (List ℕ) → List ℕ
behind [] = []
behind (word ∷ words) = (32 ∷ word) ++ behind words

abbrev pub join : List (List ℕ) → List ℕ
join [] = []
join (word ∷ words) = word ++ behind words

abbrev pub IsUnbroken : List ℕ → Type 0
IsUnbroken = All (λ c. c ≢ 32)

join-glue : (c : ℕ) (words : List (List ℕ)) → join (glue c words) ≡ c ∷ join words
unfolding glue
join-glue c [] = refl
join-glue c (word ∷ words) = refl

glue-ne-nil : (c : ℕ) (words : List (List ℕ)) → glue c words ≢ []
unfolding glue
glue-ne-nil c [] e = absurd (ground (arith, e))
glue-ne-nil c (word ∷ words) e = absurd (ground (arith, e))

split-ne-nil : (s : List ℕ) → split s ≢ []
unfolding split
split-ne-nil [] e = absurd (ground (arith, e))
split-ne-nil (c ∷ cs) e = absurd (ground (arith, e, glue-ne-nil c (split cs)))

behind-join : (words : List (List ℕ)) → words ≢ [] → behind words ≡ 32 ∷ join words
behind-join [] h = absurd (h refl)
behind-join (word ∷ words) h = refl

join-split : (s : List ℕ) → join (split s) ≡ s
unfolding split
join-split [] = refl
join-split (c ∷ cs) = elim (Bool-cases (eqb c 32)) [
  | inl blank ↦ rw blank (
      behind-join (split cs) (split-ne-nil cs)
      ∙ (ap (λ rest. 32 ∷ rest) (join-split cs) ∙ ground (arith, blank)))
  | inr other ↦ rw other (join-glue c (split cs) ∙ ap (λ rest. c ∷ rest) (join-split cs))
]

glue-IsUnbroken :
    (c : ℕ) (words : List (List ℕ)) → c ≢ 32 → All IsUnbroken words → All IsUnbroken (glue c words)
unfolding glue
glue-IsUnbroken c [] h k = ((h, tt), tt)
glue-IsUnbroken c (word ∷ words) h k = ((h, k.0), k.1)

split-IsUnbroken : (s : List ℕ) → All IsUnbroken (split s)
unfolding split
split-IsUnbroken [] = (tt, tt)
split-IsUnbroken (c ∷ cs) = elim (Bool-cases (eqb c 32)) [
  | inl blank ↦ rw blank (tt, split-IsUnbroken cs)
  | inr other ↦
      rw other (glue-IsUnbroken c (split cs) (λ e. ground (arith, other, e)) (split-IsUnbroken cs))
]

same_text_iff : (a b : List ℕ) → (same_text a b ≡ true) ↔ (a ≡ b)
unfolding same_text
same_text_iff [] [] = (λ _. refl, λ _. refl)
same_text_iff [] (x ∷ b) = ground arith
same_text_iff (x ∷ a) [] = ground arith
same_text_iff (x ∷ a) (y ∷ b) = ground (arith, same_text_iff a b, eqb_iff x y)

contains-to_set :
    (word : List ℕ) (words : List (List ℕ)) → contains word (to_set words) ≡ contains word words
unfolding contains to_set
contains-to_set word [] = refl
contains-to_set word (v ∷ words) = ground (arith, contains-to_set word words, same_text_iff word v)

-- The words are different.
abbrev pub AreDifferent : List (List ℕ) → Type 0
AreDifferent [] = Unit
AreDifferent (word ∷ words) = (contains word words ≡ false) × AreDifferent words

to_set-AreDifferent : (words : List (List ℕ)) → AreDifferent (to_set words)
unfolding to_set
to_set-AreDifferent [] = tt
to_set-AreDifferent (word ∷ words) = elim (Bool-cases (contains word words)) [
  | inl known ↦ rw known (to_set-AreDifferent words)
  | inr new ↦ rw new (contains-to_set word words ∙ new, to_set-AreDifferent words)
]

-- The scope of a response becomes the set of the words that its text joins by single blanks: none of
-- them holds a blank, each stands in the set once, and no other text does.
pub coerce_scope_to_set_lem :
    (s : List ℕ)
    → (words : List (List ℕ)) × (set : List (List ℕ)) × (coerce_scope_to_set (text_value s)
        ≡ set_value set)
      × (join words ≡ s)
      × All IsUnbroken words
      × AreDifferent set
      × ((word : List ℕ) → contains word set ≡ contains word words)
unfolding coerce_scope_to_set
coerce_scope_to_set_lem s = (
  split s,
  to_set (split s),
  refl,
  join-split s,
  split-IsUnbroken s,
  to_set-AreDifferent (split s),
  λ word. contains-to_set word (split s),
)
