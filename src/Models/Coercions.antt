-- ===== src/Models/Coercions.antt =====
-- src/oauthclientbridge/models.py: what is done to the values of a token response before they are
-- validated, and how its secrets are written as JSON. A text is its code points, and a set the list of
-- its members.
pub mod Scopes
use oauthclientbridge.Base.{
  ℕ, ◌/◌, eqb, String, Bool, true, false, ◌&&◌, ◌||◌, Option, none, some, List, [], ◌∷◌,
  if◌then◌else◌,
}
use oauthclientbridge.Base.Text.{unit}

-- A value as Python has decoded it, as far as the validators tell values apart.
pub data Value : Type 0 where
  none_value other_value : Value
  int_value : ℕ → Value
  float_value : ℕ → Value
  text_value : List ℕ → Value
  set_value : List (List ℕ) → Value

-- `_coerce_float_to_int`
unfoldable pub coerce_float_to_int : Value → Value
coerce_float_to_int (float_value v) = int_value (v / unit)
coerce_float_to_int v = v

-- `_normalize_token_type_to_lowercase`, by `str.lower`.
unfoldable pub normalize_token_type_to_lowercase : (List ℕ → List ℕ) → Value → Value
normalize_token_type_to_lowercase lower (text_value s) = text_value (lower s)
normalize_token_type_to_lowercase lower v = v

glue : ℕ → List (List ℕ) → List (List ℕ)
glue c [] = (c ∷ []) ∷ []
glue c (word ∷ words) = (c ∷ word) ∷ words

-- `text.split(" ")`
unfoldable pub split : List ℕ → List (List ℕ)
unfolding glue
split [] = [] ∷ []
split (c ∷ cs) = let rest = split cs in if eqb c 32 then [] ∷ rest else glue c rest

unfoldable pub same_text : List ℕ → List ℕ → Bool
same_text [] [] = true
same_text (c ∷ cs) (d ∷ ds) = eqb c d && same_text cs ds
same_text _ _ = false

-- `word in words`
unfoldable pub contains : List ℕ → List (List ℕ) → Bool
unfolding same_text
contains word [] = false
contains word (v ∷ words) = same_text word v || contains word words

-- `set(words)`
unfoldable pub to_set : List (List ℕ) → List (List ℕ)
unfolding contains
to_set [] = []
to_set (word ∷ words) = let rest = to_set words in if contains word words then rest else word ∷ rest

-- `_coerce_scope_to_set`
unfoldable pub coerce_scope_to_set : Value → Value
unfolding to_set split
coerce_scope_to_set (text_value s) = set_value (to_set (split s))
coerce_scope_to_set v = v

-- `pydantic.SecretStr`
pub record SecretStr : Type 0 where
  pub get_secret_value : String

-- `_dump_secret_in_json_mode`
unfoldable pub dump_secret_in_json_mode : Option SecretStr → Option String
dump_secret_in_json_mode none = none
dump_secret_in_json_mode (some secret) = some secret.get_secret_value
