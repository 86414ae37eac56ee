-- ===== src/Base/Text.antt =====
-- Decimal text, and the numbers that Python reads from one.
use Prim.Native.Nat.{ℕ, zero, suc, ◌/◌, ◌%◌}
use Prim.Native.String
use Prim.Native.String.{String}
use mathlib.Core.Bool.{Bool, ◌&&◌, ◌||◌}
use mathlib.Core.List.{List, [], ◌∷◌}
use oauthclientbridge.Base.Tests.{ltb, leb, eqb, if◌then◌else◌}

-- Floats (seconds, tokens, factors) are numbers of millionths.
abbrev pub unit : ℕ
unit = 1000000

digit : ℕ → List String → String
digit n [] = ""
digit zero (s ∷ ss) = s
digit (suc n) (s ∷ ss) = digit n ss

abbrev digits : List String
digits = "0" ∷ "1" ∷ "2" ∷ "3" ∷ "4" ∷ "5" ∷ "6" ∷ "7" ∷ "8" ∷ "9" ∷ []

decimal_from : ℕ → ℕ → String → String
unfolding digit
decimal_from zero n acc = acc
decimal_from (suc fuel) n acc =
    let longer = decimal_from fuel (n / 10) (String.◌++◌ (digit (n % 10) digits) acc) in
    if ltb n 10 then String.◌++◌ (digit n digits) acc else longer

-- `str(n)`; a number has at most as many digits as it counts, and one.
unfoldable pub decimal : ℕ → String
unfolding decimal_from
decimal n = decimal_from (suc n) n ""

-- `str.isspace` of a code point, and `\s` of a regular expression.
unfoldable pub is_space : ℕ → Bool
is_space c =
    leb 9 c && leb c 13
    || leb 28 c && leb c 32
    || eqb c 133
    || eqb c 160
    || eqb c 5760
    || leb 8192 c && leb c 8202
    || eqb c 8232
    || eqb c 8233
    || eqb c 8239
    || eqb c 8287
    || eqb c 12288
