-- ===== src/Base/Json.antt =====
-- The values of a decoded JSON document, as far as the program looks at them: it tests them,
-- compares them and passes them on.
use Prim.Native.Nat.{ℕ}
use Prim.Native.String.{String}
use mathlib.Core.Path.{◌≡◌}
use mathlib.Core.Logic.{◌↔◌}
use mathlib.Core.Bool.{Bool, true, false, ◌&&◌, not}
use mathlib.Core.Option.{Option, none, some}
use native.Mathlib.Omega.{arith}
use text.Mathlib.Text.{◌==◌}
use text.Mathlib.TextEquality.{eq_iff}
use oauthclientbridge.Base.Tests.{eqb}
use oauthclientbridge.Base.Dict.{Dict}

-- `nested held text` is a list or an object inside another value: the program never looks into
-- it, so it is kept as whether it holds anything and its text. Numbers are the non-negative
-- integers.
pub data Json : Type 0 where
  null : Json
  boolean : Bool → Json
  num : ℕ → Json
  str : String → Json
  nested : Bool → String → Json

-- `bool(v)`
unfoldable pub truthy : Json → Bool
truthy null = false
truthy (boolean b) = b
truthy (num n) = not (eqb n 0)
truthy (str s) = not (s == "")
truthy (nested held _) = held

abbrev same_bool : Bool → Bool → Bool
same_bool true b = b
same_bool false b = not b

-- `v == w`
unfoldable pub same : Json → Json → Bool
same null null = true
same (boolean a) (boolean b) = same_bool a b
same (num m) (num n) = eqb m n
same (str s) (str t) = s == t
same (nested h s) (nested k t) = same_bool h k && (s == t)
same _ _ = false

pub same_iff : (v w : Json) → (same v w ≡ true) ↔ (v ≡ w)
unfolding same
same_iff (str s) (str t) = ground (arith, eq_iff s t)
same_iff (nested h s) (nested k t) = ground (arith, eq_iff s t)
same_iff v w = ground arith

-- `OAuthResponse`, a decoded object.
abbrev pub Object : Type 0
Object = Dict Json

-- `d.get(k)` where the value None and a missing key are not told apart.
abbrev pub or_null : Option Json → Json
or_null none = null
or_null (some v) = v
