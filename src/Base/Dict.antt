-- ===== src/Base/Dict.antt =====
-- A Python dictionary with text keys: an association list in insertion order. A key is looked up
-- at its first entry; `put` writes in place, or at the end for a new key.
use Prim.Native.String.{String}
use mathlib.Core.Path.{◌≡◌, refl}
use mathlib.Core.Bool.{Bool, true, false}
use mathlib.Core.Logic.{inl, inr}
use mathlib.Core.Option.{Option, none, some}
use mathlib.Core.List.{List, [], ◌∷◌}
use native.Mathlib.Omega.{arith}
use text.Mathlib.Text.{◌==◌}
use text.Mathlib.TextEquality.{eq_iff}
use text.Mathlib.TextPositions.{eq_refl}
use oauthclientbridge.Base.Tests.{if◌then◌else◌, Bool-cases}

abbrev pub Dict {ℓ} : Type ℓ → Type ℓ
Dict V = List (String × V)

abbrev pub is_some {ℓ} : {A : Type ℓ} → Option A → Bool
is_some none = false
is_some (some _) = true

module _ {ℓ} {V : Type ℓ} where
  -- `d.get(k)`
  unfoldable pub get : String → Dict V → Option V
  get k [] = none
  get k ((j, v) ∷ d) = if j == k then some v else get k d

  -- `k in d`
  unfoldable pub has : String → Dict V → Bool
  unfolding get
  has k d = is_some (get k d)

  -- `d[k] = v`
  unfoldable pub put : String → V → Dict V → Dict V
  put k v [] = (k, v) ∷ []
  put k v ((j, w) ∷ d) = if j == k then (k, v) ∷ d else (j, w) ∷ put k v d

  -- `{k: v for k, v in d.items() if p(k)}`
  unfoldable pub keep : (String → Bool) → Dict V → Dict V
  keep p [] = []
  keep p ((j, v) ∷ d) = let rest = keep p d in if p j then (j, v) ∷ rest else rest

  pub get-put :
      (k j : String) (v : V) (d : Dict V) → get j (put k v d) ≡ (if k == j then some v else get j d)
  unfolding get put
  get-put k j v [] = refl
  get-put k j v ((i, w) ∷ d) = ground (arith, eq_iff k j, eq_iff i k, eq_iff i j, get-put k j v d)

  pub get-put_self : (k : String) (v : V) (d : Dict V) → get k (put k v d) ≡ some v
  get-put_self k v d = simp (get-put, eq_refl)

  pub get-keep :
      (p : String → Bool) (k : String) (d : Dict V)
      → get k (keep p d) ≡ (if p k then get k d else none)
  unfolding get keep
  get-keep p k [] = ground arith
  get-keep p k ((i, w) ∷ d) = elim (Bool-cases (i == k)) [
    | inl e ↦ rw ((eq_iff i k).0 e) (ground (arith, get-keep p k d, eq_refl k))
    | inr e ↦ ground (arith, get-keep p k d)
  ]

pub ruleset dict_laws = (get-put, get-keep, eq_refl)
