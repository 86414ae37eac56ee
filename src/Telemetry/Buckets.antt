-- ===== src/Telemetry/Buckets.antt =====
-- src/oauthclientbridge/telemetry/_buckets.py: the bucket boundaries of the histograms; `none` is the
-- infinite one. Seconds of `time` are millionths.
use oauthclientbridge.Base.{
  ℕ, ◌≡◌, refl, Bool, true, false, ◌&&◌, ltb, Option, none, some, List, [], ◌∷◌,
}

abbrev pub time : List (Option ℕ)
time =
    some 100
    ∷ some 550
    ∷ some 1000
    ∷ some 2800
    ∷ some 4600
    ∷ some 6400
    ∷ some 8200
    ∷ some 10000
    ∷ some 28000
    ∷ some 46000
    ∷ some 64000
    ∷ some 82000
    ∷ some 100000
    ∷ some 400000
    ∷ some 700000
    ∷ some 1000000
    ∷ some 4000000
    ∷ some 7000000
    ∷ some 10000000
    ∷ none
    ∷ []

abbrev pub bytes : List (Option ℕ)
bytes =
    some 8
    ∷ some 22
    ∷ some 36
    ∷ some 50
    ∷ some 64
    ∷ some 176
    ∷ some 288
    ∷ some 400
    ∷ some 512
    ∷ some 1408
    ∷ some 2304
    ∷ some 3200
    ∷ some 4096
    ∷ some 11264
    ∷ some 18432
    ∷ some 25600
    ∷ some 32768
    ∷ some 90112
    ∷ some 147456
    ∷ some 204800
    ∷ none
    ∷ []

abbrev pub token_grant_age : List (Option ℕ)
token_grant_age =
    some 3600
    ∷ some 21600
    ∷ some 86400
    ∷ some 259200
    ∷ some 604800
    ∷ some 1209600
    ∷ some 2592000
    ∷ some 5184000
    ∷ some 7776000
    ∷ some 10368000
    ∷ some 12960000
    ∷ some 15552000
    ∷ some 18144000
    ∷ some 31536000
    ∷ none
    ∷ []

abbrev below : Option ℕ → Option ℕ → Bool
below none _ = false
below (some m) none = true
below (some m) (some n) = ltb m n

abbrev is_increasing : List (Option ℕ) → Bool
is_increasing [] = true
is_increasing (x ∷ []) = true
is_increasing (x ∷ y ∷ rest) = below x y && is_increasing (y ∷ rest)

-- Each boundary is below the next, and the last is infinite.
increasing :
    (is_increasing time ≡ true)
    × (is_increasing bytes ≡ true)
    × (is_increasing token_grant_age ≡ true)
increasing = (refl, refl, refl)
