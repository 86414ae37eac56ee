-- ===== src/Base/Result.antt =====
-- Python code that changes a state and may raise. What was written before a raise stays written.

use oauthclientbridge.Base.{◌≡◌, ◌⊎◌, inl, inr, refl}

-- `E` is what may be raised.
pub data Result {ℓ κ} (E : Type ℓ) (A : Type κ) : Type (ℓ ⊔ κ) where
  ok : A → Result E A
  err : E → Result E A

pub Result-cases {ℓ} :
    {E A : Type ℓ} (r : Result E A) → ((a : A) × (r ≡ ok a)) ⊎ ((e : E) × (r ≡ err e))
Result-cases (ok a) = inl (a, refl)
Result-cases (err e) = inr (e, refl)

abbrev pub Exec {ℓ} : Type ℓ → Type ℓ → Type ℓ → Type ℓ
Exec S E A = S → Result E A × S

module _ {ℓ} {S E A : Type ℓ} where
  abbrev pub pure : A → Exec S E A
  pure a s = (ok a, s)

  abbrev pub raise : E → Exec S E A
  raise e s = (err e, s)

  abbrev pub gets : (S → A) → Exec S E A
  gets f s = (ok (f s), s)

  abbrev pub lift : Result E A → Exec S E A
  lift r s = (r, s)

module _ {ℓ} {S E A B : Type ℓ} where
  abbrev pub continue : Result E A → (A → Exec S E B) → Exec S E B
  continue (ok a) f s = f a s
  continue (err e) f s = (err e, s)

  infixl 5 ◌>>=◌ ◌>>◌
  abbrev pub ◌>>=◌ : Exec S E A → (A → Exec S E B) → Exec S E B
  ◌>>=◌ m f s = let (r, s') = m s in continue r f s'

  abbrev pub ◌>>◌ : Exec S E A → Exec S E B → Exec S E B
  m >> n = m >>= λ _. n

module _ {ℓ κ} {S E A : Type ℓ} (Q : A → S → Type κ) (R : S → Type κ) where
  abbrev pub Ends : Result E A × S → Type κ
  Ends (ok a, s) = Q a s
  Ends (err e, s) = R s

-- What holds of the value and the state after a run, and of the state after a raise.
pub record Post {ℓ κ} {S E A : Type ℓ} (Q : A → S → Type κ) (R : S → Type κ) (x : Result E A × S)
    : Type κ where
  pub at : Ends Q R x

module _ {ℓ κ} {S E A B : Type ℓ} {P : A → S → Type κ} {Q : B → S → Type κ} {R : S → Type κ} where
  Post-continue :
      (r : Result E A) (s : S) (f : A → Exec S E B)
      → Post P R (r, s)
      → ((a : A) (s' : S) → P a s' → Post Q R (f a s'))
      → Post Q R (continue r f s)
  Post-continue (ok a) s f h k = k a s h.at
  Post-continue (err e) s f h k = record { at = h.at }

  -- The rule for a step and what follows it.
  pub Post-bind :
      (m : Exec S E A) (f : A → Exec S E B) (s : S)
      → Post P R (m s)
      → ((a : A) (s' : S) → P a s' → Post Q R (f a s'))
      → Post Q R ((m >>= f) s)
  Post-bind m f s h k = Post-continue (m s).0 (m s).1 f h k

module _ {ℓ κ} {S E A B : Type ℓ} {Q : B → S → Type κ} {R : S → Type κ} where
  -- The rule for a check that changes nothing.
  pub Post-checked :
      (r : Result E A) (m : Exec S E B) (s : S)
      → R s
      → Post Q R (m s)
      → Post Q R (continue r (λ _. m) s)
  Post-checked (ok a) m s h k = k
  Post-checked (err e) m s h k = record { at = h }

module _ {ℓ κ ι} {S E A : Type ℓ} where
  pub Post-weaken :
      {P : A → S → Type κ} {Q : A → S → Type ι} {R : S → Type κ} {T : S → Type ι}
      (x : Result E A × S)
      → ((a : A) (s : S) → P a s → Q a s)
      → ((s : S) → R s → T s)
      → Post P R x
      → Post Q T x
  Post-weaken (ok a, s) f g h = record { at = f a s h.at }
  Post-weaken (err e, s) f g h = record { at = g s h.at }

module _ {ℓ κ} {S E A : Type ℓ} {Q : S → Type κ} where
  pub Post-final : (x : Result E A × S) → Post (λ _ s. Q s) Q x → Q x.1
  Post-final (ok a, s) h = h.at
  Post-final (err e, s) h = h.at

  -- Conversely, what holds of the state however the run ends.
  pub Post-both : (x : Result E A × S) → Q x.1 → Post (λ _ s. Q s) Q x
  Post-both (ok a, s) h = record { at = h }
  Post-both (err e, s) h = record { at = h }
