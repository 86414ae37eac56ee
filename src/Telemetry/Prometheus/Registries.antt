-- ===== src/Telemetry/Prometheus/Registries.antt =====
-- src/oauthclientbridge/telemetry/_prometheus.py: what is kept from one call to the next.
use oauthclientbridge.Base.{
  ℕ, ◌≡◌, ◌<◌, refl, arith, String, Bool-cases, Option, Option-cases, inl, inr, none, some, List,
  ◌∷◌, eq_iff, eqb,
}
use Prim.Native.String
use oauthclientbridge.Base.Dict.{get, get-put}
use oauthclientbridge.Base.Result.{ok, err}
use oauthclientbridge.Errors.{value_error}
use oauthclientbridge.Telemetry.Prometheus.{
  Store, of_directory, export_metrics, export_from, label_of, status,
}

-- Each known label is that of its status.
abbrev pub AreLabels : (ℕ → Option String) → List (ℕ × String) → Type 0
AreLabels phrase labels =
    (code : ℕ) (l name : String)
    → label_of code labels ≡ some l
    → phrase code ≡ some name
    → l ≡ String.◌++◌ "http_" name

AreLabels-add :
    (phrase : ℕ → Option String) (code : ℕ) (name : String) (labels : List (ℕ × String))
    → phrase code ≡ some name
    → AreLabels phrase labels
    → AreLabels phrase ((code, String.◌++◌ "http_" name) ∷ labels)
unfolding label_of
AreLabels-add phrase code name labels e h other l n k p = elim (Bool-cases (eqb code other)) [
  | inl same ↦ ground (arith, same, k, p, e)
  | inr apart ↦ h other l n (ground (arith, apart, k)) p
]

-- The cache of labels does not change them: a known status has the same label however often it is
-- asked for, and an unknown one raises ValueError.
pub status_lem :
    (phrase : ℕ → Option String) (code : ℕ) (s : Store)
    → AreLabels phrase s.labels
    → AreLabels phrase (status phrase code s).1.labels
      × ((name : String)
          → phrase code ≡ some name
          → (status phrase code s).0 ≡ ok (String.◌++◌ "http_" name))
      × (phrase code ≡ none → (status phrase code s).0 ≡ err value_error)
unfolding status
status_lem phrase code s h = elim (Option-cases (phrase code)) [
  | inl missing ↦ rw (status, missing) (h, (λ name e. absurd (ground (arith, e))), λ _. refl)
  | inr (name, e) ↦ elim (Option-cases (label_of code s.labels)) [
    | inl fresh ↦
        rw (status, e, fresh)
          (
            AreLabels-add phrase code name s.labels e h,
            (λ other p. ground (arith, p)),
            λ p. absurd (ground (arith, p)),
          )
    | inr (l, known) ↦
        rw (status, e, known)
          (
            h,
            (λ other p. ground (arith, p, h code l name known e)),
            λ p. absurd (ground (arith, p)),
          )
  ]
]

-- Each registry of a directory was made, and none is that of two directories.
pub record AreApart (s : Store) : Type 0 where
  pub made : (dir : String) (n : ℕ) → get dir s.registries ≡ some n → n < s.made
  pub apart :
      (dir other : String) (n : ℕ)
      → get dir s.registries ≡ some n
      → get other s.registries ≡ some n
      → dir ≡ other

-- A directory has one registry, however often it is exported, and no other directory has it.
pub export_metrics-AreApart :
    (dir : String) (s : Store)
    → AreApart s
    → AreApart (export_metrics (record { multiproc_dir = some dir }) s).1
      × ((n : ℕ)
          → get dir s.registries ≡ some n
          → export_metrics (record { multiproc_dir = some dir }) s ≡ (ok (of_directory n), s))
unfolding export_metrics
export_metrics-AreApart dir s h = elim (Option-cases (get dir s.registries)) [
  | inl new ↦
      rw (export_from, new)
        (
          record {
            made =
                λ other n e. ground (arith, get-put dir other s.made s.registries, h.made other n);
            apart = λ other third n e f. ground (
              arith,
              e,
              f,
              get-put dir other s.made s.registries,
              get-put dir third s.made s.registries,
              h.made other n,
              h.made third n,
              h.apart other third n,
              eq_iff dir other,
              eq_iff dir third,
            );
          },
          λ n e. absurd (ground (arith, e)),
        )
  | inr (n, known) ↦ rw (export_from, known) (h, λ m e. ground (arith, e))
]
