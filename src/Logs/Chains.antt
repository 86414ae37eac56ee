-- ===== src/Logs/Chains.antt =====
-- src/oauthclientbridge/logs.py, `init_logging`: what a line passes through.
use oauthclientbridge.Base.{
  ℕ, ◌+◌, ◌≡◌, refl, arith, Bool, true, false, List, [], ◌∷◌, ◌++◌, if◌then◌else◌,
}
use oauthclientbridge.Settings.{LogSettings}
use oauthclientbridge.Logs.{
  Processor, json_renderer, console_renderer, Formatter, Logging, init_logging, shared_processors,
  final_processors,
}

abbrev is_renderer : Processor → Bool
is_renderer json_renderer = true
is_renderer (console_renderer _) = true
is_renderer _ = false

abbrev renderings : List Processor → ℕ
renderings [] = 0
renderings (p ∷ ps) = (if is_renderer p then 1 else 0) + renderings ps

abbrev ends_rendered : List Processor → Bool
ends_rendered [] = false
ends_rendered (p ∷ []) = is_renderer p
ends_rendered (p ∷ q ∷ ps) = ends_rendered (q ∷ ps)

-- What a line of structlog and one of the standard library pass through, on their way out by a
-- handler.
abbrev native_chain : Logging → Formatter → List Processor
native_chain l f = l.configured ++ f.processors

abbrev foreign_chain : Formatter → List Processor
foreign_chain f = f.foreign_pre_chain ++ f.processors

abbrev IsRendered : List Processor → Type 0
IsRendered chain = (renderings chain ≡ 1) × (ends_rendered chain ≡ true)

-- After the set-up of a process without handlers, a line of either origin is rendered once, by the last
-- processor, and written by one handler.
pub init_logging-IsRendered :
    (sentry : Bool) (s : LogSettings) (l : Logging)
    → l.handlers ≡ []
    → (f : Formatter) × ((init_logging sentry s l).handlers ≡ f ∷ [])
      × IsRendered (native_chain (init_logging sentry s l) f)
      × IsRendered (foreign_chain f)
unfolding init_logging
init_logging-IsRendered true s l h = (
  record { foreign_pre_chain = shared_processors true; processors = final_processors s },
  unfold shared_processors in unfold final_processors in rw h refl,
  unfold shared_processors in unfold final_processors in (ground arith, ground arith),
  unfold shared_processors in unfold final_processors in (ground arith, ground arith),
)
init_logging-IsRendered false s l h = (
  record { foreign_pre_chain = shared_processors false; processors = final_processors s },
  unfold shared_processors in unfold final_processors in rw h refl,
  unfold shared_processors in unfold final_processors in (ground arith, ground arith),
  unfold shared_processors in unfold final_processors in (ground arith, ground arith),
)
