-- ===== src/Coalescing.antt =====
-- src/oauthclientbridge/utils/coalescing.py: `CoalescingWorker`. A step is what one thread does
-- while it holds the condition's lock, or the end of the work; the delays are not timed, so each
-- may end after any number of other steps.
pub mod Runs
use oauthclientbridge.Base.{ℕ, ◌+◌, ◌≡◌, ◌≢◌, max, Bool, true, false, List, [], ◌∷◌}

-- Where the worker's thread is: before `start`, in the startup delay, at the condition, in the
-- debounce for a generation, past it, in the work, or ended.
pub data Place : Type 0 where
  unborn delaying waiting : Place
  debouncing due : ℕ → Place
  working gone : Place

-- `runs` holds the handled generation of each run of the work, the newest first.
pub record Worker : Type 0 where
  pub generation : ℕ
  pub handled_generation : ℕ
  pub started : Bool
  pub stopped : Bool
  pub place : Place
  pub runs : List ℕ

abbrev pub new : Worker
new = record {
  generation = 0;
  handled_generation = 0;
  started = false;
  stopped = false;
  place = unborn;
  runs = [];
}

-- The work begins: everything requested so far is handled by it.
abbrev pub begun : ℕ → Worker → Worker
begun generation w = record w {
  handled_generation = max generation w.generation;
  place = working;
  runs = max generation w.generation ∷ w.runs;
}

pub data Step : Worker → Worker → Type 0 where
  start :
      {w : Worker}
      → w.started ≡ false
      → w.place ≡ unborn
      → Step w (record w { started = true; place = delaying })
  start_again : {w : Worker} → w.started ≡ true → Step w w
  request : {w : Worker} → Step w (record w { generation = w.generation + 1 })
  stop : {w : Worker} → Step w (record w { stopped = true })
  startup_over :
      {w : Worker} → w.place ≡ delaying → w.stopped ≡ false → Step w (record w { place = waiting })
  wake :
      {w : Worker}
      → w.place ≡ waiting
      → w.stopped ≡ false
      → w.generation ≢ w.handled_generation
      → Step w (record w { place = debouncing w.generation })
  debounce_over :
      {w : Worker} {generation : ℕ}
      → w.place ≡ debouncing generation
      → w.stopped ≡ false
      → Step w (record w { place = due generation })
  work :
      {w : Worker} {generation : ℕ}
      → w.place ≡ due generation
      → w.stopped ≡ false
      → Step w (begun generation w)
  work_done : {w : Worker} → w.place ≡ working → Step w (record w { place = waiting })
  work_raised : {w : Worker} → w.place ≡ working → Step w (record w { place = gone })
  end :
      {w : Worker}
      → w.stopped ≡ true
      → w.place ≢ unborn
      → w.place ≢ working
      → Step w (record w { place = gone })

pub data Steps (w : Worker) : Worker → Type 0 where
  none : Steps w w
  more : {v u : Worker} → Steps w v → Step v u → Steps w u
