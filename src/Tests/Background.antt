-- ===== src/Tests/Background.antt =====
-- src/oauthclientbridge/utils/coalescing.py: two requests that one run handles.
use oauthclientbridge.Base.{◌+◌, ◌≤◌, refl, arith, true, false, length, []}
use oauthclientbridge.Coalescing.{
  Worker, new, Steps, none, more, start, startup_over, request, waiting,
}
use oauthclientbridge.Coalescing.Runs.{runs-le, request-IsServed, IsServed}

abbrev asked : Worker
asked = record {
  generation = 0 + 1 + 1;
  handled_generation = 0;
  started = true;
  stopped = false;
  place = waiting;
  runs = [];
}

asked-Steps : Steps new asked
asked-Steps =
    more (more (more (more none (start refl refl)) (startup_over refl refl)) request) request

runs-le_example : length asked.runs ≤ asked.generation
runs-le_example = runs-le asked asked-Steps

request-IsServed_example : IsServed asked
request-IsServed_example =
    request-IsServed asked asked-Steps refl (λ e. ground arith) (λ e. ground arith)
      (λ e. omega (arith, e))
