-- ===== src/Tests/Loop.antt =====
-- Runs of the event loop.
use akoflow_workflow_engine.Prelude.{
  ℕ, ◌≡◌, ◌≤◌, ◌<◌, ◌*◌, refl, true, false, String, List, [], ◌∷◌, none, some, Option, ok, err,
  arith, ◌==◌, if◌then◌else◌, ◌⊎◌,
}
use akoflow_workflow_engine.Prelude.Int.{pos}
use akoflow_workflow_engine.Prelude.Maps.{StringMap}
use akoflow_workflow_engine.Domain.Queue.{Job}
use akoflow_workflow_engine.Queue.{ids, leased_to}
use akoflow_workflow_engine.Queue.History.{cancels}
use akoflow_workflow_engine.EventLoop.{
  State, Handling, Event, starts, ticks, wakes, renews, returns, frees, elsewhere, run_loop,
}
use akoflow_workflow_engine.EventLoop.Dispatcher.{Handled}
use akoflow_workflow_engine.EventLoop.Settings.{
  Config, default_config, backoff, backoff_bounds, new_lem, Accepts, Refuses,
}
use akoflow_workflow_engine.EventLoop.Capacity.{IsSound, run_loop-IsSound}
use akoflow_workflow_engine.EventLoop.Calls.{IsHistory, run_loop-refines}
use akoflow_workflow_engine.Tests.Sort.{order_by, order_by-IsOrderBy}
use akoflow_workflow_engine.Tests.Jobs.{low, high, two_rows}

-- A handler is a name; the one called "bad" fails.
abbrev call : String → Job → Handled
call name job = if name == "bad" then err "no answer" else ok tt

abbrev offered : List (String × Option String)
offered =
    ("run.start", none)
    ∷ ("run.start", some "good")
    ∷ ("", some "bad")
    ∷ ("run.start", some "bad")
    ∷ []

backoff_bounds_example :
    (wait : ℕ) × (backoff (pos 2000000000) 3 ≡ some (pos wait))
    × (2000000000 ≤ wait)
    × (wait ≤ 2000000000 * 256)
    × (2 < 8 → backoff (pos 2000000000) 4 ≡ some (pos (wait * 2)))
    × (8 ≤ 2 → wait ≡ 2000000000 * 256)
backoff_bounds_example = backoff_bounds 2000000000 2 (omega arith)

new_lem_example : Accepts true true (default_config "w1") ⊎ Refuses true true (default_config "w1")
new_lem_example = new_lem true true (default_config "w1")

abbrev config : Config
config = record {
  owner = "w1";
  categories = "execution" ∷ [];
  concurrency = pos 1;
  lease_duration = pos 60;
  poll_interval = pos 5;
  retry_base_interval = pos 3;
}

abbrev handlers : StringMap String
handlers = ("run.start", "bad") ∷ []

abbrev idle : State
idle = record { table = two_rows; running = []; settled = 0; woken = false }

idle-IsSound : IsSound config idle
unfolding ids
idle-IsSound = record { unique = refl; within = omega arith; tried = tt }

-- A job is leased, renewed and fails; the other is cancelled elsewhere; the slot is freed, and the loop wakes.
abbrev events : List (Event String)
events =
    starts 10
    ∷ renews 0 30
    ∷ elsewhere (cancels "low" 31)
    ∷ returns 0 40 call
    ∷ frees
    ∷ wakes 41
    ∷ ticks 50 51
    ∷ []

run_loop-IsSound_example :
    (s' : State) × (run_loop order_by config handlers events idle ≡ some s') × IsSound config s'
run_loop-IsSound_example =
    run_loop-IsSound order_by order_by-IsOrderBy config handlers events idle idle-IsSound

run_loop-refines_example :
    (s' : State) × (run_loop order_by config handlers events idle ≡ some s')
    × IsHistory order_by config handlers events two_rows s'.table
run_loop-refines_example =
    run_loop-refines order_by config handlers order_by-IsOrderBy events idle idle-IsSound

abbrev handled : Handling
handled = record { job = leased_to "w1" 10 70 high; kept = true }

abbrev busy : State
busy = record {
  table = low ∷ leased_to "w1" 10 70 high ∷ [];
  running = handled ∷ [];
  settled = 0;
  woken = false;
}
