-- ===== src/Supervisor/Service.antt =====
-- `New` and `Execute` of controlplane/execution/supervisor.go: a run is created, executed or simulated, and closed.
use akoflow_workflow_engine.Prelude.{
  String, Bool, true, false, not, ◌||◌, Result, ok, err, if◌then◌else◌,
}
use akoflow_workflow_engine.Prelude.Int.{ℤ, pos, leb_ℤ}
use akoflow_workflow_engine.Domain.Planning.{ExecutionMode, simulation_mode}
use akoflow_workflow_engine.Domain.Execution.{
  ExecutionRequest, ExecutionRun, ExecutionTrace, run_running,
}
use akoflow_workflow_engine.Supervisor.Request.{
  RequestError, SupervisorError, StepError, step_failed, nil_handle, slice_out_of_range,
  rounds_exhausted, validate_request,
}
use akoflow_workflow_engine.Supervisor.{Answer, is_interactive}

-- Of `New` and `Execute`.
pub data ExecuteError : Type 0 where
  ports_required : ExecuteError
  request_invalid : RequestError → ExecuteError
  create_failed : (cause : String) → ExecuteError
  simulation_failed : (cause : String) → ExecuteError
  activities_failed : SupervisorError → ExecuteError
  complete_failed : (cause : String) → ExecuteError

-- How a call of `Execute` ends: it returns, or it panics, or, which is no run of the code, the rounds of the model run out.
pub data Ended : Type 0 where
  returned : Result ExecuteError ExecutionTrace → Ended
  panicked unfinished : Ended

pub record Config : Type 0 where
  pub poll_interval : ℤ
  pub max_parallel : ℤ

-- `New`, up to the ports that it stores.
unfoldable pub new :
    (has_executions has_activities has_simulation : Bool) → Config → Result ExecuteError Config
new has_executions has_activities has_simulation config =
    if not has_executions || not has_activities || not has_simulation
    then err ports_required
    else ok (record {
      poll_interval =
          if leb_ℤ config.poll_interval (pos 0) then pos 1000000000 else config.poll_interval;
      max_parallel = if leb_ℤ config.max_parallel (pos 0) then pos 8 else config.max_parallel;
    })

-- The calls of ports.ExecutionStore and of ports.PlanExecutor that `Execute` makes itself.
pub record Runs (W : Type 0) : Type 0 where
  pub create_run : ExecutionRun → W → Result String (Unit {0}) × W
  pub complete_run : ExecutionTrace → W → Result String (Unit {0}) × W
  pub fail_run : (run : String) (message : String) → W → Result String (Unit {0}) × W
  pub simulate : ExecutionRequest → W → Result String ExecutionTrace × W

abbrev pub is_simulation : ExecutionMode → Bool
is_simulation simulation_mode = true
is_simulation _ = false

-- The request with the plan and the status of its run.
abbrev pub begun : ExecutionRequest → ExecutionRequest
begun request = record request {
  run = record request.run { schedule_plan_id = request.plan.id; status = run_running };
}

-- What an answer of executeActivities that is no trace is to its caller.
abbrev pub stopped_step : StepError → Ended
stopped_step (nil_handle activity) = panicked
stopped_step e = returned (err (activities_failed (step_failed e)))

abbrev pub stopped_by : SupervisorError → Ended
stopped_by slice_out_of_range = panicked
stopped_by rounds_exhausted = unfinished
stopped_by (step_failed e) = stopped_step e
stopped_by e = returned (err (activities_failed e))

-- `activities` is executeActivities; `text` is the text of an error.
module _ {W : Type 0} (runs : Runs W) (activities : ExecutionRequest → W → Answer W)
    (text : ExecuteError → String) where
  -- The deferred call of `FailRun`, whose own error is dropped. The error that it reads is nil while a panic passes.
  abbrev pub closed : (run : String) → Ended × W → Ended × W
  closed run (returned (ok trace), w) = (returned (ok trace), w)
  closed run (returned (err e), w) = (returned (err e), (runs.fail_run run (text e) w).1)
  closed run (panicked, w) = (panicked, w)
  closed run (unfinished, w) = (unfinished, w)

  abbrev pub completed : ExecutionTrace → Result String (Unit {0}) × W → Ended × W
  completed trace (ok u, w) = (returned (ok trace), w)
  completed trace (err cause, w) = (returned (err (complete_failed cause)), w)

  abbrev pub after_trace : ExecutionMode → Ended × W → Ended × W
  after_trace mode (returned (ok trace), w) =
      let called = completed trace (runs.complete_run trace w) in
      if is_interactive mode then (returned (ok trace), w) else called
  after_trace mode (returned (err e), w) = (returned (err e), w)
  after_trace mode (panicked, w) = (panicked, w)
  after_trace mode (unfinished, w) = (unfinished, w)

  abbrev pub simulated : Result String ExecutionTrace × W → Ended × W
  simulated (ok trace, w) = (returned (ok trace), w)
  simulated (err cause, w) = (returned (err (simulation_failed cause)), w)

  abbrev pub acted : Answer W → Ended × W
  acted (ok trace, s, w) = (returned (ok trace), w)
  acted (err e, s, w) = (stopped_by e, w)

  abbrev pub traced : ExecutionRequest → W → Ended × W
  traced request w =
      if is_simulation request.run.mode
      then simulated (runs.simulate request w)
      else acted (activities request w)

  abbrev pub after_create : ExecutionRequest → Result String (Unit {0}) × W → Ended × W
  after_create request (err cause, w) = (returned (err (create_failed cause)), w)
  after_create request (ok u, w) =
      closed request.run.id (after_trace request.run.mode (traced request w))

  abbrev pub after_validate : ExecutionRequest → W → Result RequestError (Unit {0}) → Ended × W
  after_validate request w (err e) = (returned (err (request_invalid e)), w)
  after_validate request w (ok u) = after_create request (runs.create_run request.run w)

  unfoldable pub execute : ExecutionRequest → W → Ended × W
  execute request w = after_validate (begun request) w (validate_request (begun request))
