-- ===== src/Tests/Closing.antt =====
-- Runs of the supervisor's `Execute`, from the creation of a run to its end.
use akoflow_workflow_engine.Prelude.{
  ◌≡◌, refl, true, false, String, [], ◌∷◌, none, some, Option, ok, err, arith, if◌then◌else◌, ap,
  sym, ◌∙◌, eq_refl,
}
use akoflow_workflow_engine.Prelude.Maps.{
  StringMap, lookup, insert, lookup-insert, keys, has, index_by,
}
use akoflow_workflow_engine.Domain.Values.{text_of}
use akoflow_workflow_engine.Domain.Environment.{EnvironmentRuntime, local_driver, execution}
use akoflow_workflow_engine.Domain.Execution.{
  ExecutionRequest, ExecutionRunStatus, ExecutionTrace, run_running, run_completed, run_failed,
  handle_running, handle_completed,
}
use akoflow_workflow_engine.Plan.Dag.{
  validate_dag, zero_degrees, add_edges, degree, successors_of, release_successors, visit,
}
use akoflow_workflow_engine.Supervisor.Request.{
  Outside, validate_request, check_runtimes, select_runtime, first_runtime,
}
use akoflow_workflow_engine.Supervisor.Prompt.{IsPrompt, IsStartable}
use akoflow_workflow_engine.Supervisor.Execute.{activity_map}
use akoflow_workflow_engine.Supervisor.Complete.{assignment_map, resource_map}
use akoflow_workflow_engine.Supervisor.Service.{ExecuteError, returned, Runs, begun, execute}
use akoflow_workflow_engine.Supervisor.Settles.{RecordsRuns, Settles, execute-Settles}
use akoflow_workflow_engine.Supervisor.Completes.{TakesRuns, activities_of, execute_completes}
use akoflow_workflow_engine.Tests.Plans.{floats, range_keys, range_keys-RangesKeys}
use akoflow_workflow_engine.Tests.Runs.{
  handle_of, request, range_handles, range_handles-RangesAllHandles, range_ids, range_ids-RangesIds,
  keep_order, keep_order-SortsStrings, values, request-IsStartable,
}

-- The world is the status of the runs; time stands still.
abbrev Statuses : Type 0
Statuses = StringMap ExecutionRunStatus

abbrev ports : Outside Statuses
ports = record {
  context_error = λ w. none;
  now = λ w. (5, w);
  wait = λ w. (none, w);
  inspect = λ handle mode w. (ok (some (handle_of handle handle_completed)), w);
  start = λ context w. (ok (handle_of context.activity.id handle_running), w);
  save = λ handle w. (ok tt, w);
  save_task = λ t w. (ok tt, w);
  preparer = none;
  quoted = λ s. s;
}

ports-IsPrompt : IsPrompt ports
ports-IsPrompt = record {
  no_context_error = λ w. refl;
  no_wait_error = λ w. refl;
  inspects = λ id mode w. (handle_of id handle_completed, refl, refl);
  starts = λ c w. (handle_of c.activity.id handle_running, refl);
  saves = λ t w. refl;
}

abbrev runs : Runs Statuses
runs = record {
  create_run = λ run w. (ok tt, insert run.id run_running w);
  complete_run = λ trace w. (ok tt, insert trace.run_id run_completed w);
  fail_run = λ run message w. (ok tt, insert run run_failed w);
  simulate = λ r w. (err "no simulator", w);
}

abbrev status : Statuses → String → Option ExecutionRunStatus
status w run = lookup run w

found_again :
    (run : String) (s : ExecutionRunStatus) (w : Statuses) → lookup run (insert run s w) ≡ some s
found_again run s w =
    lookup-insert run run s w ∙ ap (λ b. if b then some s else lookup run w) (eq_refl run)

runs-RecordsRuns : RecordsRuns runs status
runs-RecordsRuns = record {
  completes = λ trace w w' e.
      ap (lookup trace.run_id) (sym (ap (λ r. r.1) e)) ∙ found_again trace.run_id run_completed w;
  fails = λ run message w e. found_again run run_failed w;
}

runs-TakesRuns : TakesRuns runs
runs-TakesRuns = record {
  creates = λ run w. (insert run.id run_running w, refl);
  completes = λ trace w. (insert trace.run_id run_completed w, refl);
}

abbrev runtime : EnvironmentRuntime
runtime = record {
  environment_version_id = "e1";
  id = "local";
  name = "local";
  driver = local_driver;
  runtime_mode = execution;
  role = "";
  configuration = [];
  capabilities = record {
    batch = true;
    interactive = false;
    container = false;
    serverless_calls = false;
    gpu = false;
    mpi = false;
    shared_storage = false;
    data_staging = false;
    cancellation = true;
    log_streaming = false;
    simulates = false;
  };
}

abbrev runnable : ExecutionRequest
runnable = record request {
  runtimes = runtime ∷ [];
  runtime_bindings =
      record { resource_id = "m"; runtime_id = "local"; enabled = true; configuration = [] } ∷ [];
}

runnable-IsStartable :
    IsStartable
      (begun runnable)
      (activity_map runnable)
      (assignment_map runnable)
      (resource_map runnable)
runnable-IsStartable = record {
  placed = request-IsStartable.placed;
  unprepared = request-IsStartable.unprepared;
  unbuilt = request-IsStartable.unbuilt;
}

abbrev message : ExecuteError → String
message e = "error"

execute-Settles_example :
    Settles runs status runs-RecordsRuns
      (activities_of floats ports 1 range_handles range_ids keep_order values)
      message
      runnable
      (execute runs
        (activities_of floats ports 1 range_handles range_ids keep_order values)
        message
        runnable
        [])
execute-Settles_example =
    execute-Settles runs status runs-RecordsRuns
      (activities_of floats ports 1 range_handles range_ids keep_order values) message runnable []

execute_completes_example :
    (trace : ExecutionTrace) × (w' : Statuses) × (execute runs
        (activities_of floats ports 1 range_handles range_ids keep_order values)
        message
        runnable
        []
      ≡ (returned (ok trace), w'))
    × (lookup trace.run_id w' ≡ some run_completed)
unfolding validate_dag zero_degrees add_edges degree successors_of release_successors visit
    range_keys lookup insert has keys validate_request check_runtimes select_runtime first_runtime
    index_by text_of
execute_completes_example =
    execute_completes floats ports 1 range_handles range_ids keep_order values ports-IsPrompt
      (omega arith) range_keys range_handles-RangesAllHandles range_ids-RangesIds
      keep_order-SortsStrings range_keys-RangesKeys runs status message runnable [] runs-RecordsRuns
      runs-TakesRuns refl refl refl refl runnable-IsStartable
