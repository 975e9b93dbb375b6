-- ===== src/Supervisor/Timing.antt =====
-- What controlplane/execution/supervisor.go computes of a task from its handle and its transfers.
use Prim.Native.String.{◌++◌ as text_append}
use akoflow_workflow_engine.Prelude.{
  String, true, false, Option, none, some, List, [], ◌∷◌, map, if◌then◌else◌,
}
use akoflow_workflow_engine.Prelude.Int.{pos, add_ℤ}
use akoflow_workflow_engine.Prelude.Maps.{lookup}
use akoflow_workflow_engine.Domain.Values.{
  Float, zero_float, FloatOps, Value, text, flag, float, float32, int64, int, other_value, Metadata,
}
use akoflow_workflow_engine.Domain.Resource.{Resource}
use akoflow_workflow_engine.Domain.Planning.{PlanAssignment}
use akoflow_workflow_engine.Domain.Materialization.{DataTransferRun, PreparationGate}
use akoflow_workflow_engine.Domain.Execution.{
  ActivityHandle, DataTransfer, ExecutionMetrics, ExecutionRequest, ExecutionTrace, TaskExecution,
  task_running, task_completed,
}

abbrev pub join : String → String → String
join a b = text_append (text_append a ":") b

module _ (floats : FloatOps) where
  unfoldable pub max_float : Float → Float → Float
  max_float a b = if floats.less b a then a else b

  abbrev pub as_float : Option Value → Option Float
  as_float (some (float f)) = some f
  as_float (some (float32 f)) = some (floats.of_float32 f)
  as_float (some (int64 n)) = some (floats.of_int n)
  as_float (some (int n)) = some (floats.of_int n)
  as_float (some (text s)) = none
  as_float (some (flag b)) = none
  as_float (some other_value) = none
  as_float none = none

  unfoldable pub metadata_float : Metadata → String → Option Float
  metadata_float metadata key = as_float (lookup key metadata)

  abbrev pub later_start : ActivityHandle → Option Float → Float
  later_start handle none = handle.started_at
  later_start handle (some at) = if floats.less handle.started_at at then at else handle.started_at

  unfoldable pub execution_started_at : ActivityHandle → Float
  execution_started_at handle =
      later_start handle (metadata_float handle.metadata "containerStartedAt")

  abbrev pub with_submission : ActivityHandle → Option Float → TaskExecution → TaskExecution
  with_submission handle none t = t
  with_submission handle (some at) t = record t {
    queued_at = at;
    queue_seconds = max_float zero_float (floats.sub handle.started_at at);
  }

  abbrev pub with_start : ActivityHandle → TaskExecution → TaskExecution
  with_start handle t =
      if floats.less zero_float handle.started_at
      then record t { started_at = handle.started_at }
      else t

  abbrev pub with_container : ActivityHandle → Option Float → TaskExecution → TaskExecution
  with_container handle none t = t
  with_container handle (some at) t = record t {
    overhead_seconds = max_float zero_float (floats.sub at handle.started_at);
  }

  unfoldable pub apply_handle_timing : TaskExecution → ActivityHandle → TaskExecution
  apply_handle_timing t handle =
      with_container handle (metadata_float handle.metadata "containerStartedAt") (
        with_start handle (with_submission handle (metadata_float handle.metadata "submittedAt") t))

  unfoldable pub complete_task : TaskExecution → ActivityHandle → TaskExecution
  complete_task t handle =
      let timed =
        apply_handle_timing (record t { status = task_completed; finished_at = handle.finished_at })
          handle in
      record timed {
        runtime_seconds =
            max_float zero_float (floats.sub handle.finished_at (execution_started_at handle));
      }

  abbrev pub runs_of : Option PreparationGate → List DataTransferRun
  runs_of none = []
  runs_of (some gate) = gate.transfer_runs

  unfoldable pub add_transfers : List DataTransferRun → TaskExecution → TaskExecution
  add_transfers [] t = t
  add_transfers (r ∷ runs) t = add_transfers runs (record t {
    transfer_seconds =
        floats.add t.transfer_seconds
          (max_float zero_float (floats.sub r.finished_at r.started_at));
    transfer_bytes = add_ℤ t.transfer_bytes r.transferred_bytes;
  })

  -- `now` is what the clock says for `DataReadyAt`.
  unfoldable pub new_running_task :
      (run_id activity_id : String)
      → PlanAssignment
      → Resource
      → ActivityHandle
      → (ready_at now : Float) → Option PreparationGate
      → TaskExecution
  new_running_task run_id activity_id assignment resource handle ready_at now preparation =
      add_transfers (runs_of preparation) (record {
        id = join run_id activity_id;
        execution_run_id = run_id;
        plan_assignment_id = assignment.id;
        activity_id = activity_id;
        planned_resource_id = assignment.resource_id;
        allocated_resource_id = resource.id;
        attempt = pos 1;
        status = task_running;
        ready_at = ready_at;
        data_ready_at = now;
        queued_at = handle.started_at;
        started_at = handle.started_at;
        finished_at = zero_float;
        runtime_seconds = zero_float;
        queue_seconds = zero_float;
        transfer_seconds = zero_float;
        transfer_bytes = pos 0;
        interference_seconds = zero_float;
        overhead_seconds = zero_float;
        cost = zero_float;
        failure_reason = "";
      })

  unfoldable pub transfer_observation :
      (run_id activity_id resource_id : String) → DataTransferRun → DataTransfer
  transfer_observation run_id activity_id resource_id r = record {
    id = join (join run_id activity_id) r.id;
    execution_run_id = run_id;
    producer_activity_id = "";
    consumer_activity_id = activity_id;
    source_resource_id = resource_id;
    target_resource_id = resource_id;
    bytes = r.transferred_bytes;
    started_at = r.started_at;
    finished_at = r.finished_at;
    duration_seconds = max_float zero_float (floats.sub r.finished_at r.started_at);
    cost = zero_float;
  }

  unfoldable pub transfer_observations :
      (run_id activity_id resource_id : String) → List DataTransferRun → List DataTransfer
  transfer_observations run_id activity_id resource_id runs =
      map (transfer_observation run_id activity_id resource_id) runs

  abbrev pub no_metrics : ExecutionMetrics
  no_metrics = record {
    makespan_seconds = zero_float;
    cost = zero_float;
    compute_seconds = zero_float;
    transfer_seconds = zero_float;
    queue_seconds = zero_float;
    interference_seconds = zero_float;
    overhead_seconds = zero_float;
    feasible = false;
  }

  -- The trace of the tasks, which `range` and `sort.Slice` have put in order.
  unfoldable pub running_trace :
      ExecutionRequest → List TaskExecution → List DataTransfer → ExecutionTrace
  running_trace request tasks transfers = record {
    run_id = request.run.id;
    plan_id = request.plan.id;
    mode = request.run.mode;
    predicted = request.plan.predicted;
    executed = no_metrics;
    tasks = tasks;
    transfers = transfers;
  }

  abbrev pub add_task : TaskExecution → ExecutionMetrics → ExecutionMetrics
  add_task t m = record m {
    compute_seconds = floats.add m.compute_seconds t.runtime_seconds;
    transfer_seconds = floats.add m.transfer_seconds t.transfer_seconds;
    queue_seconds = floats.add m.queue_seconds t.queue_seconds;
    cost = floats.add m.cost t.cost;
  }

  unfoldable pub sum_tasks :
      List TaskExecution → (first last : Float) → ExecutionMetrics → ExecutionMetrics
  sum_tasks [] first last m = record m {
    makespan_seconds = max_float zero_float (floats.sub last first);
  }
  sum_tasks (t ∷ tasks) first last m =
      sum_tasks tasks
        (if floats.equal first zero_float
          then t.started_at
          else if floats.less t.started_at first
          then t.started_at
          else first)
        (max_float last t.finished_at) (add_task t m)

  unfoldable pub completed_trace :
      ExecutionRequest → List TaskExecution → List DataTransfer → ExecutionTrace
  completed_trace request tasks transfers =
      let trace = running_trace request tasks transfers in
      record trace {
        executed = sum_tasks tasks zero_float zero_float (record no_metrics { feasible = true });
      }
