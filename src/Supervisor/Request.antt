-- ===== src/Supervisor/Request.antt =====
-- What controlplane/execution/supervisor.go reads from its request and its ports: the choice of a runtime, the checks
-- of a request, and the record of an activity that could not be started.
use Prim.Native.String.{◌++◌ as text_append}
use akoflow_workflow_engine.Prelude.{
  String, Bool, true, false, not, ◌&&◌, ◌||◌, ◌==◌, Option, none, some, List, [], ◌∷◌, Result, ok,
  err, fail_if, ◌>>◌, if◌then◌else◌, length, is_empty, nat_eq,
}
use akoflow_workflow_engine.Prelude.Int.{pos}
use akoflow_workflow_engine.Prelude.Maps.{StringMap, lookup, index_by}
use akoflow_workflow_engine.Domain.Values.{Float, zero_float, FloatOps, text_of}
use akoflow_workflow_engine.Domain.Workflow.{Activity, other_kind}
use akoflow_workflow_engine.Domain.Resource.{
  Resource, ResourceRuntimeBinding, other_target, other_resource,
}
use akoflow_workflow_engine.Domain.Environment.{
  EnvironmentRuntime, RuntimeMode, execution, simulation, runtime_mode_eq,
}
use akoflow_workflow_engine.Domain.Planning.{
  ExecutionMode, simulation_mode, unknown_mode, PlanAssignment,
}
use akoflow_workflow_engine.Domain.Materialization.{
  ArtifactMaterialization, PreparationGate, PreparationRequirement,
}
use akoflow_workflow_engine.Domain.Execution.{
  ActivityExecutionContext, ActivityHandle, ExecutionRequest, TaskExecution, handle_failed,
  task_failed, other_task_status,
}
use akoflow_workflow_engine.Supervisor.Timing.{join, new_running_task}

-- Of a step: the inspection or the start of an activity.
pub data StepError : Type 0 where
  save_failed : (cause : String) → StepError
  inspect_failed prepare_failed start_failed : (activity cause : String) → StepError
  activity_failed : (activity failure : String) → StepError
  resource_not_found : (resource : String) → StepError
  no_preparation : (activity : String) → StepError
  -- A run-time panic of Go: `Inspect` answered neither a handle nor an error.
  nil_handle : (activity : String) → StepError

pub data RequestError : Type 0 where
  identifiers_required incomplete_assignments : RequestError
  unsupported_mode : ExecutionMode → RequestError
  no_enabled_runtime : (resource : String) → RequestError

-- Of `executeActivities`.
pub data SupervisorError : Type 0 where
  step_failed : StepError → SupervisorError
  cancelled : (cause : String) → SupervisorError
  cannot_progress : SupervisorError
  -- A run-time panic of Go.
  slice_out_of_range : SupervisorError
  -- No run of the code: the model's loop was given too few rounds.
  rounds_exhausted : SupervisorError

-- The ports of the supervisor; `W` is the state of what lies behind them. An error is its text. `quoted` is `%q`.
pub record Outside (W : Type 0) : Type 0 where
  pub context_error : W → Option String
  pub now : W → Float × W
  -- Until the poll interval is over, or the error of the context.
  pub wait : W → Option String × W
  -- The controller answers nil for a handle that its store does not have.
  pub inspect : (handle : String) → ExecutionMode → W → Result String (Option ActivityHandle) × W
  pub start : ActivityExecutionContext → W → Result String ActivityHandle × W
  pub save : ActivityHandle → W → Result String (Unit {0}) × W
  pub save_task : TaskExecution → W → Result String (Unit {0}) × W
  pub preparer : Option (String → PreparationRequirement → W → Result String PreparationGate × W)
  pub quoted : String → String

-- What a missing key of a map reads as.
abbrev pub no_activity : Activity
no_activity = record {
  id = "";
  workflow_version_id = "";
  activity_type_id = "";
  external_id = "";
  name = "";
  kind = other_kind "";
  capabilities = [];
  command = record {
    image = "";
    executable = none;
    resolved_executable = none;
    entrypoint = "";
    arguments = [];
    environment = [];
    working_directory = "";
  };
  resources = record { cpu = zero_float; memory_bytes = pos 0; storage_bytes = pos 0; gpu = pos 0 };
  service_spec = none;
  simulation_spec = none;
  policy = record {
    timeout_seconds = zero_float;
    max_attempts = pos 0;
    retry_delay_seconds = zero_float;
  };
  priority = pos 0;
  metadata = [];
}

abbrev pub no_task : TaskExecution
no_task = record {
  id = "";
  execution_run_id = "";
  plan_assignment_id = "";
  activity_id = "";
  planned_resource_id = "";
  allocated_resource_id = "";
  attempt = pos 0;
  status = other_task_status "";
  ready_at = zero_float;
  data_ready_at = zero_float;
  queued_at = zero_float;
  started_at = zero_float;
  finished_at = zero_float;
  runtime_seconds = zero_float;
  queue_seconds = zero_float;
  transfer_seconds = zero_float;
  transfer_bytes = pos 0;
  interference_seconds = zero_float;
  overhead_seconds = zero_float;
  cost = zero_float;
  failure_reason = "";
}

abbrev pub activity_or_zero : Option Activity → Activity
activity_or_zero none = no_activity
activity_or_zero (some a) = a

abbrev pub task_or_zero : Option TaskExecution → TaskExecution
task_or_zero none = no_task
task_or_zero (some t) = t

unfoldable pub activity_of : StringMap Activity → String → Activity
activity_of activities id = activity_or_zero (lookup id activities)

unfoldable pub task_of : StringMap TaskExecution → String → TaskExecution
task_of tasks id = task_or_zero (lookup id tasks)

-- `domain.Resource{ID: id}`
unfoldable pub resource_named : String → Resource
resource_named id = record {
  id = id;
  environment_version_id = "";
  execution_target = other_target "";
  parent_resource_id = none;
  resource_type = other_resource "";
  name = "";
  provider_id = "";
  tier = "";
  region = "";
  zone = "";
  architecture = "";
  cpu_cores = pos 0;
  cpu_capacity = zero_float;
  memory_bytes = pos 0;
  storage_bytes = pos 0;
  compute_speedup = zero_float;
  price_per_second = zero_float;
  boot_overhead_seconds = zero_float;
  container_overhead = zero_float;
  schedulable = false;
  metadata = [];
}

abbrev pub runtime_mode_of : ExecutionMode → RuntimeMode
runtime_mode_of simulation_mode = simulation
runtime_mode_of _ = execution

-- The runtime of a binding runs in this mode and is the selected one, if one is selected.
abbrev pub is_suitable : RuntimeMode → (selected : String) → Option EnvironmentRuntime → Bool
is_suitable mode selected none = false
is_suitable mode selected (some runtime) =
    runtime_mode_eq runtime.runtime_mode mode && (is_empty selected || runtime.id == selected)

abbrev pub runtime_id : Option EnvironmentRuntime → String
runtime_id none = ""
runtime_id (some runtime) = runtime.id

-- The loop of `selectRuntime` over the bindings.
unfoldable pub first_runtime :
    StringMap EnvironmentRuntime
    → RuntimeMode
    → (resource selected : String) → List ResourceRuntimeBinding
    → String
first_runtime runtimes mode resource selected [] = ""
first_runtime runtimes mode resource selected (b ∷ bindings) =
    let rest = first_runtime runtimes mode resource selected bindings in
    if b.resource_id == resource
      && b.enabled
      && is_suitable mode selected (lookup b.runtime_id runtimes)
    then runtime_id (lookup b.runtime_id runtimes)
    else rest

unfoldable pub select_runtime : ExecutionRequest → PlanAssignment → String
select_runtime request assignment =
    first_runtime (index_by (λ (r : EnvironmentRuntime). r.id) request.runtimes [])
      (runtime_mode_of request.run.mode) assignment.resource_id
      (text_of assignment.metadata "runtimeId") request.runtime_bindings

abbrev pub is_known_mode : ExecutionMode → Bool
is_known_mode (unknown_mode name) = false
is_known_mode _ = true

unfoldable pub check_runtimes :
    ExecutionRequest → List PlanAssignment → Result RequestError (Unit {0})
check_runtimes request [] = ok tt
check_runtimes request (a ∷ assignments) =
    let rest = check_runtimes request assignments in
    if is_empty (select_runtime request a) then err (no_enabled_runtime a.resource_id) else rest

unfoldable pub validate_request : ExecutionRequest → Result RequestError (Unit {0})
validate_request request = do
  fail_if (is_empty request.run.id || is_empty request.plan.id || is_empty request.workflow.id)
      identifiers_required
  fail_if (not (is_known_mode request.run.mode)) (unsupported_mode request.run.mode)
  fail_if (not (nat_eq (length request.plan.assignments) (length request.workflow.activities)))
      incomplete_assignments
  check_runtimes request request.plan.assignments

-- `requirement.Artifact` with the run and the activity that it is prepared for.
abbrev pub artifact_for :
    (run_id activity_id : String) → Option ArtifactMaterialization → Option ArtifactMaterialization
artifact_for run_id activity_id none = none
artifact_for run_id activity_id (some m) =
    some (record m { run_id = run_id; activity_id = activity_id })

module _ {W : Type 0} (floats : FloatOps) (outside : Outside W) where
  abbrev pub prepare_with :
      Option (String → PreparationRequirement → W → Result String PreparationGate × W)
      → (run_id activity_id : String) → PreparationRequirement
      → W
      → Result String PreparationGate × W
  prepare_with none run_id activity_id requirement w = (
    err (
        text_append (text_append "activity " (outside.quoted activity_id))
          " requires materialization but no preparation coordinator is configured"),
    w,
  )
  prepare_with (some prepare) run_id activity_id requirement w =
      prepare activity_id
        (record requirement { artifact = artifact_for run_id activity_id requirement.artifact }) w

  unfoldable pub prepare_activity :
      (run_id activity_id : String) → PreparationRequirement → W → Result String PreparationGate × W
  prepare_activity run_id activity_id requirement w =
      prepare_with outside.preparer run_id activity_id requirement w

  abbrev pub after_save : (Float → TaskExecution) → Result String (Unit {0}) × W → W
  after_save t (err cause, w) = w
  after_save t (ok u, w) =
      let (data_ready, w') = outside.now w in (outside.save_task (t data_ready) w').1

  -- `message` is the text of the error. What the two calls of the store answer is not looked at by the caller.
  unfoldable pub record_start_failure :
      (run_id activity_id : String)
      → PlanAssignment
      → Resource
      → (runtime_id message : String) → W
      → W
  record_start_failure run_id activity_id assignment resource runtime message w =
      let (now, w1) = outside.now w in
      let text = text_append "start activity: " message in
      let handle : ActivityHandle = record {
        id = join run_id activity_id;
        run_id = run_id;
        activity_id = activity_id;
        resource_id = resource.id;
        runtime_id = runtime;
        external_id = "";
        status = handle_failed;
        endpoints = [];
        started_at = now;
        finished_at = now;
        exit_code = none;
        failure = text;
        log = text_append (text_append "[AKOFLOW ERROR] " text) "\n";
        artifacts = none;
        metadata = [];
      } in
      after_save
        (λ data_ready.
          record (new_running_task floats run_id activity_id assignment resource handle now
            data_ready none) { status = task_failed; finished_at = now; failure_reason = text })
        (outside.save handle w1)
