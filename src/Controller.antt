-- ===== src/Controller.antt =====
-- internal/application/execution/controller.go: starts, inspects and stops one activity on its runtime.
pub mod Logs
pub mod Start
pub mod Inspect
pub mod Redelivery
use Prim.Native.String.{◌++◌ as text_append}
use akoflow_workflow_engine.Prelude.{
  String, Bool, true, false, not, ◌&&◌, Option, none, some, Result, ok, err, fail_if, ◌>>◌, ◌>>=◌,
  if◌then◌else◌, is_empty, is_some, ◌==◌, ◌≡◌,
}
use akoflow_workflow_engine.Prelude.Maps.{insert}
use akoflow_workflow_engine.Domain.Values.{Float, text}
use akoflow_workflow_engine.Domain.Workflow.{
  ActivityCapability, ActivityCommand, ActivityError, Activity, real, simulation, interactive_use,
  supports, validate_activity,
}
use akoflow_workflow_engine.Domain.Executable.{ResolvedExecutable, other_format, other_delivery}
use akoflow_workflow_engine.Domain.Planning.{
  ExecutionMode, real_mode, simulation_mode, interactive_mode, unknown_mode,
}
use akoflow_workflow_engine.Domain.Materialization.{
  ArtifactMaterialization, MaterializationError, PreparationGate, has_committed, ready,
}
use akoflow_workflow_engine.Domain.Execution.{
  ActivityExecutionContext, ActivityHandle, ActivityHandleStatus, handle_starting, handle_running,
  handle_completed, handle_failed, handle_stopped, other_handle_status,
}
use akoflow_workflow_engine.Supervisor.Timing.{join}
use akoflow_workflow_engine.Controller.Logs.{TextOps, append_log, merge_logs, failure_message}

-- An error of a port is its text.
pub data ControllerError : Type 0 where
  activity_invalid : ActivityError → ControllerError
  not_ready : MaterializationError → ControllerError
  unsupported_execution : ExecutionMode → ControllerError
  not_supported : (activity : String) → ExecutionMode → ControllerError
  find_failed : (cause : String) → ControllerError
  no_selected_runtime : (activity : String) → ControllerError
  port_failed : (cause : String) → ControllerError
  invalid_handle : ControllerError
  persist_failed : (cause : String) → ControllerError
  inspect_failed : (cause save_cause : String) → ControllerError
  handle_not_found : (handle : String) → ControllerError

-- ports.RuntimeAdapter, as far as the controller calls it.
pub record Runtime (W : Type 0) : Type 0 where
  pub start : ActivityExecutionContext → W → Result String ActivityHandle × W
  pub inspect : ActivityHandle → W → Result String ActivityHandle × W
  pub stop : ActivityHandle → W → Result String (Unit {0}) × W

-- ports.ActivityExecutionStore: `find` reads, and answers nil for a handle that is not there.
pub record HandleStore (W : Type 0) : Type 0 where
  pub find : String → W → Result String (Option ActivityHandle)
  pub save : ActivityHandle → W → Result String (Unit {0}) × W

-- What the store promises: a handle that it says is saved is the one that it finds. The repository does so for a handle under a
-- new id, and for one that it has found and that is saved with another report.
pub record IsHandleStore (W : Type 0) (store : HandleStore W) : Type 0 where
  pub find-save :
      (h : ActivityHandle) (w w' : W)
      → store.save h w ≡ (ok tt, w')
      → store.find h.id w' ≡ ok (some h)

pub record Ports (W : Type 0) : Type 0 where
  pub store : HandleStore W
  pub resolve : ExecutionMode → String → Result String (Runtime W)
  pub data_catalog : Option (ActivityHandle → W → Result String (Unit {0}) × W)
  -- Seconds since the epoch.
  pub now : W → Float × W
  pub texts : TextOps

unfoldable pub capability_for : ExecutionMode → Result ControllerError ActivityCapability
capability_for real_mode = ok real
capability_for simulation_mode = ok simulation
capability_for interactive_mode = ok interactive_use
capability_for (unknown_mode s) = err (unsupported_execution (unknown_mode s))

abbrev pub lift_activity : Result ActivityError (Unit {0}) → Result ControllerError (Unit {0})
lift_activity (ok u) = ok u
lift_activity (err e) = err (activity_invalid e)

abbrev pub lift_ready : Result MaterializationError (Unit {0}) → Result ControllerError (Unit {0})
lift_ready (ok u) = ok u
lift_ready (err e) = err (not_ready e)

abbrev pub check_preparation : Option PreparationGate → Result ControllerError (Unit {0})
check_preparation none = ok tt
check_preparation (some gate) = lift_ready (ready gate)

abbrev pub supported_in :
    ActivityExecutionContext → ActivityCapability → Result ControllerError (Unit {0})
supported_in c capability =
    fail_if (not (supports c.activity capability)) (not_supported c.activity.id c.run.mode)

-- What `Start` asks of an activity before it looks for a handle.
unfoldable pub check_start : ActivityExecutionContext → Result ControllerError (Unit {0})
unfolding capability_for
check_start c =
    lift_activity (validate_activity c.activity)
    >> (check_preparation c.preparation >> (capability_for c.run.mode >>= supported_in c))

unfoldable pub resolved_executable : ArtifactMaterialization → ResolvedExecutable
resolved_executable m = record {
  variant_id = m.variant_id;
  digest = m.digest;
  format = other_format "";
  local_path = m.destination_path;
  remote_path = "";
  environment_id = m.environment_id;
  resource_id = m.resource_id;
  delivery = other_delivery "";
  materialization_id = m.id;
  materialization_done = has_committed m;
}

abbrev pub with_command : ResolvedExecutable → ActivityExecutionContext → ActivityExecutionContext
with_command executable c = record c {
  activity = record c.activity {
    command = record c.activity.command { resolved_executable = some executable };
  };
}

abbrev pub with_materialized :
    Option ArtifactMaterialization → ActivityExecutionContext → ActivityExecutionContext
with_materialized none c = c
with_materialized (some m) c = with_command (resolved_executable m) c

abbrev pub with_gate : Option PreparationGate → ActivityExecutionContext → ActivityExecutionContext
with_gate none c = c
with_gate (some gate) c = with_materialized gate.executable c

-- The context that the runtime is given.
unfoldable pub with_executable : ActivityExecutionContext → ActivityExecutionContext
with_executable c = with_gate c.preparation c

abbrev pub status_eq : ActivityHandleStatus → ActivityHandleStatus → Bool
status_eq handle_starting handle_starting = true
status_eq handle_running handle_running = true
status_eq handle_completed handle_completed = true
status_eq handle_failed handle_failed = true
status_eq handle_stopped handle_stopped = true
status_eq (other_handle_status s) (other_handle_status t) = s == t
status_eq _ _ = false

-- A handle of the run and the activity that it was started for.
abbrev pub is_of : ActivityExecutionContext → ActivityHandle → Bool
is_of c h = h.activity_id == c.activity.id && h.run_id == c.run.id

module _ {W : Type 0} (ports : Ports W) where
  abbrev pub append : String → String → String → String
  append = append_log ports.texts

  abbrev pub ended_log : ActivityHandleStatus → (failure log : String) → String
  ended_log handle_completed failure log = append log "success" "Activity completed successfully."
  ended_log handle_failed failure log = append log "error" (failure_message failure)
  ended_log _ failure log = log

  unfoldable pub started_handle : String → ActivityHandle → ActivityHandle
  started_handle id h = record h {
    id = id;
    log = ended_log h.status h.failure (
        append h.log "info"
          (text_append "Activity started on runtime " (text_append h.runtime_id ".")));
  }

  -- A handle that cannot be stored is stopped, whatever the runtime answers.
  abbrev pub stored_or_stopped :
      Runtime W
      → ActivityHandle
      → Result String (Unit {0}) × W
      → Result ControllerError ActivityHandle × W
  stored_or_stopped runtime h (ok u, w) = (ok h, w)
  stored_or_stopped runtime h (err cause, w) = (err (persist_failed cause), (runtime.stop h w).1)

  abbrev pub after_runtime :
      ActivityExecutionContext
      → Runtime W
      → Result String ActivityHandle × W
      → Result ControllerError ActivityHandle × W
  after_runtime c runtime (err cause, w) = (err (port_failed cause), w)
  after_runtime c runtime (ok h, w) =
      if is_of c h
      then stored_or_stopped runtime (started_handle (join c.run.id c.activity.id) h)
          (ports.store.save (started_handle (join c.run.id c.activity.id) h) w)
      else (err invalid_handle, w)

  abbrev pub on_runtime :
      ActivityExecutionContext
      → W
      → Result String (Runtime W)
      → Result ControllerError ActivityHandle × W
  on_runtime c w (err cause) = (err (port_failed cause), w)
  on_runtime c w (ok runtime) = after_runtime c runtime (runtime.start (with_executable c) w)

  abbrev pub after_find :
      ActivityExecutionContext
      → W
      → Result String (Option ActivityHandle)
      → Result ControllerError ActivityHandle × W
  after_find c w (err cause) = (err (find_failed cause), w)
  after_find c w (ok (some existing)) = (ok existing, w)
  after_find c w (ok none) =
      if is_empty c.runtime_id
      then (err (no_selected_runtime c.activity.id), w)
      else on_runtime c w (ports.resolve c.run.mode c.runtime_id)

  abbrev pub after_check :
      ActivityExecutionContext
      → W
      → Result ControllerError (Unit {0})
      → Result ControllerError ActivityHandle × W
  after_check c w (err e) = (err e, w)
  after_check c w (ok u) = after_find c w (ports.store.find (join c.run.id c.activity.id) w)

  unfoldable pub start : ActivityExecutionContext → W → Result ControllerError ActivityHandle × W
  unfolding check_start started_handle
  start c w = after_check c w (check_start c)

  -- The handle of an activity that cannot be inspected.
  unfoldable pub inspection_failed : ActivityHandle → Float → (cause : String) → ActivityHandle
  inspection_failed h now cause = record h {
    status = handle_failed;
    finished_at = now;
    failure = text_append "inspect activity: " cause;
    log = append h.log "error" (text_append "inspect activity: " cause);
  }

  abbrev pub saved_failure :
      ActivityHandle
      → (cause : String) → Result String (Unit {0}) × W
      → Result ControllerError (Option ActivityHandle) × W
  saved_failure h cause (ok u, w) = (ok (some h), w)
  saved_failure h cause (err save_cause, w) = (err (inspect_failed cause save_cause), w)

  unfoldable pub persist_inspection_failure :
      ActivityHandle → (cause : String) → W → Result ControllerError (Option ActivityHandle) × W
  unfolding inspection_failed
  persist_inspection_failure h cause w =
      let (now, w1) = ports.now w in
      let failed = inspection_failed h now cause in
      saved_failure failed cause (ports.store.save failed w1)

  abbrev pub changed_log : ActivityHandleStatus → (failure log : String) → String
  changed_log handle_completed failure log = append log "success" "Activity completed successfully."
  changed_log handle_failed failure log = append log "error" (failure_message failure)
  changed_log handle_stopped failure log = append log "error" (failure_message failure)
  changed_log _ failure log = log

  unfoldable pub observed_handle : ActivityHandle → ActivityHandle → ActivityHandle
  observed_handle h updated =
      let log = merge_logs ports.texts h.log updated.log in
      record updated {
        log =
            if status_eq updated.status h.status
            then log
            else changed_log updated.status updated.failure log;
      }

  abbrev pub has_ended : ActivityHandleStatus → Bool
  has_ended handle_completed = true
  has_ended handle_failed = true
  has_ended _ = false

  abbrev pub noted : ActivityHandle → Result String (Unit {0}) × W → ActivityHandle × W
  noted h (ok u, w) = (h, w)
  noted h (err cause, w) =
      (record h { metadata = insert "artifactCatalogError" (text cause) h.metadata }, w)

  -- The artifacts of an activity that has ended; an error is noted in the handle.
  unfoldable pub cataloged : ActivityHandle → W → ActivityHandle × W
  cataloged h w = elim ports.data_catalog [
    | none ↦ (h, w)
    | some catalog ↦
        let called = noted h (catalog h w) in
        if is_some h.artifacts && has_ended h.status then called else (h, w)
  ]

  abbrev pub saved_observation :
      ActivityHandle
      → Result String (Unit {0}) × W
      → Result ControllerError (Option ActivityHandle) × W
  saved_observation h (ok u, w) = (ok (some h), w)
  saved_observation h (err cause, w) = (err (port_failed cause), w)

  abbrev pub after_inspect :
      ActivityHandle
      → Result String ActivityHandle × W
      → Result ControllerError (Option ActivityHandle) × W
  after_inspect h (err cause, w) = persist_inspection_failure h cause w
  after_inspect h (ok updated, w) =
      let (seen, w1) = cataloged (observed_handle h updated) w in
      saved_observation seen (ports.store.save seen w1)

  abbrev pub inspect_on :
      ActivityHandle
      → W
      → Result String (Runtime W)
      → Result ControllerError (Option ActivityHandle) × W
  inspect_on h w (err cause) = persist_inspection_failure h cause w
  inspect_on h w (ok runtime) = after_inspect h (runtime.inspect h w)

  abbrev pub inspect_found :
      ExecutionMode
      → W
      → Result String (Option ActivityHandle)
      → Result ControllerError (Option ActivityHandle) × W
  inspect_found mode w (err cause) = (err (port_failed cause), w)
  inspect_found mode w (ok none) = (ok none, w)
  inspect_found mode w (ok (some h)) = inspect_on h w (ports.resolve mode h.runtime_id)

  unfoldable pub inspect :
      String → ExecutionMode → W → Result ControllerError (Option ActivityHandle) × W
  inspect id mode w = inspect_found mode w (ports.store.find id w)

  abbrev pub lift_port : Result String (Unit {0}) × W → Result ControllerError (Unit {0}) × W
  lift_port (ok u, w) = (ok u, w)
  lift_port (err cause, w) = (err (port_failed cause), w)

  abbrev pub after_stop :
      ActivityHandle → Result String (Unit {0}) × W → Result ControllerError (Unit {0}) × W
  after_stop h (err cause, w) = (err (port_failed cause), w)
  after_stop h (ok u, w) = lift_port (ports.store.save (record h { status = handle_stopped }) w)

  abbrev pub stop_on :
      ActivityHandle → W → Result String (Runtime W) → Result ControllerError (Unit {0}) × W
  stop_on h w (err cause) = (err (port_failed cause), w)
  stop_on h w (ok runtime) = after_stop h (runtime.stop h w)

  abbrev pub stop_found :
      String
      → ExecutionMode
      → W
      → Result String (Option ActivityHandle)
      → Result ControllerError (Unit {0}) × W
  stop_found id mode w (err cause) = (err (port_failed cause), w)
  stop_found id mode w (ok none) = (err (handle_not_found id), w)
  stop_found id mode w (ok (some h)) = stop_on h w (ports.resolve mode h.runtime_id)

  unfoldable pub stop : String → ExecutionMode → W → Result ControllerError (Unit {0}) × W
  stop id mode w = stop_found id mode w (ports.store.find id w)
