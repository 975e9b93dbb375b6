-- ===== src/Supervisor.antt =====
-- controlplane/execution/supervisor.go: the loop that executes a plan activity by activity. What the ports do is the
-- record `Outside`, over a state `W` of the world that the code does not see.
pub mod Timing
pub mod Request
pub mod Inv
pub mod Steps
pub mod Ready
pub mod Answers
pub mod Loop
pub mod Execute
pub mod Prompt
pub mod Returns
pub mod Complete
pub mod Service
pub mod Settles
pub mod Completes
use Prim.Native.String.{◌++◌ as text_append}
use akoflow_workflow_engine.Prelude.{
  ℕ, zero, suc, ◌-◌, String, Bool, true, false, not, ◌&&◌, ◌||◌, ◌==◌, Option, none, some, List, [],
  ◌∷◌, ◌++◌, Result, ok, err, if◌then◌else◌, length, take, select, all, is_empty, ltb, nat_eq,
}
use akoflow_workflow_engine.Prelude.Maps.{StringMap, lookup, insert, delete, has, index_by}
use akoflow_workflow_engine.Domain.Values.{Float, FloatOps}
use akoflow_workflow_engine.Domain.Workflow.{Activity, ActivityDependency}
use akoflow_workflow_engine.Domain.Executable.{ExecutableReference, ExecutableSourceType, build}
use akoflow_workflow_engine.Domain.Resource.{Resource}
use akoflow_workflow_engine.Domain.Planning.{ExecutionMode, interactive_mode, PlanAssignment}
use akoflow_workflow_engine.Domain.Materialization.{PreparationGate, PreparationRequirement}
use akoflow_workflow_engine.Domain.Execution.{
  ActivityExecutionContext, ActivityHandle, ActivityHandleStatus, handle_completed, handle_failed,
  handle_stopped, DataTransfer, ExecutionRequest, ExecutionTrace, TaskExecution, task_failed,
}
use akoflow_workflow_engine.Plan.Lanes.{assignment_of}
use Timing.{
  complete_task, completed_trace, new_running_task, running_trace, transfer_observations, runs_of,
}
use Request.{
  SupervisorError, StepError, step_failed, cancelled, inspect_failed, nil_handle, activity_failed,
  save_failed, resource_not_found, prepare_failed, no_preparation, start_failed, cannot_progress,
  slice_out_of_range, rounds_exhausted, Outside, select_runtime, activity_of, task_of,
  record_start_failure, resource_named, prepare_activity,
}

-- The maps of `executeActivities`.
pub record State : Type 0 where
  pub running : StringMap ActivityHandle
  pub completed : StringMap TaskExecution
  pub tasks : StringMap TaskExecution
  pub transfers : List DataTransfer

-- What a call leaves: its error, if any, the maps and the world.
abbrev pub Outcome : Type 0 → Type 0
Outcome W = Result StepError (Unit {0}) × State × W

-- What the loop of `executeActivities` returns, with the maps and the world that it leaves.
abbrev pub Answer : Type 0 → Type 0
Answer W = Result SupervisorError ExecutionTrace × State × W

abbrev pub list_or_empty : Option (List String) → List String
list_or_empty none = []
list_or_empty (some l) = l

unfoldable pub predecessors_of : StringMap (List String) → String → List String
predecessors_of predecessors id = list_or_empty (lookup id predecessors)

unfoldable pub index_predecessors :
    List ActivityDependency → StringMap (List String) → StringMap (List String)
index_predecessors [] m = m
index_predecessors (d ∷ dependencies) m =
    index_predecessors dependencies
      (insert d.activity_id (predecessors_of m d.activity_id ++ d.depends_on_activity_id ∷ []) m)

-- The tests of `readyActivities` for one id.
unfoldable pub is_ready : StringMap (List String) → State → String → Bool
is_ready predecessors s id =
    not (has id s.completed)
    && not (has id s.running)
    && not (has id s.tasks)
    && all (λ predecessor. has predecessor s.completed) (predecessors_of predecessors id)

abbrev pub is_interactive : ExecutionMode → Bool
is_interactive interactive_mode = true
is_interactive _ = false

abbrev pub is_build_source : ExecutableSourceType → Bool
is_build_source build = true
is_build_source _ = false

abbrev pub builds : Option ExecutableReference → Bool
builds none = false
builds (some e) = is_build_source e.source.source_type

abbrev pub handle_ended : ActivityHandleStatus → Bool
handle_ended handle_completed = true
handle_ended _ = false

abbrev pub handle_broken : ActivityHandleStatus → Bool
handle_broken handle_failed = true
handle_broken handle_stopped = true
handle_broken _ = false

unfoldable pub ready_activities :
    (range_ids : StringMap Activity → List String) (sort_strings : List String → List String)
    → StringMap Activity
    → StringMap (List String)
    → State
    → List String
ready_activities range_ids sort_strings activities predecessors s =
    sort_strings (select (is_ready predecessors s) (range_ids activities))

-- The task and the maps after `Inspect` says that the activity has completed.
unfoldable pub finished : FloatOps → String → ActivityHandle → State → State
finished floats id observed s =
    let t = complete_task floats (task_of s.tasks id) observed in
    record s {
      tasks = insert id t s.tasks;
      completed = insert id t s.completed;
      running = delete id s.running;
    }

-- The maps once `Start` has answered with a handle.
unfoldable pub launched : FloatOps → String → ActivityHandle → TaskExecution → State → State
launched floats id handle t s =
    let s' = record s { tasks = insert id t s.tasks; running = insert id handle s.running } in
    let done = complete_task floats t handle in
    if handle_ended handle.status
    then record s' {
      tasks = insert id done s'.tasks;
      completed = insert id done s'.completed;
      running = delete id s'.running;
    }
    else s'

-- `ready[:available]` panics when `available` is negative.
unfoldable pub available : (max_parallel ready running : ℕ) → Option ℕ
available max_parallel ready running =
    if ltb max_parallel running
    then none
    else if ltb ready (max_parallel - running)
    then some ready
    else some (max_parallel - running)

module _ {W : Type 0} where
  abbrev pub or_stop : (State → W → Outcome W) → Outcome W → Outcome W
  or_stop next (ok u, s, w) = next s w
  or_stop next (err e, s, w) = (err e, s, w)

  abbrev pub saved : State → Result String (Unit {0}) × W → Outcome W
  saved s (ok u, w) = (ok tt, s, w)
  saved s (err cause, w) = (err (save_failed cause), s, w)

  -- In the loop of `executeActivities`; `next` is what follows.
  abbrev pub stopped : (State → W → Answer W) → Outcome W → Answer W
  stopped next (ok u, s, w) = next s w
  stopped next (err e, s, w) = (err (step_failed e), s, w)

  abbrev pub waited : (State → W → Answer W) → State → Option String × W → Answer W
  waited next s (none, w) = next s w
  waited next s (some cause, w) = (err (cancelled cause), s, w)

  module _ (floats : FloatOps) (outside : Outside W) where
    abbrev pub saved_finished :
        String → ActivityHandle → State → Result String (Unit {0}) × W → Outcome W
    saved_finished id observed s (ok u, w) = (ok tt, finished floats id observed s, w)
    saved_finished id observed s (err cause, w) = (err (save_failed cause), s, w)

    -- The body of the loop of `inspectRunning`, once the handle is read.
    abbrev pub inspected : String → State → Result String (Option ActivityHandle) × W → Outcome W
    inspected id s (err cause, w) = (err (inspect_failed id cause), s, w)
    inspected id s (ok none, w) = (err (nil_handle id), s, w)
    inspected id s (ok (some observed), w) =
        let t = task_of s.tasks id in
        let w' =
          (outside.save_task (record t { status = task_failed; failure_reason = observed.failure })
            w).1 in
        if handle_ended observed.status
        then saved_finished id observed s (outside.save_task (complete_task floats t observed) w)
        else if handle_broken observed.status
        then (err (activity_failed id observed.failure), s, w')
        else (ok tt, s, w)

    unfoldable pub inspect_running :
        ExecutionMode → List (String × ActivityHandle) → State → W → Outcome W
    inspect_running mode [] s w = (ok tt, s, w)
    inspect_running mode ((id, handle) ∷ handles) s w =
        or_stop (inspect_running mode handles) (inspected id s (outside.inspect handle.id mode w))

    module _ (request : ExecutionRequest) (activities : StringMap Activity)
        (assignments : StringMap PlanAssignment) (resources : StringMap Resource) where
      -- `message` is the text of the error that is recorded.
      abbrev pub failed_start :
          String → Resource → StepError → (message : String) → State → W → Outcome W
      failed_start id resource e message s w =
          let assignment = assignment_of assignments id in
          (
            err e,
            s,
            record_start_failure floats outside request.run.id id assignment resource
                (select_runtime request assignment) message w,
          )

      abbrev pub after_start :
          String
          → Resource
          → (ready_at : Float) → Option PreparationGate
          → State
          → Result String ActivityHandle × W
          → Outcome W
      after_start id resource ready_at preparation s (err cause, w) =
          failed_start id resource (start_failed id cause) cause s w
      after_start id resource ready_at preparation s (ok handle, w) =
          let (now, w') = outside.now w in
          let t =
            new_running_task floats request.run.id id (assignment_of assignments id) resource handle
              ready_at now preparation in
          saved (launched floats id handle t s) (
            outside.save_task
              (if handle_ended handle.status then complete_task floats t handle else t) w')

      abbrev pub start_prepared :
          String → Resource → (ready_at : Float) → Option PreparationGate → State → W → Outcome W
      start_prepared id resource ready_at preparation s w =
          let assignment = assignment_of assignments id in
          after_start id resource ready_at preparation s (
            outside.start
              (record {
                run = request.run;
                workflow = request.workflow;
                activity = activity_of activities id;
                assignment = assignment;
                resource = resource;
                runtime_id = select_runtime request assignment;
                preparation = preparation;
              })
              w)

      abbrev pub after_prepare :
          String
          → Resource
          → (ready_at : Float) → State
          → Result String PreparationGate × W
          → Outcome W
      after_prepare id resource ready_at s (err cause, w) =
          failed_start id resource (prepare_failed id cause)
            (text_append (text_append (text_append "prepare activity " (outside.quoted id)) ": ")
              cause)
            s w
      after_prepare id resource ready_at s (ok gate, w) =
          start_prepared id resource ready_at (some gate)
            (record s {
              transfers =
                  s.transfers
                  ++ transfer_observations floats request.run.id id resource.id gate.transfer_runs;
            })
            w

      abbrev pub start_required :
          String
          → Resource
          → (ready_at : Float) → Option PreparationRequirement
          → State
          → W
          → Outcome W
      start_required id resource ready_at (some requirement) s w =
          after_prepare id resource ready_at s
            (prepare_activity floats outside request.run.id id requirement w)
      start_required id resource ready_at none s w =
          if builds (activity_of activities id).command.executable
          then failed_start id resource (no_preparation id)
              (text_append (text_append "activity " (outside.quoted id))
                " has an executable reference but no preparation requirement")
              s w
          else start_prepared id resource ready_at none s w

      abbrev pub start_on : String → (ready_at : Float) → Option Resource → State → W → Outcome W
      start_on id ready_at none s w =
          let resource_id = (assignment_of assignments id).resource_id in
          failed_start id (resource_named resource_id) (resource_not_found resource_id)
            (text_append (text_append "resource " (outside.quoted resource_id)) " not found") s w
      start_on id ready_at (some resource) s w =
          start_required id resource ready_at (lookup id request.preparation_requirements) s w

      -- The body of the loop of `startReadyActivities`.
      unfoldable pub start_one : String → State → W → Outcome W
      start_one id s w =
          let (ready_at, w') = outside.now w in
          start_on id ready_at (lookup (assignment_of assignments id).resource_id resources) s w'

      unfoldable pub start_ready_activities : List String → State → W → Outcome W
      start_ready_activities [] s w = (ok tt, s, w)
      start_ready_activities (id ∷ ready) s w =
          or_stop (start_ready_activities ready) (start_one id s w)

    -- `range` and `sort` leave their order open: the entries of a map, and the ids and tasks put in order.
    module _ (max_parallel : ℕ)
        (range_handles : StringMap ActivityHandle → List (String × ActivityHandle))
        (range_ids : StringMap Activity → List String) (sort_strings : List String → List String)
        (sort_tasks : StringMap TaskExecution → List TaskExecution) where
      module _ (request : ExecutionRequest) (activities : StringMap Activity)
          (assignments : StringMap PlanAssignment) (resources : StringMap Resource)
          (predecessors : StringMap (List String)) where
        abbrev pub after_started :
            (State → W → Answer W) → (ready : List String) → State → W → Answer W
        after_started next ready s w =
            if nat_eq (length s.running) 0
              && nat_eq (length ready) 0
              && ltb (length s.completed) (length activities)
            then (err cannot_progress, s, w)
            else if ltb 0 (length s.running)
            then waited next s (outside.wait w)
            else next s w

        abbrev pub start_available :
            (State → W → Answer W) → (ready : List String) → Option ℕ → State → W → Answer W
        start_available next ready none s w = (err slice_out_of_range, s, w)
        start_available next ready (some n) s w =
            stopped (after_started next ready)
              (start_ready_activities request activities assignments resources (take n ready) s w)

        abbrev pub after_inspected : (State → W → Answer W) → State → W → Answer W
        after_inspected next s w =
            let ready = ready_activities range_ids sort_strings activities predecessors s in
            if is_interactive request.run.mode && ltb 0 (length s.running)
            then (ok (running_trace floats request (sort_tasks s.tasks) s.transfers), s, w)
            else start_available next ready
                (available max_parallel (length ready) (length s.running)) s w

        abbrev pub round : (State → W → Answer W) → Option String → State → W → Answer W
        round next (some cause) s w = (err (cancelled cause), s, w)
        round next none s w =
            stopped (after_inspected next)
              (inspect_running request.run.mode (range_handles s.running) s w)

        unfoldable pub execute_loop : (rounds : ℕ) → State → W → Answer W
        execute_loop zero s w = (err rounds_exhausted, s, w)
        execute_loop (suc rounds) s w =
            if ltb (length s.completed) (length activities)
            then round (execute_loop rounds) (outside.context_error w) s w
            else (ok (completed_trace floats request (sort_tasks s.tasks) s.transfers), s, w)

      unfoldable pub execute_activities : (rounds : ℕ) → ExecutionRequest → W → Answer W
      execute_activities rounds request w =
          execute_loop request (index_by (λ a. a.id) request.workflow.activities [])
            (index_by (λ a. a.activity_id) request.plan.assignments [])
            (index_by (λ r. r.id) request.resources [])
            (index_predecessors request.workflow.dependencies []) rounds
            (record { running = []; completed = []; tasks = []; transfers = [] }) w
