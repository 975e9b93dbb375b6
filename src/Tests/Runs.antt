-- ===== src/Tests/Runs.antt =====
-- Runs of the supervisor's loop.
use akoflow_workflow_engine.Prelude.{
  ℕ, suc, ◌≡◌, some, refl, String, true, false, eq_refl, none, List, [], ◌∷◌, ok, All-weaken,
  contains, arith,
}
use akoflow_workflow_engine.Prelude.Int.{pos}
use akoflow_workflow_engine.Prelude.Maps.{StringMap, lookup, insert, delete, has, keys, index_by}
use akoflow_workflow_engine.Domain.Workflow.{Activity}
use akoflow_workflow_engine.Domain.Planning.{real_mode}
use akoflow_workflow_engine.Domain.Execution.{
  ActivityHandle, ActivityHandleStatus, ExecutionRequest, TaskExecution, handle_running,
  handle_completed, run_created, workflow_run,
}
use akoflow_workflow_engine.Plan.Lanes.{assignment_of}
use akoflow_workflow_engine.Plan.Dag.{
  validate_dag, zero_degrees, add_edges, degree, successors_of, release_successors, visit,
}
use akoflow_workflow_engine.Plan.Dag.Order.{activity_ids}
use akoflow_workflow_engine.Supervisor.Request.{Outside, task_of, activity_of}
use akoflow_workflow_engine.Supervisor.{
  execute_activities, execute_loop, inspect_running, start_ready_activities, start_one,
  ready_activities, is_ready, predecessors_of, index_predecessors, finished, launched, available,
}
use akoflow_workflow_engine.Supervisor.Inv.{Inv}
use akoflow_workflow_engine.Supervisor.Ready.{RangesIds, SortsStrings}
use akoflow_workflow_engine.Supervisor.Answers.{RangesHandles, is_out_of_range, is_blocked}
use akoflow_workflow_engine.Prelude.{map, Bool-cases, inl, inr, ◌==◌, length}
use akoflow_workflow_engine.Supervisor.Answers.{is_returned}
use akoflow_workflow_engine.Supervisor.Prompt.{IsPrompt, IsStartable}
use akoflow_workflow_engine.Supervisor.Answers.{RangesAllHandles}
use akoflow_workflow_engine.Supervisor.Complete.{
  assignment_map, resource_map, execute_activities_returns,
}
use akoflow_workflow_engine.Supervisor.Execute.{
  activity_map, execute_activities-Inv, execute_activities_progresses, execute_activities_finishes,
}
use akoflow_workflow_engine.Tests.Plans.{
  chain, machine, plan, scope, topology, floats, range_keys, range_keys-RangesKeys,
}

abbrev pub handle_of : String → ActivityHandleStatus → ActivityHandle
handle_of id status = record {
  id = id;
  run_id = "r";
  activity_id = id;
  resource_id = "m";
  runtime_id = "local";
  external_id = "";
  status = status;
  endpoints = [];
  started_at = 1;
  finished_at = 2;
  exit_code = none;
  failure = "";
  log = "";
  artifacts = none;
  metadata = [];
}

-- A runtime whose activities have completed when they are first looked at; the world is a clock.
abbrev prompt : Outside ℕ
prompt = record {
  context_error = λ w. none;
  now = λ w. (w, suc w);
  wait = λ w. (none, suc w);
  inspect = λ handle mode w. (ok (some (handle_of handle handle_completed)), w);
  start = λ context w. (ok (handle_of context.activity.id handle_running), w);
  save = λ handle w. (ok tt, w);
  save_task = λ t w. (ok tt, w);
  preparer = none;
  quoted = λ s. s;
}

abbrev pub request : ExecutionRequest
request = record {
  run = record {
    id = "r";
    schedule_plan_id = "p";
    mode = real_mode;
    seed = pos 0;
    status = run_created;
    environment_snapshot_id = "";
    makespan_seconds = 0;
    cost = 0;
    failure_reason = "";
    activity_count = pos 2;
    completed_activity_count = pos 0;
    breakdown = record {
      compute_seconds = 0;
      transfer_seconds = 0;
      queue_seconds = 0;
      interference_seconds = 0;
      overhead_seconds = 0;
    };
    transferred_bytes = pos 0;
    kind = workflow_run;
    title = "";
    resource_id = "";
    runtime_id = "";
    connection_id = "";
    actor_id = "";
    command = "";
    started_at = none;
    finished_at = none;
  };
  plan = plan;
  workflow = chain;
  resources = machine ∷ [];
  execution_scope = scope;
  runtimes = [];
  runtime_bindings = [];
  network_topology = topology;
  activity_profiles = [];
  preparation_requirements = [];
}

unfoldable pub range_handles : StringMap ActivityHandle → List (String × ActivityHandle)
range_handles m = m

range_handles-RangesHandles : RangesHandles range_handles
unfolding range_handles has lookup
range_handles-RangesHandles [] = tt
range_handles-RangesHandles ((k, v) ∷ m) = (
  ground (arith, eq_refl k),
  All-weaken (λ (e : String × ActivityHandle). has e.0 m ≡ true)
      (λ (e : String × ActivityHandle). has e.0 ((k, v) ∷ m) ≡ true) (λ e h. ground arith) m
      (range_handles-RangesHandles m),
)

unfoldable pub range_ids : StringMap Activity → List String
range_ids m = keys m

pub range_ids-RangesIds : RangesIds range_ids
unfolding range_ids
range_ids-RangesIds = record { ids_once = λ m d. d; all_ids = λ m v d. refl }

unfoldable pub keep_order : List String → List String
keep_order xs = xs

pub keep_order-SortsStrings : SortsStrings keep_order
unfolding keep_order
keep_order-SortsStrings = record { still_once = λ xs d. d; same_strings = λ xs v. refl }

unfoldable pub values : StringMap TaskExecution → List TaskExecution
values [] = []
values ((k, v) ∷ m) = v ∷ values m

execute_activities-Inv_example :
    Inv
      (activity_map request)
      chain.dependencies
      1
      (execute_activities floats prompt 1 range_handles range_ids keep_order values 2 request 0).1
    × (is_out_of_range
          (execute_activities floats prompt 1 range_handles range_ids keep_order values 2 request
            0).0
        ≡ false)
execute_activities-Inv_example =
    execute_activities-Inv floats prompt 1 range_handles range_ids keep_order values
      range_handles-RangesHandles range_ids-RangesIds keep_order-SortsStrings 2 request 0

execute_activities_progresses_example :
    is_blocked
      (execute_activities floats prompt 1 range_handles range_ids keep_order values 4 request 0).0
    ≡ false
unfolding validate_dag zero_degrees add_edges degree successors_of release_successors visit
    range_keys lookup insert has keys
execute_activities_progresses_example =
    execute_activities_progresses floats prompt 1 range_handles range_ids keep_order values
      range_handles-RangesHandles range_ids-RangesIds keep_order-SortsStrings 4 request 0 range_keys
      range_keys-RangesKeys refl

execute_activities_finishes_example :
    (has "b"
        (execute_activities floats prompt 1 range_handles range_ids keep_order values 4 request
          0).1.completed
      ≡ contains (activity_ids chain) "b")
    × (has "b"
          (execute_activities floats prompt 1 range_handles range_ids keep_order values 4 request
            0).1.running
        ≡ false)
unfolding execute_activities execute_loop inspect_running start_ready_activities start_one
    ready_activities is_ready predecessors_of index_predecessors finished launched available
    index_by lookup insert delete has keys assignment_of task_of activity_of range_handles range_ids
    keep_order values
execute_activities_finishes_example =
    execute_activities_finishes floats prompt 1 range_handles range_ids keep_order values
      range_handles-RangesHandles range_ids-RangesIds keep_order-SortsStrings 4 request 0 refl refl
      "b"

prompt-IsPrompt : IsPrompt prompt
prompt-IsPrompt = record {
  no_context_error = λ w. refl;
  no_wait_error = λ w. refl;
  inspects = λ id mode w. (handle_of id handle_completed, refl, refl);
  starts = λ c w. (handle_of c.activity.id handle_running, refl);
  saves = λ t w. refl;
}

each_handle :
    (m : StringMap ActivityHandle) (v : String)
    → has v m ≡ true
    → contains (map (λ (e : String × ActivityHandle). e.0) m) v ≡ true
unfolding has lookup
each_handle [] v h = cc
each_handle ((k, x) ∷ m) v h = ground (arith, each_handle m v)

pub range_handles-RangesAllHandles : RangesAllHandles range_handles
unfolding range_handles
range_handles-RangesAllHandles = record { only = range_handles-RangesHandles; each = each_handle }

pub request-IsStartable :
    IsStartable request (activity_map request) (assignment_map request) (resource_map request)
unfolding index_by lookup insert has assignment_of activity_of
request-IsStartable = record {
  placed = λ id k. elim (Bool-cases ("b" == id)) [
    | inl e ↦ (machine, rw e refl)
    | inr e ↦ elim (Bool-cases ("a" == id)) [
      | inl q ↦ (machine, rw e (rw q refl))
      | inr q ↦ absurd (ground (arith, e, q))
    ]
  ];
  unprepared = λ id. refl;
  unbuilt = λ id. elim (Bool-cases ("b" == id)) [
    | inl e ↦ rw e refl
    | inr e ↦ elim (Bool-cases ("a" == id)) [ inl q ↦ rw e (rw q refl) | inr q ↦ rw e (rw q refl) ]
  ];
}

execute_activities_returns_example :
    (is_returned
        (execute_activities floats prompt 1 range_handles range_ids keep_order values
          (suc (suc (length (activity_map request))))
          request
          0).0
      ≡ true)
    × ((v : String)
        → has v
            (execute_activities floats prompt 1 range_handles range_ids keep_order values
              (suc (suc (length (activity_map request))))
              request
              0).1.completed
          ≡ contains (activity_ids chain) v)
unfolding validate_dag zero_degrees add_edges degree successors_of release_successors visit
    range_keys lookup insert has keys
execute_activities_returns_example =
    execute_activities_returns floats prompt prompt-IsPrompt 1 (omega arith) range_handles range_ids
      keep_order values range_keys range_handles-RangesAllHandles range_ids-RangesIds
      keep_order-SortsStrings range_keys-RangesKeys request 0 request-IsStartable refl refl
