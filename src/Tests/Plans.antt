-- ===== src/Tests/Plans.antt =====
-- Runs of the validator of plans.
use akoflow_workflow_engine.Prelude.{
  ℕ, ◌≡◌, ◌↔◌, refl, ◌≤◌, String, true, false, ltb, nat_eq, List, [], ◌∷◌, none, ok, All, all,
  count_if, ◌==◌, ◌&&◌,
}
use akoflow_workflow_engine.Prelude.Int.{ℤ, pos, eq_ℤ}
use akoflow_workflow_engine.Prelude.Maps.{StringMap, lookup, insert, has, keys, index_by}
use akoflow_workflow_engine.Domain.Values.{FloatOps, text_of, flag_of}
use akoflow_workflow_engine.Domain.Workflow.{Activity, WorkflowVersion, task}
use akoflow_workflow_engine.Domain.Resource.{Resource, NetworkTopology, local_machine, direct}
use akoflow_workflow_engine.Domain.Environment.{ExecutionScope}
use akoflow_workflow_engine.Domain.Planning.{PlanAssignment, SchedulePlan, imported}
use akoflow_workflow_engine.Plan.{validate, check_references}
use akoflow_workflow_engine.Plan.Dag.{
  Indegrees, RangesKeys, validate_dag, degree, successors_of, zero_degrees, add_edges,
  release_successors, visit,
}
use akoflow_workflow_engine.Plan.Dag.Edges.{is_proper}
use akoflow_workflow_engine.Plan.Dag.Order.{activity_ids, IsSchedule, validate_dag_iff}
use akoflow_workflow_engine.Plan.Assign.{
  check_pair, check_assignment, check_assignments, breaks_selector, is_scheduler_target,
}
use akoflow_workflow_engine.Plan.Assign.Cover.{Covers, check_assignments-Covers}
use akoflow_workflow_engine.Plan.Lanes.{
  Lanes, RangesLanes, lane_of, items_of, group_lanes, repeated_order, check_lanes, check_order,
  validate_resource_orders, is_misplaced, assignment_of,
}
use akoflow_workflow_engine.Plan.Lanes.Exclusive.{validate_resource_orders_lem}
use akoflow_workflow_engine.Plan.Runnable.{IsRunnable, validate-IsRunnable}
use akoflow_workflow_engine.Tests.Sort.{place, sort, sort_lane, sort_lane-SortsLane}

-- Floats that are natural numbers below 2^63 in their bits compare as those numbers do.
abbrev pub floats : FloatOps
floats = record {
  less = λ a b. ltb a b;
  equal = λ a b. nat_eq a b;
  add = λ a b. a;
  sub = λ a b. a;
  of_int = λ n. 0;
  of_float32 = λ n. 0;
}

abbrev pub activity : String → Activity
activity id = record {
  id = id;
  workflow_version_id = "w";
  activity_type_id = "";
  external_id = "";
  name = id;
  kind = task;
  capabilities = [];
  command = record {
    image = "";
    executable = none;
    resolved_executable = none;
    entrypoint = "run";
    arguments = [];
    environment = [];
    working_directory = "";
  };
  resources = record { cpu = 1; memory_bytes = pos 10; storage_bytes = pos 0; gpu = pos 0 };
  service_spec = none;
  simulation_spec = none;
  policy = record { timeout_seconds = 0; max_attempts = pos 1; retry_delay_seconds = 0 };
  priority = pos 0;
  metadata = [];
}

abbrev pub chain : WorkflowVersion
chain = record {
  id = "w";
  workflow_id = "wf";
  version = pos 1;
  definition_hash = "";
  activities = activity "b" ∷ activity "a" ∷ [];
  dependencies =
      record { activity_id = "b"; depends_on_activity_id = "a"; dependency_type = "" } ∷ [];
  data_dependencies = [];
}

abbrev pub machine : Resource
machine = record {
  id = "m";
  environment_version_id = "e1";
  execution_target = direct;
  parent_resource_id = none;
  resource_type = local_machine;
  name = "m";
  provider_id = "";
  tier = "";
  region = "";
  zone = "";
  architecture = "";
  cpu_cores = pos 4;
  cpu_capacity = 4;
  memory_bytes = pos 100;
  storage_bytes = pos 0;
  compute_speedup = 0;
  price_per_second = 0;
  boot_overhead_seconds = 0;
  container_overhead = 0;
  schedulable = true;
  metadata = [];
}

abbrev pub assign : String → ℕ → PlanAssignment
assign activity_id order = record {
  id = activity_id;
  plan_id = "p";
  activity_id = activity_id;
  resource_id = "m";
  core_id = "";
  slot_id = "";
  order_on_resource = pos order;
  priority = pos 0;
  predicted_ready_at = 0;
  predicted_start_at = 0;
  predicted_finish_at = 1;
  predicted_runtime_seconds = 0;
  predicted_transfer_seconds = 0;
  predicted_cost = 0;
  metadata = [];
}

abbrev pub assignments : List PlanAssignment
assignments = assign "b" 2 ∷ assign "a" 1 ∷ []

abbrev pub plan : SchedulePlan
plan = record {
  id = "p";
  workflow_version_id = "w";
  execution_scope_id = "s";
  network_topology_id = "";
  source = imported;
  algorithm = "";
  algorithm_version = "";
  objective = "";
  deadline_seconds = 0;
  budget = 0;
  predicted = record { makespan_seconds = 0; cost = 0; feasible = true };
  assignments = assignments;
  assignment_count = pos 2;
  metadata = [];
}

abbrev pub scope : ExecutionScope
scope = record {
  id = "s";
  name = "s";
  network_topology_id = "";
  environment_version_ids = "e1" ∷ [];
  metadata = [];
}

abbrev pub topology : NetworkTopology
topology = record {
  id = "";
  name = "";
  version = pos 0;
  execution_scope_id = "";
  links = [];
  metadata = [];
}

unfoldable pub range_keys : Indegrees → List String
range_keys m = keys m

pub range_keys-RangesKeys : RangesKeys range_keys
unfolding range_keys
range_keys-RangesKeys = record { once = λ m d. d; all_keys = λ m id d. refl }

unfoldable range_lanes : Lanes → List String
range_lanes lanes = keys lanes

range_lanes-RangesLanes : RangesLanes range_lanes
unfolding range_lanes
range_lanes-RangesLanes = record { all_lanes = λ lanes lane c. c }

validate_dag_iff_example : (validate_dag range_keys chain ≡ ok tt) ↔ (
    (all (is_proper (activity_ids chain)) chain.dependencies ≡ true)
    × ((order : List String) × IsSchedule chain order))
validate_dag_iff_example = validate_dag_iff range_keys range_keys-RangesKeys chain

abbrev assigned : StringMap PlanAssignment
assigned = ("b", assign "b" 2) ∷ ("a", assign "a" 1) ∷ []

abbrev activities : StringMap Activity
activities = ("b", activity "b") ∷ ("a", activity "a") ∷ []

check_assignments-Covers_example :
    Covers floats ("e1" ∷ []) activities (("m", machine) ∷ []) assignments [] assigned
unfolding check_assignments check_assignment check_pair breaks_selector is_scheduler_target text_of
    flag_of lookup insert has
check_assignments-Covers_example =
    check_assignments-Covers floats ("e1" ∷ []) activities (("m", machine) ∷ []) assignments []
      assigned refl

validate_resource_orders_lem_example :
    ((lane : String) (order : ℤ)
      → count_if (λ a. lane_of a == lane && eq_ℤ a.order_on_resource order) assignments ≤ 1)
    × All
        (λ d.
          is_misplaced
            (assignment_of
              (index_by (λ (a : PlanAssignment). a.activity_id) assignments [])
              d.activity_id)
            (assignment_of
              (index_by (λ (a : PlanAssignment). a.activity_id) assignments [])
              d.depends_on_activity_id)
          ≡ false)
        chain.dependencies
unfolding validate_resource_orders check_lanes check_order group_lanes items_of repeated_order
    assignment_of index_by lookup insert keys sort_lane sort place range_lanes
validate_resource_orders_lem_example =
    validate_resource_orders_lem sort_lane range_lanes sort_lane-SortsLane range_lanes-RangesLanes
      assignments chain.dependencies refl

validate-IsRunnable_example : IsRunnable floats plan chain (machine ∷ []) scope
unfolding validate check_references check_assignments check_assignment check_pair breaks_selector
    is_scheduler_target text_of flag_of validate_resource_orders check_lanes check_order group_lanes
    items_of repeated_order assignment_of index_by lookup insert has keys sort_lane sort place
    range_lanes validate_dag zero_degrees add_edges degree successors_of release_successors visit
    range_keys
validate-IsRunnable_example =
    validate-IsRunnable floats range_keys sort_lane range_lanes range_keys-RangesKeys
      sort_lane-SortsLane range_lanes-RangesLanes plan chain (machine ∷ []) scope topology refl
