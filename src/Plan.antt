-- ===== src/Plan.antt =====
-- internal/infrastructure/plugins/planning/validator.go: whether a plan may be run.
pub mod Error
pub mod Dag
pub mod Assign
pub mod Lanes
pub mod Runnable
use akoflow_workflow_engine.Prelude.{
  ℕ, String, Bool, true, false, not, ◌&&◌, ◌||◌, ◌==◌, List, [], Result, ok, err, fail_if, ◌>>=◌,
  ◌>>◌, is_empty, length, nat_eq,
}
use akoflow_workflow_engine.Prelude.Maps.{index_by}
use akoflow_workflow_engine.Domain.Values.{FloatOps}
use akoflow_workflow_engine.Domain.Workflow.{WorkflowVersion}
use akoflow_workflow_engine.Domain.Resource.{Resource, NetworkTopology}
use akoflow_workflow_engine.Domain.Environment.{ExecutionScope}
use akoflow_workflow_engine.Domain.Planning.{PlanAssignment, SchedulePlan}
use Error.{
  PlanError, workflow_mismatch, topology_mismatch, scope_required, scope_mismatch,
  topology_scope_mismatch, incomplete_plan,
}
use Dag.{Indegrees, validate_dag}
use Assign.{check_assignments}
use Lanes.{Lanes as LaneMap, validate_resource_orders}

-- The checks of the plan's own references.
unfoldable pub check_references :
    SchedulePlan → WorkflowVersion → ExecutionScope → NetworkTopology → Result PlanError (Unit {0})
check_references plan w scope topology = do
  fail_if (not (plan.workflow_version_id == w.id)) workflow_mismatch
  fail_if (not (is_empty plan.network_topology_id) && not (plan.network_topology_id == topology.id))
      topology_mismatch
  fail_if (is_empty plan.execution_scope_id) scope_required
  fail_if (not (plan.execution_scope_id == scope.id)) scope_mismatch
  fail_if
      (not (is_empty topology.id) && not (plan.execution_scope_id == topology.execution_scope_id))
      topology_scope_mismatch

-- What Go leaves open: how floats compare, how maps are ranged over, how a lane is sorted.
module _ (floats : FloatOps) (range_keys : Indegrees → List String)
    (sort_lane : List PlanAssignment → List PlanAssignment)
    (range_lanes : LaneMap → List String) where
  unfoldable pub validate :
      SchedulePlan
      → WorkflowVersion
      → List Resource
      → ExecutionScope
      → NetworkTopology
      → Result PlanError (Unit {0})
  validate plan w resources scope topology =
      let activities = index_by (λ a. a.id) w.activities [] in
      let by_id = index_by (λ r. r.id) resources [] in
      check_references plan w scope topology >> (do
        assigned ←
            check_assignments floats scope.environment_version_ids activities by_id plan.assignments
              []
        fail_if (not (nat_eq (length assigned) (length activities)))
            (incomplete_plan (length assigned) (length activities))
        validate_dag range_keys w
        validate_resource_orders sort_lane range_lanes plan.assignments w.dependencies)
