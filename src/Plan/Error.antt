-- ===== src/Plan/Error.antt =====
-- The errors of internal/infrastructure/plugins/planning/validator.go.
use akoflow_workflow_engine.Prelude.{String, ℕ}
use akoflow_workflow_engine.Prelude.Int.{ℤ}

pub data PlanError : Type 0 where
  workflow_mismatch topology_mismatch scope_required scope_mismatch : PlanError
  topology_scope_mismatch : PlanError
  unknown_activity : (assignment activity : String) → PlanError
  duplicate_assignment : (activity : String) → PlanError
  unknown_resource : (assignment resource : String) → PlanError
  outside_scope : (resource : String) → PlanError
  not_schedulable : (resource : String) → PlanError
  selector_mismatch : (activity selector resource : String) → PlanError
  lacks_cpu lacks_memory : (resource activity : String) → PlanError
  finishes_before_start : (assignment : String) → PlanError
  incomplete_plan : (covered total : ℕ) → PlanError
  dependency_of_unknown : (activity : String) → PlanError
  dependency_on_unknown : (predecessor : String) → PlanError
  depends_on_itself : (activity : String) → PlanError
  contains_cycle : PlanError
  duplicate_order : (order : ℤ) → PlanError
  placed_before_predecessor : (activity predecessor : String) → PlanError
  -- No run of the code: the model's loop was given too few rounds.
  rounds_exhausted : PlanError
