-- ===== src/Domain/Planning.antt =====
-- internal/domain/planning/planning.go: a schedule and the request that it answers.
use akoflow_workflow_engine.Prelude.{String, Bool, List}
use akoflow_workflow_engine.Prelude.Int.{ℤ}
use akoflow_workflow_engine.Domain.Values.{Float, Metadata}

pub data PlanningSource : Type 0 where
  plugin imported : PlanningSource
  other_planning : String → PlanningSource

pub data ExecutionMode : Type 0 where
  real_mode simulation_mode interactive_mode : ExecutionMode
  unknown_mode : String → ExecutionMode

pub record PredictedMetrics : Type 0 where
  pub makespan_seconds : Float
  pub cost : Float
  pub feasible : Bool

pub record PlanAssignment : Type 0 where
  pub id : String
  pub plan_id : String
  pub activity_id : String
  pub resource_id : String
  pub core_id : String
  pub slot_id : String
  pub order_on_resource : ℤ
  pub priority : ℤ
  pub predicted_ready_at : Float
  pub predicted_start_at : Float
  pub predicted_finish_at : Float
  pub predicted_runtime_seconds : Float
  pub predicted_transfer_seconds : Float
  pub predicted_cost : Float
  pub metadata : Metadata

pub record SchedulePlan : Type 0 where
  pub id : String
  pub workflow_version_id : String
  pub execution_scope_id : String
  pub network_topology_id : String
  pub source : PlanningSource
  pub algorithm : String
  pub algorithm_version : String
  pub objective : String
  pub deadline_seconds : Float
  pub budget : Float
  pub predicted : PredictedMetrics
  pub assignments : List PlanAssignment
  pub assignment_count : ℤ
  pub metadata : Metadata
