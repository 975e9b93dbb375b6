-- ===== src/Domain/Execution.antt =====
-- internal/domain/execution/execution.go: runs, tasks, handles and traces; and the request of
-- internal/application/ports/execution.go.
use akoflow_workflow_engine.Prelude.{String, Bool, ℕ, Option, List}
use akoflow_workflow_engine.Prelude.Int.{ℤ}
use akoflow_workflow_engine.Prelude.Maps.{StringMap}
use akoflow_workflow_engine.Domain.Values.{Float, Metadata}
use akoflow_workflow_engine.Domain.Workflow.{Activity, ActivityResourceProfile, WorkflowVersion}
use akoflow_workflow_engine.Domain.Resource.{Resource, ResourceRuntimeBinding, NetworkTopology}
use akoflow_workflow_engine.Domain.Environment.{EnvironmentRuntime, ExecutionScope}
use akoflow_workflow_engine.Domain.Planning.{
  ExecutionMode, PlanAssignment, PredictedMetrics, SchedulePlan,
}
use akoflow_workflow_engine.Domain.Artifacts.{ArtifactManifest}
use akoflow_workflow_engine.Domain.Materialization.{PreparationGate, PreparationRequirement}

pub data ExecutionRunStatus : Type 0 where
  run_created run_running run_completed run_failed : ExecutionRunStatus
  other_run_status : String → ExecutionRunStatus

pub data TaskExecutionStatus : Type 0 where
  task_blocked task_ready task_preparing task_running task_completed : TaskExecutionStatus
  task_failed task_cancelled : TaskExecutionStatus
  other_task_status : String → TaskExecutionStatus

pub data ActivityHandleStatus : Type 0 where
  handle_starting handle_running handle_completed handle_failed handle_stopped :
      ActivityHandleStatus
  other_handle_status : String → ActivityHandleStatus

pub data ExecutionRunKind : Type 0 where
  workflow_run interactive_run standalone_run : ExecutionRunKind
  other_run_kind : String → ExecutionRunKind

pub record ExecutionBreakdown : Type 0 where
  pub compute_seconds : Float
  pub transfer_seconds : Float
  pub queue_seconds : Float
  pub interference_seconds : Float
  pub overhead_seconds : Float

pub record ExecutionRun : Type 0 where
  pub id : String
  pub schedule_plan_id : String
  pub mode : ExecutionMode
  pub seed : ℤ
  pub status : ExecutionRunStatus
  pub environment_snapshot_id : String
  pub makespan_seconds : Float
  pub cost : Float
  pub failure_reason : String
  pub activity_count : ℤ
  pub completed_activity_count : ℤ
  pub breakdown : ExecutionBreakdown
  pub transferred_bytes : ℤ
  pub kind : ExecutionRunKind
  pub title : String
  pub resource_id : String
  pub runtime_id : String
  pub connection_id : String
  pub actor_id : String
  pub command : String
  pub started_at : Option ℕ
  pub finished_at : Option ℕ

pub record TaskExecution : Type 0 where
  pub id : String
  pub execution_run_id : String
  pub plan_assignment_id : String
  pub activity_id : String
  pub planned_resource_id : String
  pub allocated_resource_id : String
  pub attempt : ℤ
  pub status : TaskExecutionStatus
  pub ready_at : Float
  pub data_ready_at : Float
  pub queued_at : Float
  pub started_at : Float
  pub finished_at : Float
  pub runtime_seconds : Float
  pub queue_seconds : Float
  pub transfer_seconds : Float
  pub transfer_bytes : ℤ
  pub interference_seconds : Float
  pub overhead_seconds : Float
  pub cost : Float
  pub failure_reason : String

pub record ExecutionMetrics : Type 0 where
  pub makespan_seconds : Float
  pub cost : Float
  pub compute_seconds : Float
  pub transfer_seconds : Float
  pub queue_seconds : Float
  pub interference_seconds : Float
  pub overhead_seconds : Float
  pub feasible : Bool

pub record DataTransfer : Type 0 where
  pub id : String
  pub execution_run_id : String
  pub producer_activity_id : String
  pub consumer_activity_id : String
  pub source_resource_id : String
  pub target_resource_id : String
  pub bytes : ℤ
  pub started_at : Float
  pub finished_at : Float
  pub duration_seconds : Float
  pub cost : Float

pub record ExecutionTrace : Type 0 where
  pub run_id : String
  pub plan_id : String
  pub mode : ExecutionMode
  pub predicted : PredictedMetrics
  pub executed : ExecutionMetrics
  pub tasks : List TaskExecution
  pub transfers : List DataTransfer

pub record ActivityExecutionContext : Type 0 where
  pub run : ExecutionRun
  pub workflow : WorkflowVersion
  pub activity : Activity
  pub assignment : PlanAssignment
  pub resource : Resource
  pub runtime_id : String
  pub preparation : Option PreparationGate

pub record ActivityHandle : Type 0 where
  pub id : String
  pub run_id : String
  pub activity_id : String
  pub resource_id : String
  pub runtime_id : String
  pub external_id : String
  pub status : ActivityHandleStatus
  pub endpoints : List String
  pub started_at : Float
  pub finished_at : Float
  pub exit_code : Option ℤ
  pub failure : String
  pub log : String
  pub artifacts : Option ArtifactManifest
  pub metadata : Metadata

pub record ExecutionRequest : Type 0 where
  pub run : ExecutionRun
  pub plan : SchedulePlan
  pub workflow : WorkflowVersion
  pub resources : List Resource
  pub execution_scope : ExecutionScope
  pub runtimes : List EnvironmentRuntime
  pub runtime_bindings : List ResourceRuntimeBinding
  pub network_topology : NetworkTopology
  pub activity_profiles : List ActivityResourceProfile
  pub preparation_requirements : StringMap PreparationRequirement
