-- ===== src/Supervisor/Complete.antt =====
-- `executeActivities` of controlplane/execution/supervisor.go returns, over ports that answer.
use akoflow_workflow_engine.Prelude.{
  ℕ, suc, ◌≤◌, ◌≡◌, sym, ◌∙◌, String, true, false, ok, List, [], length, contains, arith,
}
use akoflow_workflow_engine.Prelude.Maps.{StringMap, has, keys, index_by, length-keys}
use akoflow_workflow_engine.Domain.Values.{FloatOps}
use akoflow_workflow_engine.Domain.Workflow.{Activity}
use akoflow_workflow_engine.Domain.Resource.{Resource}
use akoflow_workflow_engine.Domain.Planning.{PlanAssignment}
use akoflow_workflow_engine.Domain.Execution.{ActivityHandle, ExecutionRequest, TaskExecution}
use akoflow_workflow_engine.Plan.Dag.{Indegrees, RangesKeys, validate_dag}
use akoflow_workflow_engine.Plan.Dag.Order.{activity_ids, validate_dag_iff}
use akoflow_workflow_engine.Supervisor.Request.{Outside}
use akoflow_workflow_engine.Supervisor.{execute_activities, is_interactive}
use akoflow_workflow_engine.Supervisor.Ready.{RangesIds, SortsStrings}
use akoflow_workflow_engine.Supervisor.Answers.{is_returned}
use akoflow_workflow_engine.Supervisor.Prompt.{IsPrompt, IsStartable}
use akoflow_workflow_engine.Supervisor.Answers.{RangesAllHandles, count_if-length-le}
use akoflow_workflow_engine.Supervisor.Returns.{loop_returns}
use akoflow_workflow_engine.Supervisor.Execute.{
  activity_map, start-Inv, distinct-activity_map, contains-activity_map,
  execute_activities_finishes,
}

abbrev pub assignment_map : ExecutionRequest → StringMap PlanAssignment
assignment_map request = index_by (λ a. a.activity_id) request.plan.assignments []

abbrev pub resource_map : ExecutionRequest → StringMap Resource
resource_map request = index_by (λ r. r.id) request.resources []

module _ {W : Type 0} (floats : FloatOps) (outside : Outside W) (prompt : IsPrompt outside)
    (max_parallel : ℕ) (some_run : 1 ≤ max_parallel)
    (range_handles : StringMap ActivityHandle → List (String × ActivityHandle))
    (range_ids : StringMap Activity → List String) (sort_strings : List String → List String)
    (sort_tasks : StringMap TaskExecution → List TaskExecution)
    (range_keys : Indegrees → List String) (handles : RangesAllHandles range_handles)
    (ranges : RangesIds range_ids) (sorts : SortsStrings sort_strings)
    (keyed : RangesKeys range_keys) where
  -- Let the context never be cancelled, each inspection find its activity completed, and each start and each save succeed; let at
  -- least one activity be allowed to run. A run that is not interactive, of a workflow that `validateDAG` accepts,
  -- whose activities are assigned to resources of the request and need no preparation, returns a trace within two
  -- rounds more than there are activities, with exactly the activities of the workflow completed.
  pub execute_activities_returns :
      (request : ExecutionRequest) (w : W)
      → IsStartable request (activity_map request) (assignment_map request) (resource_map request)
      → is_interactive request.run.mode ≡ false
      → validate_dag range_keys request.workflow ≡ ok tt
      → (is_returned
            (execute_activities floats outside max_parallel range_handles range_ids sort_strings
              sort_tasks
              (suc (suc (length (activity_map request))))
              request
              w).0
          ≡ true)
        × ((v : String)
            → has v
                (execute_activities floats outside max_parallel range_handles range_ids sort_strings
                  sort_tasks
                  (suc (suc (length (activity_map request))))
                  request
                  w).1.completed
              ≡ contains (activity_ids request.workflow) v)
  unfolding execute_activities
  execute_activities_returns request w startable batch dag =
      let (order, schedule) = ((validate_dag_iff range_keys keyed request.workflow).0 dag).1 in
      let activities = activity_map request in
      let returned =
        loop_returns floats outside prompt max_parallel some_run request activities
          (assignment_map request) (resource_map request) startable request.workflow.dependencies
          range_handles range_ids sort_strings sort_tasks handles ranges sorts
          (distinct-activity_map request) batch order schedule.after_predecessors
          (λ v. schedule.all_activities v ∙ sym (contains-activity_map request v))
          (length activities) _ w (start-Inv activities request.workflow.dependencies max_parallel)
          (omega (arith, length-keys activities, count_if-length-le _ (keys activities))) in
      (
        returned,
        λ v.
            (execute_activities_finishes floats outside max_parallel range_handles range_ids
              sort_strings sort_tasks handles.only ranges sorts (suc (suc (length activities)))
              request w returned batch v).0,
      )
