-- ===== src/Supervisor/Completes.antt =====
-- `Execute` of controlplane/execution/supervisor.go completes a run, over ports that answer.
use akoflow_workflow_engine.Prelude.{
  ℕ, suc, ◌≤◌, String, true, false, Option, some, ok, err, List, ◌≡◌, refl, length, arith,
}
use akoflow_workflow_engine.Prelude.Maps.{StringMap}
use akoflow_workflow_engine.Domain.Values.{FloatOps}
use akoflow_workflow_engine.Domain.Workflow.{Activity}
use akoflow_workflow_engine.Domain.Execution.{
  ActivityHandle, ExecutionRequest, ExecutionRun, ExecutionRunStatus, ExecutionTrace, TaskExecution,
  run_completed,
}
use akoflow_workflow_engine.Plan.Dag.{Indegrees, RangesKeys, validate_dag}
use akoflow_workflow_engine.Supervisor.Request.{Outside, validate_request}
use akoflow_workflow_engine.Supervisor.{Answer, execute_activities, is_interactive}
use akoflow_workflow_engine.Supervisor.Ready.{RangesIds, SortsStrings}
use akoflow_workflow_engine.Supervisor.Answers.{is_returned, RangesAllHandles}
use akoflow_workflow_engine.Supervisor.Prompt.{IsPrompt, IsStartable}
use akoflow_workflow_engine.Supervisor.Execute.{activity_map}
use akoflow_workflow_engine.Supervisor.Complete.{
  assignment_map, resource_map, execute_activities_returns,
}
use akoflow_workflow_engine.Supervisor.Service.{
  ExecuteError, returned, Runs, begun, execute, is_simulation, acted,
}
use akoflow_workflow_engine.Supervisor.Settles.{RecordsRuns}

-- The store takes every run and every completion.
pub record TakesRuns {W : Type 0} (runs : Runs W) : Type 0 where
  pub creates : (run : ExecutionRun) (w : W) → (w' : W) × (runs.create_run run w ≡ (ok tt, w'))
  pub completes :
      (trace : ExecutionTrace) (w : W) → (w' : W) × (runs.complete_run trace w ≡ (ok tt, w'))

module _ {W : Type 0} (runs : Runs W) (activities : ExecutionRequest → W → Answer W)
    (text : ExecuteError → String) where
  acted_ok :
      (a : Answer W)
      → is_returned a.0 ≡ true
      → (trace : ExecutionTrace) × (w : W) × (acted runs activities text a
          ≡ (returned (ok trace), w))
  acted_ok (ok trace, s, w) h = (trace, w, refl)
  acted_ok (err e, s, w) h = absurd (ground arith)

  execute_ok :
      (request : ExecutionRequest) (w : W)
      → TakesRuns runs
      → validate_request (begun request) ≡ ok tt
      → is_simulation request.run.mode ≡ false
      → is_interactive request.run.mode ≡ false
      → ((u : W) → is_returned (activities (begun request) u).0 ≡ true)
      → (trace : ExecutionTrace) × (w1 : W) × (w' : W) × (execute runs activities text request w
          ≡ (returned (ok trace), w'))
        × (runs.complete_run trace w1 ≡ (ok tt, w'))
  unfolding execute
  execute_ok request w takes valid real batch answers =
      let (u, created) = takes.creates (begun request).run w in
      let (trace, w1, run) = acted_ok (activities (begun request) u) (answers u) in
      let (w', stored) = takes.completes trace w1 in
      (trace, w1, w', rw valid (rw created (rw real (rw run (rw batch (rw stored refl))))), stored)

module _ {W : Type 0} (floats : FloatOps) (outside : Outside W) (max_parallel : ℕ)
    (range_handles : StringMap ActivityHandle → List (String × ActivityHandle))
    (range_ids : StringMap Activity → List String) (sort_strings : List String → List String)
    (sort_tasks : StringMap TaskExecution → List TaskExecution) where
  -- `executeActivities` with rounds enough.
  unfoldable pub activities_of : ExecutionRequest → W → Answer W
  activities_of request w =
      execute_activities floats outside max_parallel range_handles range_ids sort_strings sort_tasks
        (suc (suc (length (activity_map request)))) request w

  module _ (prompt : IsPrompt outside) (some_run : 1 ≤ max_parallel)
      (range_keys : Indegrees → List String) (handles : RangesAllHandles range_handles)
      (ranges : RangesIds range_ids) (sorts : SortsStrings sort_strings)
      (keyed : RangesKeys range_keys) where
    -- Let the context never be cancelled, each inspection find its activity completed, each start and save succeed, and the store
    -- take every run and completion. A request that `validateRequest` accepts, of a run that is neither interactive
    -- nor a simulation, whose workflow `validateDAG` accepts and whose activities are assigned to resources of the request
    -- and need no preparation, is answered with a trace, and the store has the run of the trace as completed.
    pub execute_completes :
        (runs : Runs W) (status : W → String → Option ExecutionRunStatus)
        (text : ExecuteError → String) (request : ExecutionRequest) (w : W)
        → RecordsRuns runs status
        → TakesRuns runs
        → validate_request (begun request) ≡ ok tt
        → is_simulation request.run.mode ≡ false
        → is_interactive request.run.mode ≡ false
        → validate_dag range_keys request.workflow ≡ ok tt
        → IsStartable
            (begun request)
            (activity_map request)
            (assignment_map request)
            (resource_map request)
        → (trace : ExecutionTrace) × (w' : W) × (execute runs activities_of text request w
            ≡ (returned (ok trace), w'))
          × (status w' trace.run_id ≡ some run_completed)
    unfolding activities_of
    execute_completes runs status text request w laws takes valid real batch dag startable =
        let (trace, w1, w', done, stored) =
          execute_ok runs activities_of text request w takes valid real batch λ u.
            (execute_activities_returns floats outside prompt max_parallel some_run range_handles
              range_ids sort_strings sort_tasks range_keys handles ranges sorts keyed
              (begun request) u startable batch dag).0 in
        (trace, w', done, laws.completes trace w1 w' stored)
