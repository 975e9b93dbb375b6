-- ===== src/Supervisor/Execute.antt =====
-- `executeActivities` of controlplane/execution/supervisor.go from its start: what holds of its maps after any number of
-- rounds, however they end.
use akoflow_workflow_engine.Prelude.{
  ℕ, ◌≡◌, refl, sym, ◌∙◌, String, true, false, ok, List, [], ◌∷◌, All, contains, distinct, arith,
  distinct-fills, same_Bool,
}
use akoflow_workflow_engine.Prelude.Maps.{
  StringMap, has, keys, lookup, index_by, has-contains, contains-index_by, distinct-index_by,
  length-keys,
}
use akoflow_workflow_engine.Domain.Values.{FloatOps}
use akoflow_workflow_engine.Domain.Workflow.{Activity, ActivityDependency}
use akoflow_workflow_engine.Domain.Execution.{ActivityHandle, ExecutionRequest, TaskExecution}
use akoflow_workflow_engine.Plan.Dag.{Indegrees, RangesKeys, validate_dag}
use akoflow_workflow_engine.Plan.Dag.Order.{activity_ids, validate_dag_iff}
use akoflow_workflow_engine.Supervisor.Request.{Outside}
use akoflow_workflow_engine.Supervisor.{State, Answer, execute_activities, is_interactive}
use akoflow_workflow_engine.Supervisor.Inv.{Inv}
use akoflow_workflow_engine.Supervisor.Ready.{RangesIds, SortsStrings}
use akoflow_workflow_engine.Supervisor.Answers.{
  RangesHandles, IsSound, is_returned, is_out_of_range, is_blocked,
}
use akoflow_workflow_engine.Supervisor.Loop.{loop-IsSound}

abbrev pub activity_map : ExecutionRequest → StringMap Activity
activity_map request = index_by (λ a. a.id) request.workflow.activities []

start_state : State
start_state = record { running = []; completed = []; tasks = []; transfers = [] }

nothing_attempted :
    (ds : List ActivityDependency)
    → All
        (λ (d : ActivityDependency).
          has {V = TaskExecution} d.activity_id [] ≡ true
          → has {V = TaskExecution} d.depends_on_activity_id [] ≡ true)
        ds
unfolding has lookup
nothing_attempted [] = tt
nothing_attempted (d ∷ ds) = ((λ h. cc), nothing_attempted ds)

pub start-Inv :
    (activities : StringMap Activity) (dependencies : List ActivityDependency) (max_parallel : ℕ)
    → Inv activities dependencies max_parallel
        (record { running = []; completed = []; tasks = []; transfers = [] })
unfolding has lookup keys
start-Inv activities dependencies max_parallel = record {
  attempted = λ v. refl;
  apart = λ v h. refl;
  known = λ v h. cc;
  ordered = nothing_attempted dependencies;
  bounded = omega arith;
  once = refl;
}

pub distinct-activity_map :
    (request : ExecutionRequest) → distinct (keys (activity_map request)) ≡ true
unfolding keys
distinct-activity_map request =
    distinct-index_by (λ (a : Activity). a.id) request.workflow.activities [] refl

pub contains-activity_map :
    (request : ExecutionRequest) (v : String)
    → has v (activity_map request) ≡ contains (activity_ids request.workflow) v
unfolding keys
contains-activity_map request v =
    has-contains (activity_map request) v
    ∙ contains-index_by (λ (a : Activity). a.id) request.workflow.activities [] v
    ∙ ground arith

module _ {W : Type 0} (floats : FloatOps) (outside : Outside W) (max_parallel : ℕ)
    (range_handles : StringMap ActivityHandle → List (String × ActivityHandle))
    (range_ids : StringMap Activity → List String) (sort_strings : List String → List String)
    (sort_tasks : StringMap TaskExecution → List TaskExecution)
    (handles : RangesHandles range_handles) (ranges : RangesIds range_ids)
    (sorts : SortsStrings sort_strings) (rounds : ℕ) (request : ExecutionRequest) (w : W) where
  abbrev ended : Answer W
  ended =
      execute_activities floats outside max_parallel range_handles range_ids sort_strings sort_tasks
        rounds request w

  ended-IsSound :
      IsSound (activity_map request) request.workflow.dependencies max_parallel request.run.mode (
        execute_activities floats outside max_parallel range_handles range_ids sort_strings
          sort_tasks rounds request w)
  unfolding execute_activities
  ended-IsSound =
      loop-IsSound floats outside max_parallel request (activity_map request) _ _
        request.workflow.dependencies range_handles range_ids sort_strings sort_tasks handles ranges
        sorts (distinct-activity_map request) rounds _ w
        (start-Inv (activity_map request) request.workflow.dependencies max_parallel)

  -- After any number of rounds, with an error or not: every activity that was started is one of the workflow's and is either
  -- running or completed; everything that it depends on has completed; and at most `max_parallel` run. The slice of
  -- the ready activities is never out of range.
  pub execute_activities-Inv :
      Inv
        (activity_map request)
        request.workflow.dependencies
        max_parallel
        (execute_activities floats outside max_parallel range_handles range_ids sort_strings
          sort_tasks rounds request w).1
      × (is_out_of_range
            (execute_activities floats outside max_parallel range_handles range_ids sort_strings
              sort_tasks rounds request w).0
          ≡ false)
  execute_activities-Inv = (ended-IsSound.kept, ended-IsSound.in_range)

  -- The loop over a workflow that `validateDAG` accepts never stops with "execution cannot progress".
  pub execute_activities_progresses :
      (range_keys : Indegrees → List String)
      → RangesKeys range_keys
      → validate_dag range_keys request.workflow ≡ ok tt
      → is_blocked
          (execute_activities floats outside max_parallel range_handles range_ids sort_strings
            sort_tasks rounds request w).0
        ≡ false
  execute_activities_progresses range_keys keyed dag =
      let (order, schedule) = ((validate_dag_iff range_keys keyed request.workflow).0 dag).1 in
      ended-IsSound.progresses order schedule.after_predecessors
        (λ v. schedule.all_activities v ∙ sym (contains-activity_map request v))

  -- When a run that is not interactive returns a trace, exactly the activities of the workflow have completed, and none is
  -- still running.
  pub execute_activities_finishes :
      is_returned
          (execute_activities floats outside max_parallel range_handles range_ids sort_strings
            sort_tasks rounds request w).0
        ≡ true
      → is_interactive request.run.mode ≡ false
      → (v : String)
      → (has v
            (execute_activities floats outside max_parallel range_handles range_ids sort_strings
              sort_tasks rounds request w).1.completed
          ≡ contains (activity_ids request.workflow) v)
        × (has v
              (execute_activities floats outside max_parallel range_handles range_ids sort_strings
                sort_tasks rounds request w).1.running
            ≡ false)
  execute_activities_finishes r i v =
      let s = ended.1 in
      let h = ended-IsSound.kept in
      let known : (u : String) → has u s.completed ≡ true → has u (activity_map request) ≡ true =
        λ u c. h.known u (ground (arith, h.attempted u, c)) in
      let filled : (u : String) → has u (activity_map request) ≡ true → has u s.completed ≡ true =
        λ u c.
          has-contains s.completed u
          ∙ distinct-fills (keys s.completed) (keys (activity_map request)) h.once
              (λ x p.
                sym (has-contains (activity_map request) x)
                ∙ known x (has-contains s.completed x ∙ p))
              (omega (
                arith,
                ended-IsSound.finishes r i,
                length-keys s.completed,
                length-keys (activity_map request),
              ))
              u (sym (has-contains (activity_map request) u) ∙ c) in
      (
        same_Bool (has v s.completed) (has v (activity_map request)) (known v) (filled v)
            ∙ contains-activity_map request v,
        same_Bool (has v s.running) false
            (λ q.
              let there : has v s.completed ≡ true =
                filled v (h.known v (ground (arith, h.attempted v, q))) in
              absurd (ground (arith, h.apart v there, q)))
            (λ q. cc),
      )
