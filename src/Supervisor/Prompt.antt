-- ===== src/Supervisor/Prompt.antt =====
-- `executeActivities` of controlplane/execution/supervisor.go over ports that answer: each step succeeds.
use akoflow_workflow_engine.Prelude.{
  ◌≡◌, refl, ap, ◌∙◌, subst, String, true, false, not, ◌&&◌, ◌||◌, ◌==◌, eq_iff, none, some, List,
  [], ◌∷◌, map, Result, ok, err, All, Bool-cases, inl, inr, contains, arith, ok_inj, some_inj,
  Option, none, All-weaken,
}
use akoflow_workflow_engine.Prelude.Maps.{StringMap, lookup, has, has-insert, has-delete}
use akoflow_workflow_engine.Domain.Values.{Float, FloatOps}
use akoflow_workflow_engine.Domain.Workflow.{Activity}
use akoflow_workflow_engine.Domain.Resource.{Resource}
use akoflow_workflow_engine.Domain.Planning.{ExecutionMode, PlanAssignment}
use akoflow_workflow_engine.Domain.Execution.{
  ActivityExecutionContext, ActivityHandle, ExecutionRequest, TaskExecution,
}
use akoflow_workflow_engine.Plan.Lanes.{assignment_of}
use akoflow_workflow_engine.Supervisor.Request.{Outside, activity_of}
use akoflow_workflow_engine.Supervisor.{
  State, Outcome, or_stop, saved, saved_finished, inspected, inspect_running, finished, launched,
  handle_ended, start_one, after_start, start_ready_activities, builds,
}

-- The context is never cancelled, what is inspected has completed, and what is started or saved succeeds.
pub record IsPrompt {W : Type 0} (outside : Outside W) : Type 0 where
  pub no_context_error : (w : W) → outside.context_error w ≡ none
  pub no_wait_error : (w : W) → (outside.wait w).0 ≡ none
  pub inspects :
      (id : String) (mode : ExecutionMode) (w : W)
      → (h : ActivityHandle) × ((outside.inspect id mode w).0 ≡ ok (some h))
        × (handle_ended h.status ≡ true)
  pub starts :
      (c : ActivityExecutionContext) (w : W) → (h : ActivityHandle) × ((outside.start c w).0 ≡ ok h)
  pub saves : (t : TaskExecution) (w : W) → (outside.save_task t w).0 ≡ ok tt

-- Each activity is assigned to a resource of the request and needs no preparation.
pub record IsStartable (request : ExecutionRequest) (activities : StringMap Activity)
    (assignments : StringMap PlanAssignment) (resources : StringMap Resource) : Type 0 where
  pub placed :
      (id : String)
      → has id activities ≡ true
      → (r : Resource) × (lookup (assignment_of assignments id).resource_id resources ≡ some r)
  pub unprepared : (id : String) → lookup id request.preparation_requirements ≡ none
  pub unbuilt : (id : String) → builds (activity_of activities id).command.executable ≡ false

launched_tasks :
    (floats : FloatOps) (id : String) (handle : ActivityHandle) (t : TaskExecution) (s : State)
    (v : String)
    → has v (launched floats id handle t s).tasks ≡ (id == v || has v s.tasks)
unfolding launched
launched_tasks floats id handle t s v = elim (Bool-cases (handle_ended handle.status)) [
  | inl e ↦ rw e (has-insert id v _ _ ∙ ground (arith, has-insert id v t s.tasks))
  | inr e ↦ rw e (has-insert id v t s.tasks)
]

module _ {W : Type 0} where
  or_stop_ok :
      (next : State → W → Outcome W) (o : Outcome W) → o.0 ≡ ok tt → or_stop next o ≡ next o.1 o.2
  or_stop_ok next (ok u, s, w) h = refl
  or_stop_ok next (err e, s, w) h = cc

  saved_ok :
      (s : State) (r : Result String (Unit {0}) × W)
      → r.0 ≡ ok tt
      → ((saved s r).0 ≡ ok tt) × ((saved s r).1 ≡ s)
  saved_ok s (ok u, w) h = (refl, refl)
  saved_ok s (err cause, w) h = cc

  module _ (floats : FloatOps) (outside : Outside W) (prompt : IsPrompt outside) where
    -- The step has completed the activity.
    abbrev Finishes : String → State → Outcome W → Type 0
    Finishes id s o = (o.0 ≡ ok tt) × ((h : ActivityHandle) × (o.1 ≡ finished floats id h s))

    saved_finished_ok :
        (id : String) (h : ActivityHandle) (s : State) (r : Result String (Unit {0}) × W)
        → r.0 ≡ ok tt
        → Finishes id s (saved_finished floats outside id h s r)
    saved_finished_ok id h s (ok u, w) e = (refl, (h, refl))
    saved_finished_ok id h s (err cause, w) e = cc

    inspected_ok :
        (id : String) (s : State) (r : Result String (Option ActivityHandle) × W)
        (h : ActivityHandle)
        → r.0 ≡ ok (some h)
        → handle_ended h.status ≡ true
        → Finishes id s (inspected floats outside id s r)
    inspected_ok id s (err cause, w) h e k = cc
    inspected_ok id s (ok none, w) h e k = cc
    inspected_ok id s (ok (some g), w) h e k =
        let same : handle_ended g.status ≡ true =
          ap (λ (x : ActivityHandle). handle_ended x.status) (some_inj (ok_inj e)) ∙ k in
        rw same (saved_finished_ok id g s _ (prompt.saves _ w))

    -- What is inspected leaves the running activities; what was attempted stays so.
    pub inspect_running_ok :
        (mode : ExecutionMode) (handles : List (String × ActivityHandle)) (s : State) (w : W)
        → All (λ (e : String × ActivityHandle). has e.0 s.tasks ≡ true) handles
        → ((inspect_running floats outside mode handles s w).0 ≡ ok tt)
          × ((v : String)
              → has v (inspect_running floats outside mode handles s w).1.running ≡ (
                  has v s.running
                  && not (contains (map (λ (e : String × ActivityHandle). e.0) handles) v)))
          × ((v : String)
              → has v (inspect_running floats outside mode handles s w).1.tasks ≡ has v s.tasks)
    unfolding inspect_running finished
    inspect_running_ok mode [] s w all = (refl, (λ v. ground arith), (λ v. refl))
    inspect_running_ok mode ((id, handle) ∷ handles) s w (t, all) =
        let (h, answered, ended) = prompt.inspects handle.id mode w in
        let o = inspected floats outside id s (outside.inspect handle.id mode w) in
        let (done, (g, after)) =
          inspected_ok id s (outside.inspect handle.id mode w) h answered ended in
        let same_tasks : (v : String) → has v o.1.tasks ≡ has v s.tasks = λ v.
          ap (λ (u : State). has v u.tasks) after
          ∙ has-insert id v _ s.tasks
          ∙ ground (arith, is_there id s t v) in
        let left : (v : String) → has v o.1.running ≡ (not (id == v) && has v s.running) =
          λ v. ap (λ (u : State). has v u.running) after ∙ has-delete id v s.running in
        let (rest_ok, rest_running, rest_tasks) = inspect_running_ok mode handles o.1 o.2 (
          All-weaken (λ (e : String × ActivityHandle). has e.0 s.tasks ≡ true)
            (λ (e : String × ActivityHandle). has e.0 o.1.tasks ≡ true) (λ e k. same_tasks e.0 ∙ k)
            handles all) in
        let step = or_stop_ok (inspect_running floats outside mode handles) o done in
        (
          ap (λ (x : Outcome W). x.0) step ∙ rest_ok,
          (λ v.
              ap (λ (x : Outcome W). has v x.1.running) step
              ∙ rest_running v
              ∙ ground (arith, left v)),
          (λ v. ap (λ (x : Outcome W). has v x.1.tasks) step ∙ rest_tasks v ∙ same_tasks v),
        )
      where
        is_there :
            (id : String) (s : State)
            → has id s.tasks ≡ true
            → (v : String) → (id == v) ≡ true
            → has v s.tasks ≡ true
        is_there id s t v e = subst (λ x. has x s.tasks ≡ true) ((eq_iff id v).0 e) t

    module _ (request : ExecutionRequest) (activities : StringMap Activity)
        (assignments : StringMap PlanAssignment) (resources : StringMap Resource)
        (startable : IsStartable request activities assignments resources) where
      abbrev Launches : String → State → Outcome W → Type 0
      Launches id s o =
          (o.0 ≡ ok tt) × ((v : String) → has v o.1.tasks ≡ (id == v || has v s.tasks))

      after_start_ok :
          (id : String) (resource : Resource) (ready_at : Float) (s : State)
          (r : Result String ActivityHandle × W) (h : ActivityHandle)
          → r.0 ≡ ok h
          → Launches id s (
              after_start floats outside request activities assignments resources id resource
                ready_at none s r)
      after_start_ok id resource ready_at s (err cause, w) h e = cc
      after_start_ok id resource ready_at s (ok g, w) h e =
          let (fine, same) =
            saved_ok (launched floats id g _ s) (outside.save_task _ (outside.now w).1)
              (prompt.saves _ (outside.now w).1) in
          (fine, λ v. ap (λ (u : State). has v u.tasks) same ∙ launched_tasks floats id g _ s v)

      start_one_ok :
          (id : String) (s : State) (w : W)
          → has id activities ≡ true
          → Launches id s (start_one floats outside request activities assignments resources id s w)
      unfolding start_one
      start_one_ok id s w k =
          let (resource, found) = startable.placed id k in
          rw found (
            rw (startable.unprepared id) (
              rw (startable.unbuilt id)
                (after_start_ok id resource _ s (outside.start _ _) _ (prompt.starts _ _).1)))

      pub start_ready_activities_ok :
          (ready : List String) (s : State) (w : W)
          → All (λ id. has id activities ≡ true) ready
          → ((start_ready_activities floats outside request activities assignments resources ready s
                w).0
              ≡ ok tt)
            × ((v : String)
                → has v
                    (start_ready_activities floats outside request activities assignments resources
                      ready s w).1.tasks
                  ≡ (contains ready v || has v s.tasks))
      unfolding start_ready_activities
      start_ready_activities_ok [] s w all = (refl, λ v. refl)
      start_ready_activities_ok (id ∷ ready) s w (k, all) =
          let o = start_one floats outside request activities assignments resources id s w in
          let (done, grown) = start_one_ok id s w k in
          let (rest_ok, rest_tasks) = start_ready_activities_ok ready o.1 o.2 all in
          let step =
            or_stop_ok
              (start_ready_activities floats outside request activities assignments resources ready)
              o done in
          (
            ap (λ (x : Outcome W). x.0) step ∙ rest_ok,
            (λ v.
                ap (λ (x : Outcome W). has v x.1.tasks) step
                ∙ rest_tasks v
                ∙ ground (arith, grown v)),
          )
