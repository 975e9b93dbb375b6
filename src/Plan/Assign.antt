-- ===== src/Plan/Assign.antt =====
-- The loop over the assignments in `Validate` of planning/validator.go.
pub mod Cover
use akoflow_workflow_engine.Prelude.{
  ℕ, String, Bool, true, false, not, ◌&&◌, ◌||◌, ◌==◌, Option, none, some, List, [], ◌∷◌, Result,
  ok, err, fail_if, or_fail, ◌>>=◌, ◌>>◌, is_empty, contains, length, nat_eq,
}
use akoflow_workflow_engine.Prelude.Int.{ltb_ℤ}
use akoflow_workflow_engine.Prelude.Maps.{StringMap, lookup, insert, has}
use akoflow_workflow_engine.Domain.Values.{FloatOps, text_of, flag_of}
use akoflow_workflow_engine.Domain.Workflow.{Activity}
use akoflow_workflow_engine.Domain.Resource.{
  Resource, ResourceType, ResourceExecutionTarget, hpc_partition, batch_queue, slurm_reservation,
  batch,
}
use akoflow_workflow_engine.Domain.Planning.{PlanAssignment}
use akoflow_workflow_engine.Plan.Error.{
  PlanError, unknown_activity, duplicate_assignment, unknown_resource, outside_scope,
  not_schedulable, selector_mismatch, lacks_cpu, lacks_memory, finishes_before_start,
}

abbrev is_batch : ResourceExecutionTarget → Bool
is_batch batch = true
is_batch _ = false

abbrev is_queue_type : ResourceType → Bool
is_queue_type hpc_partition = true
is_queue_type batch_queue = true
is_queue_type slurm_reservation = true
is_queue_type _ = false

unfoldable pub is_scheduler_target : Resource → Bool
is_scheduler_target r = is_batch r.execution_target && is_queue_type r.resource_type

-- The activity asks for another resource than the one assigned, and the plan does not override it.
unfoldable pub breaks_selector : Activity → PlanAssignment → Resource → Bool
breaks_selector activity assignment resource =
    let selector = text_of activity.metadata "resourceSelector" in
    not (is_empty selector)
    && not (selector == resource.id)
    && not (flag_of assignment.metadata "resourceSelectorOverride")

module _ (floats : FloatOps) (scope : List String) where
  -- What is asked of an assignment, with the activity and the resource that it names.
  unfoldable pub check_pair : PlanAssignment → Activity → Resource → Result PlanError (Unit {0})
  check_pair assignment activity resource = do
    fail_if (not (contains scope resource.environment_version_id)) (outside_scope resource.id)
    fail_if (not resource.schedulable) (not_schedulable resource.id)
    fail_if (breaks_selector activity assignment resource)
        (selector_mismatch activity.id (text_of activity.metadata "resourceSelector") resource.id)
    fail_if
        (not (is_scheduler_target resource)
          && floats.less resource.cpu_capacity activity.resources.cpu)
        (lacks_cpu resource.id activity.id)
    fail_if
        (not (is_scheduler_target resource)
          && ltb_ℤ resource.memory_bytes activity.resources.memory_bytes)
        (lacks_memory resource.id activity.id)
    fail_if (floats.less assignment.predicted_finish_at assignment.predicted_start_at)
        (finishes_before_start assignment.id)

  module _ (activities : StringMap Activity) (resources : StringMap Resource) where
    unfoldable pub check_assignment :
        StringMap PlanAssignment → PlanAssignment → Result PlanError (Unit {0})
    check_assignment assigned assignment = do
      activity ←
          or_fail (lookup assignment.activity_id activities)
            (unknown_activity assignment.id assignment.activity_id)
      fail_if (has assignment.activity_id assigned) (duplicate_assignment assignment.activity_id)
      resource ←
          or_fail (lookup assignment.resource_id resources)
            (unknown_resource assignment.id assignment.resource_id)
      check_pair assignment activity resource

    unfoldable pub check_assignments :
        List PlanAssignment → StringMap PlanAssignment → Result PlanError (StringMap PlanAssignment)
    check_assignments [] assigned = ok assigned
    check_assignments (a ∷ assignments) assigned =
        let rest = check_assignments assignments (insert a.activity_id a assigned) in
        check_assignment assigned a >> rest
