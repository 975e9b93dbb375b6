-- ===== src/Plan/Runnable.antt =====
-- What a plan satisfies that `Validate` of planning/validator.go accepts.
use akoflow_workflow_engine.Prelude.{
  ℕ, ◌≤◌, ◌≡◌, refl, sym, ◌∙◌, String, true, false, not, ◌&&◌, ◌==◌, eq_iff, List, [], ◌∷◌, ok,
  fail_if, >>=-eq-ok, All, contains, distinct, length, arith, Bool-cases, inl, inr, nat_eq,
  count_if, distinct-length-le, same_Bool, distinct-fills,
}
use akoflow_workflow_engine.Prelude.Int.{eq_ℤ}
use akoflow_workflow_engine.Prelude.Maps.{
  StringMap, index_by, keys, contains-keys, contains-index_by, length-keys,
}
use akoflow_workflow_engine.Domain.Values.{FloatOps}
use akoflow_workflow_engine.Domain.Workflow.{WorkflowVersion, Activity}
use akoflow_workflow_engine.Domain.Resource.{Resource, NetworkTopology}
use akoflow_workflow_engine.Domain.Environment.{ExecutionScope}
use akoflow_workflow_engine.Domain.Planning.{PlanAssignment, SchedulePlan}
use akoflow_workflow_engine.Plan.Error.{incomplete_plan}
use akoflow_workflow_engine.Plan.Dag.{Indegrees, validate_dag, RangesKeys}
use akoflow_workflow_engine.Plan.Dag.Order.{activity_ids, IsSchedule, validate_dag_iff}
use akoflow_workflow_engine.Plan.Assign.{check_assignments}
use akoflow_workflow_engine.Plan.Assign.Cover.{
  assigned_ids, Suits, Covers, check_assignments-Covers, fail_if_ok,
}
use akoflow_workflow_engine.Plan.Lanes.{Lanes, lane_of, SortsLane, RangesLanes}
use akoflow_workflow_engine.Plan.Lanes.Exclusive.{validate_resource_orders_lem}
use akoflow_workflow_engine.Plan.{validate, check_references}

module _ (floats : FloatOps) (plan : SchedulePlan) (w : WorkflowVersion) (resources : List Resource)
    (scope : ExecutionScope) where
  -- Each activity has one assignment, on a resource that suits it; the activities can be put in order; and in no lane does
  -- an order stand twice.
  pub record IsRunnable : Type 0 where
    pub one_each : distinct (assigned_ids plan.assignments) ≡ true
    pub all_activities :
        (v : String) → contains (assigned_ids plan.assignments) v ≡ contains (activity_ids w) v
    pub suits :
        All
          (Suits floats scope.environment_version_ids
            (index_by (λ a. a.id) w.activities [])
            (index_by (λ r. r.id) resources []))
          plan.assignments
    pub schedule : (order : List String) × IsSchedule w order
    pub lanes :
        (lane : String) (k : _)
        → count_if (λ a. lane_of a == lane && eq_ℤ a.order_on_resource k) plan.assignments ≤ 1

suited_activities :
    (floats : FloatOps) (scope : List String) (activities : StringMap Activity)
    (resources : StringMap Resource) (assignments : List PlanAssignment)
    → All (Suits floats scope activities resources) assignments
    → (v : String) → contains (assigned_ids assignments) v ≡ true
    → contains (keys activities) v ≡ true
suited_activities floats scope activities resources [] h v c = cc
suited_activities floats scope activities resources (a ∷ assignments) h v c =
    elim (Bool-cases (a.activity_id == v)) [
      | inl e ↦
          ground (arith, contains-keys activities v, eq_iff a.activity_id v, h.0.known_activity)
      | inr e ↦ suited_activities floats scope activities resources assignments h.1 v (ground arith)
    ]

-- As many keys as activities: every activity is assigned.
covered_activities :
    (floats : FloatOps) (scope : List String) (activities : StringMap Activity)
    (resources : StringMap Resource) (assignments : List PlanAssignment)
    (assigned : StringMap PlanAssignment)
    → Covers floats scope activities resources assignments [] assigned
    → length assigned ≡ length activities
    → (v : String) → contains (assigned_ids assignments) v ≡ contains (keys activities) v
unfolding keys
covered_activities floats scope activities resources assignments assigned covers n v =
    let known = suited_activities floats scope activities resources assignments covers.suits in
    let enough =
      distinct-length-le (keys assigned) (assigned_ids assignments) (covers.distinct_keys refl)
        (λ u p. sym (covers.keyed u) ∙ p) in
    same_Bool (contains (assigned_ids assignments) v) (contains (keys activities) v) (known v) (
      distinct-fills (assigned_ids assignments) (keys activities) covers.once known
        (omega (arith, enough, length-keys assigned, length-keys activities, n)) v)

nat_eq_eq : (m n : ℕ) → not (nat_eq m n) ≡ false → m ≡ n
nat_eq_eq m n h = ground arith

module _ (floats : FloatOps) (range_keys : Indegrees → List String)
    (sort_lane : List PlanAssignment → List PlanAssignment) (range_lanes : Lanes → List String)
    (ranges : RangesKeys range_keys) (sorts : SortsLane sort_lane)
    (lanes : RangesLanes range_lanes) where
  -- When `Validate` accepts a plan: each activity of the workflow has exactly one assignment and there are no others; each
  -- assignment names an activity and a resource that pass the checks of the pair; the activities can be put in an
  -- order in which each comes after all that it depends on; and in no lane does an order stand twice.
  pub validate-IsRunnable :
      (plan : SchedulePlan) (w : WorkflowVersion) (resources : List Resource)
      (scope : ExecutionScope) (topology : NetworkTopology)
      → validate floats range_keys sort_lane range_lanes plan w resources scope topology ≡ ok tt
      → IsRunnable floats plan w resources scope
  unfolding validate keys
  validate-IsRunnable plan w resources scope topology h =
      let activities = index_by (λ (a : Activity). a.id) w.activities [] in
      let by_id = index_by (λ (r : Resource). r.id) resources [] in
      let (_, _, h1) = >>=-eq-ok (check_references plan w scope topology) _ h in
      let (assigned, checked, h2) =
        >>=-eq-ok
          (check_assignments floats scope.environment_version_ids activities by_id plan.assignments
            [])
          _ h1 in
      let (_, complete, h3) =
        >>=-eq-ok
          (fail_if (not (nat_eq (length assigned) (length activities)))
            (incomplete_plan (length assigned) (length activities)))
          _ h2 in
      let (_, dag, h4) = >>=-eq-ok (validate_dag range_keys w) _ h3 in
      let covers =
        check_assignments-Covers floats scope.environment_version_ids activities by_id
          plan.assignments [] assigned checked in
      let lengths = nat_eq_eq (length assigned) (length activities) (fail_if_ok _ _ complete) in
      record {
        one_each = covers.once;
        all_activities = λ v.
            covered_activities floats scope.environment_version_ids activities by_id
              plan.assignments assigned covers lengths v
            ∙ contains-index_by (λ (a : Activity). a.id) w.activities [] v
            ∙ ground arith;
        suits = covers.suits;
        schedule = ((validate_dag_iff range_keys ranges w).0 dag).1;
        lanes =
            (validate_resource_orders_lem sort_lane range_lanes sorts lanes plan.assignments
              w.dependencies h4).0;
      }
