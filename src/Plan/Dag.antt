-- ===== src/Plan/Dag.antt =====
-- `validateDAG` of planning/validator.go: Kahn's algorithm over the dependencies of a workflow.
pub mod Edges
pub mod Kahn
pub mod Order
use akoflow_workflow_engine.Prelude.{
  ℕ, zero, suc, ◌≡◌, String, Bool, true, false, not, ◌==◌, Option, none, some, List, [], ◌∷◌, ◌++◌,
  Result, ok, err, ◌>>=◌, if◌then◌else◌, length, select, contains, distinct, nat_eq,
}
use akoflow_workflow_engine.Prelude.Int.{ℤ, pos, succ_ℤ, pred_ℤ, is_zero}
use akoflow_workflow_engine.Prelude.Maps.{StringMap, lookup, insert, has, keys}
use akoflow_workflow_engine.Domain.Workflow.{Activity, ActivityDependency, WorkflowVersion}
use akoflow_workflow_engine.Plan.Error.{
  PlanError, dependency_of_unknown, dependency_on_unknown, depends_on_itself, contains_cycle,
  rounds_exhausted,
}

abbrev pub Indegrees : Type 0
Indegrees = StringMap ℤ

abbrev pub Successors : Type 0
Successors = StringMap (List String)

abbrev pub or_zero : Option ℤ → ℤ
or_zero none = pos 0
or_zero (some d) = d

abbrev pub or_empty : Option (List String) → List String
or_empty none = []
or_empty (some l) = l

-- indegree[id] and successors[id]: a missing key reads as the zero value.
unfoldable pub degree : Indegrees → String → ℤ
degree m id = or_zero (lookup id m)

unfoldable pub successors_of : Successors → String → List String
successors_of s id = or_empty (lookup id s)

unfoldable pub zero_degrees : List Activity → Indegrees → Indegrees
zero_degrees [] m = m
zero_degrees (a ∷ activities) m = zero_degrees activities (insert a.id (pos 0) m)

abbrev pub count_edge : ActivityDependency → Indegrees → Indegrees
count_edge d m = insert d.activity_id (succ_ℤ (degree m d.activity_id)) m

abbrev pub add_successor : ActivityDependency → Successors → Successors
add_successor d s =
    insert d.depends_on_activity_id (successors_of s d.depends_on_activity_id ++ d.activity_id ∷ [])
      s

unfoldable pub add_edges :
    List ActivityDependency → Indegrees → Successors → Result PlanError (Indegrees × Successors)
add_edges [] m s = ok (m, s)
add_edges (d ∷ dependencies) m s =
    let rest = add_edges dependencies (count_edge d m) (add_successor d s) in
    if not (has d.activity_id m)
    then err (dependency_of_unknown d.activity_id)
    else if not (has d.depends_on_activity_id m)
    then err (dependency_on_unknown d.depends_on_activity_id)
    else if d.activity_id == d.depends_on_activity_id
    then err (depends_on_itself d.activity_id)
    else rest

-- The inner loop: each successor loses an edge, and joins the queue when that was its last.
unfoldable pub release_successors : List String → Indegrees → List String → Indegrees × List String
release_successors [] m queue = (m, queue)
release_successors (id ∷ ids) m queue =
    let d = pred_ℤ (degree m id) in
    release_successors ids (insert id d m) (if is_zero d then queue ++ id ∷ [] else queue)

-- The outer loop, with the rounds that it may make: the number of ids that it visits.
unfoldable pub visit : ℕ → Successors → Indegrees → List String → ℕ → Option ℕ
visit zero s m queue visited = none
visit (suc rounds) s m [] visited = some visited
visit (suc rounds) s m (id ∷ queue) visited =
    let next = release_successors (successors_of s id) m queue in
    visit rounds s next.0 next.1 (suc visited)

abbrev pub all_visited : Option ℕ → ℕ → Result PlanError (Unit {0})
all_visited none total = err rounds_exhausted
all_visited (some visited) total = if nat_eq visited total then ok tt else err contains_cycle

-- `range_keys` is the order in which `range` meets the keys of the map.
unfoldable pub validate_dag :
    (Indegrees → List String) → WorkflowVersion → Result PlanError (Unit {0})
validate_dag range_keys w = do
  (m, s) ← add_edges w.dependencies (zero_degrees w.activities []) []
  all_visited (visit (suc (length m)) s m (select (λ id. is_zero (degree m id)) (range_keys m)) 0)
      (length m)

-- What Go promises of `range` over a map: each key once.
pub record RangesKeys (range_keys : Indegrees → List String) : Type 0 where
  pub once : (m : Indegrees) → distinct (keys m) ≡ true → distinct (range_keys m) ≡ true
  pub all_keys :
      (m : Indegrees) (id : String)
      → distinct (keys m) ≡ true
      → contains (range_keys m) id ≡ contains (keys m) id
