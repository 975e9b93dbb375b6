-- ===== src/Plan/Lanes.antt =====
-- `validateResourceOrders` of planning/validator.go.
pub mod Exclusive
use Prim.Native.String.{◌++◌ as text_append}
use akoflow_workflow_engine.Prelude.{
  ℕ, ◌≡◌, String, Bool, true, false, not, ◌&&◌, ◌||◌, ◌==◌, Option, none, some, List, [], ◌∷◌, ◌++◌,
  Result, ok, err, fail_if, ◌>>=◌, ◌>>◌, if◌then◌else◌, All, count_if, contains,
}
use akoflow_workflow_engine.Prelude.Int.{ℤ, pos, leb_ℤ, eq_ℤ}
use akoflow_workflow_engine.Prelude.Maps.{StringMap, lookup, insert, keys, index_by}
use akoflow_workflow_engine.Domain.Workflow.{ActivityDependency}
use akoflow_workflow_engine.Domain.Planning.{PlanAssignment}
use akoflow_workflow_engine.Plan.Error.{PlanError, duplicate_order, placed_before_predecessor}

abbrev pub lane_of : PlanAssignment → String
lane_of a =
    text_append (text_append (text_append (text_append a.resource_id "\0") a.core_id) "\0")
      a.slot_id

abbrev pub Lanes : Type 0
Lanes = StringMap (List PlanAssignment)

abbrev pub items_or_none : Option (List PlanAssignment) → List PlanAssignment
items_or_none none = []
items_or_none (some items) = items

unfoldable pub items_of : Lanes → String → List PlanAssignment
items_of lanes lane = items_or_none (lookup lane lanes)

unfoldable pub group_lanes : List PlanAssignment → Lanes → Lanes
group_lanes [] lanes = lanes
group_lanes (a ∷ assignments) lanes =
    group_lanes assignments (insert (lane_of a) (items_of lanes (lane_of a) ++ a ∷ []) lanes)

-- The first order that stands twice in a row.
unfoldable pub repeated_order : List PlanAssignment → Option ℤ
repeated_order [] = none
repeated_order (a ∷ []) = none
repeated_order (a ∷ b ∷ items) =
    let rest = repeated_order (b ∷ items) in
    if eq_ℤ a.order_on_resource b.order_on_resource then some b.order_on_resource else rest

abbrev fail_on : Option ℤ → Result PlanError (Unit {0})
fail_on none = ok tt
fail_on (some order) = err (duplicate_order order)

-- The zero value that a missing key of the map reads as.
abbrev no_assignment : PlanAssignment
no_assignment = record {
  id = "";
  plan_id = "";
  activity_id = "";
  resource_id = "";
  core_id = "";
  slot_id = "";
  order_on_resource = pos 0;
  priority = pos 0;
  predicted_ready_at = 0;
  predicted_start_at = 0;
  predicted_finish_at = 0;
  predicted_runtime_seconds = 0;
  predicted_transfer_seconds = 0;
  predicted_cost = 0;
  metadata = [];
}

abbrev assignment_or_zero : Option PlanAssignment → PlanAssignment
assignment_or_zero none = no_assignment
assignment_or_zero (some a) = a

unfoldable pub assignment_of : StringMap PlanAssignment → String → PlanAssignment
assignment_of assignments activity = assignment_or_zero (lookup activity assignments)

-- The assignment stands in the lane of its predecessor and not behind it.
abbrev pub is_misplaced : PlanAssignment → PlanAssignment → Bool
is_misplaced a predecessor =
    a.resource_id == predecessor.resource_id
    && a.core_id == predecessor.core_id
    && a.slot_id == predecessor.slot_id
    && leb_ℤ a.order_on_resource predecessor.order_on_resource

unfoldable pub check_order :
    StringMap PlanAssignment → List ActivityDependency → Result PlanError (Unit {0})
check_order assignments [] = ok tt
check_order assignments (d ∷ dependencies) =
    let rest = check_order assignments dependencies in
    if is_misplaced (assignment_of assignments d.activity_id)
      (assignment_of assignments d.depends_on_activity_id)
    then err (placed_before_predecessor d.activity_id d.depends_on_activity_id)
    else rest

-- `sort_lane` is what `sort.Slice` makes of a lane, `range_lanes` the order in which `range` meets the lanes.
module _ (sort_lane : List PlanAssignment → List PlanAssignment)
    (range_lanes : Lanes → List String) where
  unfoldable pub check_lanes : Lanes → List String → Result PlanError (Unit {0})
  check_lanes lanes [] = ok tt
  check_lanes lanes (lane ∷ rest) =
      let later = check_lanes lanes rest in
      fail_on (repeated_order (sort_lane (items_of lanes lane))) >> later

  unfoldable pub validate_resource_orders :
      List PlanAssignment → List ActivityDependency → Result PlanError (Unit {0})
  validate_resource_orders assignments dependencies =
      let lanes = group_lanes assignments [] in
      check_lanes lanes (range_lanes lanes)
      >> check_order (index_by (λ a. a.activity_id) assignments []) dependencies

abbrev pub IsAscending : List PlanAssignment → Type 0
IsAscending [] = Unit
IsAscending (a ∷ items) =
    All (λ b. leb_ℤ a.order_on_resource b.order_on_resource ≡ true) items × IsAscending items

-- What `sort.Slice` promises: the same assignments, as often, by ascending order.
pub record SortsLane (sort_lane : List PlanAssignment → List PlanAssignment) : Type 0 where
  pub same_items :
      (items : List PlanAssignment) (test : PlanAssignment → Bool)
      → count_if test (sort_lane items) ≡ count_if test items
  pub ascending : (items : List PlanAssignment) → IsAscending (sort_lane items)

-- `range` meets every lane.
pub record RangesLanes (range_lanes : Lanes → List String) : Type 0 where
  pub all_lanes :
      (lanes : Lanes) (lane : String)
      → contains (keys lanes) lane ≡ true
      → contains (range_lanes lanes) lane ≡ true
