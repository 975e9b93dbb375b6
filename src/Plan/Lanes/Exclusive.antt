-- ===== src/Plan/Lanes/Exclusive.antt =====
-- In a lane that `validateResourceOrders` of planning/validator.go accepts, no order stands twice.
use akoflow_workflow_engine.Prelude.{
  ◌≤◌, ◌≡◌, refl, sym, ap, ◌∙◌, subst, String, Bool, true, false, ◌&&◌, ◌==◌, eq_iff, Option, none,
  some, List, [], ◌∷◌, ◌++◌, Result, ok, >>=-eq-ok, ◌>>◌, if◌then◌else◌, All, count_if, select,
  contains, arith, Bool-cases, inl, inr,
}
use mathlib.Core.List.{append_assoc, append-nil}
use akoflow_workflow_engine.Prelude.Int.{ℤ, leb_ℤ, eq_ℤ}
use akoflow_workflow_engine.Prelude.Maps.{
  lookup, insert, keys, index_by, lookup-insert, contains-keys,
}
use akoflow_workflow_engine.Domain.Workflow.{ActivityDependency}
use akoflow_workflow_engine.Prelude.Maps.{StringMap}
use akoflow_workflow_engine.Domain.Planning.{PlanAssignment}
use akoflow_workflow_engine.Plan.Error.{PlanError}
use akoflow_workflow_engine.Plan.Lanes.{
  Lanes, lane_of, items_of, group_lanes, repeated_order, check_lanes, validate_resource_orders,
  check_order, IsAscending, SortsLane, RangesLanes, fail_on, is_misplaced, assignment_of,
}

items_of-insert :
    (k j : String) (items : List PlanAssignment) (lanes : Lanes)
    → items_of (insert k items lanes) j ≡ (if k == j then items else items_of lanes j)
unfolding items_of
items_of-insert k j items lanes = ground (arith, lookup-insert k j items lanes)

-- A lane holds the assignments of its key.
items_of-group_lanes :
    (assignments : List PlanAssignment) (lanes : Lanes) (lane : String)
    → items_of (group_lanes assignments lanes) lane
      ≡ items_of lanes lane ++ select (λ a. lane_of a == lane) assignments
unfolding group_lanes
items_of-group_lanes [] lanes lane = sym (append-nil (items_of lanes lane))
items_of-group_lanes (a ∷ assignments) lanes lane =
    let grown = items_of lanes (lane_of a) ++ a ∷ [] in
    let later = items_of-group_lanes assignments (insert (lane_of a) grown lanes) lane in
    let chosen = items_of-insert (lane_of a) lane grown lanes in
    elim (Bool-cases (lane_of a == lane)) [
      | inl e ↦ rw e (
          later
          ∙ ap (λ l. l ++ select (λ x. lane_of x == lane) assignments)
              (chosen
                ∙ ap (λ b. if b then grown else items_of lanes lane) e
                ∙ ap (λ k. items_of lanes k ++ a ∷ []) ((eq_iff (lane_of a) lane).0 e))
          ∙ append_assoc (items_of lanes lane) (a ∷ [])
              (select (λ x. lane_of x == lane) assignments))
      | inr e ↦ rw e (
          later
          ∙ ap (λ l. l ++ select (λ x. lane_of x == lane) assignments)
              (chosen ∙ ap (λ b. if b then grown else items_of lanes lane) e))
    ]

abbrev at_order : ℤ → PlanAssignment → Bool
at_order order a = eq_ℤ a.order_on_resource order

count_above :
    (order low : ℤ) (items : List PlanAssignment)
    → All (λ b. leb_ℤ low b.order_on_resource ≡ true) items
    → leb_ℤ low order ≡ false
    → count_if (at_order order) items ≡ 0
count_above order low [] h l = refl
count_above order low (b ∷ items) h l =
    let here : leb_ℤ low b.order_on_resource ≡ true = h.0 in
    ground (arith, count_above order low items h.1 l)

behind_order :
    (a b order : ℤ)
    → eq_ℤ a order ≡ true
    → leb_ℤ a b ≡ true
    → eq_ℤ a b ≡ false
    → leb_ℤ b order ≡ false
behind_order a b order e l n = ground arith

leb_ℤ_refl : (a : ℤ) → leb_ℤ a a ≡ true
leb_ℤ_refl a = ground arith

count_ascending :
    (order : ℤ) (items : List PlanAssignment)
    → IsAscending items
    → repeated_order items ≡ none
    → count_if (at_order order) items ≤ 1
unfolding repeated_order
count_ascending order [] h r = omega arith
count_ascending order (a ∷ []) h r = ground arith
count_ascending order (a ∷ b ∷ items) h r = elim (Bool-cases (at_order order a)) [
  | inl e ↦
      let behind =
        behind_order a.order_on_resource b.order_on_resource order e h.0.0 (ground arith) in
      let above =
        count_above order b.order_on_resource (b ∷ items) (leb_ℤ_refl b.order_on_resource, h.1.0)
          behind in
      rw e (omega (arith, above))
  | inr e ↦ rw e (count_ascending order (b ∷ items) h.1 (ground arith))
]

count-select :
    (p q : PlanAssignment → Bool) (items : List PlanAssignment)
    → count_if q (select p items) ≡ count_if (λ a. p a && q a) items
count-select p q [] = refl
count-select p q (a ∷ items) = ground (arith, count-select p q items)

fail_on_ok : (o : Option ℤ) → fail_on o ≡ ok tt → o ≡ none
fail_on_ok none h = refl
fail_on_ok (some x) h = cc

fail_on_then :
    (o : Option ℤ) (m : Result PlanError (Unit {0}))
    → (fail_on o >> m) ≡ ok tt
    → (o ≡ none) × (m ≡ ok tt)
fail_on_then none m h = (refl, h)
fail_on_then (some x) m h = cc

check_order-All :
    (by_activity : StringMap PlanAssignment) (dependencies : List ActivityDependency)
    → check_order by_activity dependencies ≡ ok tt
    → All
        (λ d.
          is_misplaced
            (assignment_of by_activity d.activity_id)
            (assignment_of by_activity d.depends_on_activity_id)
          ≡ false)
        dependencies
unfolding check_order
check_order-All by_activity [] h = tt
check_order-All by_activity (d ∷ dependencies) h =
    elim (Bool-cases (
      is_misplaced (assignment_of by_activity d.activity_id)
        (assignment_of by_activity d.depends_on_activity_id))) [
          | inl e ↦ absurd (ground arith)
          | inr e ↦ (e, check_order-All by_activity dependencies (rw e at h))
        ]

module _ (sort_lane : List PlanAssignment → List PlanAssignment) (range_lanes : Lanes → List String)
    (sorts : SortsLane sort_lane) (ranges : RangesLanes range_lanes) where
  check_lanes_lane :
      (lanes : Lanes) (rest : List String) (lane : String)
      → check_lanes sort_lane range_lanes lanes rest ≡ ok tt
      → contains rest lane ≡ true
      → repeated_order (sort_lane (items_of lanes lane)) ≡ none
  unfolding check_lanes
  check_lanes_lane lanes [] lane h c = cc
  check_lanes_lane lanes (first ∷ rest) lane h c =
      let (none_here, later) =
        fail_on_then (repeated_order (sort_lane (items_of lanes first))) _ h in
      elim (Bool-cases (first == lane)) [
        | inl e ↦
            subst (λ k. repeated_order (sort_lane (items_of lanes k)) ≡ none)
              ((eq_iff first lane).0 e) none_here
        | inr e ↦ check_lanes_lane lanes rest lane later (ground arith)
      ]

  at_most_once :
      (items : List PlanAssignment) (order : ℤ)
      → repeated_order (sort_lane items) ≡ none
      → count_if (at_order order) items ≤ 1
  at_most_once items order r = omega (
    arith,
    sorts.same_items items (at_order order),
    count_ascending order (sort_lane items) (sorts.ascending items) r,
  )

  absent_lane :
      (lanes : Lanes) (lane : String)
      → contains (keys lanes) lane ≡ false
      → items_of lanes lane ≡ []
  unfolding items_of
  absent_lane lanes lane h = ground (arith, contains-keys lanes lane)

  -- If `validateResourceOrders` accepts, then in each lane (resource, core and slot) each order stands at most once, and no
  -- dependency's activity is placed in its predecessor's lane at or before the predecessor's order.
  pub validate_resource_orders_lem :
      (assignments : List PlanAssignment) (dependencies : List ActivityDependency)
      → validate_resource_orders sort_lane range_lanes assignments dependencies ≡ ok tt
      → ((lane : String) (order : ℤ)
          → count_if (λ a. lane_of a == lane && eq_ℤ a.order_on_resource order) assignments ≤ 1)
        × All
            (λ d.
              is_misplaced
                (assignment_of
                  (index_by (λ (a : PlanAssignment). a.activity_id) assignments [])
                  d.activity_id)
                (assignment_of
                  (index_by (λ (a : PlanAssignment). a.activity_id) assignments [])
                  d.depends_on_activity_id)
              ≡ false)
            dependencies
  unfolding validate_resource_orders items_of lookup
  validate_resource_orders_lem assignments dependencies h =
      let lanes = group_lanes assignments [] in
      let (_, lanes_ok, orders_ok) =
        >>=-eq-ok (check_lanes sort_lane range_lanes lanes (range_lanes lanes)) _ h in
      (
        (λ lane order. elim (Bool-cases (contains (keys lanes) lane)) [
          | inl present ↦
              let single = at_most_once (items_of lanes lane) order (
                check_lanes_lane lanes (range_lanes lanes) lane lanes_ok
                  (ranges.all_lanes lanes lane present)) in
              omega (
                arith,
                single,
                ap (count_if (at_order order)) (items_of-group_lanes assignments [] lane),
                count-select (λ a. lane_of a == lane) (at_order order) assignments,
              )
          | inr absent ↦ omega (
            arith,
            ap (count_if (at_order order))
                (sym (absent_lane lanes lane absent) ∙ items_of-group_lanes assignments [] lane),
            count-select (λ a. lane_of a == lane) (at_order order) assignments,
          )
        ]),
        check_order-All (index_by (λ (a : PlanAssignment). a.activity_id) assignments [])
            dependencies orders_ok,
      )
