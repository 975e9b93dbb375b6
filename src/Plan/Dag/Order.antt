-- ===== src/Plan/Dag/Order.antt =====
-- `validateDAG` of planning/validator.go decides whether the activities can be put in an order.
use akoflow_workflow_engine.Prelude.{
  ℕ, suc, ◌+◌, ◌≡◌, ◌↔◌, refl, sym, ap, ◌∙◌, subst, String, Bool, true, ◌&&◌, ◌==◌, eq_iff, eq_refl,
  some, List, [], ◌∷◌, ◌++◌, map, ok, >>=-eq-ok, length, ◌>>=◌, select, contains, contains-append,
  distinct, distinct-length-le, distinct-fills, same_Bool, all, arith, Bool-cases, inl, inr,
}
use mathlib.Core.List.{append-nil}
use akoflow_workflow_engine.Prelude.Int.{pos, is_zero}
use akoflow_workflow_engine.Prelude.Maps.{keys, length-keys, lookup}
use akoflow_workflow_engine.Domain.Workflow.{Activity, ActivityDependency, WorkflowVersion}
use akoflow_workflow_engine.Plan.Dag.{
  Indegrees, Successors, degree, successors_of, zero_degrees, add_edges, visit, all_visited,
  validate_dag, RangesKeys,
}
use akoflow_workflow_engine.Plan.Dag.Edges.{
  open_edges, is_proper, Counts, add_edges-Counts, add_edges_total, contains-zero_degrees,
  distinct-zero_degrees, degree-zero_degrees,
}
use akoflow_workflow_engine.Plan.Dag.Kahn.{IsTopological, Inv, Visited, visit-Inv, is_zero-pos}

abbrev pub activity_ids : WorkflowVersion → List String
activity_ids w = map (λ (a : Activity). a.id) w.activities

-- An order of the workflow's activities, each once, in which each comes after all that it depends on.
pub record IsSchedule (w : WorkflowVersion) (order : List String) : Type 0 where
  pub once : distinct order ≡ true
  pub all_activities : (v : String) → contains order v ≡ contains (activity_ids w) v
  pub after_predecessors : IsTopological w.dependencies [] order

contains-select :
    (test : String → Bool) (xs : List String) (v : String)
    → contains (select test xs) v ≡ (contains xs v && test v)
contains-select test [] v = refl
contains-select test (x ∷ xs) v = elim (Bool-cases (x == v)) [
  | inl e ↦
      subst (λ y. contains (select test (x ∷ xs)) y ≡ (contains (x ∷ xs) y && test y))
        ((eq_iff x v).0 e) (ground (arith, contains-select test xs x, eq_refl x))
  | inr e ↦ ground (arith, contains-select test xs v)
]

distinct-select :
    (test : String → Bool) (xs : List String)
    → distinct xs ≡ true
    → distinct (select test xs) ≡ true
distinct-select test [] h = refl
distinct-select test (x ∷ xs) h = ground (arith, distinct-select test xs, contains-select test xs x)

all-is_proper :
    (xs ys : List String) (ds : List ActivityDependency)
    → ((v : String) → contains xs v ≡ contains ys v)
    → all (is_proper xs) ds ≡ true
    → all (is_proper ys) ds ≡ true
all-is_proper xs ys [] same h = refl
all-is_proper xs ys (d ∷ ds) same h =
    ground (arith, all-is_proper xs ys ds same, same d.activity_id, same d.depends_on_activity_id)

module _ (range_keys : Indegrees → List String) (ranges : RangesKeys range_keys)
    (w : WorkflowVersion) where
  abbrev start : Indegrees
  start = zero_degrees w.activities []

  abbrev roots : Indegrees → List String
  roots m = select (λ id. is_zero (degree m id)) (range_keys m)

  contains-start : (v : String) → contains (keys start) v ≡ contains (activity_ids w) v
  unfolding keys
  contains-start v = ground (arith, contains-zero_degrees w.activities [] v)

  distinct-start : distinct (keys start) ≡ true
  unfolding keys
  distinct-start = distinct-zero_degrees w.activities [] refl

  degree-start : (v : String) → degree start v ≡ pos 0
  unfolding degree lookup
  degree-start v = degree-zero_degrees w.activities [] v refl

  module _ (m : Indegrees) (s : Successors)
      (counted : add_edges w.dependencies start [] ≡ ok (m, s)) where
    counts : Counts w.dependencies start m [] s
    counts = add_edges-Counts w.dependencies start m [] s counted

    distinct-keys : distinct (keys m) ≡ true
    distinct-keys = ap distinct counts.same_keys ∙ distinct-start

    first_degree : (v : String) → degree m v ≡ pos (open_edges w.dependencies [] v + 0)
    first_degree v = counts.degrees v 0 (degree-start v) ∙ ap pos (omega arith)

    roots-Inv : Inv w.dependencies (keys start) [] [] (roots m) m
    roots-Inv = record {
      degrees = first_degree;
      seen = λ v.
          contains-select (λ id. is_zero (degree m id)) (range_keys m) v
          ∙ ap (λ b. b && is_zero (degree m v))
              (ranges.all_keys m v distinct-keys ∙ ap (λ l. contains l v) counts.same_keys)
          ∙ ap (λ b. contains (keys start) v && b) (ap is_zero (first_degree v) ∙ is_zero-pos _);
      once =
          distinct-select (λ id. is_zero (degree m id)) (range_keys m)
            (ranges.once m distinct-keys);
      order = tt;
      same_keys = counts.same_keys;
    }

    visited : Visited w.dependencies (keys start) (suc (length m)) s m (roots m) []
    unfolding successors_of lookup
    visited =
        visit-Inv w.dependencies (keys start) (suc (length m)) s m (roots m) []
          (λ u. counts.successors u) counts.proper roots-Inv
          (omega (arith, length-keys m, ap length counts.same_keys))

    contains-visited :
        (v : String) → contains visited.order v ≡ true → contains (keys start) v ≡ true
    contains-visited v h = ground (arith, visited.inv.seen v, contains-append visited.order [] v)

    once_visited : distinct visited.order ≡ true
    once_visited = ap distinct (sym (append-nil visited.order)) ∙ visited.inv.once

    result : validate_dag range_keys w ≡ all_visited (some (length visited.order)) (length m)
    unfolding validate_dag
    result =
        ap
          (λ r.
            r >>= λ g. all_visited (visit (suc (length g.0)) g.1 g.0 (roots g.0) 0) (length g.0))
          counted
        ∙ ap (λ o. all_visited o (length m)) visited.result

all_visited_eq : (n total : ℕ) → all_visited (some n) total ≡ ok tt → n ≡ total
all_visited_eq n total h = ground arith

all_visited_all : (n total : ℕ) → n ≡ total → all_visited (some n) total ≡ ok tt
all_visited_all n total h = ground arith

open_edges-subset :
    (ds : List ActivityDependency) (done visited : List String) (v : String)
    → ((u : String) → contains done u ≡ true → contains visited u ≡ true)
    → open_edges ds done v ≡ 0
    → open_edges ds visited v ≡ 0
open_edges-subset [] done visited v sub h = refl
open_edges-subset (d ∷ ds) done visited v sub h =
    ground (arith, open_edges-subset ds done visited v sub, sub d.depends_on_activity_id)

module _ (range_keys : Indegrees → List String) (ranges : RangesKeys range_keys)
    (w : WorkflowVersion) where
  module _ (m : Indegrees) (s : Successors)
      (counted : add_edges w.dependencies (start range_keys ranges w) [] ≡ ok (m, s)) where
    abbrev reached : List String
    reached = (visited range_keys ranges w m s counted).order

    reached_once : distinct reached ≡ true
    reached_once = once_visited range_keys ranges w m s counted

    reached_node :
        (v : String)
        → contains reached v ≡ true
        → contains (keys (start range_keys ranges w)) v ≡ true
    reached_node = contains-visited range_keys ranges w m s counted

    same_length : length m ≡ length (keys (start range_keys ranges w))
    same_length = sym (length-keys m) ∙ ap length (counts range_keys ranges w m s counted).same_keys

    all_reached-IsSchedule : length reached ≡ length m → IsSchedule w reached
    all_reached-IsSchedule n = record {
      once = reached_once;
      all_activities = λ v.
          same_Bool (contains reached v) (contains (keys (start range_keys ranges w)) v)
            (reached_node v)
            (distinct-fills reached (keys (start range_keys ranges w)) reached_once reached_node
              (omega (arith, n, same_length)) v)
          ∙ contains-start range_keys ranges w v;
      after_predecessors = (visited range_keys ranges w m s counted).inv.order;
    }

    -- A schedule's ids are reached one after the other.
    reaches :
        (done rest : List String)
        → ((u : String) → contains done u ≡ true → contains reached u ≡ true)
        → IsTopological w.dependencies done rest
        → ((u : String)
            → contains rest u ≡ true
            → contains (keys (start range_keys ranges w)) u ≡ true)
        → (v : String) → contains rest v ≡ true
        → contains reached v ≡ true
    reaches done [] sub t known v h = cc
    reaches done (x ∷ rest) sub t known v h =
        let waits = open_edges-subset w.dependencies done reached x sub t.0 in
        let here : contains reached x ≡ true = ground (
          arith,
          (visited range_keys ranges w m s counted).inv.seen x,
          contains-append reached [] x,
          known x,
          eq_refl x,
          waits,
        ) in
        let sub' = λ (u : String) (p : contains (done ++ x ∷ []) u ≡ true).
          reached_append done x sub here u p in
        elim (Bool-cases (x == v)) [
          | inl e ↦ subst (λ y. contains reached y ≡ true) ((eq_iff x v).0 e) here
          | inr e ↦
              reaches (done ++ x ∷ []) rest sub' t.1 (λ u p. known u (ground (arith, p))) v
                (ground arith)
        ]
      where
        reached_append :
            (done : List String) (x : String)
            → ((u : String) → contains done u ≡ true → contains reached u ≡ true)
            → contains reached x ≡ true
            → (u : String) → contains (done ++ x ∷ []) u ≡ true
            → contains reached u ≡ true
        reached_append done x sub here u p =
            ground (arith, contains-append done (x ∷ []) u, sub u, eq_iff x u)

  -- `validateDAG` accepts a workflow exactly when every dependency joins two different activities of it and the activities
  -- can be put in an order in which each comes after all that it depends on; this in whatever order Go ranges over its maps.
  pub validate_dag_iff : (validate_dag range_keys w ≡ ok tt) ↔ (
      (all (is_proper (activity_ids w)) w.dependencies ≡ true)
      × ((order : List String) × IsSchedule w order))
  unfolding validate_dag
  validate_dag_iff = (sound, complete)
    where
      sound :
          validate_dag range_keys w ≡ ok tt
          → (all (is_proper (activity_ids w)) w.dependencies ≡ true)
            × ((order : List String) × IsSchedule w order)
      sound h =
          let ((m, s), counted, rest) =
            >>=-eq-ok (add_edges w.dependencies (start range_keys ranges w) []) _ h in
          let n =
            all_visited_eq (length (reached m s counted)) (length m)
              (sym (result range_keys ranges w m s counted) ∙ h) in
          (
            all-is_proper (keys (start range_keys ranges w)) (activity_ids w) w.dependencies
                (contains-start range_keys ranges w)
                (counts range_keys ranges w m s counted).proper,
            (reached m s counted, all_reached-IsSchedule m s counted n),
          )

      complete :
          (all (is_proper (activity_ids w)) w.dependencies ≡ true)
            × ((order : List String) × IsSchedule w order)
          → validate_dag range_keys w ≡ ok tt
      complete (proper, (order, schedule)) =
          let nodes = keys (start range_keys ranges w) in
          let known = λ (v : String). contains-start range_keys ranges w v in
          let (m, s, counted) =
            add_edges_total w.dependencies (start range_keys ranges w) []
              (all-is_proper (activity_ids w) nodes w.dependencies (λ v. sym (known v)) proper) in
          let all_reached =
            reaches m s counted [] order (λ u p. cc) schedule.after_predecessors
              (λ u p. known u ∙ sym (schedule.all_activities u) ∙ p) in
          let long =
            distinct-length-le nodes (reached m s counted) (distinct-start range_keys ranges w)
              (λ v p. all_reached v (schedule.all_activities v ∙ sym (known v) ∙ p)) in
          let short =
            distinct-length-le (reached m s counted) nodes (reached_once m s counted)
              (reached_node m s counted) in
          result range_keys ranges w m s counted
          ∙ all_visited_all (length (reached m s counted)) (length m)
              (omega (arith, same_length m s counted))
