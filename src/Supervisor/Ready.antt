-- ===== src/Supervisor/Ready.antt =====
-- `readyActivities` of controlplane/execution/supervisor.go: what it lists may be started, and it lists something while
-- a workflow that can be put in order is unfinished and nothing runs.
use akoflow_workflow_engine.Prelude.{
  ℕ, ◌≤◌, ◌≡◌, refl, sym, ap, ◌∙◌, subst, String, Bool, true, false, not, ◌&&◌, ◌||◌, ◌==◌, eq_iff,
  eq_refl, List, [], ◌∷◌, ◌++◌, All, Bool-cases, inl, inr, if◌then◌else◌, length, select, all,
  contains, distinct, distinct-length-le, arith, contains-append,
}
use akoflow_workflow_engine.Prelude.Maps.{
  StringMap, lookup, insert, has, keys, has-contains, length-keys, lookup-insert,
}
use akoflow_workflow_engine.Domain.Workflow.{Activity, ActivityDependency}
use akoflow_workflow_engine.Plan.Dag.Kahn.{IsTopological}
use akoflow_workflow_engine.Plan.Dag.Edges.{open_edges}
use akoflow_workflow_engine.Supervisor.{
  State, is_ready, ready_activities, predecessors_of, index_predecessors,
}
use akoflow_workflow_engine.Supervisor.Inv.{Inv, Startable}

-- What Go promises of `range` over the keys of the map and of `sort.Strings`.
pub record RangesIds (range_ids : StringMap Activity → List String) : Type 0 where
  pub ids_once : (m : StringMap Activity) → distinct (keys m) ≡ true → distinct (range_ids m) ≡ true
  pub all_ids :
      (m : StringMap Activity) (v : String)
      → distinct (keys m) ≡ true
      → contains (range_ids m) v ≡ contains (keys m) v

pub record SortsStrings (sort_strings : List String → List String) : Type 0 where
  pub still_once : (xs : List String) → distinct xs ≡ true → distinct (sort_strings xs) ≡ true
  pub same_strings : (xs : List String) (v : String) → contains (sort_strings xs) v ≡ contains xs v

contains-select :
    (test : String → Bool) (xs : List String) (v : String)
    → contains (select test xs) v ≡ (contains xs v && test v)
contains-select test [] v = refl
contains-select test (x ∷ xs) v = elim (Bool-cases (x == v)) [
  | inl e ↦
      subst (λ y. contains (select test (x ∷ xs)) y ≡ (contains (x ∷ xs) y && test y))
        ((eq_iff x v).0 e) (ground (arith, contains-select test xs x, eq_refl x))
  | inr e ↦ ground (arith, contains-select test xs v)
]

distinct-select :
    (test : String → Bool) (xs : List String)
    → distinct xs ≡ true
    → distinct (select test xs) ≡ true
distinct-select test [] h = refl
distinct-select test (x ∷ xs) h = ground (arith, distinct-select test xs, contains-select test xs x)

all-append :
    (test : String → Bool) (xs ys : List String)
    → all test (xs ++ ys) ≡ (all test xs && all test ys)
all-append test [] ys = refl
all-append test (x ∷ xs) ys = ground (arith, all-append test xs ys)

predecessors_of-insert :
    (k v : String) (l : List String) (m : StringMap (List String))
    → predecessors_of (insert k l m) v ≡ (if k == v then l else predecessors_of m v)
unfolding predecessors_of
predecessors_of-insert k v l m = ground (arith, lookup-insert k v l m)

all-predecessors :
    (test : String → Bool) (ds : List ActivityDependency) (m : StringMap (List String)) (v : String)
    → all test (predecessors_of (index_predecessors ds m) v) ≡ (
        all test (predecessors_of m v)
        && all (λ d. not (d.activity_id == v) || test d.depends_on_activity_id) ds)
unfolding index_predecessors
all-predecessors test [] m v = ground arith
all-predecessors test (d ∷ ds) m v =
    let grown = predecessors_of m d.activity_id ++ d.depends_on_activity_id ∷ [] in
    let later = all-predecessors test ds (insert d.activity_id grown m) v in
    let here = ap (all test) (predecessors_of-insert d.activity_id v grown m) in
    elim (Bool-cases (d.activity_id == v)) [
      | inl e ↦
          let same : predecessors_of m d.activity_id ≡ predecessors_of m v =
            ap (predecessors_of m) ((eq_iff d.activity_id v).0 e) in
          let read =
            here
            ∙ ap (λ b. all test (if b then grown else predecessors_of m v)) e
            ∙ all-append test (predecessors_of m d.activity_id) (d.depends_on_activity_id ∷ [])
            ∙ ap (λ l. all test l && all test (d.depends_on_activity_id ∷ [])) same in
          ground (arith, later, read)
      | inr e ↦
          let read = here ∙ ap (λ b. all test (if b then grown else predecessors_of m v)) e in
          ground (arith, later, read)
    ]

All-of :
    (test : ActivityDependency → Bool) (P : ActivityDependency → Type 0)
    → ((d : ActivityDependency) → test d ≡ true → P d)
    → (ds : List ActivityDependency) → all test ds ≡ true
    → All P ds
All-of test P f [] h = tt
All-of test P f (d ∷ ds) h = (f d (ground arith), All-of test P f ds (ground arith))

members :
    (P : String → Type 0) (xs : List String)
    → ((x : String) → contains xs x ≡ true → P x)
    → All P xs
members P [] f = tt
members P (x ∷ xs) f = (f x (ground (arith, eq_refl x)), members P xs (λ y c. f y (ground arith)))

module _ (activities : StringMap Activity) (dependencies : List ActivityDependency) (s : State)
    (range_ids : StringMap Activity → List String) (sort_strings : List String → List String)
    (ranges : RangesIds range_ids) (sorts : SortsStrings sort_strings)
    (d : distinct (keys activities) ≡ true) where
  abbrev ready : List String
  ready = ready_activities range_ids sort_strings activities (index_predecessors dependencies []) s

  contains-ready :
      (v : String)
      → contains ready v ≡ (has v activities && is_ready (index_predecessors dependencies []) s v)
  unfolding ready_activities
  contains-ready v =
      sorts.same_strings _ v
      ∙ contains-select (is_ready (index_predecessors dependencies []) s) (range_ids activities) v
      ∙ ap (λ b. b && is_ready (index_predecessors dependencies []) s v)
          (ranges.all_ids activities v d ∙ sym (has-contains activities v))

  pub distinct-ready : distinct ready ≡ true
  unfolding ready_activities
  distinct-ready =
      sorts.still_once _ (distinct-select _ (range_ids activities) (ranges.ids_once activities d))

  ready_free :
      (v : String)
      → is_ready (index_predecessors dependencies []) s v ≡ (
          not (has v s.completed)
          && not (has v s.running)
          && not (has v s.tasks)
          && all
              (λ (e : ActivityDependency).
                not (e.activity_id == v) || has e.depends_on_activity_id s.completed)
              dependencies)
  unfolding is_ready predecessors_of lookup
  ready_free v = ground (arith, all-predecessors (λ p. has p s.completed) dependencies [] v)

  pub ready-Startable : All (Startable activities dependencies s) ready
  ready-Startable = members (Startable activities dependencies s) ready (λ v c. record {
    fresh = ground (arith, contains-ready v, ready_free v);
    is_known = ground (arith, contains-ready v);
    free =
        All-of
          (λ (e : ActivityDependency).
            not (e.activity_id == v) || has e.depends_on_activity_id s.completed)
          (λ (e : ActivityDependency).
            (e.activity_id == v) ≡ true → has e.depends_on_activity_id s.completed ≡ true)
          (λ e k q. ground arith) dependencies (ground (arith, contains-ready v, ready_free v));
  })

has_empty : {V : Type 0} (m : StringMap V) (v : String) → length m ≡ 0 → has v m ≡ false
unfolding has lookup
has_empty [] v h = refl
has_empty (e ∷ m) v h = absurd (omega (arith, h))

contains_empty : (xs : List String) (v : String) → length xs ≡ 0 → contains xs v ≡ false
contains_empty [] v h = refl
contains_empty (x ∷ xs) v h = absurd (omega (arith, h))

-- Without open edges, each dependency's predecessor has completed.
closed_edges :
    (ds : List ActivityDependency) (done : List String) (c : String → Bool) (x : String)
    → ((u : String) → contains done u ≡ true → c u ≡ true)
    → open_edges ds done x ≡ 0
    → all (λ (e : ActivityDependency). not (e.activity_id == x) || c e.depends_on_activity_id) ds
      ≡ true
closed_edges [] done c x sub h = refl
closed_edges (e ∷ ds) done c x sub h =
    ground (arith, closed_edges ds done c x sub, sub e.depends_on_activity_id)

module _ (activities : StringMap Activity) (dependencies : List ActivityDependency)
    (max_parallel : ℕ) (s : State) (range_ids : StringMap Activity → List String)
    (sort_strings : List String → List String) (ranges : RangesIds range_ids)
    (sorts : SortsStrings sort_strings) (d : distinct (keys activities) ≡ true)
    (h : Inv activities dependencies max_parallel s) (idle : length s.running ≡ 0)
    (empty : length
        (ready_activities range_ids sort_strings activities (index_predecessors dependencies []) s)
      ≡ 0) where
  closed_completed :
      (x : String)
      → has x activities ≡ true
      → all
          (λ (e : ActivityDependency).
            not (e.activity_id == x) || has e.depends_on_activity_id s.completed)
          dependencies
        ≡ true
      → has x s.completed ≡ true
  closed_completed x k free = elim (Bool-cases (has x s.completed)) [
    | inl e ↦ e
    | inr e ↦ absurd (
        ground (
          arith,
          e,
          has_empty s.running x idle,
          h.attempted x,
          contains_empty _ x empty,
          contains-ready activities dependencies s range_ids sort_strings ranges sorts d x,
          ready_free activities dependencies s range_ids sort_strings ranges sorts d x,
        ))
  ]

  all_completed :
      (done rest : List String)
      → IsTopological dependencies done rest
      → ((u : String) → contains done u ≡ true → has u s.completed ≡ true)
      → ((u : String) → contains rest u ≡ true → has u activities ≡ true)
      → (v : String) → contains rest v ≡ true
      → has v s.completed ≡ true
  all_completed done [] t sub known v c = cc
  all_completed done (x ∷ rest) t sub known v c =
      let here : has x s.completed ≡ true =
        closed_completed x (known x (ground (arith, eq_refl x)))
          (closed_edges dependencies done (λ u. has u s.completed) x sub t.0) in
      elim (Bool-cases (x == v)) [
        | inl e ↦ subst (λ y. has y s.completed ≡ true) ((eq_iff x v).0 e) here
        | inr e ↦
            all_completed (done ++ x ∷ []) rest t.1 (grown done x here sub)
              (λ u p. known u (ground (arith, p))) v (ground (arith, e))
      ]
    where
      grown :
          (done : List String) (x : String)
          → has x s.completed ≡ true
          → ((u : String) → contains done u ≡ true → has u s.completed ≡ true)
          → (u : String) → contains (done ++ x ∷ []) u ≡ true
          → has u s.completed ≡ true
      grown done x here sub u p = elim (Bool-cases (x == u)) [
        | inl e ↦ subst (λ y. has y s.completed ≡ true) ((eq_iff x u).0 e) here
        | inr e ↦ sub u (ground (arith, contains-append done (x ∷ []) u))
      ]

  -- When nothing runs and nothing may be started, a workflow that can be put in order is finished.
  pub idle_lem :
      (order : List String)
      → IsTopological dependencies [] order
      → ((v : String) → contains order v ≡ has v activities)
      → length activities ≤ length s.completed
  idle_lem order t same =
      let covered = distinct-length-le (keys activities) (keys s.completed) d (λ v p.
        sym (has-contains s.completed v)
        ∙ all_completed [] order t (λ u q. cc) (λ u q. sym (same u) ∙ q) v
            (same v ∙ has-contains activities v ∙ p)) in
      omega (arith, covered, length-keys activities, length-keys s.completed)
