-- ===== src/Plan/Dag/Edges.antt =====
-- What the first loops of `validateDAG` count, in planning/validator.go.
use akoflow_workflow_engine.Prelude.{
  ℕ, suc, ◌+◌, ◌≡◌, refl, sym, ap, ◌∙◌, subst, String, Bool, true, not, ◌&&◌, ◌||◌, ◌==◌, eq_iff,
  eq_true, List, [], ◌∷◌, ◌++◌, map, ok, if◌then◌else◌, contains, distinct, all, count_if, arith,
  Bool-cases, inl, inr,
}
use mathlib.Core.List.{append-nil, append_assoc}
use akoflow_workflow_engine.Prelude.Int.{ℤ, pos, succ_ℤ}
use akoflow_workflow_engine.Prelude.Maps.{
  insert, keys, lookup-insert, contains-keys, has-contains, keys-insert_present,
  distinct-keys-insert, contains-keys-insert,
}
use akoflow_workflow_engine.Domain.Workflow.{Activity, ActivityDependency}
use akoflow_workflow_engine.Plan.Dag.{
  Indegrees, Successors, degree, successors_of, zero_degrees, count_edge, add_successor, add_edges,
}

-- The edges into `v` whose source is not among `done`.
abbrev pub open_edges : List ActivityDependency → List String → String → ℕ
open_edges dependencies done v =
    count_if (λ d. d.activity_id == v && not (contains done d.depends_on_activity_id)) dependencies

-- The targets of the edges out of `u`, in the order of the dependencies.
unfoldable pub targets : List ActivityDependency → String → List String
targets [] u = []
targets (d ∷ dependencies) u =
    let rest = targets dependencies u in
    if d.depends_on_activity_id == u then d.activity_id ∷ rest else rest

-- Both ends of a dependency are among the given activities, and they differ.
abbrev pub is_proper : List String → ActivityDependency → Bool
is_proper nodes d =
    contains nodes d.activity_id
    && contains nodes d.depends_on_activity_id
    && not (d.activity_id == d.depends_on_activity_id)

pub degree-insert :
    (k j : String) (x : ℤ) (m : Indegrees)
    → degree (insert k x m) j ≡ (if k == j then x else degree m j)
unfolding degree
degree-insert k j x m = ground (arith, lookup-insert k j x m)

successors_of-insert :
    (k j : String) (l : List String) (s : Successors)
    → successors_of (insert k l s) j ≡ (if k == j then l else successors_of s j)
unfolding successors_of
successors_of-insert k j l s = ground (arith, lookup-insert k j l s)

-- A step of the loop that goes on: both ends are keys and differ.
add_edges_step :
    (d : ActivityDependency) (dependencies : List ActivityDependency) (m m' : Indegrees)
    (s s' : Successors)
    → add_edges (d ∷ dependencies) m s ≡ ok (m', s')
    → (is_proper (keys m) d ≡ true)
      × (add_edges dependencies (count_edge d m) (add_successor d s) ≡ ok (m', s'))
unfolding add_edges
add_edges_step d dependencies m m' s s' h = (
  ground (arith, has-contains m d.activity_id, has-contains m d.depends_on_activity_id),
  ground arith,
)

keys-count_edge :
    (d : ActivityDependency) (m : Indegrees)
    → is_proper (keys m) d ≡ true
    → keys (count_edge d m) ≡ keys m
keys-count_edge d m h =
    keys-insert_present d.activity_id (succ_ℤ (degree m d.activity_id)) m
      (sym (contains-keys m d.activity_id) ∙ ground arith)

pub record Counts (dependencies : List ActivityDependency) (m m' : Indegrees) (s s' : Successors)
    : Type 0 where
  pub same_keys : keys m' ≡ keys m
  pub proper : all (is_proper (keys m)) dependencies ≡ true
  pub degrees :
      (v : String) (n : ℕ)
      → degree m v ≡ pos n
      → degree m' v ≡ pos (n + open_edges dependencies [] v)
  pub successors : (u : String) → successors_of s' u ≡ successors_of s u ++ targets dependencies u

degree-count_edge :
    (d : ActivityDependency) (m : Indegrees) (v : String) (n : ℕ)
    → degree m v ≡ pos n
    → degree (count_edge d m) v ≡ pos (if d.activity_id == v then suc n else n)
degree-count_edge d m v n h = ground (
  arith,
  degree-insert d.activity_id v (succ_ℤ (degree m d.activity_id)) m,
  eq_iff d.activity_id v,
)

successors_of-add_successor :
    (d : ActivityDependency) (dependencies : List ActivityDependency) (s : Successors) (u : String)
    → successors_of (add_successor d s) u ++ targets dependencies u
      ≡ successors_of s u ++ targets (d ∷ dependencies) u
unfolding targets
successors_of-add_successor d dependencies s u =
    let inserted =
      successors_of-insert d.depends_on_activity_id u
        (successors_of s d.depends_on_activity_id ++ d.activity_id ∷ []) s in
    elim (Bool-cases (d.depends_on_activity_id == u)) [
      | inl e ↦
          let same : d.depends_on_activity_id ≡ u = eq_true d.depends_on_activity_id u e in
          ap (λ l. l ++ targets dependencies u)
            (inserted
              ∙ ap
                  (λ b.
                    if b
                    then successors_of s d.depends_on_activity_id ++ d.activity_id ∷ []
                    else successors_of s u)
                  e
              ∙ ap (λ x. successors_of s x ++ d.activity_id ∷ []) same)
          ∙ append_assoc (successors_of s u) (d.activity_id ∷ []) (targets dependencies u)
          ∙ ap
              (λ b.
                successors_of s u
                ++ (if b then d.activity_id ∷ targets dependencies u else targets dependencies u))
              (sym e)
      | inr e ↦
          ap (λ l. l ++ targets dependencies u)
            (inserted
              ∙ ap
                  (λ b.
                    if b
                    then successors_of s d.depends_on_activity_id ++ d.activity_id ∷ []
                    else successors_of s u)
                  e)
          ∙ ap
              (λ b.
                successors_of s u
                ++ (if b then d.activity_id ∷ targets dependencies u else targets dependencies u))
              (sym e)
    ]

pub add_edges-Counts :
    (dependencies : List ActivityDependency) (m m' : Indegrees) (s s' : Successors)
    → add_edges dependencies m s ≡ ok (m', s')
    → Counts dependencies m m' s s'
unfolding add_edges targets
add_edges-Counts [] m m' s s' h = record {
  same_keys = ap keys (ground arith);
  proper = refl;
  degrees =
      λ v n e. subst (λ x. degree x v ≡ pos (n + 0)) (ground arith) (e ∙ ap pos (omega arith));
  successors =
      λ u. ap (λ x. successors_of x u) (ground arith) ∙ sym (append-nil (successors_of s u));
}
add_edges-Counts (d ∷ dependencies) m m' s s' h =
    let (p, h') = add_edges_step d dependencies m m' s s' h in
    let same = keys-count_edge d m p in
    let rest = add_edges-Counts dependencies (count_edge d m) m' (add_successor d s) s' h' in
    record {
      same_keys = rest.same_keys ∙ same;
      proper =
          let later : all (is_proper (keys m)) dependencies ≡ true =
            subst (λ nodes. all (is_proper nodes) dependencies ≡ true) same rest.proper in
          ground arith;
      degrees = λ v n e.
          rest.degrees v (if d.activity_id == v then suc n else n) (degree-count_edge d m v n e)
          ∙ ap pos (ground arith);
      successors = λ u. rest.successors u ∙ successors_of-add_successor d dependencies s u;
    }

pub add_edges_total :
    (dependencies : List ActivityDependency) (m : Indegrees) (s : Successors)
    → all (is_proper (keys m)) dependencies ≡ true
    → (m' : Indegrees) × (s' : Successors) × (add_edges dependencies m s ≡ ok (m', s'))
unfolding add_edges
add_edges_total [] m s h = (m, s, refl)
add_edges_total (d ∷ dependencies) m s h =
    let p : is_proper (keys m) d ≡ true = ground arith in
    let later : all (is_proper (keys m)) dependencies ≡ true = ground arith in
    let (m', s', e) = add_edges_total dependencies (count_edge d m) (add_successor d s) (
      subst (λ nodes. all (is_proper nodes) dependencies ≡ true) (sym (keys-count_edge d m p))
        later) in
    (m', s', ground (arith, has-contains m d.activity_id, has-contains m d.depends_on_activity_id))

pub contains-zero_degrees :
    (activities : List Activity) (m : Indegrees) (v : String)
    → contains (keys (zero_degrees activities m)) v
      ≡ (contains (map (λ (a : Activity). a.id) activities) v || contains (keys m) v)
unfolding zero_degrees
contains-zero_degrees [] m v = refl
contains-zero_degrees (a ∷ activities) m v = ground (
  arith,
  contains-zero_degrees activities (insert a.id (pos 0) m) v,
  contains-keys-insert a.id v (pos 0) m,
)

pub distinct-zero_degrees :
    (activities : List Activity) (m : Indegrees)
    → distinct (keys m) ≡ true
    → distinct (keys (zero_degrees activities m)) ≡ true
unfolding zero_degrees
distinct-zero_degrees [] m h = h
distinct-zero_degrees (a ∷ activities) m h =
    distinct-zero_degrees activities (insert a.id (pos 0) m) (distinct-keys-insert a.id (pos 0) m h)

pub degree-zero_degrees :
    (activities : List Activity) (m : Indegrees) (v : String)
    → degree m v ≡ pos 0
    → degree (zero_degrees activities m) v ≡ pos 0
unfolding zero_degrees
degree-zero_degrees [] m v h = h
degree-zero_degrees (a ∷ activities) m v h =
    degree-zero_degrees activities (insert a.id (pos 0) m) v
      (ground (arith, degree-insert a.id v (pos 0) m))
