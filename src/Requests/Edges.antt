-- ===== src/Requests/Edges.antt =====
-- The two maps of `FromDomain` in internal/api/requests/workflow.go, read back: the predecessors of an activity, and the
-- name under an identifier.
use akoflow_workflow_engine.Prelude.{
  String, true, false, List, [], ◌∷◌, ◌++◌, map, ◌≡◌, refl, sym, ap, ◌∙◌, ◌==◌, if◌then◌else◌,
  contains, distinct, All, eq_iff, eq_refl, eq_true, arith, Bool-cases, inl, inr,
}
use akoflow_workflow_engine.Prelude.Maps.{StringMap, lookup, insert, lookup-insert}
use akoflow_workflow_engine.Domain.Workflow.{ActivityDependency}
use akoflow_workflow_engine.Requests.Values.{TextOps, identifier}
use akoflow_workflow_engine.Requests.{WorkflowActivity, control, list_or_empty, dependencies_of}

-- What the dependencies name as predecessors of an activity.
abbrev pub targets : String → List ActivityDependency → List String
targets id [] = []
targets id (d ∷ ds) =
    let rest = targets id ds in
    if d.activity_id == id then d.depends_on_activity_id ∷ rest else rest

append_assoc : (xs ys zs : List String) → (xs ++ ys) ++ zs ≡ xs ++ (ys ++ zs)
append_assoc [] ys zs = refl
append_assoc (x ∷ xs) ys zs = ap (λ l. x ∷ l) (append_assoc xs ys zs)

append_nil : (xs : List String) → xs ++ [] ≡ xs
append_nil [] = refl
append_nil (x ∷ xs) = ap (λ l. x ∷ l) (append_nil xs)

inserted :
    (id key target : String) (m : StringMap (List String)) (rest : List String)
    → list_or_empty (lookup id (insert key (list_or_empty (lookup key m) ++ target ∷ []) m)) ++ rest
      ≡ list_or_empty (lookup id m) ++ (if key == id then target ∷ rest else rest)
inserted id key target m rest =
    rw (lookup-insert key id (list_or_empty (lookup key m) ++ target ∷ []) m)
      (elim (Bool-cases (key == id)) [
        | inl e ↦ rw e (
            append_assoc (list_or_empty (lookup key m)) (target ∷ []) rest
            ∙ ap (λ k. list_or_empty (lookup k m) ++ target ∷ rest) (eq_true key id e))
        | inr e ↦ rw e refl
      ])

pub lookup-dependencies_of :
    (id : String) (ds : List ActivityDependency) (m : StringMap (List String))
    → list_or_empty (lookup id (dependencies_of ds m))
      ≡ list_or_empty (lookup id m) ++ targets id ds
unfolding dependencies_of
lookup-dependencies_of id [] m = sym (append_nil (list_or_empty (lookup id m)))
lookup-dependencies_of id (d ∷ ds) m =
    lookup-dependencies_of id ds _
    ∙ inserted id d.activity_id d.depends_on_activity_id m (targets id ds)

module _ (ops : TextOps) where
  abbrev pub id_of : WorkflowActivity → String
  id_of v = identifier ops v.name

  abbrev pub ids_of : List WorkflowActivity → List String
  ids_of = map id_of

  abbrev pub edges_from : String → List String → List ActivityDependency
  edges_from id [] = []
  edges_from id (p ∷ predecessors) = control ops id (identifier ops p) ∷ edges_from id predecessors

  -- The dependencies that a request asks for.
  abbrev pub edges : List WorkflowActivity → List ActivityDependency
  edges [] = []
  edges (v ∷ values) = edges_from (id_of v) v.depends_on ++ edges values

  targets-edges_from :
      (id own : String) (predecessors : List String) (rest : List ActivityDependency)
      → targets id (edges_from own predecessors ++ rest) ≡ (
          if own == id
          then map (identifier ops) predecessors ++ targets id rest
          else targets id rest)
  targets-edges_from id own [] rest = ground arith
  targets-edges_from id own (p ∷ predecessors) rest =
      ground (arith, targets-edges_from id own predecessors rest)

  targets-edges_fresh :
      (id : String) (values : List WorkflowActivity)
      → contains (ids_of values) id ≡ false
      → targets id (edges values) ≡ []
  targets-edges_fresh id [] h = refl
  targets-edges_fresh id (v ∷ values) h =
      targets-edges_from id (id_of v) v.depends_on (edges values)
      ∙ ground (arith, targets-edges_fresh id values)

  -- The predecessors of an activity are those of its request.
  abbrev pub HasTargets : List ActivityDependency → WorkflowActivity → Type 0
  HasTargets ds v = targets (id_of v) ds ≡ map (identifier ops) v.depends_on

  shifted :
      (v : WorkflowActivity) (ds : List ActivityDependency) (values : List WorkflowActivity)
      → contains (ids_of values) (id_of v) ≡ false
      → All (HasTargets ds) values
      → All (HasTargets (edges_from (id_of v) v.depends_on ++ ds)) values
  shifted v ds [] h a = tt
  shifted v ds (u ∷ values) h a =
      let apart : (id_of v == id_of u) ≡ false =
        ground (arith, eq_iff (id_of v) (id_of u), eq_iff (id_of u) (id_of v)) in
      (
        targets-edges_from (id_of u) (id_of v) v.depends_on ds ∙ rw apart a.0,
        shifted v ds values (ground arith) a.1,
      )

  pub edges-HasTargets :
      (values : List WorkflowActivity)
      → distinct (ids_of values) ≡ true
      → All (HasTargets (edges values)) values
  edges-HasTargets [] d = tt
  edges-HasTargets (v ∷ values) d =
      let fresh : contains (ids_of values) (id_of v) ≡ false = ground arith in
      let own = eq_refl (id_of v) in
      (
        targets-edges_from (id_of v) (id_of v) v.depends_on (edges values)
            ∙ rw own (
                rw (targets-edges_fresh (id_of v) values fresh)
                  (append_nil (map (identifier ops) v.depends_on))),
        shifted v (edges values) values fresh (edges-HasTargets values (ground arith)),
      )
