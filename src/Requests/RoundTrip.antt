-- ===== src/Requests/RoundTrip.antt =====
-- internal/api/requests/workflow.go: `FromDomain` after `Domain`.
use akoflow_workflow_engine.Prelude.{
  String, true, false, some, List, [], ◌∷◌, map, ok, ◌≡◌, refl, sym, ap, ◌∙◌, subst, ◌==◌, contains,
  distinct, All, All-weaken, is_empty, eq_refl, eq_true, arith, Bool-cases, inl, inr,
}
use akoflow_workflow_engine.Prelude.Maps.{StringMap, lookup, insert, lookup-insert}
use akoflow_workflow_engine.Domain.Values.{text_of, flag_of}
use akoflow_workflow_engine.Domain.Workflow.{Activity, Definition}
use akoflow_workflow_engine.Requests.Values.{TextOps, identifier}
use akoflow_workflow_engine.Requests.{
  WorkflowActivity, WorkflowRequest, list_or_empty, dependencies_of, names_by_id, predecessor_names,
  item_of, from_domain, domain,
}
use akoflow_workflow_engine.Requests.Edges.{
  id_of, ids_of, edges, targets, lookup-dependencies_of, edges-HasTargets,
}
use akoflow_workflow_engine.Requests.Build.{
  Zipped, IsBuilt, IsMade, IsBlank, Defines, names, named, domain-Defines,
}

by_name :
    (P : String → Type 0) (values : List WorkflowActivity) (name : String)
    → All (λ (v : WorkflowActivity). P v.name) values
    → contains (map (λ (v : WorkflowActivity). v.name) values) name ≡ true
    → P name
by_name P [] name h c = absurd (ground arith)
by_name P (v ∷ values) name h c = elim (Bool-cases (v.name == name)) [
  | inl e ↦ subst P (eq_true v.name name e) h.0
  | inr e ↦ by_name P values name h.1 (ground (arith, e))
]

module _ (ops : TextOps) where
  abbrev name_index : List WorkflowActivity → StringMap String → StringMap String
  name_index [] m = m
  name_index (v ∷ values) m = name_index values (insert (id_of ops v) v.name m)

  same_index :
      (values : List WorkflowActivity) (activities : List Activity) (m : StringMap String)
      → Zipped (IsMade ops) values activities
      → names_by_id activities m ≡ name_index values m
  unfolding names_by_id
  same_index [] [] m z = refl
  same_index [] (a ∷ activities) m z = absurd z
  same_index (v ∷ values) [] m z = absurd z
  same_index (v ∷ values) (a ∷ activities) m z =
      same_index values activities (insert a.id a.name m) z.1
      ∙ ap (λ id. name_index values (insert id a.name m)) z.0.0.same_id
      ∙ ap (λ name. name_index values (insert (id_of ops v) name m)) z.0.0.same_name

  lookup-name_index_fresh :
      (values : List WorkflowActivity) (m : StringMap String) (k : String)
      → contains (ids_of ops values) k ≡ false
      → lookup k (name_index values m) ≡ lookup k m
  lookup-name_index_fresh [] m k h = refl
  lookup-name_index_fresh (v ∷ values) m k h =
      lookup-name_index_fresh values (insert (id_of ops v) v.name m) k (ground arith)
      ∙ lookup-insert (id_of ops v) k v.name m
      ∙ ground arith

  lookup-name_index :
      (values : List WorkflowActivity) (m : StringMap String)
      → distinct (ids_of ops values) ≡ true
      → All
          (λ (v : WorkflowActivity). lookup (id_of ops v) (name_index values m) ≡ some v.name)
          values
  lookup-name_index [] m d = tt
  lookup-name_index (v ∷ values) m d =
      let own = eq_refl (id_of ops v) in
      (
        lookup-name_index_fresh values (insert (id_of ops v) v.name m) (id_of ops v) (ground arith)
            ∙ lookup-insert (id_of ops v) (id_of ops v) v.name m
            ∙ rw own refl,
        lookup-name_index values (insert (id_of ops v) v.name m) (ground arith),
      )

  -- The identifier of a name leads back to it.
  abbrev LeadsBack : StringMap String → String → Type 0
  LeadsBack m p = (lookup (identifier ops p) m ≡ some p) × (is_empty p ≡ false)

  predecessor_names-identifier :
      (m : StringMap String) (predecessors : List String)
      → All (LeadsBack m) predecessors
      → predecessor_names m (map (identifier ops) predecessors) ≡ predecessors
  unfolding predecessor_names
  predecessor_names-identifier m [] h = refl
  predecessor_names-identifier m (p ∷ predecessors) h =
      rw h.0.0 (rw h.0.1 (ap (λ l. p ∷ l) (predecessor_names-identifier m predecessors h.1)))

  -- An activity of a request, and what it comes back as.
  pub record IsBack (v item : WorkflowActivity) : Type 0 where
    pub same_name : item.name ≡ v.name
    pub same_predecessors : item.depends_on ≡ v.depends_on
    pub same_runtime : item.runtime ≡ v.runtime
    pub same_selector : item.resource_selector ≡ v.resource_selector
    pub same_disk : item.keep_disk ≡ v.keep_disk
    pub same_path : item.mount_path ≡ v.mount_path

  item_of-IsBack :
      (deps : StringMap (List String)) (m : StringMap String) (v : WorkflowActivity) (a : Activity)
      → IsBuilt ops v a
      → list_or_empty (lookup (id_of ops v) deps) ≡ map (identifier ops) v.depends_on
      → All (LeadsBack m) v.depends_on
      → IsBack v (item_of ops deps m a)
  unfolding item_of text_of flag_of lookup
  item_of-IsBack deps m v a b d l = record {
    same_name = b.same_name;
    same_predecessors =
        ap (λ id. predecessor_names m (list_or_empty (lookup id deps))) b.same_id
        ∙ ap (predecessor_names m) d
        ∙ predecessor_names-identifier m v.depends_on l;
    same_runtime = ap (λ x. text_of x "runtime") b.same_metadata;
    same_selector = ap (λ x. text_of x "resourceSelector") b.same_metadata;
    same_disk = ap (λ x. flag_of x "keepDisk") b.same_metadata;
    same_path = ap (λ x. text_of x "mountPath") b.same_metadata;
  }

  items-IsBack :
      (deps : StringMap (List String)) (m : StringMap String) (values : List WorkflowActivity)
      (activities : List Activity)
      → Zipped (IsMade ops) values activities
      → All
          (λ (v : WorkflowActivity).
            list_or_empty (lookup (id_of ops v) deps) ≡ map (identifier ops) v.depends_on)
          values
      → All (λ (v : WorkflowActivity). All (LeadsBack m) v.depends_on) values
      → Zipped IsBack values (map (item_of ops deps m) activities)
  items-IsBack deps m [] [] z d l = tt
  items-IsBack deps m [] (a ∷ activities) z d l = absurd z
  items-IsBack deps m (v ∷ values) [] z d l = absurd z
  items-IsBack deps m (v ∷ values) (a ∷ activities) z d l =
      (item_of-IsBack deps m v a z.0.0 d.0 l.0, items-IsBack deps m values activities z.1 d.1 l.1)

  -- A request that comes back.
  pub record ComesBack (r : WorkflowRequest) (back : WorkflowRequest) : Type 0 where
    pub same_name : back.name ≡ r.name
    pub same_namespace : back.spec.namespace ≡ r.spec.namespace
    pub activities : Zipped IsBack r.spec.activities back.spec.activities

  join_facts :
      (m : StringMap String) (values : List WorkflowActivity)
      → IsBlank ops
      → All (λ (v : WorkflowActivity). lookup (id_of ops v) m ≡ some v.name) values
      → All (λ (v : WorkflowActivity). is_empty (id_of ops v) ≡ false) values
      → All (λ (v : WorkflowActivity). LeadsBack m v.name) values
  join_facts m [] blank f i = tt
  join_facts m (v ∷ values) blank f i =
      ((f.0, named ops blank v.name i.0), join_facts m values blank f.1 i.1)

  defined_ComesBack :
      (r : WorkflowRequest) (d : Definition)
      → IsBlank ops
      → distinct (ids_of ops r.spec.activities) ≡ true
      → Defines ops r d
      → ComesBack r (from_domain ops d)
  unfolding from_domain lookup
  defined_ComesBack r d blank once made =
      let values = r.spec.activities in
      let deps = dependencies_of d.version.dependencies [] in
      let m = names_by_id d.version.activities [] in
      let same : m ≡ name_index values [] =
        same_index values d.version.activities [] made.activities in
      let led : All (λ (v : WorkflowActivity). LeadsBack m v.name) values =
        subst (λ x. All (λ (v : WorkflowActivity). LeadsBack x v.name) values) (sym same)
          (join_facts (name_index values []) values blank (lookup-name_index values [] once)
            made.identified) in
      record {
        same_name = made.same_name;
        same_namespace = made.same_namespace;
        activities =
            items-IsBack deps m values d.version.activities made.activities
              (All-weaken
                (λ (v : WorkflowActivity).
                  targets (id_of ops v) (edges ops values) ≡ map (identifier ops) v.depends_on)
                (λ (v : WorkflowActivity).
                  list_or_empty (lookup (id_of ops v) deps) ≡ map (identifier ops) v.depends_on)
                (λ v t.
                  lookup-dependencies_of (id_of ops v) d.version.dependencies []
                  ∙ ap (targets (id_of ops v)) made.dependencies
                  ∙ t)
                values (edges-HasTargets ops values once))
              (All-weaken
                (λ (v : WorkflowActivity).
                  All (λ p. contains (names ops values) p ≡ true) v.depends_on)
                (λ (v : WorkflowActivity). All (LeadsBack m) v.depends_on)
                (λ v k.
                  All-weaken (λ p. contains (names ops values) p ≡ true) (LeadsBack m)
                    (λ p c. by_name (LeadsBack m) values p led c) v.depends_on k)
                values made.known);
      }

  -- When blank text has no identifier, and no two activities of a request have names with the same identifier: the definition that `Domain`
  -- answers for it comes back from `FromDomain` with the name and the namespace of the request, and with its activities, in
  -- order, each with its name, its predecessors by name, its runtime, its selector, its mount path and its choice to keep
  -- the disk.
  pub from_domain-domain :
      (r : WorkflowRequest) (d : Definition)
      → IsBlank ops
      → distinct (ids_of ops r.spec.activities) ≡ true
      → domain ops r ≡ ok d
      → ComesBack r (from_domain ops d)
  from_domain-domain r d blank once e =
      defined_ComesBack r d blank once (domain-Defines ops blank r d e)
