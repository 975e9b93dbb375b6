-- ===== src/Requests/Build.antt =====
-- `Domain` of internal/api/requests/workflow.go: what it makes of a request that it accepts.
use akoflow_workflow_engine.Prelude.{
  ℕ, suc, String, true, false, ◌||◌, Option, none, some, List, [], ◌∷◌, ◌++◌, map, Result, ok, err,
  fail_if, >>=-eq-ok, ok_inj, ok_ne_err, ◌≡◌, refl, sym, ap, ◌∙◌, subst, ◌==◌, contains, All,
  All-weaken, is_empty, is_some, eq_true, arith, Bool-cases, inl, inr, concat,
}
use akoflow_workflow_engine.Prelude.Maps.{StringMap, lookup, insert, lookup-insert}
use akoflow_workflow_engine.Domain.Workflow.{
  Activity, ActivityDependency, Definition, validate_activity, supports, task, real,
}
use akoflow_workflow_engine.Requests.Values.{TextOps, identifier, cpu_value, byte_value}
use akoflow_workflow_engine.Requests.{
  WorkflowActivity, WorkflowRequest, RequestError, control, names_of, depended, depend_on,
  activities_of, activity_domain, check_command, command_of, made, metadata_of, domain, lift_text,
  invalid_cpu_limit, invalid_memory_limit, name_and_namespace_required,
}
use akoflow_workflow_engine.Requests.Edges.{id_of, edges, edges_from}

module _ {ℓ κ} {A : Type ℓ} {B : Type κ} (R : A → B → Type 0) where
  -- The lists are as long as one another, and are related place by place.
  abbrev pub Zipped : List A → List B → Type 0
  Zipped [] [] = Unit
  Zipped [] (y ∷ ys) = ⊥
  Zipped (x ∷ xs) [] = ⊥
  Zipped (x ∷ xs) (y ∷ ys) = R x y × Zipped xs ys

module _ (ops : TextOps) where
  -- What is made of one activity of a request.
  pub record IsBuilt (v : WorkflowActivity) (a : Activity) : Type 0 where
    pub same_id : a.id ≡ id_of ops v
    pub same_name : a.name ≡ v.name
    pub same_metadata : a.metadata ≡ metadata_of v
    pub is_task : a.kind ≡ task
    pub is_real : a.capabilities ≡ real ∷ []
    pub has_entrypoint : is_empty a.command.entrypoint ≡ false

  check_command-entrypoint :
      (v : WorkflowActivity) (image : String)
      → check_command v.name (command_of v image) ≡ ok tt
      → is_empty (command_of v image).entrypoint ≡ false
  unfolding check_command
  check_command-entrypoint v image h =
      elim (Bool-cases (is_empty (command_of v image).entrypoint)) [
        | inl e ↦ absurd (ok_ne_err (sym (rw e at h)))
        | inr e ↦ e
      ]

  activity_domain-IsBuilt :
      (v : WorkflowActivity) (image version_id type_id : String) (index : ℕ) (a : Activity)
      → activity_domain ops v image version_id type_id index ≡ ok a
      → IsBuilt v a
  unfolding activity_domain
  activity_domain-IsBuilt v image version_id type_id index a h =
      let (cpu, _, h1) =
        >>=-eq-ok (lift_text (invalid_cpu_limit v.name) (cpu_value ops v.cpu_limit)) _ h in
      let (memory, _, h2) =
        >>=-eq-ok (lift_text (invalid_memory_limit v.name) (byte_value ops v.memory_limit)) _ h1 in
      let (_, checked, h3) = >>=-eq-ok (check_command v.name (command_of v image)) _ h2 in
      subst (IsBuilt v) (ok_inj h3) (record {
        same_id = refl;
        same_name = refl;
        same_metadata = refl;
        is_task = refl;
        is_real = refl;
        has_entrypoint = check_command-entrypoint v image checked;
      })

  abbrev pub names : List WorkflowActivity → List String
  names = map (λ (v : WorkflowActivity). v.name)

  -- What the map of the names holds.
  abbrev IsNamed : (known : List String) → String → Option String → Type 0
  IsNamed known name none = Unit
  IsNamed known name (some id) = (id ≡ identifier ops name) × (contains known name ≡ true)

  -- The names of the map are known, and the map holds their identifiers.
  abbrev AreNamed : List String → StringMap String → Type 0
  AreNamed known m = (name : String) → IsNamed known name (lookup name m)

  IsNamed-later :
      (known : List String) (extra name : String) (o : Option String)
      → IsNamed known name o
      → IsNamed (extra ∷ known) name o
  IsNamed-later known extra name none h = tt
  IsNamed-later known extra name (some id) h = (h.0, ground (arith, h.1))

  IsNamed-insert :
      (known : List String) (v name : String) (m : StringMap String)
      → AreNamed known m
      → IsNamed (v ∷ known) name (lookup name (insert v (identifier ops v) m))
  IsNamed-insert known v name m h =
      rw (lookup-insert v name (identifier ops v) m) (elim (Bool-cases (v == name)) [
        | inl e ↦ rw e (ap (identifier ops) (eq_true v name e), ground (arith, e))
        | inr e ↦ rw e (IsNamed-later known v name (lookup name m) (h name))
      ])

  -- The names that are known when the names of a list have been read after those of another.
  abbrev read_after : List WorkflowActivity → List String → List String
  read_after [] known = known
  read_after (v ∷ values) known = read_after values (v.name ∷ known)

  names_of-AreNamed :
      (values : List WorkflowActivity) (m found : StringMap String) (known : List String)
      → AreNamed known m
      → names_of ops values m ≡ ok found
      → AreNamed (read_after values known) found
        × All (λ (v : WorkflowActivity). is_empty (id_of ops v) ≡ false) values
  unfolding names_of
  names_of-AreNamed [] m found known h e =
      (λ name. subst (λ x. IsNamed known name (lookup name x)) (ok_inj e) (h name), tt)
  names_of-AreNamed (v ∷ values) m found known h e = elim (Bool-cases (is_empty (id_of ops v))) [
    | inl b ↦ absurd (ok_ne_err (sym (rw b at e)))
    | inr b ↦ elim (Bool-cases (is_some (lookup v.name m))) [
      | inl d ↦ absurd (ok_ne_err (sym (rw d at (rw b at e))))
      | inr d ↦
          let (later, ids) =
            names_of-AreNamed values (insert v.name (id_of ops v) m) found (v.name ∷ known)
              (λ name. IsNamed-insert known v.name name m h) (rw d at (rw b at e)) in
          (later, (b, ids))
    ]
  ]

  depended-edges :
      (known : List String) (name id p : String) (predecessors : List String)
      (rest : Result RequestError (List ActivityDependency)) (o : Option String)
      (ds : List ActivityDependency)
      → IsNamed known p o
      → ((later : List ActivityDependency)
          → rest ≡ ok later
          → (later ≡ edges_from ops id predecessors)
            × All (λ q. contains known q ≡ true) predecessors)
      → depended ops name id p rest o ≡ ok ds
      → (ds ≡ edges_from ops id (p ∷ predecessors))
        × All (λ q. contains known q ≡ true) (p ∷ predecessors)
  depended-edges known name id p predecessors rest none ds h ih e = absurd (ok_ne_err (sym e))
  depended-edges known name id p predecessors (err x) (some found) ds h ih e =
      absurd (ok_ne_err (sym e))
  depended-edges known name id p predecessors (ok later) (some found) ds h ih e =
      let (same, all_known) = ih later refl in
      (
        sym (ok_inj e)
            ∙ ap (λ i. control ops id i ∷ later) h.0
            ∙ ap (λ l. control ops id (identifier ops p) ∷ l) same,
        (h.1, all_known),
      )

  depend_on-edges :
      (known : List String) (m : StringMap String) (name id : String) (predecessors : List String)
      (ds : List ActivityDependency)
      → AreNamed known m
      → depend_on ops m name id predecessors ≡ ok ds
      → (ds ≡ edges_from ops id predecessors) × All (λ q. contains known q ≡ true) predecessors
  unfolding depend_on
  depend_on-edges known m name id [] ds h e = (sym (ok_inj e), tt)
  depend_on-edges known m name id (p ∷ predecessors) ds h e =
      depended-edges known name id p predecessors _ (lookup p m) ds (h p)
        (λ later same. depend_on-edges known m name id predecessors later h same) e

  contains-read_after :
      (values : List WorkflowActivity) (known : List String) (name : String)
      → contains (read_after values known) name
        ≡ (contains (names values) name || contains known name)
  contains-read_after [] known name = refl
  contains-read_after (v ∷ values) known name =
      ground (arith, contains-read_after values (v.name ∷ known) name)

  abbrev DependsOnKnown : List String → WorkflowActivity → Type 0
  DependsOnKnown known v = All (λ q. contains known q ≡ true) v.depends_on

  activities_of-IsBuilt :
      (known : List String) (m : StringMap String) (image version_id type_id : String) (index : ℕ)
      (values : List WorkflowActivity) (both : List Activity × List ActivityDependency)
      → AreNamed known m
      → activities_of ops m image version_id type_id index values ≡ ok both
      → Zipped IsBuilt values both.0
        × (both.1 ≡ edges ops values)
        × All (DependsOnKnown known) values
  unfolding activities_of
  activities_of-IsBuilt known m image version_id type_id index [] both h e =
      subst
        (λ (x : List Activity × List ActivityDependency).
          Zipped IsBuilt [] x.0 × (x.1 ≡ edges ops []) × All (DependsOnKnown known) [])
        (ok_inj e) (tt, refl, tt)
  activities_of-IsBuilt known m image version_id type_id index (v ∷ values) both h e =
      let (a, ea, e1) = >>=-eq-ok (activity_domain ops v image version_id type_id index) _ e in
      let (ds, ed, e2) = >>=-eq-ok (depend_on ops m v.name a.id v.depends_on) _ e1 in
      let (rest, er, e3) =
        >>=-eq-ok (activities_of ops m image version_id type_id (suc index) values) _ e2 in
      let built = activity_domain-IsBuilt v image version_id type_id index a ea in
      let (same, all_known) = depend_on-edges known m v.name a.id v.depends_on ds h ed in
      let (later, more, others) =
        activities_of-IsBuilt known m image version_id type_id (suc index) values rest h er in
      subst
        (λ (x : List Activity × List ActivityDependency).
          Zipped IsBuilt (v ∷ values) x.0
          × (x.1 ≡ edges ops (v ∷ values))
          × All (DependsOnKnown known) (v ∷ values))
        (ok_inj e3)
        (
          (built, later),
          ap (λ l. l ++ rest.1) (same ∙ ap (λ i. edges_from ops i v.depends_on) built.same_id)
              ∙ ap (λ l. edges_from ops (id_of ops v) v.depends_on ++ l) more,
          (all_known, others),
        )

  -- A blank name has no identifier.
  abbrev pub IsBlank : Type 0
  IsBlank = is_empty (identifier ops "") ≡ true

  pub named :
      IsBlank → (name : String) → is_empty (identifier ops name) ≡ false → is_empty name ≡ false
  named blank name h = elim (Bool-cases (is_empty name)) [
    | inl e ↦ absurd (
        let same : is_empty (identifier ops name) ≡ true =
          subst (λ x. is_empty (identifier ops x) ≡ true) (sym (eq_true name "" e)) blank in
        ground (arith, same))
    | inr e ↦ e
  ]

  built-valid :
      (v : WorkflowActivity) (a : Activity)
      → IsBlank
      → IsBuilt v a
      → is_empty (id_of ops v) ≡ false
      → validate_activity a ≡ ok tt
  unfolding validate_activity supports
  built-valid v a blank b h =
      let id_there : is_empty a.id ≡ false = ap is_empty b.same_id ∙ h in
      let name_there : is_empty a.name ≡ false = ap is_empty b.same_name ∙ named blank v.name h in
      rw id_there (rw name_there (rw b.is_task (rw b.is_real (rw b.has_entrypoint refl))))

  -- What is made of an activity, which the domain accepts.
  abbrev pub IsMade : WorkflowActivity → Activity → Type 0
  IsMade v a = IsBuilt v a × (validate_activity a ≡ ok tt)

  all_made :
      (values : List WorkflowActivity) (made : List Activity)
      → IsBlank
      → Zipped IsBuilt values made
      → All (λ (v : WorkflowActivity). is_empty (id_of ops v) ≡ false) values
      → Zipped IsMade values made
  all_made [] [] blank z h = tt
  all_made [] (a ∷ made) blank z h = absurd z
  all_made (v ∷ values) [] blank z h = absurd z
  all_made (v ∷ values) (a ∷ made) blank z h =
      ((z.0, built-valid v a blank z.0 h.0), all_made values made blank z.1 h.1)

  -- A definition that stands for a request.
  pub record Defines (r : WorkflowRequest) (d : Definition) : Type 0 where
    pub same_name : d.name ≡ r.name
    pub same_namespace : d.namespace ≡ r.spec.namespace
    pub has_id : (d.id ≡ identifier ops r.name) × (is_empty d.id ≡ false)
    pub activities : Zipped IsMade r.spec.activities d.version.activities
    pub dependencies : d.version.dependencies ≡ edges ops r.spec.activities
    pub known :
        All
          (λ (v : WorkflowActivity).
            All (λ p. contains (names r.spec.activities) p ≡ true) v.depends_on)
          r.spec.activities
    pub identified :
        All (λ (v : WorkflowActivity). is_empty (id_of ops v) ≡ false) r.spec.activities

  known_names :
      (all values : List WorkflowActivity)
      → All
          (λ (v : WorkflowActivity). All (λ p. contains (read_after all []) p ≡ true) v.depends_on)
          values
      → All (λ (v : WorkflowActivity). All (λ p. contains (names all) p ≡ true) v.depends_on) values
  known_names all values h =
      All-weaken
        (λ (v : WorkflowActivity). All (λ p. contains (read_after all []) p ≡ true) v.depends_on)
        (λ (v : WorkflowActivity). All (λ p. contains (names all) p ≡ true) v.depends_on)
        (λ v k.
          All-weaken (λ p. contains (read_after all []) p ≡ true)
            (λ p. contains (names all) p ≡ true)
            (λ p c. ground (arith, contains-read_after all [] p, c)) v.depends_on k)
        values h

  no_names : AreNamed [] []
  unfolding lookup
  no_names name = tt

  -- When blank text has no identifier: a definition that `Domain` answers has the name and the namespace of its request and an id; its
  -- activities are those of the request, in order, each with its name and the identifier of its name, and `Validate` accepts
  -- each; and its dependencies are those that the activities ask for, all of them on activities of the request.
  pub domain-Defines :
      IsBlank → (r : WorkflowRequest) (d : Definition) → domain ops r ≡ ok d → Defines r d
  unfolding domain
  domain-Defines blank r d e =
      let id = identifier ops r.name in
      let (_, checked, e1) =
        >>=-eq-ok (fail_if (is_empty id || is_empty r.spec.namespace) name_and_namespace_required) _
          e in
      let (m, em, e2) = >>=-eq-ok (names_of ops r.spec.activities []) _ e1 in
      let (both, eb, e3) =
        >>=-eq-ok
          (activities_of ops m r.spec.image (concat id "-v1") (concat id "-activity") 0
            r.spec.activities)
          _ e2 in
      let (found, ids) = names_of-AreNamed r.spec.activities [] m [] no_names em in
      let (built, same, depends) =
        activities_of-IsBuilt (read_after r.spec.activities []) m r.spec.image (concat id "-v1")
          (concat id "-activity") 0 r.spec.activities both found eb in
      subst (Defines r) (ok_inj e3) (record {
        same_name = refl;
        same_namespace = refl;
        has_id = (refl, ground arith);
        activities = all_made r.spec.activities both.0 blank built ids;
        dependencies = same;
        known = known_names r.spec.activities r.spec.activities depends;
        identified = ids;
      })
