-- ===== src/Supervisor/Inv.antt =====
-- The invariant of the maps of `executeActivities`, in controlplane/execution/supervisor.go.
use akoflow_workflow_engine.Prelude.{
  ℕ, suc, ◌≤◌, ◌≡◌, sym, ◌∙◌, subst, String, true, false, not, ◌&&◌, ◌||◌, ◌==◌, eq_iff, eq_refl,
  List, [], ◌∷◌, All, All-weaken, if◌then◌else◌, length, distinct, arith, Bool-cases, inl, inr,
}
use akoflow_workflow_engine.Prelude.Maps.{
  StringMap, insert, delete, has, keys, has-insert, has-delete, length-insert-le, length-delete-le,
  length-delete-insert-le, distinct-keys-insert,
}
use akoflow_workflow_engine.Domain.Values.{FloatOps}
use akoflow_workflow_engine.Domain.Workflow.{Activity, ActivityDependency}
use akoflow_workflow_engine.Domain.Execution.{ActivityHandle, TaskExecution}
use akoflow_workflow_engine.Supervisor.Timing.{complete_task}
use akoflow_workflow_engine.Supervisor.{State, finished, launched, handle_ended}

-- In the order of the fields: an attempted activity is running or completed, and not both; it is one of the workflow's;
-- all that it depends on has completed; and no more run than `max_parallel`.
pub record Inv (activities : StringMap Activity) (dependencies : List ActivityDependency)
    (max_parallel : ℕ) (s : State) : Type 0 where
  pub attempted : (v : String) → has v s.tasks ≡ (has v s.running || has v s.completed)
  pub apart : (v : String) → has v s.completed ≡ true → has v s.running ≡ false
  pub known : (v : String) → has v s.tasks ≡ true → has v activities ≡ true
  pub ordered :
      All
        (λ (d : ActivityDependency).
          has d.activity_id s.tasks ≡ true → has d.depends_on_activity_id s.completed ≡ true)
        dependencies
  pub bounded : length s.running ≤ max_parallel
  pub once : distinct (keys s.completed) ≡ true

-- The activity may be started: it is known, was never attempted, and what it depends on has completed.
pub record Startable (activities : StringMap Activity) (dependencies : List ActivityDependency)
    (s : State) (id : String) : Type 0 where
  pub fresh : has id s.tasks ≡ false
  pub is_known : has id activities ≡ true
  pub free :
      All
        (λ (d : ActivityDependency).
          (d.activity_id == id) ≡ true → has d.depends_on_activity_id s.completed ≡ true)
        dependencies

module _ (activities : StringMap Activity) (dependencies : List ActivityDependency)
    (max_parallel : ℕ) (floats : FloatOps) where
  abbrev Holds : State → Type 0
  Holds s = Inv activities dependencies max_parallel s

  module _ (id : String) (s : State) (h : Inv activities dependencies max_parallel s) where
    -- What completes an attempted activity keeps the invariant.
    completed-Inv :
        (s' : State)
        → ((v : String) → has v s'.tasks ≡ has v s.tasks)
        → ((v : String) → has v s'.completed ≡ (id == v || has v s.completed))
        → ((v : String) → has v s'.running ≡ (not (id == v) && has v s.running))
        → length s'.running ≤ max_parallel
        → distinct (keys s'.completed) ≡ true
        → has id s.tasks ≡ true
        → Inv activities dependencies max_parallel s'
    completed-Inv s' same done left bound once t = record {
      attempted =
          λ v. ground (arith, same v, done v, left v, h.attempted v, eq_iff id v, (subst_has v));
      apart = λ v c. ground (arith, done v, left v, h.apart v);
      known = λ v k. h.known v (sym (same v) ∙ k);
      ordered =
          All-weaken
            (λ (d : ActivityDependency).
              has d.activity_id s.tasks ≡ true → has d.depends_on_activity_id s.completed ≡ true)
            (λ (d : ActivityDependency).
              has d.activity_id s'.tasks ≡ true → has d.depends_on_activity_id s'.completed ≡ true)
            (λ d f k.
              let before : has d.depends_on_activity_id s.completed ≡ true =
                f (sym (same d.activity_id) ∙ k) in
              ground (arith, done d.depends_on_activity_id))
            dependencies h.ordered;
      bounded = bound;
      once = once;
    }
      where
        subst_has : (v : String) → (id == v) ≡ true → has v s.tasks ≡ true
        subst_has v e = subst (λ x. has x s.tasks ≡ true) ((eq_iff id v).0 e) t

    pub finished-Inv :
        (observed : ActivityHandle)
        → has id s.tasks ≡ true
        → Inv activities dependencies max_parallel (finished floats id observed s)
    unfolding finished
    finished-Inv observed t =
        completed-Inv (finished floats id observed s)
          (λ v. has-insert id v _ s.tasks ∙ ground (arith, is_there v))
          (λ v. has-insert id v _ s.completed) (λ v. has-delete id v s.running)
          (omega (arith, length-delete-le id s.running, h.bounded))
          (distinct-keys-insert id _ s.completed h.once) t
      where
        is_there : (v : String) → (id == v) ≡ true → has v s.tasks ≡ true
        is_there v e = subst (λ x. has x s.tasks ≡ true) ((eq_iff id v).0 e) t

  All-both :
      (P Q R : ActivityDependency → Type 0)
      → ((d : ActivityDependency) → P d → Q d → R d)
      → (ds : List ActivityDependency) → All P ds
      → All Q ds
      → All R ds
  All-both P Q R f [] h k = tt
  All-both P Q R f (d ∷ ds) h k = (f d h.0 k.0, All-both P Q R f ds h.1 k.1)

  module _ (id : String) (s : State) (h : Inv activities dependencies max_parallel s)
      (r : Startable activities dependencies s id) (room : suc (length s.running) ≤ max_parallel)
      (handle : ActivityHandle) (t : TaskExecution) where
    abbrev begun : State
    begun = record s { tasks = insert id t s.tasks; running = insert id handle s.running }

    begun-Inv : Inv activities dependencies max_parallel begun
    begun-Inv = record {
      attempted = λ v.
          ground
            (arith, has-insert id v t s.tasks, has-insert id v handle s.running, h.attempted v);
      apart = λ v c. ground (arith, has-insert id v handle s.running, h.apart v, not_yet v);
      known = λ v k. ground (arith, has-insert id v t s.tasks, h.known v, is_one v);
      ordered =
          All-both
            (λ d.
              has d.activity_id s.tasks ≡ true → has d.depends_on_activity_id s.completed ≡ true)
            (λ d. (d.activity_id == id) ≡ true → has d.depends_on_activity_id s.completed ≡ true)
            (λ d.
              has d.activity_id begun.tasks ≡ true
              → has d.depends_on_activity_id s.completed ≡ true)
            (λ d f g k. elim (Bool-cases (d.activity_id == id)) [
              | inl e ↦ g e
              | inr e ↦ f (
                  ground (
                    arith,
                    has-insert id d.activity_id t s.tasks,
                    eq_iff id d.activity_id,
                    eq_iff d.activity_id id,
                  ))
            ])
            dependencies h.ordered r.free;
      bounded = omega (arith, length-insert-le id handle s.running, room);
      once = h.once;
    }
      where
        not_yet : (v : String) → has v s.completed ≡ true → (id == v) ≡ false
        not_yet v c = elim (Bool-cases (id == v)) [
          | inl e ↦
              let there : has v s.tasks ≡ true = ground (arith, h.attempted v) in
              let absent = subst (λ x. has x s.tasks ≡ false) ((eq_iff id v).0 e) r.fresh in
              ground arith
          | inr e ↦ e
        ]

        is_one : (v : String) → (id == v) ≡ true → has v activities ≡ true
        is_one v e = subst (λ x. has x activities ≡ true) ((eq_iff id v).0 e) r.is_known

    launched-cases :
        (P : State → Type 0)
        → P begun
        → P (record begun {
          tasks = insert id (complete_task floats t handle) begun.tasks;
          completed = insert id (complete_task floats t handle) s.completed;
          running = delete id begun.running;
        })
        → P (launched floats id handle t s)
    unfolding launched
    launched-cases P p q = elim (Bool-cases (handle_ended handle.status)) [
      | inl e ↦
          subst
            (λ b. P (
              if b
              then record begun {
                tasks = insert id (complete_task floats t handle) begun.tasks;
                completed = insert id (complete_task floats t handle) s.completed;
                running = delete id begun.running;
              }
              else begun))
            (sym e) q
      | inr e ↦
          subst
            (λ b. P (
              if b
              then record begun {
                tasks = insert id (complete_task floats t handle) begun.tasks;
                completed = insert id (complete_task floats t handle) s.completed;
                running = delete id begun.running;
              }
              else begun))
            (sym e) p
    ]

    pub launched-Inv : Inv activities dependencies max_parallel (launched floats id handle t s)
    launched-Inv =
        let there : has id begun.tasks ≡ true =
          ground (arith, has-insert id id t s.tasks, eq_refl id) in
        launched-cases (Inv activities dependencies max_parallel) begun-Inv (
          completed-Inv id begun begun-Inv _
            (λ v. has-insert id v _ begun.tasks ∙ ground (arith, has-insert id v t s.tasks))
            (λ v. has-insert id v _ s.completed) (λ v. has-delete id v begun.running)
            (omega (arith, length-delete-insert-le id handle s.running, room))
            (distinct-keys-insert id _ s.completed h.once) there)

    pub length-launched-le : length (launched floats id handle t s).running ≤ suc (length s.running)
    length-launched-le =
        launched-cases (λ u. length u.running ≤ suc (length s.running))
          (length-insert-le id handle s.running)
          (omega (arith, length-delete-insert-le id handle s.running))

    -- Another activity stays startable.
    pub launched-Startable :
        (x : String)
        → (id == x) ≡ false
        → Startable activities dependencies s x
        → Startable activities dependencies (launched floats id handle t s) x
    launched-Startable x other k =
        launched-cases (λ u. Startable activities dependencies u x)
          (record {
            fresh = has-insert id x t s.tasks ∙ ground (arith, k.fresh);
            is_known = k.is_known;
            free = k.free;
          })
          (record {
            fresh =
                has-insert id x _ begun.tasks ∙ ground (arith, has-insert id x t s.tasks, k.fresh);
            is_known = k.is_known;
            free =
                All-weaken
                  (λ (d : ActivityDependency).
                    (d.activity_id == x) ≡ true → has d.depends_on_activity_id s.completed ≡ true)
                  (λ (d : ActivityDependency).
                    (d.activity_id == x) ≡ true
                    → has d.depends_on_activity_id
                        (insert id (complete_task floats t handle) s.completed)
                      ≡ true)
                  (λ d f e.
                    let before : has d.depends_on_activity_id s.completed ≡ true = f e in
                    ground (
                      arith,
                      has-insert id d.depends_on_activity_id (complete_task floats t handle)
                          s.completed,
                    ))
                  dependencies k.free;
          })
