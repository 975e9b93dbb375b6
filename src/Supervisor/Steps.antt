-- ===== src/Supervisor/Steps.antt =====
-- What the loops of `inspectRunning` and `startReadyActivities` leave of the maps, in controlplane/execution/supervisor.go.
use akoflow_workflow_engine.Prelude.{
  ℕ, suc, ◌+◌, ◌≤◌, ◌≡◌, refl, sym, ◌∙◌, subst, String, true, false, ◌==◌, eq_iff, Option, none,
  some, List, [], ◌∷◌, Result, ok, err, All, All-weaken, length, contains, distinct, arith,
  Bool-cases, inl, inr,
}
use akoflow_workflow_engine.Prelude.Maps.{StringMap, has, has-insert}
use akoflow_workflow_engine.Domain.Values.{Float, FloatOps}
use akoflow_workflow_engine.Domain.Workflow.{Activity, ActivityDependency}
use akoflow_workflow_engine.Domain.Resource.{Resource}
use akoflow_workflow_engine.Domain.Planning.{ExecutionMode, PlanAssignment}
use akoflow_workflow_engine.Domain.Materialization.{PreparationGate, PreparationRequirement}
use akoflow_workflow_engine.Domain.Execution.{
  ActivityHandle, DataTransfer, ExecutionRequest, TaskExecution,
}
use akoflow_workflow_engine.Supervisor.Request.{Outside, activity_of}
use akoflow_workflow_engine.Supervisor.{
  State, Outcome, or_stop, saved, saved_finished, inspected, inspect_running, finished, launched,
  handle_ended, handle_broken, start_one, start_on, start_required, after_prepare, after_start,
  start_ready_activities, builds,
}
use akoflow_workflow_engine.Supervisor.Inv.{
  Inv, Startable, finished-Inv, launched-Inv, length-launched-le, launched-Startable,
}

module _ {W : Type 0} where
  or_stop_keeps :
      (P Q : State → Type 0) (next : State → W → Outcome W)
      → ((s : State) → P s → Q s)
      → ((s : State) (w : W) → P s → Q (next s w).1)
      → (o : Outcome W) → P o.1
      → Q (or_stop next o).1
  or_stop_keeps P Q next weaken step (ok u, s, w) p = step s w p
  or_stop_keeps P Q next weaken step (err e, s, w) p = weaken s p

  saved_state : (s : State) (r : Result String (Unit {0}) × W) → (saved s r).1 ≡ s
  saved_state s (ok u, w) = refl
  saved_state s (err cause, w) = refl

  module _ (floats : FloatOps) (outside : Outside W) where
    module _ (P : State → Type 0) (id : String) (s : State) (here : P s)
        (there : (observed : ActivityHandle) → P (finished floats id observed s)) where
      saved_finished_keeps :
          (observed : ActivityHandle) (r : Result String (Unit {0}) × W)
          → P (saved_finished floats outside id observed s r).1
      saved_finished_keeps observed (ok u, w) = there observed
      saved_finished_keeps observed (err cause, w) = here

      inspected_keeps :
          (r : Result String (Option ActivityHandle) × W) → P (inspected floats outside id s r).1
      inspected_keeps (err cause, w) = here
      inspected_keeps (ok none, w) = here
      inspected_keeps (ok (some observed), w) = elim (Bool-cases (handle_ended observed.status)) [
        | inl e ↦ rw e (saved_finished_keeps observed _)
        | inr e ↦ elim (Bool-cases (handle_broken observed.status)) [
          | inl b ↦ rw e (rw b here)
          | inr b ↦ rw e (rw b here)
        ]
      ]

    module _ (activities : StringMap Activity) (dependencies : List ActivityDependency)
        (max_parallel : ℕ) where
      -- The invariant, with every entry of the list still attempted.
      abbrev Inspects : List (String × ActivityHandle) → State → Type 0
      Inspects handles s =
          Inv activities dependencies max_parallel s
          × All (λ (e : String × ActivityHandle). has e.0 s.tasks ≡ true) handles

      finished-Inspects :
          (id : String) (observed : ActivityHandle) (handles : List (String × ActivityHandle))
          (s : State)
          → Inspects handles s
          → has id s.tasks ≡ true
          → Inspects handles (finished floats id observed s)
      unfolding finished
      finished-Inspects id observed handles s (h, all) t = (
        finished-Inv activities dependencies max_parallel floats id s h observed t,
        All-weaken (λ (e : String × ActivityHandle). has e.0 s.tasks ≡ true)
            (λ (e : String × ActivityHandle). has e.0 (finished floats id observed s).tasks ≡ true)
            (λ e k. has-insert id e.0 _ s.tasks ∙ ground (arith, k)) handles all,
      )

      pub inspect_running-Inv :
          (mode : ExecutionMode) (handles : List (String × ActivityHandle)) (s : State) (w : W)
          → Inspects handles s
          → Inv activities dependencies max_parallel
              (inspect_running floats outside mode handles s w).1
      unfolding inspect_running
      inspect_running-Inv mode [] s w h = h.0
      inspect_running-Inv mode ((id, handle) ∷ handles) s w (h, (t, all)) =
          or_stop_keeps (Inspects handles) (Inv activities dependencies max_parallel)
            (inspect_running floats outside mode handles) (λ u k. k.0)
            (λ u v k. inspect_running-Inv mode handles u v k)
            (inspected floats outside id s (outside.inspect handle.id mode w))
            (inspected_keeps (Inspects handles) id s (h, all)
              (λ observed. finished-Inspects id observed handles s (h, all) t) _)

    module _ (request : ExecutionRequest) (activities : StringMap Activity)
        (assignments : StringMap PlanAssignment) (resources : StringMap Resource) where
      module _ (P : State → Type 0) (id : String) (s : State)
          (here : (ts : List DataTransfer) → P (record s { transfers = ts }))
          (there : (ts : List DataTransfer) (handle : ActivityHandle) (t : TaskExecution)
            → P (launched floats id handle t (record s { transfers = ts }))) where
        after_start_keeps :
            (resource : Resource) (ready_at : Float) (gate : Option PreparationGate)
            (ts : List DataTransfer) (r : Result String ActivityHandle × W)
            → P
                (after_start floats outside request activities assignments resources id resource
                  ready_at gate
                  (record s { transfers = ts })
                  r).1
        after_start_keeps resource ready_at gate ts (err cause, w) = here ts
        after_start_keeps resource ready_at gate ts (ok handle, w) =
            subst P
              (sym (saved_state (launched floats id handle _ (record s { transfers = ts })) _))
              (there ts handle _)

        after_prepare_keeps :
            (resource : Resource) (ready_at : Float) (r : Result String PreparationGate × W)
            → P
                (after_prepare floats outside request activities assignments resources id resource
                  ready_at s r).1
        after_prepare_keeps resource ready_at (err cause, w) = here s.transfers
        after_prepare_keeps resource ready_at (ok gate, w) =
            after_start_keeps resource ready_at (some gate) _ _

        start_required_keeps :
            (resource : Resource) (ready_at : Float) (requirement : Option PreparationRequirement)
            (w : W)
            → P
                (start_required floats outside request activities assignments resources id resource
                  ready_at requirement s w).1
        start_required_keeps resource ready_at (some requirement) w =
            after_prepare_keeps resource ready_at _
        start_required_keeps resource ready_at none w =
            elim (Bool-cases (builds (activity_of activities id).command.executable)) [
              | inl e ↦ rw e (here s.transfers)
              | inr e ↦ rw e (after_start_keeps resource ready_at none s.transfers _)
            ]

        start_on_keeps :
            (ready_at : Float) (found : Option Resource) (w : W)
            → P
                (start_on floats outside request activities assignments resources id ready_at found
                  s w).1
        start_on_keeps ready_at none w = here s.transfers
        start_on_keeps ready_at (some resource) w = start_required_keeps resource ready_at _ w

        start_one_keeps :
            (w : W) → P (start_one floats outside request activities assignments resources id s w).1
        unfolding start_one
        start_one_keeps w = start_on_keeps _ _ _

      module _ (dependencies : List ActivityDependency) (max_parallel : ℕ) where
        -- The invariant, with room for the activities of the list and each of them startable.
        pub record Starts (ready : List String) (s : State) : Type 0 where
          pub kept : Inv activities dependencies max_parallel s
          pub room : length s.running + length ready ≤ max_parallel
          pub once : distinct ready ≡ true
          pub startable : All (Startable activities dependencies s) ready

        others :
            (id : String) (ready : List String)
            → contains ready id ≡ false
            → All (λ x. (id == x) ≡ false) ready
        others id [] h = tt
        others id (x ∷ ready) h =
            (ground (arith, eq_iff x id, eq_iff id x), others id ready (ground arith))

        All-join :
            (P Q R : String → Type 0)
            → ((x : String) → P x → Q x → R x)
            → (xs : List String) → All P xs
            → All Q xs
            → All R xs
        All-join P Q R f [] h k = tt
        All-join P Q R f (x ∷ xs) h k = (f x h.0 k.0, All-join P Q R f xs h.1 k.1)

        launched-Starts :
            (id : String) (ready : List String) (s : State) (handle : ActivityHandle)
            (t : TaskExecution)
            → Starts (id ∷ ready) s
            → Starts ready (launched floats id handle t s)
        launched-Starts id ready s handle t k =
            let room : suc (length s.running) ≤ max_parallel = omega (arith, k.room) in
            record {
              kept =
                  launched-Inv activities dependencies max_parallel floats id s k.kept k.startable.0
                    room handle t;
              room = omega (
                arith,
                k.room,
                length-launched-le activities dependencies max_parallel floats id s k.kept
                    k.startable.0 room handle t,
              );
              once = ground (arith, k.once);
              startable =
                  All-join (λ x. (id == x) ≡ false) (Startable activities dependencies s)
                    (Startable activities dependencies (launched floats id handle t s))
                    (launched-Startable activities dependencies max_parallel floats id s k.kept
                      k.startable.0 room handle t)
                    ready (others id ready (ground (arith, k.once))) k.startable.1;
            }

        same_maps :
            (ready : List String) (s : State) (ts : List DataTransfer)
            → Starts ready s
            → Starts ready (record s { transfers = ts })
        same_maps ready s ts k = record {
          kept = record {
            attempted = k.kept.attempted;
            apart = k.kept.apart;
            known = k.kept.known;
            ordered = k.kept.ordered;
            bounded = k.kept.bounded;
            once = k.kept.once;
          };
          room = k.room;
          once = k.once;
          startable =
              All-weaken (Startable activities dependencies s)
                (Startable activities dependencies (record s { transfers = ts }))
                (λ x c. record { fresh = c.fresh; is_known = c.is_known; free = c.free }) ready
                k.startable;
        }

        later_Starts :
            (id : String) (ready : List String) (s : State) → Starts (id ∷ ready) s → Starts ready s
        later_Starts id ready s k = record {
          kept = k.kept;
          room = omega (arith, k.room);
          once = ground (arith, k.once);
          startable = k.startable.1;
        }

        pub start_ready_activities-Inv :
            (ready : List String) (s : State) (w : W)
            → Starts ready s
            → Inv activities dependencies max_parallel
                (start_ready_activities floats outside request activities assignments resources
                  ready s w).1
        unfolding start_ready_activities
        start_ready_activities-Inv [] s w k = k.kept
        start_ready_activities-Inv (id ∷ ready) s w k =
            or_stop_keeps (Starts ready) (Inv activities dependencies max_parallel)
              (start_ready_activities floats outside request activities assignments resources ready)
              (λ u c. c.kept) (λ u v c. start_ready_activities-Inv ready u v c)
              (start_one floats outside request activities assignments resources id s w)
              (start_one_keeps (Starts ready) id s
                (λ ts. same_maps ready s ts (later_Starts id ready s k))
                (λ ts handle t.
                  launched-Starts id ready (record s { transfers = ts }) handle t
                    (same_maps (id ∷ ready) s ts k))
                w)
