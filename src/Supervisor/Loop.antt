-- ===== src/Supervisor/Loop.antt =====
-- `executeActivities` of controlplane/execution/supervisor.go as a whole.
use akoflow_workflow_engine.Prelude.{
  ℕ, zero, suc, ◌+◌, ◌≤◌, ◌≡◌, refl, String, true, false, ◌&&◌, Option, none, some, List, [], ◌∷◌,
  ok, err, All, All-take, All-weaken, Bool-cases, inl, inr, length, length-take-le, take, contains,
  distinct, arith, ltb, nat_eq,
}
use akoflow_workflow_engine.Prelude.Maps.{StringMap, has, keys}
use akoflow_workflow_engine.Domain.Values.{FloatOps}
use akoflow_workflow_engine.Domain.Workflow.{Activity, ActivityDependency}
use akoflow_workflow_engine.Domain.Resource.{Resource}
use akoflow_workflow_engine.Domain.Planning.{PlanAssignment}
use akoflow_workflow_engine.Domain.Execution.{ActivityHandle, ExecutionRequest, TaskExecution}
use akoflow_workflow_engine.Plan.Dag.Kahn.{IsTopological}
use akoflow_workflow_engine.Supervisor.Request.{
  Outside, SupervisorError, step_failed, cancelled, rounds_exhausted,
}
use akoflow_workflow_engine.Supervisor.{
  State, Outcome, Answer, stopped, waited, available, after_started, start_available,
  after_inspected, round, execute_loop, is_interactive, ready_activities, index_predecessors,
  start_ready_activities, inspect_running,
}
use akoflow_workflow_engine.Supervisor.Inv.{Inv, Startable}
use akoflow_workflow_engine.Supervisor.Steps.{inspect_running-Inv, start_ready_activities-Inv}
use akoflow_workflow_engine.Supervisor.Ready.{
  RangesIds, SortsStrings, distinct-ready, ready-Startable, idle_lem,
}
use akoflow_workflow_engine.Supervisor.Answers.{
  RangesHandles, is_out_of_range, is_blocked, IsSound, available_none, available_le, distinct-take,
}

module _ {W : Type 0} (floats : FloatOps) (outside : Outside W) (max_parallel : ℕ)
    (request : ExecutionRequest) (activities : StringMap Activity)
    (assignments : StringMap PlanAssignment) (resources : StringMap Resource)
    (dependencies : List ActivityDependency) where
  abbrev Sound : Answer W → Type 0
  Sound a = IsSound activities dependencies max_parallel request.run.mode a

  abbrev Kept : State → Type 0
  Kept s = Inv activities dependencies max_parallel s

  failed-IsSound :
      (e : SupervisorError) (s : State) (w : W)
      → is_out_of_range (err e) ≡ false
      → is_blocked (err e) ≡ false
      → Inv activities dependencies max_parallel s
      → IsSound activities dependencies max_parallel request.run.mode (err e, s, w)
  failed-IsSound e s w p b h = record {
    kept = h;
    in_range = p;
    finishes = λ r i. cc;
    progresses = λ order t same. b;
  }

  module _ (next : State → W → Answer W)
      (next_sound : (s : State) (w : W)
        → Inv activities dependencies max_parallel s
        → IsSound activities dependencies max_parallel request.run.mode (next s w)) where
    stopped-IsSound :
        (P : State → Type 0) (follow : State → W → Answer W)
        → ((s : State) → P s → Inv activities dependencies max_parallel s)
        → ((s : State) (w : W)
            → P s
            → IsSound activities dependencies max_parallel request.run.mode (follow s w))
        → (o : Outcome W) → P o.1
        → IsSound activities dependencies max_parallel request.run.mode (stopped follow o)
    stopped-IsSound P follow weaken step (ok u, s, w) p = step s w p
    stopped-IsSound P follow weaken step (err e, s, w) p =
        failed-IsSound (step_failed e) s w refl refl (weaken s p)

    waited-IsSound :
        (s : State) (r : Option String × W)
        → Inv activities dependencies max_parallel s
        → IsSound activities dependencies max_parallel request.run.mode (waited next s r)
    waited-IsSound s (none, w) h = next_sound s w h
    waited-IsSound s (some cause, w) h = failed-IsSound (cancelled cause) s w refl refl h

    -- When nothing runs and nothing may be started, all has completed.
    abbrev Idle : List String → State → Type 0
    Idle ready s =
        (order : List String)
        → IsTopological dependencies [] order
        → ((v : String) → contains order v ≡ has v activities)
        → length s.running ≡ 0
        → length ready ≡ 0
        → length activities ≤ length s.completed

    module _ (range_handles : StringMap ActivityHandle → List (String × ActivityHandle))
        (range_ids : StringMap Activity → List String) (sort_strings : List String → List String)
        (sort_tasks : StringMap TaskExecution → List TaskExecution)
        (predecessors : StringMap (List String)) where
      after_started-IsSound :
          (ready : List String) (s : State) (w : W)
          → Inv activities dependencies max_parallel s × Idle ready s
          → IsSound activities dependencies max_parallel request.run.mode (
              after_started floats outside max_parallel range_handles range_ids sort_strings
                sort_tasks request activities assignments resources predecessors next ready s w)
      after_started-IsSound ready s w (h, idle) =
          elim (Bool-cases (
            nat_eq (length s.running) 0
            && nat_eq (length ready) 0
            && ltb (length s.completed) (length activities))) [
              | inl e ↦ rw e (record {
                kept = h;
                in_range = refl;
                finishes = λ r i. cc;
                progresses = λ order t same.
                    let all_done = idle order t same (ground (arith, e)) (ground (arith, e)) in
                    absurd (ground (arith, e, all_done));
              })
              | inr e ↦ elim (Bool-cases (ltb 0 (length s.running))) [
                | inl b ↦ rw e (rw b (waited-IsSound s _ h))
                | inr b ↦ rw e (rw b (next_sound s w h))
              ]
            ]

      start_some-IsSound :
          (ready : List String) (n : ℕ) (s : State) (w : W)
          → Inv activities dependencies max_parallel s
          → length s.running + n ≤ max_parallel
          → distinct ready ≡ true
          → All (Startable activities dependencies s) ready
          → Idle ready s
          → IsSound activities dependencies max_parallel request.run.mode (
              start_available floats outside max_parallel range_handles range_ids sort_strings
                sort_tasks request activities assignments resources predecessors next ready
                (some n)
                s
                w)
      unfolding start_ready_activities
      start_some-IsSound [] zero s w h room d all idle = after_started-IsSound [] s w (h, idle)
      start_some-IsSound [] (suc n) s w h room d all idle = after_started-IsSound [] s w (h, idle)
      start_some-IsSound (x ∷ ready) n s w h room d all idle =
          stopped-IsSound (λ u. Inv activities dependencies max_parallel u × Idle (x ∷ ready) u)
            (after_started floats outside max_parallel range_handles range_ids sort_strings
              sort_tasks request activities assignments resources predecessors next (x ∷ ready))
            (λ u k. k.0) (λ u v k. after_started-IsSound (x ∷ ready) u v k)
            (start_ready_activities floats outside request activities assignments resources
              (take n (x ∷ ready)) s w)
            (
              start_ready_activities-Inv floats outside request activities assignments resources
                  dependencies max_parallel (take n (x ∷ ready)) s w
                  (record {
                    kept = h;
                    room = omega (arith, room, length-take-le n (x ∷ ready));
                    once = distinct-take n (x ∷ ready) d;
                    startable = All-take (Startable activities dependencies s) n (x ∷ ready) all;
                  }),
              λ order t same run_none empty. absurd (omega (arith, empty)),
            )

      start_available-IsSound :
          (ready : List String) (room : Option ℕ) (s : State) (w : W)
          → Inv activities dependencies max_parallel s
          → available max_parallel (length ready) (length s.running) ≡ room
          → distinct ready ≡ true
          → All (Startable activities dependencies s) ready
          → Idle ready s
          → IsSound activities dependencies max_parallel request.run.mode (
              start_available floats outside max_parallel range_handles range_ids sort_strings
                sort_tasks request activities assignments resources predecessors next ready room s
                w)
      start_available-IsSound ready none s w h e d all idle =
          absurd (available_none max_parallel (length ready) (length s.running) h.bounded e)
      start_available-IsSound ready (some n) s w h e d all idle =
          start_some-IsSound ready n s w h
            (available_le max_parallel (length ready) (length s.running) n h.bounded e) d all idle

  module _ (range_handles : StringMap ActivityHandle → List (String × ActivityHandle))
      (range_ids : StringMap Activity → List String) (sort_strings : List String → List String)
      (sort_tasks : StringMap TaskExecution → List TaskExecution)
      (handles : RangesHandles range_handles) (ranges : RangesIds range_ids)
      (sorts : SortsStrings sort_strings) (d : distinct (keys activities) ≡ true) where
    after_inspected-IsSound :
        (next : State → W → Answer W)
        → ((s : State) (w : W)
            → Inv activities dependencies max_parallel s
            → IsSound activities dependencies max_parallel request.run.mode (next s w))
        → (s : State) (w : W) → Inv activities dependencies max_parallel s
        → IsSound activities dependencies max_parallel request.run.mode (
            after_inspected floats outside max_parallel range_handles range_ids sort_strings
              sort_tasks request activities assignments resources
              (index_predecessors dependencies [])
              next
              s
              w)
    after_inspected-IsSound next next_sound s w h =
        elim (Bool-cases (is_interactive request.run.mode && ltb 0 (length s.running))) [
          | inl e ↦ rw e (record {
            kept = h;
            in_range = refl;
            finishes = λ r i. absurd (ground (arith, e, i));
            progresses = λ order t same. refl;
          })
          | inr e ↦ rw e (
              start_available-IsSound next next_sound range_handles range_ids sort_strings
                sort_tasks (index_predecessors dependencies [])
                (ready_activities range_ids sort_strings activities
                  (index_predecessors dependencies []) s)
                _ s w h refl
                (distinct-ready activities dependencies s range_ids sort_strings ranges sorts d)
                (ready-Startable activities dependencies s range_ids sort_strings ranges sorts d)
                (λ order t same idle empty.
                  idle_lem activities dependencies max_parallel s range_ids sort_strings ranges
                    sorts d h idle empty order t same))
        ]

    round-IsSound :
        (next : State → W → Answer W)
        → ((s : State) (w : W)
            → Inv activities dependencies max_parallel s
            → IsSound activities dependencies max_parallel request.run.mode (next s w))
        → (context : Option String) (s : State) (w : W) → Inv activities dependencies max_parallel s
        → IsSound activities dependencies max_parallel request.run.mode (
            round floats outside max_parallel range_handles range_ids sort_strings sort_tasks
              request activities assignments resources
              (index_predecessors dependencies [])
              next
              context
              s
              w)
    round-IsSound next next_sound (some cause) s w h =
        failed-IsSound (cancelled cause) s w refl refl h
    round-IsSound next next_sound none s w h =
        stopped-IsSound next next_sound (Inv activities dependencies max_parallel)
          (after_inspected floats outside max_parallel range_handles range_ids sort_strings
            sort_tasks request activities assignments resources (index_predecessors dependencies [])
            next)
          (λ u k. k) (λ u v k. after_inspected-IsSound next next_sound u v k)
          (inspect_running floats outside request.run.mode (range_handles s.running) s w)
          (inspect_running-Inv floats outside activities dependencies max_parallel request.run.mode
            (range_handles s.running) s w (h, running_attempted s h))
      where
        running_attempted :
            (s : State)
            → Inv activities dependencies max_parallel s
            → All
                (λ (e : String × ActivityHandle). has e.0 s.tasks ≡ true)
                (range_handles s.running)
        running_attempted s h =
            All-weaken (λ (e : String × ActivityHandle). has e.0 s.running ≡ true)
              (λ (e : String × ActivityHandle). has e.0 s.tasks ≡ true)
              (λ e k. ground (arith, h.attempted e.0, k)) (range_handles s.running)
              (handles s.running)

    pub loop-IsSound :
        (rounds : ℕ) (s : State) (w : W)
        → Inv activities dependencies max_parallel s
        → IsSound activities dependencies max_parallel request.run.mode (
            execute_loop floats outside max_parallel range_handles range_ids sort_strings sort_tasks
              request activities assignments resources
              (index_predecessors dependencies [])
              rounds
              s
              w)
    unfolding execute_loop
    loop-IsSound zero s w h = failed-IsSound rounds_exhausted s w refl refl h
    loop-IsSound (suc rounds) s w h =
        elim (Bool-cases (ltb (length s.completed) (length activities))) [
          | inl e ↦ rw e (
              round-IsSound
                (execute_loop floats outside max_parallel range_handles range_ids sort_strings
                  sort_tasks request activities assignments resources
                  (index_predecessors dependencies []) rounds)
                (λ u v k. loop-IsSound rounds u v k) (outside.context_error w) s w h)
          | inr e ↦ rw e (record {
            kept = h;
            in_range = refl;
            finishes = λ r i. ground (arith, e);
            progresses = λ order t same. refl;
          })
        ]
