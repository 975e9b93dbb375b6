-- ===== src/Supervisor/Returns.antt =====
-- `executeActivities` of controlplane/execution/supervisor.go over ports that answer returns its trace.
use akoflow_workflow_engine.Prelude.{
  ℕ, zero, suc, ◌+◌, ◌≤◌, ◌≡◌, refl, sym, ap, ◌∙◌, String, Bool, true, false, not, ◌&&◌, eq_refl,
  none, some, List, [], ◌∷◌, All, All-take, All-weaken, Bool-cases, inl, inr, length,
  length-take-le, take, contains, distinct, count_if, arith, ltb, nat_eq,
}
use akoflow_workflow_engine.Prelude.Maps.{StringMap, has, keys, has-contains}
use akoflow_workflow_engine.Domain.Values.{FloatOps}
use akoflow_workflow_engine.Domain.Workflow.{Activity, ActivityDependency}
use akoflow_workflow_engine.Domain.Resource.{Resource}
use akoflow_workflow_engine.Domain.Planning.{PlanAssignment}
use akoflow_workflow_engine.Domain.Execution.{ActivityHandle, ExecutionRequest, TaskExecution}
use akoflow_workflow_engine.Plan.Dag.Kahn.{IsTopological}
use akoflow_workflow_engine.Supervisor.Request.{Outside}
use akoflow_workflow_engine.Supervisor.{
  State, Answer, available, after_started, start_available, after_inspected, round, execute_loop,
  is_interactive, ready_activities, index_predecessors, start_ready_activities, inspect_running,
}
use akoflow_workflow_engine.Supervisor.Inv.{Inv, Startable}
use akoflow_workflow_engine.Supervisor.Steps.{inspect_running-Inv, start_ready_activities-Inv}
use akoflow_workflow_engine.Supervisor.Ready.{
  RangesIds, SortsStrings, distinct-ready, ready-Startable, idle_lem,
}
use akoflow_workflow_engine.Supervisor.Prompt.{
  IsPrompt, IsStartable, inspect_running_ok, start_ready_activities_ok,
}
use akoflow_workflow_engine.Supervisor.Answers.{
  is_returned, available_le, distinct-take, RangesAllHandles, none_has, count_if_lt, available_some,
  available_any, stopped_ok, waited-none,
}

module _ {W : Type 0} (floats : FloatOps) (outside : Outside W) (prompt : IsPrompt outside)
    (max_parallel : ℕ) (some_run : 1 ≤ max_parallel) (request : ExecutionRequest)
    (activities : StringMap Activity) (assignments : StringMap PlanAssignment)
    (resources : StringMap Resource)
    (startable : IsStartable request activities assignments resources)
    (dependencies : List ActivityDependency)
    (range_handles : StringMap ActivityHandle → List (String × ActivityHandle))
    (range_ids : StringMap Activity → List String) (sort_strings : List String → List String)
    (sort_tasks : StringMap TaskExecution → List TaskExecution) where
  abbrev Returns : Answer W → Type 0
  Returns a = is_returned a.0 ≡ true

  abbrev predecessors : StringMap (List String)
  predecessors = index_predecessors dependencies []

  module _ (next : State → W → Answer W) (s : State) (w : W)
      (h : Inv activities dependencies max_parallel s) (idle : length s.running ≡ 0) where
    after_started_returns :
        (ready : List String) (u : State) (v : W)
        → (nat_eq (length u.running) 0
            && nat_eq (length ready) 0
            && ltb (length u.completed) (length activities))
          ≡ false
        → ((x : W) → is_returned (next u x).0 ≡ true)
        → is_returned
            (after_started floats outside max_parallel range_handles range_ids sort_strings
              sort_tasks request activities assignments resources predecessors next ready u v).0
          ≡ true
    after_started_returns ready u v open_ go = elim (Bool-cases (ltb 0 (length u.running))) [
      | inl b ↦ rw open_ (
          rw b (
            ap (λ (a : Answer W). is_returned a.0)
              (waited-none next u (outside.wait v) (prompt.no_wait_error v))
            ∙ go _))
      | inr b ↦ rw open_ (rw b (go v))
    ]

    -- Nothing may be started: all has completed.
    start_none_returns :
        (n : ℕ)
        → length activities ≤ length s.completed
        → ((x : W) → is_returned (next s x).0 ≡ true)
        → is_returned
            (start_available floats outside max_parallel range_handles range_ids sort_strings
              sort_tasks request activities assignments resources predecessors next []
              (some n)
              s
              w).0
          ≡ true
    unfolding start_ready_activities
    start_none_returns zero all_done go = after_started_returns [] s w (ground (arith, all_done)) go
    start_none_returns (suc n) all_done go =
        after_started_returns [] s w (ground (arith, all_done)) go

    -- The first ready activity is started.
    start_some_returns :
        (x : String) (ready : List String) (n : ℕ)
        → distinct (x ∷ ready) ≡ true
        → All (Startable activities dependencies s) (x ∷ ready)
        → length s.running + suc n ≤ max_parallel
        → ((u : State) (v : W)
            → Inv activities dependencies max_parallel u
            → ((y : String) → has y s.tasks ≡ true → has y u.tasks ≡ true)
            → has x u.tasks ≡ true
            → is_returned (next u v).0 ≡ true)
        → is_returned
            (start_available floats outside max_parallel range_handles range_ids sort_strings
              sort_tasks request activities assignments resources predecessors next
              (x ∷ ready)
              (some (suc n))
              s
              w).0
          ≡ true
    start_some_returns x ready n d all room go =
        let chosen = take (suc n) (x ∷ ready) in
        let o =
          start_ready_activities floats outside request activities assignments resources chosen s
            w in
        let (fine, grown) =
          start_ready_activities_ok floats outside prompt request activities assignments resources
            startable chosen s w
            (All-weaken (Startable activities dependencies s) (λ id. has id activities ≡ true)
              (λ id c. c.is_known) chosen
              (All-take (Startable activities dependencies s) (suc n) (x ∷ ready) all)) in
        let kept =
          start_ready_activities-Inv floats outside request activities assignments resources
            dependencies max_parallel chosen s w
            (record {
              kept = h;
              room = omega (arith, room, length-take-le (suc n) (x ∷ ready));
              once = distinct-take (suc n) (x ∷ ready) d;
              startable = All-take (Startable activities dependencies s) (suc n) (x ∷ ready) all;
            }) in
        let follow =
          after_started floats outside max_parallel range_handles range_ids sort_strings sort_tasks
            request activities assignments resources predecessors next (x ∷ ready) in
        ap (λ (a : Answer W). is_returned a.0) (stopped_ok follow o fine)
        ∙ after_started_returns (x ∷ ready) o.1 o.2 (ground arith) (λ v.
          go o.1 v kept (λ y k. grown y ∙ ground (arith, k)) (grown x ∙ ground (arith, eq_refl x)))

    ready_returns :
        (ready : List String)
        → distinct ready ≡ true
        → All (Startable activities dependencies s) ready
        → (length ready ≡ 0 → length activities ≤ length s.completed)
        → (length activities ≤ length s.completed → (x : W) → is_returned (next s x).0 ≡ true)
        → ((x : String) (u : State) (v : W)
            → Inv activities dependencies max_parallel u
            → ((y : String) → has y s.tasks ≡ true → has y u.tasks ≡ true)
            → Startable activities dependencies s x
            → has x u.tasks ≡ true
            → is_returned (next u v).0 ≡ true)
        → is_returned
            (start_available floats outside max_parallel range_handles range_ids sort_strings
              sort_tasks request activities assignments resources predecessors next ready
              (available max_parallel (length ready) (length s.running))
              s
              w).0
          ≡ true
    ready_returns [] d all none_left finished_ started_ =
        let (n, e) = available_any max_parallel 0 (length s.running) idle in
        rw e (start_none_returns n (none_left refl) (finished_ (none_left refl)))
    ready_returns (x ∷ ready) d all none_left finished_ started_ =
        let (n, e) = available_some max_parallel (length ready) (length s.running) some_run idle in
        rw e (
          start_some_returns x ready n d all
            (available_le max_parallel (suc (length ready)) (length s.running) (suc n) h.bounded e)
            (λ u v k more there. started_ x u v k more all.0 there))

  abbrev pub is_pending : State → String → Bool
  is_pending s id = not (has id s.tasks)

  module _ (handles : RangesAllHandles range_handles) (ranges : RangesIds range_ids)
      (sorts : SortsStrings sort_strings) (d : distinct (keys activities) ≡ true)
      (batch : is_interactive request.run.mode ≡ false) (order : List String)
      (t : IsTopological dependencies [] order)
      (same : (v : String) → contains order v ≡ has v activities) where
    round_returns :
        (next : State → W → Answer W) (s : State) (w : W)
        → Inv activities dependencies max_parallel s
        → ((u : State) (v : W)
            → Inv activities dependencies max_parallel u
            → length activities ≤ length u.completed
            → is_returned (next u v).0 ≡ true)
        → ((x : String) (u : State) (v : W)
            → Inv activities dependencies max_parallel u
            → ((y : String) → has y s.tasks ≡ true → has y u.tasks ≡ true)
            → has x activities ≡ true
            → has x s.tasks ≡ false
            → has x u.tasks ≡ true
            → is_returned (next u v).0 ≡ true)
        → is_returned
            (round floats outside max_parallel range_handles range_ids sort_strings sort_tasks
              request activities assignments resources predecessors next none s w).0
          ≡ true
    round_returns next s w h finished_ started_ =
        let attempted : All (λ (e : String × ActivityHandle). has e.0 s.tasks ≡ true)
            (range_handles s.running) =
          All-weaken (λ (e : String × ActivityHandle). has e.0 s.running ≡ true)
            (λ (e : String × ActivityHandle). has e.0 s.tasks ≡ true)
            (λ e k. ground (arith, h.attempted e.0, k)) (range_handles s.running)
            (handles.only s.running) in
        let o = inspect_running floats outside request.run.mode (range_handles s.running) s w in
        let (fine, left, unchanged) =
          inspect_running_ok floats outside prompt request.run.mode (range_handles s.running) s w
            attempted in
        let kept =
          inspect_running-Inv floats outside activities dependencies max_parallel request.run.mode
            (range_handles s.running) s w (h, attempted) in
        let idle = none_has o.1.running (λ v. ground (arith, left v, handles.each s.running v)) in
        let ready = ready_activities range_ids sort_strings activities predecessors o.1 in
        let follow =
          after_inspected floats outside max_parallel range_handles range_ids sort_strings
            sort_tasks request activities assignments resources predecessors next in
        ap (λ (a : Answer W). is_returned a.0) (stopped_ok follow o fine)
        ∙ rw batch (
            ready_returns next o.1 o.2 kept idle ready
              (distinct-ready activities dependencies o.1 range_ids sort_strings ranges sorts d)
              (ready-Startable activities dependencies o.1 range_ids sort_strings ranges sorts d)
              (λ empty.
                idle_lem activities dependencies max_parallel o.1 range_ids sort_strings ranges
                  sorts d kept idle empty order t same)
              (λ all_done x. finished_ o.1 x kept all_done)
              (λ x u v k more c there.
                started_ x u v k (λ y q. more y (unchanged y ∙ q)) c.is_known
                  (sym (unchanged x) ∙ c.fresh) there))

    returned_at_end :
        (rounds : ℕ) (s : State) (w : W)
        → length activities ≤ length s.completed
        → is_returned
            (execute_loop floats outside max_parallel range_handles range_ids sort_strings
              sort_tasks request activities assignments resources predecessors
              (suc rounds)
              s
              w).0
          ≡ true
    unfolding execute_loop
    returned_at_end rounds s w all_done =
        let over : ltb (length s.completed) (length activities) ≡ false =
          ground (arith, all_done) in
        rw over refl

    loop_step :
        (n : ℕ) (s : State) (w : W)
        → Inv activities dependencies max_parallel s
        → ((u : State) (v : W)
            → Inv activities dependencies max_parallel u
            → suc (count_if (is_pending u) (keys activities))
              ≤ count_if (is_pending s) (keys activities)
            → is_returned
                (execute_loop floats outside max_parallel range_handles range_ids sort_strings
                  sort_tasks request activities assignments resources predecessors
                  (suc n)
                  u
                  v).0
              ≡ true)
        → is_returned
            (execute_loop floats outside max_parallel range_handles range_ids sort_strings
              sort_tasks request activities assignments resources predecessors
              (suc (suc n))
              s
              w).0
          ≡ true
    unfolding execute_loop
    loop_step n s w h go = elim (Bool-cases (ltb (length s.completed) (length activities))) [
      | inr e ↦ rw e refl
      | inl e ↦ rw e (
          rw (prompt.no_context_error w) (
            round_returns
              (execute_loop floats outside max_parallel range_handles range_ids sort_strings
                sort_tasks request activities assignments resources predecessors (suc n))
              s w h (λ u v k all_done. returned_at_end n u v all_done)
              (λ x u v k more known fresh there. go u v k (
                count_if_lt (is_pending u) (is_pending s) (keys activities) x
                  (λ y q. ground (arith, more y)) (sym (has-contains activities x) ∙ known)
                  (ground (arith, fresh)) (ground (arith, there))))))
    ]

    -- Enough rounds: two more than there are activities that were never attempted.
    pub loop_returns :
        (n : ℕ) (s : State) (w : W)
        → Inv activities dependencies max_parallel s
        → count_if (is_pending s) (keys activities) ≤ n
        → is_returned
            (execute_loop floats outside max_parallel range_handles range_ids sort_strings
              sort_tasks request activities assignments resources predecessors
              (suc (suc n))
              s
              w).0
          ≡ true
    loop_returns zero s w h few =
        loop_step zero s w h (λ u v k less. absurd (omega (arith, few, less)))
    loop_returns (suc n) s w h few =
        loop_step (suc n) s w h (λ u v k less. loop_returns n u v k (omega (arith, few, less)))
