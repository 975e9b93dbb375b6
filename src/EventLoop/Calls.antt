-- ===== src/EventLoop/Calls.antt =====
-- The loop of internal/controlplane/eventloop/eventloop.go as a client of the queue: which calls it makes.
use akoflow_workflow_engine.Prelude.{
  ℕ, zero, suc, ◌+◌, ◌-◌, ◌≡◌, refl, sym, ap, subst, ◌∙◌, String, Bool, true, false, inl, inr,
  Option, none, some, some_inj, List, [], ◌∷◌, ◌++◌, Result, ok, err, Bool-cases, if◌then◌else◌,
  leb, All, arith, ◌⊎◌,
}
use akoflow_workflow_engine.Prelude.Int.{ℤ, add_time}
use akoflow_workflow_engine.Prelude.Maps.{StringMap}
use akoflow_workflow_engine.Domain.Queue.{Job}
use akoflow_workflow_engine.Queue.{Table, QueueError}
use akoflow_workflow_engine.Queue.Lease.{IsOrderBy}
use akoflow_workflow_engine.Queue.History.{
  Operation, publishes, leases, completes, retries, cancels, releases, step, run,
}
use akoflow_workflow_engine.Queue.History as History
use akoflow_workflow_engine.EventLoop.{
  State, Handling, Event, starts, ticks, wakes, notifies, renews, returns, frees, elsewhere,
  capacity, duration, held, drain, handle_all, react, run_loop, nth, handle, settle, settled_state,
  retry_after, keep_lease_alive, free, then_run, message,
}
use akoflow_workflow_engine.EventLoop.Settings.{Config}
use akoflow_workflow_engine.EventLoop.Dispatcher.{DispatchError, Handled, dispatch}
use akoflow_workflow_engine.EventLoop.Capacity.{IsSound, react-IsSound}

-- A call that a loop of that owner makes: it leases, completes, renews and repeats jobs in its own name, and releases leases that
-- have expired. It publishes and cancels nothing.
abbrev pub IsOwn : String → Operation → Type 0
IsOwn owner (publishes now j) = ⊥
IsOwn owner (leases now by categories limit lasting) = by ≡ owner
IsOwn owner (completes id by at) = by ≡ owner
IsOwn owner (History.renews id by expires_at) = by ≡ owner
IsOwn owner (retries id by cause available_at) = by ≡ owner
IsOwn owner (cancels id at) = ⊥
IsOwn owner (releases now) = Unit

abbrev pub IsInside : {H : Type 0} → Event H → Type 0
IsInside (elsewhere o) = ⊥
IsInside (starts now) = Unit
IsInside _ = Unit

-- The calls of a history: those made elsewhere, each at its event, and between them those of the loop.
pub data Calls {H : Type 0} (owner : String) : List (Event H) → List Operation → Type 0 where
  no_events : Calls owner [] []
  own_call :
      {o : Operation} {es : List (Event H)} {os : List Operation}
      → IsOwn owner o
      → Calls owner es os
      → Calls owner es (o ∷ os)
  outside_call :
      {o : Operation} {es : List (Event H)} {os : List Operation}
      → Calls owner es os
      → Calls owner (elsewhere o ∷ es) (o ∷ os)
  inside_event :
      {e : Event H} {es : List (Event H)} {os : List Operation}
      → IsInside e
      → Calls owner es os
      → Calls owner (e ∷ es) os

own_all :
    {H : Type 0} (owner : String) (es : List (Event H)) (new os : List Operation)
    → All (IsOwn owner) new
    → Calls owner es os
    → Calls owner es (new ++ os)
own_all owner es [] os h c = c
own_all owner es (o ∷ new) os h c = own_call h.0 (own_all owner es new os h.1 c)

module _ (order_by : (Job → Job → Bool) → List Job → List Job) (config : Config) where
  run-append :
      (t : Table) (os ps : List Operation)
      → run order_by t (os ++ ps) ≡ run order_by (run order_by t os) ps
  unfolding run
  run-append t [] ps = refl
  run-append t (o ∷ os) ps = run-append (step order_by t o) os ps

  -- The table after some calls of the loop itself.
  abbrev IsReached : Table → Table → Type 0
  IsReached t t' = (os : List Operation) × All (IsOwn config.owner) os × (t' ≡ run order_by t os)

  IsReached-refl : (t : Table) → IsReached t t
  unfolding run
  IsReached-refl t = ([], tt, refl)

  IsReached-one :
      (t : Table) (o : Operation) → IsOwn config.owner o → IsReached t (step order_by t o)
  unfolding run
  IsReached-one t o h = (o ∷ [], (h, tt), refl)

  handle_all-table :
      (s : State) (r : Result QueueError (List Job)) (t : Table) → (handle_all s (r, t)).table ≡ t
  handle_all-table s (ok jobs) t = refl
  handle_all-table s (err e) t = refl

  drain-IsReached : (now : ℕ) (s : State) → IsReached s.table (drain order_by config now s).table
  unfolding drain step run
  drain-IsReached now s = elim (Bool-cases (leb (capacity config) (held s))) [
    | inl e ↦ ([], tt, rw e refl)
    | inr e ↦
        let o =
          leases now config.owner config.categories (capacity config - held s) (duration config) in
        (o ∷ [], (refl, tt), rw e (handle_all-table s _ _))
  ]

  wake-IsReached :
      (b : Bool) (now : ℕ) (s u : State)
      → u.table ≡ s.table
      → IsReached s.table (if b then drain order_by config now u else s).table
  wake-IsReached true now s u e =
      let (os, mine, same) = drain-IsReached now u in
      (os, mine, same ∙ ap (λ t. run order_by t os) e)
  wake-IsReached false now s u e = IsReached-refl s.table

  keep_lease_alive-IsReached :
      (position now : ℕ) (o : Option Handling) (s : State)
      → IsReached s.table (keep_lease_alive config position now o s).table
  unfolding step run
  keep_lease_alive-IsReached position now none s = IsReached-refl s.table
  keep_lease_alive-IsReached position now (some h) s = elim (Bool-cases h.kept) [
    | inl e ↦
        (History.renews h.job.id config.owner (now + duration config) ∷ [], (refl, tt), rw e refl)
    | inr e ↦ ([], tt, rw e refl)
  ]

  retry-IsReached :
      (now : ℕ) (job : Job) (cause : DispatchError) (d : Option ℤ) (t t' : Table)
      → retry_after config now job cause d t ≡ some t'
      → IsReached t t'
  unfolding step run
  retry-IsReached now job cause none t t' e = absurd (ground arith)
  retry-IsReached now job cause (some wait) t t' e = (
    retries job.id config.owner (some (message cause)) (add_time now wait) ∷ [],
    (refl, tt),
    sym (some_inj e),
  )

  settle-IsReached :
      (now : ℕ) (job : Job) (r : Result DispatchError (Unit {0})) (t t' : Table)
      → settle config now job r t ≡ some t'
      → IsReached t t'
  unfolding step run
  settle-IsReached now job (ok u) t t' e =
      (completes job.id config.owner now ∷ [], (refl, tt), sym (some_inj e))
  settle-IsReached now job (err cause) t t' e = retry-IsReached now job cause _ t t' e

  settled_table :
      (position : ℕ) (s s' : State) (o : Option Table)
      → settled_state position s o ≡ some s'
      → o ≡ some s'.table
  settled_table position s s' none e = absurd (ground arith)
  settled_table position s s' (some t) e = ap (λ (x : State). some x.table) (some_inj e)

  free_table : (n : ℕ) (s : State) → (free n s).table ≡ s.table
  free_table zero s = refl
  free_table (suc n) s = refl

module _ {H : Type 0} (order_by : (Job → Job → Bool) → List Job → List Job) (config : Config)
    (handlers : StringMap H) where
  handle-IsReached :
      (position now : ℕ) (call : H → Job → Handled) (o : Option Handling) (s s' : State)
      → handle config handlers position now call o s ≡ some s'
      → IsReached order_by config s.table s'.table
  unfolding handle
  handle-IsReached position now call none s s' e =
      let (os, mine, same) = IsReached-refl order_by config s.table in
      (os, mine, ap (λ (x : State). x.table) (sym (some_inj e)) ∙ same)
  handle-IsReached position now call (some h) s s' e =
      settle-IsReached order_by config now h.job (dispatch call handlers h.job) s.table s'.table
        (settled_table order_by config position s s' _ e)

  moved :
      (s u s' : State)
      → IsReached order_by config s.table u.table
      → some u ≡ some s'
      → IsReached order_by config s.table s'.table
  moved s u s' (os, mine, same) e =
      (os, mine, ap (λ (x : State). x.table) (sym (some_inj e)) ∙ same)

  react-IsReached :
      (s s' : State) (e : Event H)
      → IsInside e
      → react order_by config handlers s e ≡ some s'
      → IsReached order_by config s.table s'.table
  unfolding react step run
  react-IsReached s s' (starts now) i e = moved s _ s' (drain-IsReached order_by config now s) e
  react-IsReached s s' (ticks released_at leased_at) i e =
      let u = record s { table = step order_by s.table (releases released_at) } in
      let (os, mine, same) = drain-IsReached order_by config leased_at u in
      moved s _ s' (releases released_at ∷ os, (tt, mine), same) e
  react-IsReached s s' (wakes now) i e =
      moved s _ s' (wake-IsReached order_by config s.woken now s (record s { woken = false }) refl)
        e
  react-IsReached s s' notifies i e = moved s _ s' (IsReached-refl order_by config s.table) e
  react-IsReached s s' (renews position now) i e =
      moved s _ s'
        (keep_lease_alive-IsReached order_by config position now (nth position s.running) s) e
  react-IsReached s s' (returns position now call) i e =
      handle-IsReached position now call (nth position s.running) s s' e
  react-IsReached s s' frees i e = moved s _ s' ([], tt, free_table order_by config s.settled s) e
  react-IsReached s s' (elsewhere o) i e = absurd i

  event_cases : (e : Event H) → IsInside e ⊎ ((o : Operation) × (e ≡ elsewhere o))
  event_cases (elsewhere o) = inr (o, refl)
  event_cases (starts now) = inl tt
  event_cases (ticks released_at leased_at) = inl tt
  event_cases (wakes now) = inl tt
  event_cases notifies = inl tt
  event_cases (renews position now) = inl tt
  event_cases (returns position now call) = inl tt
  event_cases frees = inl tt

  -- The queue after these events is what a history of calls leaves of the table.
  abbrev pub IsHistory : List (Event H) → Table → Table → Type 0
  IsHistory es t t' = (os : List Operation) × Calls config.owner es os × (t' ≡ run order_by t os)

  after_outside :
      (s s' : State) (o : Operation)
      → react order_by config handlers s (elsewhere o) ≡ some s'
      → (es : List (Event H)) (t : Table) → IsHistory es s'.table t
      → IsHistory (elsewhere o ∷ es) s.table t
  unfolding react run
  after_outside s s' o r es t (os, c, same) = (
    o ∷ os,
    outside_call c,
    same ∙ ap (λ (x : State). run order_by x.table os) (sym (some_inj r)),
  )

  after_event :
      (s s' : State) (e : Event H)
      → react order_by config handlers s e ≡ some s'
      → (es : List (Event H)) (t : Table) → IsHistory es s'.table t
      → IsHistory (e ∷ es) s.table t
  after_event s s' e r es t h = elim (event_cases e) [
    | inl i ↦
        let (new, mine, moved) = react-IsReached s s' e i r in
        let (os, c, same) = h in
        (
          new ++ os,
          own_all config.owner (e ∷ es) new os mine (inside_event i c),
          same
              ∙ ap (λ u. run order_by u os) moved
              ∙ sym (run-append order_by config s.table new os),
        )
    | inr (o, is) ↦
        subst (λ x. IsHistory (x ∷ es) s.table t) (sym is)
          (after_outside s s' o (ap (react order_by config handlers s) (sym is) ∙ r) es t h)
  ]

  -- Over any events from a state that is sound, the loop does not panic, and does to the queue what a history of calls does
  -- to its table: the calls made elsewhere, in the order of their events, and between them only calls of `Lease`, `Complete`,
  -- `RenewLease` and `Retry` in the name of the loop, and of `ReleaseExpired`.
  pub run_loop-refines :
      IsOrderBy order_by
      → (es : List (Event H)) (s : State) → IsSound config s
      → (s' : State) × (run_loop order_by config handlers es s ≡ some s')
        × IsHistory es s.table s'.table
  unfolding run_loop run
  run_loop-refines orders [] s p = (s, refl, ([], no_events, refl))
  run_loop-refines orders (e ∷ es) s p =
      let (u, r, q) = react-IsSound order_by orders config handlers s e p in
      let (s', r', h) = run_loop-refines orders es u q in
      (
        s',
        ap (then_run (run_loop order_by config handlers es)) r ∙ r',
        after_event s u e r es s'.table h,
      )
