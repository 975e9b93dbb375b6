-- ===== src/EventLoop.antt =====
-- internal/controlplane/eventloop/eventloop.go: the loop over the durable queue. What happens is a sequence of events:
-- Go leaves open in which order the goroutines take their turns.
pub mod Dispatcher
pub mod Settings
pub mod Handlers
pub mod Capacity
pub mod Calls
pub mod Outcome
use akoflow_workflow_engine.Prelude.{
  ℕ, zero, suc, ◌+◌, ◌-◌, String, Bool, true, false, Option, none, some, List, [], ◌∷◌, ◌++◌, map,
  Result, ok, err, if◌then◌else◌, leb, length, concat,
}
use akoflow_workflow_engine.Prelude.Int.{ℤ, pos_part, add_time}
use akoflow_workflow_engine.Prelude.Maps.{StringMap}
use akoflow_workflow_engine.Domain.Queue.{Job}
use akoflow_workflow_engine.Queue.{
  Table, QueueError, lease, complete, renew_lease, retry, release_expired,
}
use akoflow_workflow_engine.Queue.History.{Operation, step}
use akoflow_workflow_engine.EventLoop.Dispatcher.{
  DispatchError, Handled, no_handler, dispatch, handler_failed, type_and_handler_required,
  already_registered,
}
use akoflow_workflow_engine.EventLoop.Settings.{Config, backoff}

-- A job whose handler has been called: `kept` while keepLeaseAlive renews its lease.
pub record Handling : Type 0 where
  pub job : Job
  pub kept : Bool

-- The rows of the queue; the goroutines whose handler has not come back, and the number of those that have ended or repeated
-- their job and still hold a slot of the semaphore; and whether `wakeUp` holds a message.
pub record State : Type 0 where
  pub table : Table
  pub running : List Handling
  pub settled : ℕ
  pub woken : Bool

-- `ticks` is the poll: the times are those of ReleaseExpired and of Lease, and no other call comes between the two. `renews` is a tick of keepLeaseAlive of a
-- goroutine, by its position; `returns` the end of its handler, `call`, at a time; `frees` its deferred function.
-- `elsewhere` is any call of the queue that is not made by this loop.
pub data Event (H : Type 0) : Type 0 where
  starts : (now : ℕ) → Event H
  ticks : (released_at leased_at : ℕ) → Event H
  wakes : (now : ℕ) → Event H
  notifies : Event H
  renews : (position now : ℕ) → Event H
  returns : (position now : ℕ) (call : H → Job → Handled) → Event H
  frees : Event H
  elsewhere : Operation → Event H

abbrev pub nth {ℓ} : {A : Type ℓ} → ℕ → List A → Option A
nth n [] = none
nth zero (x ∷ xs) = some x
nth (suc n) (x ∷ xs) = nth n xs

abbrev pub without {ℓ} : {A : Type ℓ} → ℕ → List A → List A
without n [] = []
without zero (x ∷ xs) = xs
without (suc n) (x ∷ xs) = x ∷ without n xs

abbrev pub replace {ℓ} : {A : Type ℓ} → ℕ → A → List A → List A
replace n y [] = []
replace zero y (x ∷ xs) = y ∷ xs
replace (suc n) y (x ∷ xs) = x ∷ replace n y xs

abbrev pub message : DispatchError → String
message type_and_handler_required = "event type and handler are required"
message (already_registered event_type) = concat "handler already registered for " event_type
message (no_handler event_type) = concat "no handler registered for event " event_type
message (handler_failed text) = text

-- len(semaphore)
abbrev pub held : State → ℕ
held s = length s.running + s.settled

abbrev pub handle_all : State → Result QueueError (List Job) × Table → State
handle_all s (ok jobs, t) = record s {
  table = t;
  running = s.running ++ map (λ job. record { job = job; kept = true }) jobs;
}
handle_all s (err e, t) = record s { table = t }

-- An error ends keepLeaseAlive and cancels the context of the handler.
abbrev pub kept_by : Result QueueError (Unit {0}) → Bool
kept_by (ok u) = true
kept_by (err e) = false

abbrev pub renewed : ℕ → Handling → State → Result QueueError (Unit {0}) × Table → State
renewed position handling s (r, t) = record s {
  table = t;
  running = replace position (record handling { kept = kept_by r }) s.running;
}

-- The goroutine has made its last call of the queue and still holds its slot.
abbrev pub with_settled : ℕ → State → Table → State
with_settled position s t = record s {
  table = t;
  running = without position s.running;
  settled = s.settled + 1;
}

abbrev pub settled_state : ℕ → State → Option Table → Option State
settled_state position s none = none
settled_state position s (some t) = some (with_settled position s t)

-- `<-semaphore`, and then Notify
abbrev pub free : ℕ → State → State
free zero s = s
free (suc n) s = record s { settled = n; woken = true }

abbrev pub then_run : (State → Option State) → Option State → Option State
then_run next none = none
then_run next (some s) = next s

module _ (config : Config) where
  -- cap(semaphore)
  abbrev pub capacity : ℕ
  capacity = pos_part config.concurrency

  abbrev pub duration : ℕ
  duration = pos_part config.lease_duration

  abbrev pub keep_lease_alive : ℕ → ℕ → Option Handling → State → State
  keep_lease_alive position now none s = s
  keep_lease_alive position now (some handling) s =
      if handling.kept
      then renewed position handling s
          (renew_lease handling.job.id config.owner (now + duration) s.table)
      else s

  abbrev pub retry_after : ℕ → Job → DispatchError → Option ℤ → Table → Option Table
  retry_after now job cause none t = none
  retry_after now job cause (some wait) t =
      some (retry job.id config.owner (some (message cause)) (add_time now wait) t).1

  -- The table once a handler has come back; `none` is a panic.
  abbrev pub settle : ℕ → Job → Result DispatchError (Unit {0}) → Table → Option Table
  settle now job (ok u) t = some (complete job.id config.owner now t).1
  settle now job (err cause) t =
      retry_after now job cause (backoff config.retry_base_interval job.attempts) t

module _ (order_by : (Job → Job → Bool) → List Job → List Job) (config : Config) where
  unfoldable pub drain : ℕ → State → State
  drain now s =
      if leb (capacity config) (held s)
      then s
      else handle_all s (
          lease order_by now config.owner config.categories (capacity config - held s)
            (duration config) s.table)

  abbrev pub wake : ℕ → State → State
  unfolding drain
  wake now s = if s.woken then drain now (record s { woken = false }) else s

module _ {H : Type 0} (config : Config) (handlers : StringMap H) where
  unfoldable pub handle :
      (position now : ℕ) (call : H → Job → Handled) → Option Handling → State → Option State
  handle position now call none s = some s
  handle position now call (some handling) s =
      settled_state position s
        (settle config now handling.job (dispatch call handlers handling.job) s.table)

module _ {H : Type 0} (order_by : (Job → Job → Bool) → List Job → List Job) (config : Config)
    (handlers : StringMap H) where
  unfoldable pub react : State → Event H → Option State
  unfolding drain handle
  react s (starts now) = some (drain order_by config now s)
  react s (ticks released_at leased_at) = some (
      drain order_by config leased_at
        (record s { table = (release_expired released_at s.table).1 }))
  react s (wakes now) = some (wake order_by config now s)
  react s notifies = some (record s { woken = true })
  react s (renews position now) =
      some (keep_lease_alive config position now (nth position s.running) s)
  react s (returns position now call) =
      handle config handlers position now call (nth position s.running) s
  react s frees = some (free s.settled s)
  react s (elsewhere o) = some (record s { table = step order_by s.table o })

  unfoldable pub run_loop : List (Event H) → State → Option State
  run_loop [] s = some s
  run_loop (e ∷ es) s = then_run (run_loop es) (react s e)
