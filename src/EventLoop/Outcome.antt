-- ===== src/EventLoop/Outcome.antt =====
-- `handle` of internal/controlplane/eventloop/eventloop.go: what becomes of a job when its handler comes back.
use akoflow_workflow_engine.Prelude.{ℕ, some, Result, ok, err}
use akoflow_workflow_engine.Prelude.Int.{ℤ, add_time}
use akoflow_workflow_engine.Domain.Queue.{Job}
use akoflow_workflow_engine.Queue.{retried}
use akoflow_workflow_engine.Queue.Guards.{completed_at}
use akoflow_workflow_engine.EventLoop.{message}
use akoflow_workflow_engine.EventLoop.Dispatcher.{DispatchError}

-- The row of a job after the call of its handler; `wait` is the backoff.
abbrev pub row_after : ℕ → ℤ → Result DispatchError (Unit {0}) → Job → Job
row_after now wait (ok u) j = completed_at now j
row_after now wait (err cause) j = retried (some (message cause)) (add_time now wait) j
