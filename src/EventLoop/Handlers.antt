-- ===== src/EventLoop/Handlers.antt =====
-- The handlers of internal/controlplane/eventloop: activity_execution_handler.go, execution_run_handler.go and
-- domain_event_handler.go; and the envelope of internal/domain/events/event.go. What encoding/json decodes is a parameter.
use Prim.Native.String.{◌++◌ as text_append}
use akoflow_workflow_engine.Prelude.{
  ℕ, String, not, ◌||◌, ◌==◌, Option, none, some, List, Result, ok, err, is_empty, if◌then◌else◌,
}
use akoflow_workflow_engine.Domain.Values.{Metadata}
use akoflow_workflow_engine.Domain.Queue.{Job}
use akoflow_workflow_engine.Domain.Execution.{ActivityExecutionContext, ExecutionRequest}
use akoflow_workflow_engine.EventLoop.Dispatcher.{Handled}

pub record DomainEvent : Type 0 where
  pub id : String
  pub event_type : String
  pub aggregate_type : String
  pub aggregate_id : String
  pub payload : Metadata
  pub occurred_at : ℕ
  pub metadata : Metadata

-- json.Unmarshal into a value of that type
abbrev pub Decoder : Type 0 → Type 0
Decoder A = List ℕ → Result String A

abbrev pub checked_event : Job → Result String DomainEvent → Handled
checked_event job (err cause) = err (text_append "decode domain event: " cause)
checked_event job (ok e) =
    if is_empty e.id || not (e.event_type == job.event_type) || is_empty e.aggregate_id
    then err "invalid domain event envelope"
    else ok tt

unfoldable pub handle_domain_event : Decoder DomainEvent → Job → Handled
handle_domain_event decode job = checked_event job (decode job.payload)

module _ {W : Type 0} where
  -- A service that is not configured is `none`; what it answers besides its error is not looked at.
  abbrev pub start_decoded :
      (ActivityExecutionContext → W → Handled × W)
      → W
      → Result String ActivityExecutionContext
      → Handled × W
  start_decoded start w (err cause) = (err (text_append "decode activity execution: " cause), w)
  start_decoded start w (ok c) =
      let started = start c w in
      if is_empty c.activity.id || is_empty c.run.id
      then (err "activity and execution run are required", w)
      else started

  unfoldable pub handle_activity :
      Decoder ActivityExecutionContext
      → Option (ActivityExecutionContext → W → Handled × W)
      → Job
      → W
      → Handled × W
  handle_activity decode none job w = (err "activity execution service is not configured", w)
  handle_activity decode (some start) job w = start_decoded start w (decode job.payload)

  abbrev pub execute_decoded :
      (ExecutionRequest → W → Handled × W) → W → Result String ExecutionRequest → Handled × W
  execute_decoded execute w (err cause) = (err (text_append "decode execution request: " cause), w)
  execute_decoded execute w (ok request) =
      let executed = execute request w in
      if is_empty request.run.id then (err "execution run id is required", w) else executed

  unfoldable pub handle_execution_run :
      Decoder ExecutionRequest → Option (ExecutionRequest → W → Handled × W) → Job → W → Handled × W
  handle_execution_run decode none job w = (err "execution supervisor is not configured", w)
  handle_execution_run decode (some execute) job w = execute_decoded execute w (decode job.payload)
