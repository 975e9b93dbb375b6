-- ===== src/EventLoop/Dispatcher.antt =====
-- internal/controlplane/eventloop/dispatcher.go: the handlers by event type. The lock only orders the calls.
use akoflow_workflow_engine.Prelude.{
  String, not, ◌&&◌, Option, none, some, List, [], ◌∷◌, Result, ok, err, ◌==◌, is_empty,
  if◌then◌else◌, is_some,
}
use akoflow_workflow_engine.Prelude.Maps.{StringMap, lookup, insert}
use akoflow_workflow_engine.Domain.Queue.{Job}

pub data DispatchError : Type 0 where
  type_and_handler_required : DispatchError
  already_registered : String → DispatchError
  no_handler : String → DispatchError
  handler_failed : String → DispatchError

-- What a call of a handler comes back with: its error has a message.
abbrev pub Handled : Type 0
Handled = Result String (Unit {0})

abbrev pub lift_failure : Handled → Result DispatchError (Unit {0})
lift_failure (ok u) = ok u
lift_failure (err message) = err (handler_failed message)

module _ {H : Type 0} where
  -- A nil handler is `none`.
  unfoldable pub register :
      String → Option H → StringMap H → Result DispatchError (Unit {0}) × StringMap H
  register event_type none handlers = (err type_and_handler_required, handlers)
  register event_type (some handler) handlers =
      if is_empty event_type
      then (err type_and_handler_required, handlers)
      else if is_some (lookup event_type handlers)
      then (err (already_registered event_type), handlers)
      else (ok tt, insert event_type handler handlers)

  -- The handler that a job of that type meets; `call` is what the handler does.
  abbrev pub dispatch_to : (H → Job → Handled) → Job → Option H → Result DispatchError (Unit {0})
  dispatch_to call job none = err (no_handler job.event_type)
  dispatch_to call job (some handler) = lift_failure (call handler job)

  unfoldable pub dispatch :
      (H → Job → Handled) → StringMap H → Job → Result DispatchError (Unit {0})
  dispatch call handlers job = dispatch_to call job (lookup job.event_type handlers)

  -- A sequence of calls of `Register`, whose errors are passed over.
  unfoldable pub register_all : List (String × Option H) → StringMap H → StringMap H
  unfolding register
  register_all [] handlers = handlers
  register_all ((event_type, handler) ∷ calls) handlers =
      register_all calls (register event_type handler handlers).1

  -- The first handler that a sequence of calls offers for a type.
  abbrev pub first_offered : String → List (String × Option H) → Option H
  first_offered event_type [] = none
  first_offered event_type ((offered, none) ∷ calls) = first_offered event_type calls
  first_offered event_type ((offered, some handler) ∷ calls) =
      if not (is_empty offered) && offered == event_type
      then some handler
      else first_offered event_type calls

  abbrev pub or_else : Option H → Option H → Option H
  or_else none later = later
  or_else (some handler) later = some handler
