-- ===== src/Tests/Handles.antt =====
-- Runs of the activity controller.
use akoflow_workflow_engine.Prelude.{
  ◌≡◌, refl, Option, true, false, String, [], ◌∷◌, none, some, ok, err, ◌==◌, if◌then◌else◌, ap,
  sym, ◌∙◌, eq_refl, is_empty,
}
use akoflow_workflow_engine.Prelude.Maps.{StringMap, lookup, insert, lookup-insert}
use akoflow_workflow_engine.Domain.Workflow.{validate_activity, supports, real}
use akoflow_workflow_engine.Domain.Planning.{real_mode}
use akoflow_workflow_engine.Domain.Execution.{
  ActivityHandle, ActivityExecutionContext, handle_running, handle_completed,
}
use akoflow_workflow_engine.EventLoop.Handlers.{Decoder, handle_activity}
use akoflow_workflow_engine.Controller.{
  Ports, Runtime, HandleStore, IsHandleStore, ControllerError, start, inspect, stop, check_start,
  capability_for, started_handle, with_executable,
}
use akoflow_workflow_engine.Controller.Logs.{TextOps, append_log, failure_message}
use akoflow_workflow_engine.Controller.Start.{start_again}
use akoflow_workflow_engine.Controller.Inspect.{
  Answers, IsReport, KeepsReports, HasStopped, inspect-Answers, stop-HasStopped,
}
use akoflow_workflow_engine.Controller.Redelivery.{starter, handle_activity_again}
use akoflow_workflow_engine.Tests.Jobs.{low}
use akoflow_workflow_engine.Tests.Plans.{chain, machine, activity, assign}
use akoflow_workflow_engine.Tests.Runs.{handle_of, request}

-- Everything is found in everything.
abbrev texts : TextOps
texts = record {
  upper = λ s. s;
  contains = λ s t. true;
  has_prefix = λ s t. false;
  trim_newlines = λ s. s;
  split_lines = λ s. s ∷ [];
  join_lines = λ lines. "";
}

abbrev Store : Type 0
Store = StringMap ActivityHandle

abbrev store : HandleStore Store
store = record { find = λ id w. ok (lookup id w); save = λ h w. (ok tt, insert h.id h w) }

store-IsHandleStore : IsHandleStore Store store
store-IsHandleStore = record {
  find-save = λ h w w' e.
      let same : insert h.id h w ≡ w' = ap (λ r. r.1) e in
      ap (λ x. ok (lookup h.id x)) (sym same)
      ∙ ap ok (
          lookup-insert h.id h.id h w
          ∙ ap (λ b. if b then some h else lookup h.id w) (eq_refl h.id));
}

-- A runtime that starts what it is told to start, or, if it is called "other", something else.
abbrev runtime : String → Runtime Store
runtime name = record {
  start = λ c w. (
    ok (record (handle_of (if name == "other" then "b" else c.activity.id) handle_running) {
      runtime_id = name;
    }),
    w,
  );
  inspect = λ h w. (ok (record h { status = handle_completed }), w);
  stop = λ h w. (ok tt, w);
}

abbrev ports : Ports Store
ports = record {
  store = store;
  resolve = λ mode name. if is_empty name then err "no runtime" else ok (runtime name);
  data_catalog = none;
  now = λ w. (7, w);
  texts = texts;
}

abbrev context : String → ActivityExecutionContext
context name = record {
  run = request.run;
  workflow = chain;
  activity = record (activity "a") { capabilities = real ∷ [] };
  assignment = assign "a" 0;
  resource = machine;
  runtime_id = name;
  preparation = none;
}

abbrev started : ActivityHandle
started = record (handle_of "a" handle_running) { id = "r:a"; runtime_id = "local" }

abbrev one_started : Store
one_started = ("r:a", started) ∷ []

abbrev no_handles : Store
no_handles = []

start_again_example : start ports (context "local") one_started ≡ (ok started, one_started)
unfolding start check_start capability_for validate_activity supports lookup insert started_handle
    with_executable append_log failure_message
start_again_example =
    start_again ports (context "local") store-IsHandleStore started [] one_started refl

-- An upsert that writes the report of a handle, and keeps the rest of the one that is there.
abbrev upserted : ActivityHandle → Option ActivityHandle → ActivityHandle
upserted h none = h
upserted h (some old) = record h {
  run_id = old.run_id;
  activity_id = old.activity_id;
  resource_id = old.resource_id;
  runtime_id = old.runtime_id;
}

abbrev table : HandleStore Store
table = record {
  find = λ id w. ok (lookup id w);
  save = λ h w. (ok tt, insert h.id (upserted h (lookup h.id w)) w);
}

upserted-IsReport : (h : ActivityHandle) (o : Option ActivityHandle) → IsReport h (upserted h o)
upserted-IsReport h none = record {
  same_id = refl;
  same_external = refl;
  same_status = refl;
  same_start = refl;
  same_finish = refl;
  same_exit = refl;
  same_failure = refl;
  same_log = refl;
}
upserted-IsReport h (some old) = record {
  same_id = refl;
  same_external = refl;
  same_status = refl;
  same_start = refl;
  same_finish = refl;
  same_exit = refl;
  same_failure = refl;
  same_log = refl;
}

table-KeepsReports : KeepsReports Store table
table-KeepsReports = record {
  find-save = λ h w w' e.
      let stored = upserted h (lookup h.id w) in
      let same : insert h.id stored w ≡ w' = ap (λ r. r.1) e in
      (
        stored,
        ap (λ x. ok (lookup h.id x)) (sym same)
            ∙ ap ok (
                lookup-insert h.id h.id stored w
                ∙ ap (λ b. if b then some stored else lookup h.id w) (eq_refl h.id)),
        upserted-IsReport h (lookup h.id w),
      );
}

abbrev table_ports : Ports Store
table_ports = record ports { store = table }

inspect-Answers_example :
    Answers table_ports table-KeepsReports "r:a" real_mode one_started
      (inspect table_ports "r:a" real_mode one_started)
inspect-Answers_example = inspect-Answers table_ports table-KeepsReports "r:a" real_mode one_started

stop-HasStopped_example :
    HasStopped ports store-IsHandleStore "r:a" real_mode one_started
      (stop ports "r:a" real_mode one_started)
stop-HasStopped_example = stop-HasStopped ports store-IsHandleStore "r:a" real_mode one_started

-- The payload is not looked at.
abbrev decode : Decoder ActivityExecutionContext
decode payload = ok (context "local")

abbrev error_text : ControllerError → String
error_text e = "error"

handle_activity_again_example :
    handle_activity decode (some (starter ports error_text)) low one_started ≡ (ok tt, one_started)
unfolding handle_activity starter start check_start capability_for validate_activity supports lookup
    insert started_handle with_executable append_log failure_message
handle_activity_again_example =
    handle_activity_again ports error_text store-IsHandleStore decode low [] one_started refl
