-- ===== src/Controller/Redelivery.antt =====
-- An activity whose job is delivered again: internal/controlplane/eventloop/activity_execution_handler.go in front of
-- internal/application/execution/controller.go.
use akoflow_workflow_engine.Prelude.{
  String, ◌||◌, some, Result, ok, err, is_empty, ◌≡◌, refl, sym, ap, Bool-cases, inl, inr,
  ok_ne_err, subst,
}
use akoflow_workflow_engine.Domain.Queue.{Job}
use akoflow_workflow_engine.Domain.Execution.{ActivityExecutionContext, ActivityHandle}
use akoflow_workflow_engine.EventLoop.Dispatcher.{Handled}
use akoflow_workflow_engine.EventLoop.Handlers.{Decoder, handle_activity, start_decoded}
use akoflow_workflow_engine.Controller.{Ports, IsHandleStore, ControllerError, start}
use akoflow_workflow_engine.Controller.Start.{start_again}

module _ {W : Type 0} (ports : Ports W) (text : ControllerError → String) where
  -- `Start` as the handler sees it: the error, by its text, or nothing.
  abbrev pub seen : Result ControllerError ActivityHandle × W → Handled × W
  seen (ok h, w) = (ok tt, w)
  seen (err e, w) = (err (text e), w)

  unfoldable pub starter : ActivityExecutionContext → W → Handled × W
  starter c w = seen (start ports c w)

  starter_again :
      IsHandleStore W ports.store
      → (c : ActivityExecutionContext) (w w' : W) (r : Result ControllerError ActivityHandle × W)
      → start ports c w ≡ r
      → seen r ≡ (ok tt, w')
      → starter c w' ≡ (ok tt, w')
  unfolding starter
  starter_again laws c w w' (err e, w1) same h = absurd (ok_ne_err (sym (ap (λ x. x.0) h)))
  starter_again laws c w w' (ok handle, w1) same h =
      let at : w1 ≡ w' = ap (λ x. x.1) h in
      subst (λ x. seen (start ports c x) ≡ (ok tt, x)) at
        (ap seen (start_again ports c laws handle w w1 same))

  decoded_again :
      IsHandleStore W ports.store
      → (w w' : W) (r : Result String ActivityExecutionContext)
      → start_decoded starter w r ≡ (ok tt, w')
      → start_decoded starter w' r ≡ (ok tt, w')
  unfolding starter
  decoded_again laws w w' (err cause) h = absurd (ok_ne_err (sym (ap (λ x. x.0) h)))
  decoded_again laws w w' (ok c) h =
      elim (Bool-cases (is_empty c.activity.id || is_empty c.run.id)) [
        | inl e ↦ absurd (ok_ne_err (sym (ap (λ x. x.0) (rw e at h))))
        | inr e ↦ rw e (starter_again laws c w w' (start ports c w) refl (rw e at h))
      ]

  -- With a store that finds the handle that it has stored: when the handler of activity jobs has come back without an error, a second
  -- delivery of the job is answered without an error too, and does nothing: no runtime is asked again.
  pub handle_activity_again :
      IsHandleStore W ports.store
      → (decode : Decoder ActivityExecutionContext) (job : Job) (w w' : W)
      → handle_activity decode (some starter) job w ≡ (ok tt, w')
      → handle_activity decode (some starter) job w' ≡ (ok tt, w')
  unfolding handle_activity
  handle_activity_again laws decode job w w' h = decoded_again laws w w' (decode job.payload) h
