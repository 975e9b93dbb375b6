-- ===== src/Controller/Inspect.antt =====
-- `Inspect` and `Stop` of internal/application/execution/controller.go: what is answered and what is stored.
use Prim.Native.String.{◌++◌ as text_append}
use akoflow_workflow_engine.Prelude.{
  String, Option, none, some, Result, ok, err, ◌≡◌, refl, inl, inr, ◌⊎◌, Bool-cases, Option-cases,
  ◌&&◌, is_some,
}
use akoflow_workflow_engine.Domain.Planning.{ExecutionMode}
use akoflow_workflow_engine.Domain.Execution.{ActivityHandle, handle_failed, handle_stopped}
use akoflow_workflow_engine.Controller.{
  Ports, Runtime, HandleStore, IsHandleStore, ControllerError, inspect, stop, cataloged, noted,
  has_ended, observed_handle, inspection_failed, persist_inspection_failure, saved_failure,
  saved_observation, after_inspect, inspect_on, inspect_found, stop_found, stop_on, after_stop,
  lift_port,
}

-- What a handle reports of its activity, and what a store has of it: what the columns hold that a second `Save` of the same id
-- writes. The run, the activity, the resource and the runtime of a handle are those of its first `Save`.
pub record IsReport (h stored : ActivityHandle) : Type 0 where
  pub same_id : stored.id ≡ h.id
  pub same_external : stored.external_id ≡ h.external_id
  pub same_status : stored.status ≡ h.status
  pub same_start : stored.started_at ≡ h.started_at
  pub same_finish : stored.finished_at ≡ h.finished_at
  pub same_exit : stored.exit_code ≡ h.exit_code
  pub same_failure : stored.failure ≡ h.failure
  pub same_log : stored.log ≡ h.log

-- What the store promises of a handle that it says is saved.
pub record KeepsReports (W : Type 0) (store : HandleStore W) : Type 0 where
  pub find-save :
      (h : ActivityHandle) (w w' : W)
      → store.save h w ≡ (ok tt, w')
      → (stored : ActivityHandle) × (store.find h.id w' ≡ ok (some stored)) × IsReport h stored

module _ {W : Type 0} (ports : Ports W) where
  noted-kept :
      (h : ActivityHandle) (r : Result String (Unit {0}) × W)
      → ((noted ports h r).0.status ≡ h.status)
        × ((noted ports h r).0.failure ≡ h.failure)
        × ((noted ports h r).0.id ≡ h.id)
  noted-kept h (ok u, w) = (refl, refl, refl)
  noted-kept h (err cause, w) = (refl, refl, refl)

  cataloged-kept :
      (h : ActivityHandle) (w : W)
      → ((cataloged ports h w).0.status ≡ h.status)
        × ((cataloged ports h w).0.failure ≡ h.failure)
        × ((cataloged ports h w).0.id ≡ h.id)
  unfolding cataloged
  cataloged-kept h w = elim (Option-cases ports.data_catalog) [
    | inl e ↦ rw e (refl, refl, refl)
    | inr (catalog, e) ↦ rw e (elim (Bool-cases (is_some h.artifacts && has_ended ports h.status)) [
      | inl b ↦ rw b (noted-kept h (catalog h w))
      | inr b ↦ rw b (refl, refl, refl)
    ])
  ]

  module _ (keeps : KeepsReports W ports.store) (id : String) (mode : ExecutionMode) (w : W) where
    -- What the runtime of a handle has answered for it.
    abbrev pub IsSeen : ActivityHandle → ActivityHandle → Type 0
    IsSeen stood h =
        (runtime : Runtime W) × (updated : ActivityHandle) × (w1 : W) × (ports.resolve mode
            stood.runtime_id
          ≡ ok runtime)
        × (runtime.inspect stood w ≡ (ok updated, w1))
        × (h.status ≡ updated.status)
        × (h.failure ≡ updated.failure)
        × (h.id ≡ updated.id)

    -- The handle has no runtime, or its runtime could not inspect it.
    abbrev pub IsUnanswered : ActivityHandle → (cause : String) → Type 0
    IsUnanswered stood cause =
        (ports.resolve mode stood.runtime_id ≡ err cause)
        ⊎ ((runtime : Runtime W) × (w1 : W) × (ports.resolve mode stood.runtime_id ≡ ok runtime)
            × (runtime.inspect stood w ≡ (err cause, w1)))

    -- The old handle as failed, for want of an answer.
    pub record IsLost (stood h : ActivityHandle) : Type 0 where
      pub cause : String
      pub unanswered : IsUnanswered stood cause
      pub has_failed : h.status ≡ handle_failed
      pub failure : h.failure ≡ text_append "inspect activity: " cause
      pub same_id : h.id ≡ stood.id
      pub same_run : h.run_id ≡ stood.run_id
      pub same_activity : h.activity_id ≡ stood.activity_id
      pub same_runtime : h.runtime_id ≡ stood.runtime_id

    -- The handle that stood in the store, and the one that is answered for it.
    abbrev pub IsAnswer : ActivityHandle → ActivityHandle → Type 0
    IsAnswer stood h = IsSeen stood h ⊎ IsLost stood h

    -- The store did not answer, or did not take what was to be answered.
    abbrev pub IsUntold : W → Type 0
    IsUntold w' =
        ((cause : String) × (ports.store.find id w ≡ err cause) × (w' ≡ w))
        ⊎ ((stood : ActivityHandle) × (h : ActivityHandle) × (w1 : W) × (cause : String)
            × (ports.store.find id w ≡ ok (some stood))
            × IsAnswer stood h
            × (ports.store.save h w1 ≡ (err cause, w')))

    abbrev pub Answers : Result ControllerError (Option ActivityHandle) × W → Type 0
    Answers (err e, w') = IsUntold w'
    Answers (ok none, w') = (ports.store.find id w ≡ ok none) × (w' ≡ w)
    Answers (ok (some h), w') =
        (stood : ActivityHandle) × (stored : ActivityHandle) × (ports.store.find id w
          ≡ ok (some stood))
        × (ports.store.find h.id w' ≡ ok (some stored))
        × IsReport h stored
        × IsAnswer stood h

    saved_failure-Answers :
        (stood h : ActivityHandle) (cause : String) (w1 : W) (r : Result String (Unit {0}) × W)
        → ports.store.find id w ≡ ok (some stood)
        → IsAnswer stood h
        → ports.store.save h w1 ≡ r
        → Answers (saved_failure ports h cause r)
    saved_failure-Answers stood h cause w1 (ok u, w2) found a e =
        let (stored, there, same) = keeps.find-save h w1 w2 e in
        (stood, stored, found, there, same, a)
    saved_failure-Answers stood h cause w1 (err x, w2) found a e =
        inr (stood, h, w1, x, found, a, e)

    saved_observation-Answers :
        (stood h : ActivityHandle) (w1 : W) (r : Result String (Unit {0}) × W)
        → ports.store.find id w ≡ ok (some stood)
        → IsAnswer stood h
        → ports.store.save h w1 ≡ r
        → Answers (saved_observation ports h r)
    saved_observation-Answers stood h w1 (ok u, w2) found a e =
        let (stored, there, same) = keeps.find-save h w1 w2 e in
        (stood, stored, found, there, same, a)
    saved_observation-Answers stood h w1 (err x, w2) found a e = inr (stood, h, w1, x, found, a, e)

    persist-Answers :
        (stood : ActivityHandle) (cause : String) (w1 : W)
        → ports.store.find id w ≡ ok (some stood)
        → IsUnanswered stood cause
        → Answers (persist_inspection_failure ports stood cause w1)
    unfolding persist_inspection_failure inspection_failed
    persist-Answers stood cause w1 found lost =
        saved_failure-Answers stood _ cause _ _ found
          (inr (record {
            cause = cause;
            unanswered = lost;
            has_failed = refl;
            failure = refl;
            same_id = refl;
            same_run = refl;
            same_activity = refl;
            same_runtime = refl;
          }))
          refl

    after_inspect-Answers :
        (stood : ActivityHandle) (runtime : Runtime W) (r : Result String ActivityHandle × W)
        → ports.store.find id w ≡ ok (some stood)
        → ports.resolve mode stood.runtime_id ≡ ok runtime
        → runtime.inspect stood w ≡ r
        → Answers (after_inspect ports stood r)
    unfolding observed_handle
    after_inspect-Answers stood runtime (err cause, w1) found e same =
        persist-Answers stood cause w1 found (inr (runtime, w1, e, same))
    after_inspect-Answers stood runtime (ok updated, w1) found e same =
        let seen = observed_handle ports stood updated in
        let (status, failure, name) = cataloged-kept seen w1 in
        saved_observation-Answers stood (cataloged ports seen w1).0 (cataloged ports seen w1).1 _
          found (inl (runtime, updated, w1, e, same, status, failure, name)) refl

    inspect_on-Answers :
        (stood : ActivityHandle) (r : Result String (Runtime W))
        → ports.store.find id w ≡ ok (some stood)
        → ports.resolve mode stood.runtime_id ≡ r
        → Answers (inspect_on ports stood w r)
    inspect_on-Answers stood (err cause) found e = persist-Answers stood cause w found (inl e)
    inspect_on-Answers stood (ok runtime) found e =
        after_inspect-Answers stood runtime (runtime.inspect stood w) found e refl

    inspect_found-Answers :
        (r : Result String (Option ActivityHandle))
        → ports.store.find id w ≡ r
        → Answers (inspect_found ports mode w r)
    inspect_found-Answers (err cause) e = inl (cause, e, refl)
    inspect_found-Answers (ok none) e = (e, refl)
    inspect_found-Answers (ok (some h)) e = inspect_on-Answers h _ e refl

    -- With a store that keeps what a handle reports: `Inspect` answers nothing only for a handle that is not there, and then does
    -- nothing. A handle that it answers is stored under its id, as far as it reports, and is one of two: the one that the handle's runtime
    -- answered, with its status and failure; or the old one as failed, because it has no runtime or its runtime answered an error,
    -- which its failure tells. An error means that the store did not answer, and nothing was done, or did not take such a handle.
    pub inspect-Answers : Answers (inspect ports id mode w)
    unfolding inspect
    inspect-Answers = inspect_found-Answers (ports.store.find id w) refl

  module _ (laws : IsHandleStore W ports.store) (id : String) (mode : ExecutionMode) (w : W) where
    -- A handle that was there, whose runtime has stopped it, and that is stored as stopped.
    abbrev pub HasStopped : Result ControllerError (Unit {0}) × W → Type 0
    HasStopped (err e, w') = Unit
    HasStopped (ok u, w') =
        (stood : ActivityHandle) × (runtime : Runtime W) × (w1 : W) × (ports.store.find id w
          ≡ ok (some stood))
        × (ports.resolve mode stood.runtime_id ≡ ok runtime)
        × (runtime.stop stood w ≡ (ok tt, w1))
        × (ports.store.find stood.id w' ≡ ok (some (record stood { status = handle_stopped })))

    stored-HasStopped :
        (stood : ActivityHandle) (runtime : Runtime W) (w1 : W) (r : Result String (Unit {0}) × W)
        → ports.store.find id w ≡ ok (some stood)
        → ports.resolve mode stood.runtime_id ≡ ok runtime
        → runtime.stop stood w ≡ (ok tt, w1)
        → ports.store.save (record stood { status = handle_stopped }) w1 ≡ r
        → HasStopped (lift_port ports r)
    stored-HasStopped stood runtime w1 (ok u, w2) found e stopped same =
        (stood, runtime, w1, found, e, stopped, laws.find-save _ w1 w2 same)
    stored-HasStopped stood runtime w1 (err x, w2) found e stopped same = tt

    after_stop-HasStopped :
        (stood : ActivityHandle) (runtime : Runtime W) (r : Result String (Unit {0}) × W)
        → ports.store.find id w ≡ ok (some stood)
        → ports.resolve mode stood.runtime_id ≡ ok runtime
        → runtime.stop stood w ≡ r
        → HasStopped (after_stop ports stood r)
    after_stop-HasStopped stood runtime (err x, w1) found e stopped = tt
    after_stop-HasStopped stood runtime (ok u, w1) found e stopped =
        stored-HasStopped stood runtime w1 _ found e stopped refl

    stop_on-HasStopped :
        (stood : ActivityHandle) (r : Result String (Runtime W))
        → ports.store.find id w ≡ ok (some stood)
        → ports.resolve mode stood.runtime_id ≡ r
        → HasStopped (stop_on ports stood w r)
    stop_on-HasStopped stood (err x) found e = tt
    stop_on-HasStopped stood (ok runtime) found e =
        after_stop-HasStopped stood runtime (runtime.stop stood w) found e refl

    stop_found-HasStopped :
        (r : Result String (Option ActivityHandle))
        → ports.store.find id w ≡ r
        → HasStopped (stop_found ports id mode w r)
    stop_found-HasStopped (err x) e = tt
    stop_found-HasStopped (ok none) e = tt
    stop_found-HasStopped (ok (some h)) e = stop_on-HasStopped h _ e refl

    -- With a store that finds the handle that it has stored: when `Stop` is no error, the handle was in the store, its runtime has
    -- stopped it, and the store has it as stopped.
    pub stop-HasStopped : HasStopped (stop ports id mode w)
    unfolding stop
    stop-HasStopped = stop_found-HasStopped (ports.store.find id w) refl
