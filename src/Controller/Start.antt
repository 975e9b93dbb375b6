-- ===== src/Controller/Start.antt =====
-- `Start` of internal/application/execution/controller.go: what a success and a failure mean.
use akoflow_workflow_engine.Prelude.{
  String, true, false, Option, none, some, Result, ok, err, is_empty, ◌≡◌, refl, sym, ap, ◌∙◌, inl,
  inr, ◌⊎◌, Bool-cases, >>=-eq-ok, ◌>>◌, ◌>>=◌, ok_ne_err, ok_inj, some_inj, subst, arith,
}
use akoflow_workflow_engine.Domain.Execution.{ActivityExecutionContext, ActivityHandle}
use akoflow_workflow_engine.Domain.Materialization.{PreparationGate, MaterializationError, ready}
use akoflow_workflow_engine.Domain.Workflow.{
  ActivityCapability, ActivityError, supports, validate_activity,
}
use akoflow_workflow_engine.Supervisor.Timing.{join}
use akoflow_workflow_engine.Controller.{
  Ports, Runtime, IsHandleStore, ControllerError, port_failed, invalid_handle, persist_failed,
  find_failed, no_selected_runtime, check_start, check_preparation, lift_activity, lift_ready,
  with_executable, started_handle, is_of, start, capability_for, supported_in, after_check,
  after_find, on_runtime, after_runtime, stored_or_stopped,
}

lift_activity-ok : (r : Result ActivityError (Unit {0})) → lift_activity r ≡ ok tt → r ≡ ok tt
lift_activity-ok (ok u) e = refl
lift_activity-ok (err x) e = absurd (ok_ne_err (sym e))

lift_ready-ok : (r : Result MaterializationError (Unit {0})) → lift_ready r ≡ ok tt → r ≡ ok tt
lift_ready-ok (ok u) e = refl
lift_ready-ok (err x) e = absurd (ok_ne_err (sym e))

check_preparation-ok :
    (o : Option PreparationGate) (gate : PreparationGate)
    → o ≡ some gate
    → check_preparation o ≡ ok tt
    → ready gate ≡ ok tt
check_preparation-ok none gate same e = absurd (ground arith)
check_preparation-ok (some g) gate same e =
    subst (λ x. ready x ≡ ok tt) (some_inj same) (lift_ready-ok (ready g) e)

module _ {W : Type 0} (ports : Ports W) (c : ActivityExecutionContext) (w : W) where
  abbrev id : String
  id = join c.run.id c.activity.id

  -- A runtime that was asked to start the activity, once, and the handle that it came back with.
  pub record HasRun (runtime : Runtime W) (raw : ActivityHandle) (w1 : W) : Type 0 where
    pub absent : ports.store.find id w ≡ ok none
    pub selected : is_empty c.runtime_id ≡ false
    pub resolved : ports.resolve c.run.mode c.runtime_id ≡ ok runtime
    pub ran : runtime.start (with_executable c) w ≡ (ok raw, w1)

  -- What `Start` asks of an activity.
  pub record IsStartable : Type 0 where
    pub valid : validate_activity c.activity ≡ ok tt
    pub prepared : (gate : PreparationGate) → c.preparation ≡ some gate → ready gate ≡ ok tt
    pub supported :
        (capability : ActivityCapability) × (capability_for c.run.mode ≡ ok capability)
        × (supports c.activity capability ≡ true)

  -- The runtime started the activity, and the handle was stored.
  pub record HasStarted (h : ActivityHandle) (w' : W) : Type 0 where
    pub runtime : Runtime W
    pub raw : ActivityHandle
    pub between : W
    pub has_run : HasRun runtime raw between
    pub of_activity : is_of c raw ≡ true
    pub returned : started_handle ports id raw ≡ h
    pub stored : ports.store.save (started_handle ports id raw) between ≡ (ok tt, w')

  -- The runtime did not start the activity, or something else, or its handle could not be stored: then it is stopped.
  pub data HasFailed (runtime : Runtime W) (x : ControllerError) (w' : W) : Type 0 where
    not_run :
        (cause : String)
        → ports.store.find id w ≡ ok none
        → is_empty c.runtime_id ≡ false
        → ports.resolve c.run.mode c.runtime_id ≡ ok runtime
        → runtime.start (with_executable c) w ≡ (err cause, w')
        → x ≡ port_failed cause
        → HasFailed runtime x w'
    foreign :
        (raw : ActivityHandle)
        → HasRun runtime raw w'
        → is_of c raw ≡ false
        → x ≡ invalid_handle
        → HasFailed runtime x w'
    unsaved :
        (raw : ActivityHandle) (w1 w2 : W) (cause : String)
        → HasRun runtime raw w1
        → is_of c raw ≡ true
        → ports.store.save (started_handle ports id raw) w1 ≡ (err cause, w2)
        → w' ≡ (runtime.stop (started_handle ports id raw) w2).1
        → x ≡ persist_failed cause
        → HasFailed runtime x w'

  -- No runtime was asked: the activity may not be started, the store did not answer, or there is no runtime for an activity
  -- that the store does not know.
  pub data IsRefused (x : ControllerError) : Type 0 where
    unfit : check_start c ≡ err x → IsRefused x
    unread :
        (cause : String) → ports.store.find id w ≡ err cause → x ≡ find_failed cause → IsRefused x
    unselected :
        ports.store.find id w ≡ ok none
        → is_empty c.runtime_id ≡ true
        → x ≡ no_selected_runtime c.activity.id
        → IsRefused x
    unresolved :
        (cause : String)
        → ports.store.find id w ≡ ok none
        → is_empty c.runtime_id ≡ false
        → ports.resolve c.run.mode c.runtime_id ≡ err cause
        → x ≡ port_failed cause
        → IsRefused x

  -- What came of the call of a runtime.
  abbrev Ran : Runtime W → Result ControllerError ActivityHandle × W → Type 0
  Ran runtime (ok h, w') = HasStarted h w'
  Ran runtime (err e, w') = HasFailed runtime e w'

  stored-Ran :
      (runtime : Runtime W) (raw : ActivityHandle) (w1 : W) (r : Result String (Unit {0}) × W)
      → HasRun runtime raw w1
      → is_of c raw ≡ true
      → ports.store.save (started_handle ports id raw) w1 ≡ r
      → Ran runtime (stored_or_stopped ports runtime (started_handle ports id raw) r)
  stored-Ran runtime raw w1 (ok u, w2) h o e = record {
    runtime = runtime;
    raw = raw;
    between = w1;
    has_run = h;
    of_activity = o;
    returned = refl;
    stored = e;
  }
  stored-Ran runtime raw w1 (err cause, w2) h o e = unsaved raw w1 w2 cause h o e refl refl

  after_runtime-Ran :
      (runtime : Runtime W) (r : Result String ActivityHandle × W)
      → ports.store.find id w ≡ ok none
      → is_empty c.runtime_id ≡ false
      → ports.resolve c.run.mode c.runtime_id ≡ ok runtime
      → runtime.start (with_executable c) w ≡ r
      → Ran runtime (after_runtime ports c runtime r)
  after_runtime-Ran runtime (err cause, w1) a s r e = not_run cause a s r e refl
  after_runtime-Ran runtime (ok raw, w1) a s r e =
      let h : HasRun runtime raw w1 = record { absent = a; selected = s; resolved = r; ran = e } in
      elim (Bool-cases (is_of c raw)) [
        | inl o ↦ rw o (stored-Ran runtime raw w1 _ h o refl)
        | inr o ↦ rw o (foreign raw h o refl)
      ]

  -- What came of a call of `Start` of an activity that may be started.
  pub data StartEnds : Result ControllerError ActivityHandle × W → Type 0 where
    refused : (e : ControllerError) → IsRefused e → StartEnds (err e, w)
    existed : (h : ActivityHandle) → ports.store.find id w ≡ ok (some h) → StartEnds (ok h, w)
    ran :
        (runtime : Runtime W) (r : Result ControllerError ActivityHandle × W)
        → check_start c ≡ ok tt
        → Ran runtime r
        → StartEnds r

  on_runtime-StartEnds :
      (r : Result String (Runtime W))
      → ports.store.find id w ≡ ok none
      → is_empty c.runtime_id ≡ false
      → ports.resolve c.run.mode c.runtime_id ≡ r
      → check_start c ≡ ok tt
      → StartEnds (on_runtime ports c w r)
  on_runtime-StartEnds (err cause) a s e k = refused _ (unresolved cause a s e refl)
  on_runtime-StartEnds (ok runtime) a s e k =
      ran runtime _ k (after_runtime-Ran runtime _ a s e refl)

  after_find-StartEnds :
      (r : Result String (Option ActivityHandle))
      → ports.store.find id w ≡ r
      → check_start c ≡ ok tt
      → StartEnds (after_find ports c w r)
  after_find-StartEnds (err cause) e k = refused _ (unread cause e refl)
  after_find-StartEnds (ok (some h)) e k = existed h e
  after_find-StartEnds (ok none) e k = elim (Bool-cases (is_empty c.runtime_id)) [
    | inl s ↦ rw s (refused _ (unselected e s refl))
    | inr s ↦ rw s (on_runtime-StartEnds _ e s refl k)
  ]

  check_start-IsStartable : check_start c ≡ ok tt → IsStartable
  unfolding check_start
  check_start-IsStartable e =
      let mode = capability_for c.run.mode in
      let gated = check_preparation c.preparation in
      let (_, valid, rest) =
        >>=-eq-ok (lift_activity (validate_activity c.activity))
          (λ _. gated >> (mode >>= supported_in c)) e in
      let (_, prepared, last) = >>=-eq-ok gated (λ _. mode >>= supported_in c) rest in
      let (capability, known, supported) = >>=-eq-ok mode (supported_in c) last in
      record {
        valid = lift_activity-ok (validate_activity c.activity) valid;
        prepared = λ gate same. check_preparation-ok c.preparation gate same prepared;
        supported = (capability, known, ground arith);
      }

  checked_StartEnds :
      (r : Result ControllerError (Unit {0}))
      → check_start c ≡ r
      → StartEnds (after_check ports c w r)
  checked_StartEnds (err e) same = refused e (unfit same)
  checked_StartEnds (ok u) same = after_find-StartEnds (ports.store.find id w) refl same

  start-StartEnds : StartEnds (start ports c w)
  unfolding start
  start-StartEnds = checked_StartEnds (check_start c) refl

  check_of_success :
      (r : Result ControllerError (Unit {0})) (h : ActivityHandle) (w' : W)
      → after_check ports c w r ≡ (ok h, w')
      → r ≡ ok tt
  check_of_success (ok u) h w' e = refl
  check_of_success (err x) h w' e = absurd (ok_ne_err (sym (ap (λ r. r.0) e)))

  success_ends :
      (r : Result ControllerError ActivityHandle × W) (h : ActivityHandle) (w' : W)
      → StartEnds r
      → r ≡ (ok h, w')
      → ((ports.store.find id w ≡ ok (some h)) × (w' ≡ w)) ⊎ HasStarted h w'
  success_ends r h w' (refused x why) e = absurd (ok_ne_err (sym (ap (λ r. r.0) e)))
  success_ends r h w' (existed h' found) e =
      inl (found ∙ ap (λ x. ok (some x)) (ok_inj (ap (λ r. r.0) e)), sym (ap (λ r. r.1) e))
  success_ends r h w' (ran runtime r' k d) e = inr (subst (Ran runtime) e d)

  pub start_succeeds :
      (h : ActivityHandle) (w' : W)
      → start ports c w ≡ (ok h, w')
      → IsStartable × (((ports.store.find id w ≡ ok (some h)) × (w' ≡ w)) ⊎ HasStarted h w')
  unfolding start
  start_succeeds h w' e = (
    check_start-IsStartable (check_of_success (check_start c) h w' e),
    success_ends (start ports c w) h w' start-StartEnds e,
  )

module _ {W : Type 0} (ports : Ports W) (c : ActivityExecutionContext) where
  found_after :
      IsHandleStore W ports.store
      → (h : ActivityHandle) (w w' : W)
      → ((ports.store.find (id ports c w) w ≡ ok (some h)) × (w' ≡ w)) ⊎ HasStarted ports c w h w'
      → ports.store.find (join c.run.id c.activity.id) w' ≡ ok (some h)
  unfolding started_handle
  found_after laws h w w' (inl (found, same)) =
      ap (ports.store.find (join c.run.id c.activity.id)) same ∙ found
  found_after laws h w w' (inr s) =
      laws.find-save _ s.between w' s.stored ∙ ap (λ x. ok (some x)) s.returned

  -- With a store that finds the handle that it has stored: once `Start` has answered a handle, starting the same activity of
  -- the same run again answers the same handle and does nothing.
  pub start_again :
      IsHandleStore W ports.store
      → (h : ActivityHandle) (w w' : W) → start ports c w ≡ (ok h, w')
      → start ports c w' ≡ (ok h, w')
  unfolding start
  start_again laws h w w' e =
      let checked = check_of_success ports c w (check_start c) h w' e in
      let found = found_after laws h w w' (start_succeeds ports c w h w' e).1 in
      ap (after_check ports c w') checked ∙ ap (after_find ports c w') found
