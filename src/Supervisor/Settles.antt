-- ===== src/Supervisor/Settles.antt =====
-- How a run ends by `Execute` of controlplane/execution/supervisor.go.
use akoflow_workflow_engine.Prelude.{
  String, true, Option, some, Result, ok, err, ◌≡◌, refl, inl, inr, ◌⊎◌, Bool-cases,
}
use akoflow_workflow_engine.Domain.Execution.{
  ExecutionRequest, ExecutionRunStatus, ExecutionTrace, run_completed, run_failed,
}
use akoflow_workflow_engine.Supervisor.Request.{RequestError, SupervisorError}
use akoflow_workflow_engine.Supervisor.{Answer, State, is_interactive}
use akoflow_workflow_engine.Supervisor.Service.{
  ExecuteError, Ended, returned, panicked, unfinished, request_invalid, create_failed, Runs, begun,
  closed, completed, after_trace, stopped_by, acted, simulated, traced, is_simulation, after_create,
  after_validate, execute,
}

module _ {W : Type 0} (runs : Runs W) (status : W → String → Option ExecutionRunStatus) where
  -- What the store promises of the status of a run: a completion or a failure that it accepts is the status that it has.
  pub record RecordsRuns : Type 0 where
    pub completes :
        (trace : ExecutionTrace) (w w' : W)
        → runs.complete_run trace w ≡ (ok tt, w')
        → status w' trace.run_id ≡ some run_completed
    pub fails :
        (run message : String) (w : W)
        → (runs.fail_run run message w).0 ≡ ok tt
        → status (runs.fail_run run message w).1 run ≡ some run_failed

  module _ (laws : RecordsRuns) (activities : ExecutionRequest → W → Answer W)
      (text : ExecuteError → String) (request : ExecutionRequest) where
    -- No run was created.
    abbrev pub IsUncreated : ExecuteError → Type 0
    IsUncreated e =
        ((cause : RequestError) × (e ≡ request_invalid cause))
        ⊎ ((cause : String) × (e ≡ create_failed cause))

    -- The run has failed, unless the store did not take that.
    abbrev pub HasFailed : ExecuteError → W → Type 0
    HasFailed e w' =
        (w : W) × (w' ≡ (runs.fail_run request.run.id (text e) w).1)
        × ((runs.fail_run request.run.id (text e) w).0 ≡ ok tt
            → status w' request.run.id ≡ some run_failed)

    -- The activities stopped in this way, and nothing was done after them.
    abbrev pub Stops : Ended → W → Type 0
    Stops ended w' =
        (u : W) × (s : State) × (e : SupervisorError) × (activities (begun request) u
          ≡ (err e, s, w'))
        × (stopped_by e ≡ ended)

    abbrev pub Settles : Ended × W → Type 0
    Settles (returned (ok trace), w') =
        (is_interactive request.run.mode ≡ true) ⊎ (status w' trace.run_id ≡ some run_completed)
    Settles (returned (err e), w') = IsUncreated e ⊎ HasFailed e w'
    Settles (panicked, w') = Stops panicked w'
    Settles (unfinished, w') = Stops unfinished w'

    -- Before the deferred call: an error is still to be told to the store.
    abbrev Opens : Ended × W → Type 0
    Opens (returned (ok trace), w') =
        (is_interactive request.run.mode ≡ true) ⊎ (status w' trace.run_id ≡ some run_completed)
    Opens (returned (err e), w') = Unit
    Opens (panicked, w') = Stops panicked w'
    Opens (unfinished, w') = Stops unfinished w'

    -- Before the completion.
    abbrev Traces : Ended × W → Type 0
    Traces (returned r, w') = Unit
    Traces (panicked, w') = Stops panicked w'
    Traces (unfinished, w') = Stops unfinished w'

    closed-Settles :
        (r : Ended × W) → Opens r → Settles (closed runs activities text request.run.id r)
    closed-Settles (returned (ok trace), w) h = h
    closed-Settles (panicked, w) h = h
    closed-Settles (unfinished, w) h = h
    closed-Settles (returned (err e), w) h = inr (w, refl, laws.fails request.run.id (text e) w)

    completed-Opens :
        (trace : ExecutionTrace) (w : W) (r : Result String (Unit {0}) × W)
        → runs.complete_run trace w ≡ r
        → Opens (completed runs activities text trace r)
    completed-Opens trace w (ok u, w') e = inr (laws.completes trace w w' e)
    completed-Opens trace w (err cause, w') e = tt

    after_trace-Opens :
        (r : Ended × W) → Traces r → Opens (after_trace runs activities text request.run.mode r)
    after_trace-Opens (returned (err e), w) h = tt
    after_trace-Opens (panicked, w) h = h
    after_trace-Opens (unfinished, w) h = h
    after_trace-Opens (returned (ok trace), w) h =
        elim (Bool-cases (is_interactive request.run.mode)) [
          | inl i ↦ rw i (inl i)
          | inr i ↦ rw i (completed-Opens trace w _ refl)
        ]

    stopped-Traces :
        (u w' : W) (s : State) (e : SupervisorError) (ended : Ended)
        → activities (begun request) u ≡ (err e, s, w')
        → stopped_by e ≡ ended
        → Traces (ended, w')
    stopped-Traces u w' s e (returned r) same k = tt
    stopped-Traces u w' s e panicked same k = (u, s, e, same, k)
    stopped-Traces u w' s e unfinished same k = (u, s, e, same, k)

    acted-Traces :
        (u : W) (a : Answer W)
        → activities (begun request) u ≡ a
        → Traces (acted runs activities text a)
    acted-Traces u (ok trace, s, w') same = tt
    acted-Traces u (err e, s, w') same = stopped-Traces u w' s e (stopped_by e) same refl

    simulated-Traces :
        (r : Result String ExecutionTrace × W) → Traces (simulated runs activities text r)
    simulated-Traces (ok trace, w) = tt
    simulated-Traces (err cause, w) = tt

    traced-Traces : (w : W) → Traces (traced runs activities text (begun request) w)
    traced-Traces w = elim (Bool-cases (is_simulation request.run.mode)) [
      | inl e ↦ rw e (simulated-Traces _)
      | inr e ↦ rw e (acted-Traces w _ refl)
    ]

    after_create-Settles :
        (r : Result String (Unit {0}) × W)
        → Settles (after_create runs activities text (begun request) r)
    after_create-Settles (err cause, w) = inl (inr (cause, refl))
    after_create-Settles (ok u, w) = closed-Settles _ (after_trace-Opens _ (traced-Traces w))

    after_validate-Settles :
        (w : W) (r : Result RequestError (Unit {0}))
        → Settles (after_validate runs activities text (begun request) w r)
    after_validate-Settles w (err e) = inl (inl (e, refl))
    after_validate-Settles w (ok u) = after_create-Settles _

    -- However the activities or the simulation go: when `Execute` returns a trace of a run that is not interactive, the store has the
    -- run of the trace as completed; when it returns an error, either no run was created, or the run was told to fail, last of
    -- all, and is failed if the store took that. It panics only where the activities have panicked, and then nothing more is done: the
    -- run is not told to fail. Where the rounds of the model have run out, they have so in the activities.
    pub execute-Settles : (w : W) → Settles (execute runs activities text request w)
    unfolding execute
    execute-Settles w = after_validate-Settles w _
