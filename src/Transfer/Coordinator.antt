-- ===== src/Transfer/Coordinator.antt =====
-- internal/application/transfer/coordinator.go: what an activity needs is brought to its resource before it starts.
use akoflow_workflow_engine.Prelude.{
  String, Bool, Option, none, some, List, [], ◌∷◌, ◌++◌, Result, ok, err, if◌then◌else◌, is_empty,
}
use akoflow_workflow_engine.Domain.Materialization.{
  ArtifactMaterialization, BlobDescriptor, DataTransferPlan, DataTransferRun, MaterializationError,
  PreparationGate, PreparationRequirement, WorkspaceMaterialization, transferring, is_committed,
  other_status, commit, ready,
}
use akoflow_workflow_engine.Prelude.Maps.{StringMap}
use akoflow_workflow_engine.Transfer.{Connector, Tools, TransferError, Materialized, materialize}

pub data PreparationError : Type 0 where
  artifact_plan_missing workspace_plan_missing workspace_not_committed : PreparationError
  save_failed : (cause : String) → PreparationError
  transfer_failed : TransferError → PreparationError
  not_ready : MaterializationError → PreparationError

-- MaterializationCatalog
pub record Catalog (W : Type 0) : Type 0 where
  pub save_materialization : ArtifactMaterialization → W → Result String (Unit {0}) × W
  pub save_run : DataTransferRun → W → Result String (Unit {0}) × W

abbrev pub missing_or : List BlobDescriptor → List BlobDescriptor → List BlobDescriptor
missing_or [] planned = planned
missing_or (b ∷ blobs) planned = b ∷ blobs

module _ {W : Type 0} (tools : Tools W) (connectors : List (Connector W))
    (catalog : Option (Catalog W)) (range_digests : StringMap Bool → List String) where
  unfoldable pub save : ArtifactMaterialization → W → Result String (Unit {0}) × W
  save m w = elim catalog [ none ↦ (ok tt, w) | some c ↦ c.save_materialization m w ]

  unfoldable pub save_transfer : DataTransferRun → W → Result String (Unit {0}) × W
  save_transfer run w = elim catalog [
    | none ↦ (ok tt, w)
    | some c ↦ let called = c.save_run run w in if is_empty run.id then (ok tt, w) else called
  ]

  -- The materialization of the executable and its run.
  abbrev pub Moved : Type 0
  Moved = Result PreparationError (ArtifactMaterialization × DataTransferRun) × W

  abbrev pub answered : Materialized W → W → Option TransferError → Moved
  answered m w none = (ok (m.target, m.run), w)
  answered m w (some e) = (err (transfer_failed e), w)

  abbrev pub after_save : Materialized W → Result String (Unit {0}) × W → Moved
  after_save m (err cause, w) = (err (save_failed cause), w)
  after_save m (ok u, w) = answered m w m.error

  abbrev pub after_save_run : Materialized W → Result String (Unit {0}) × W → Moved
  after_save_run m (err cause, w) = (err (save_failed cause), w)
  after_save_run m (ok u, w) = after_save m (save m.target w)

  -- Both are saved whether the transfer has failed or not.
  abbrev pub recorded : Materialized W → Moved
  recorded m = after_save_run m (save_transfer m.run m.world)

  abbrev pub after_initial :
      DataTransferPlan → ArtifactMaterialization → Result String (Unit {0}) × W → Moved
  after_initial plan initial (err cause, w) = (err (save_failed cause), w)
  after_initial plan initial (ok u, w) = recorded (materialize tools connectors plan initial w)

  abbrev pub begun : ArtifactMaterialization → ArtifactMaterialization
  begun m = record m { status = transferring }

  unfoldable pub move_artifact : ArtifactMaterialization → Option DataTransferPlan → W → Moved
  unfolding save save_transfer
  move_artifact m none w = (err artifact_plan_missing, w)
  move_artifact m (some plan) w = after_initial plan (begun m) (save (begun m) w)

  -- The artifact that stands for the blobs of a workspace.
  abbrev pub workspace_target : WorkspaceMaterialization → ArtifactMaterialization
  workspace_target m = record {
    id = m.id;
    run_id = "";
    activity_id = "";
    variant_id = "";
    digest = "workspace";
    resource_id = "";
    environment_id = "";
    destination_path = "";
    status = other_status "";
    verified_digest = "";
  }

  abbrev pub MovedWorkspace : Type 0
  MovedWorkspace = Result PreparationError (WorkspaceMaterialization × DataTransferRun)

  abbrev pub committed_workspace :
      DataTransferRun
      → Result MaterializationError (Unit {0}) × WorkspaceMaterialization
      → MovedWorkspace
  committed_workspace run (ok u, m) = ok (m, run)
  committed_workspace run (err e, m) = err (not_ready e)

  abbrev pub after_workspace :
      WorkspaceMaterialization → Materialized W → Option TransferError → MovedWorkspace
  after_workspace m moved (some e) = err (transfer_failed e)
  after_workspace m moved none =
      let committed =
        committed_workspace moved.run (commit range_digests m moved.run.verified_blobs) in
      if is_committed moved.target.status then committed else err workspace_not_committed

  unfoldable pub move_workspace :
      WorkspaceMaterialization → Option DataTransferPlan → W → MovedWorkspace × W
  move_workspace m none w = (err workspace_plan_missing, w)
  move_workspace m (some plan) w =
      let filled = record m { missing = missing_or m.missing plan.blobs } in
      let moved = materialize tools connectors plan (workspace_target m) w in
      (after_workspace filled moved moved.error, moved.world)

  abbrev pub gate_if :
      PreparationGate
      → Result MaterializationError (Unit {0})
      → Result PreparationError PreparationGate
  gate_if gate (ok u) = ok gate
  gate_if gate (err e) = err (not_ready e)

  abbrev pub gate_if_ready : PreparationGate → Result PreparationError PreparationGate
  gate_if_ready gate = gate_if gate (ready gate)

  abbrev pub gate_of :
      Option ArtifactMaterialization
      → Option WorkspaceMaterialization
      → List DataTransferRun
      → Result PreparationError PreparationGate
  gate_of artifact workspace runs =
      gate_if_ready (record { executable = artifact; workspace = workspace; transfer_runs = runs })

  abbrev pub with_workspace :
      Option ArtifactMaterialization
      → List DataTransferRun
      → MovedWorkspace × W
      → Result PreparationError PreparationGate × W
  with_workspace artifact runs (err e, w) = (err e, w)
  with_workspace artifact runs (ok (m, run), w) = (gate_of artifact (some m) (runs ++ run ∷ []), w)

  abbrev pub prepare_workspace :
      Option ArtifactMaterialization
      → List DataTransferRun
      → Option WorkspaceMaterialization
      → Option DataTransferPlan
      → W
      → Result PreparationError PreparationGate × W
  prepare_workspace artifact runs none plan w = (gate_of artifact none runs, w)
  prepare_workspace artifact runs (some m) plan w =
      with_workspace artifact runs (move_workspace m plan w)

  abbrev pub with_artifact :
      PreparationRequirement → Moved → Result PreparationError PreparationGate × W
  with_artifact r (err e, w) = (err e, w)
  with_artifact r (ok (m, run), w) =
      prepare_workspace (some m) (run ∷ []) r.workspace r.workspace_transfer w

  abbrev pub prepare_artifact :
      PreparationRequirement
      → Option ArtifactMaterialization
      → W
      → Result PreparationError PreparationGate × W
  prepare_artifact r none w = prepare_workspace none [] r.workspace r.workspace_transfer w
  prepare_artifact r (some m) w = with_artifact r (move_artifact m r.artifact_transfer w)

  unfoldable pub prepare : PreparationRequirement → W → Result PreparationError PreparationGate × W
  unfolding move_artifact move_workspace
  prepare r w = prepare_artifact r r.artifact w
