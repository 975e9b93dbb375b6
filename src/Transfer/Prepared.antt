-- ===== src/Transfer/Prepared.antt =====
-- What a gate that internal/application/transfer/coordinator.go answers lets through.
use akoflow_workflow_engine.Prelude.{
  ℕ, ◌+◌, String, Bool, true, false, Option, none, some, List, [], ◌∷◌, Result, ok, err, ◌≡◌, refl,
  sym, ap, ◌∙◌, inl, inr, Bool-cases, length, length-append, arith, ok_ne_err,
}
use akoflow_workflow_engine.Domain.Materialization.{
  ArtifactMaterialization, BlobDescriptor, commit, commit_if, DataTransferPlan, DataTransferRun,
  MaterializationError, PreparationGate, PreparationRequirement, WorkspaceMaterialization,
  is_committed, has_committed, executable_open, workspace_open, ready,
}
use akoflow_workflow_engine.Prelude.Maps.{StringMap}
use akoflow_workflow_engine.Transfer.{
  Connector, Tools, TransferError, Materialized, Copied, materialize, connected, finished,
  failed_with, from_source, is_pull, strategy_of, transfer_agent_required,
}
use akoflow_workflow_engine.Transfer.Coordinator.{
  PreparationError, Catalog, Moved, MovedWorkspace, prepare, prepare_artifact, prepare_workspace,
  with_artifact, with_workspace, missing_or, workspace_target, move_workspace, after_workspace,
  committed_workspace, gate_if, move_artifact, begun, after_initial, after_save_run, after_save,
  answered,
}
use akoflow_workflow_engine.Controller.{check_preparation}

module _ {W : Type 0} (tools : Tools W) where
  -- A materialization of the same artifact.
  abbrev pub IsSame : ArtifactMaterialization → ArtifactMaterialization → Type 0
  IsSame m n = (n.id ≡ m.id) × (n.digest ≡ m.digest) × (n.destination_path ≡ m.destination_path)

  failed_with-IsSame :
      (m : ArtifactMaterialization) (run : DataTransferRun) (e : TransferError) (w : W)
      → IsSame m (failed_with tools m run e w).target
  unfolding failed_with
  failed_with-IsSame m run e w = (refl, refl, refl)

  finished-IsSame :
      (m : ArtifactMaterialization) (r : Copied tools) → IsSame m (finished tools m r).target
  finished-IsSame m (err e, run, w) = failed_with-IsSame m run e w
  finished-IsSame m (ok u, run, w) = (refl, refl, refl)

  connected-IsSame :
      (plan : DataTransferPlan) (sc dc : Connector W) (m : ArtifactMaterialization) (w : W)
      → IsSame m (connected tools plan sc dc m w).target
  connected-IsSame plan sc dc m w = elim (Bool-cases (is_pull (strategy_of plan.strategy))) [
    | inl e ↦ rw e (failed_with-IsSame m _ transfer_agent_required w)
    | inr e ↦ rw e (finished-IsSame m _)
  ]

  from_source-IsSame :
      (plan : DataTransferPlan) (m : ArtifactMaterialization) (w : W)
      (s d : Result TransferError (Connector W))
      → IsSame m (from_source tools plan m w s d).target
  from_source-IsSame plan m w (err e) d = (refl, refl, refl)
  from_source-IsSame plan m w (ok sc) (err e) = (refl, refl, refl)
  from_source-IsSame plan m w (ok sc) (ok dc) = connected-IsSame plan sc dc m w

  materialize-IsSame :
      (connectors : List (Connector W)) (plan : DataTransferPlan) (m : ArtifactMaterialization)
      (w : W)
      → IsSame m (materialize tools connectors plan m w).target
  unfolding materialize
  materialize-IsSame connectors plan m w = from_source-IsSame plan m w _ _

ready-closed :
    (gate : PreparationGate)
    → ready gate ≡ ok tt
    → (executable_open gate.executable ≡ false) × (workspace_open gate.workspace ≡ false)
unfolding ready
ready-closed gate h = elim (Bool-cases (executable_open gate.executable)) [
  | inl e ↦ absurd (ok_ne_err (sym (rw e at h)))
  | inr e ↦ elim (Bool-cases (workspace_open gate.workspace)) [
    | inl f ↦ absurd (ok_ne_err (sym (rw f at (rw e at h))))
    | inr f ↦ (e, f)
  ]
]

-- The executable that was asked for, and the one of a gate.
abbrev pub IsExecutable : Option ArtifactMaterialization → Option ArtifactMaterialization → Type 0
IsExecutable none o = o ≡ none
IsExecutable (some m) o =
    (n : ArtifactMaterialization) × (o ≡ some n)
    × (n.id ≡ m.id)
    × (n.digest ≡ m.digest)
    × (n.destination_path ≡ m.destination_path)
    × (has_committed n ≡ true)

-- What a workspace that was asked for lacks: what it says, or else the blobs of the plan.
abbrev pub IsLacking : (asked planned kept : List BlobDescriptor) → Type 0
IsLacking [] planned kept = kept ≡ planned
IsLacking (b ∷ blobs) planned kept = kept ≡ b ∷ blobs

-- A materialization of the same workspace, for the same plan.
pub record IsSameWorkspace (m : WorkspaceMaterialization) (plan : DataTransferPlan)
    (n : WorkspaceMaterialization) : Type 0 where
  pub same_id : n.id ≡ m.id
  pub same_revision : n.revision_id ≡ m.revision_id
  pub same_destination : n.destination ≡ m.destination
  pub lacks : IsLacking m.missing plan.blobs n.missing

-- The workspace that was asked for with a plan, and the one of a gate.
abbrev pub IsWorkspace :
    Option WorkspaceMaterialization
    → Option DataTransferPlan
    → Option WorkspaceMaterialization
    → Type 0
IsWorkspace none plan o = o ≡ none
IsWorkspace (some m) plan o =
    (n : WorkspaceMaterialization) × (p : DataTransferPlan) × (o ≡ some n)
    × (plan ≡ some p)
    × IsSameWorkspace m p n
    × (is_committed n.status ≡ true)

abbrev pub one_if {ℓ} : {A : Type ℓ} → Option A → ℕ
one_if none = 0
one_if (some a) = 1

-- A gate for a requirement: the controller accepts it, what was asked for is there and committed, and nothing else, and there is a
-- run for each of the two.
pub record IsGateFor (r : PreparationRequirement) (gate : PreparationGate) : Type 0 where
  pub accepted : check_preparation (some gate) ≡ ok tt
  pub executable : IsExecutable r.artifact gate.executable
  pub workspace : IsWorkspace r.workspace r.workspace_transfer gate.workspace
  pub runs : length gate.transfer_runs ≡ one_if r.artifact + one_if r.workspace

-- The same before it is known that the gate is ready.
abbrev Moves : Option ArtifactMaterialization → Option ArtifactMaterialization → Type 0
Moves none o = o ≡ none
Moves (some m) o =
    (n : ArtifactMaterialization) × (o ≡ some n)
    × (n.id ≡ m.id)
    × (n.digest ≡ m.digest)
    × (n.destination_path ≡ m.destination_path)

abbrev Keeps :
    Option WorkspaceMaterialization
    → Option DataTransferPlan
    → Option WorkspaceMaterialization
    → Type 0
Keeps none plan o = o ≡ none
Keeps (some m) plan o =
    (n : WorkspaceMaterialization) × (p : DataTransferPlan) × (o ≡ some n)
    × (plan ≡ some p)
    × IsSameWorkspace m p n

committed_Moves :
    (asked moved : Option ArtifactMaterialization)
    → Moves asked moved
    → executable_open moved ≡ false
    → IsExecutable asked moved
committed_Moves none moved m e = m
committed_Moves (some a) moved (n, same, i, d, p) e =
    let closed = ap executable_open (sym same) ∙ e in (n, same, i, d, p, ground (arith, closed))

committed_Keeps :
    (asked : Option WorkspaceMaterialization) (plan : Option DataTransferPlan)
    (kept : Option WorkspaceMaterialization)
    → Keeps asked plan kept
    → workspace_open kept ≡ false
    → IsWorkspace asked plan kept
committed_Keeps none plan kept m e = m
committed_Keeps (some a) plan kept (n, p, same, planned, here) e =
    let closed = ap workspace_open (sym same) ∙ e in
    (n, p, same, planned, here, ground (arith, closed))

IsLacking-missing_or :
    (asked planned : List BlobDescriptor) → IsLacking asked planned (missing_or asked planned)
IsLacking-missing_or [] planned = refl
IsLacking-missing_or (b ∷ blobs) planned = refl

module _ {W : Type 0} (tools : Tools W) (connectors : List (Connector W))
    (catalog : Option (Catalog W)) (range_digests : StringMap Bool → List String)
    (r : PreparationRequirement) where
  abbrev pub Prepares : Result PreparationError PreparationGate × W → Type 0
  Prepares (err e, w) = Unit
  Prepares (ok gate, w) = IsGateFor r gate

  gate_if-Prepares :
      (gate : PreparationGate) (w : W) (a : Result MaterializationError (Unit {0}))
      → ready gate ≡ a
      → Moves r.artifact gate.executable
      → Keeps r.workspace r.workspace_transfer gate.workspace
      → length gate.transfer_runs ≡ one_if r.artifact + one_if r.workspace
      → Prepares (gate_if tools connectors catalog range_digests gate a, w)
  gate_if-Prepares gate w (err x) e moves keeps n = tt
  gate_if-Prepares gate w (ok u) e moves keeps n =
      let (x, y) = ready-closed gate e in
      record {
        accepted = rw e refl;
        executable = committed_Moves r.artifact gate.executable moves x;
        workspace = committed_Keeps r.workspace r.workspace_transfer gate.workspace keeps y;
        runs = n;
      }

  -- What the transfer of a workspace answers is the workspace that was asked for.
  abbrev WorkspaceFor :
      WorkspaceMaterialization
      → Option DataTransferPlan
      → MovedWorkspace tools connectors catalog range_digests
      → Type 0
  WorkspaceFor m plan (err e) = Unit
  WorkspaceFor m plan (ok (n, run)) =
      (p : DataTransferPlan) × (plan ≡ some p) × IsSameWorkspace m p n

  committed_WorkspaceFor :
      (m : WorkspaceMaterialization) (plan : Option DataTransferPlan) (p : DataTransferPlan)
      (filled : WorkspaceMaterialization) (verified : List String) (run : DataTransferRun)
      (c : Result MaterializationError (Unit {0}))
      → plan ≡ some p
      → IsSameWorkspace m p filled
      → WorkspaceFor m plan (
          committed_workspace tools connectors catalog range_digests run
            (commit_if c verified filled))
  committed_WorkspaceFor m plan p filled verified run (err e) same h = tt
  committed_WorkspaceFor m plan p filled verified run (ok u) same h = (
    p,
    same,
    record {
      same_id = h.same_id;
      same_revision = h.same_revision;
      same_destination = h.same_destination;
      lacks = h.lacks;
    },
  )

  after_workspace-WorkspaceFor :
      (m : WorkspaceMaterialization) (plan : Option DataTransferPlan) (p : DataTransferPlan)
      (filled : WorkspaceMaterialization) (moved : Materialized W) (o : Option TransferError)
      → plan ≡ some p
      → IsSameWorkspace m p filled
      → WorkspaceFor m plan (after_workspace tools connectors catalog range_digests filled moved o)
  unfolding commit
  after_workspace-WorkspaceFor m plan p filled moved (some e) same h = tt
  after_workspace-WorkspaceFor m plan p filled moved none same h =
      elim (Bool-cases (is_committed moved.target.status)) [
        | inl c ↦
            rw c
              (committed_WorkspaceFor m plan p filled moved.run.verified_blobs moved.run _ same h)
        | inr c ↦ rw c tt
      ]

  move_workspace-WorkspaceFor :
      (m : WorkspaceMaterialization) (plan : Option DataTransferPlan) (w : W)
      → WorkspaceFor m plan (move_workspace tools connectors catalog range_digests m plan w).0
  unfolding move_workspace
  move_workspace-WorkspaceFor m none w = tt
  move_workspace-WorkspaceFor m (some p) w =
      let moved =
        materialize tools connectors p (workspace_target tools connectors catalog range_digests m)
          w in
      let filled : WorkspaceMaterialization = record m { missing = missing_or m.missing p.blobs } in
      after_workspace-WorkspaceFor m (some p) p filled moved moved.error refl (record {
        same_id = refl;
        same_revision = refl;
        same_destination = refl;
        lacks = IsLacking-missing_or m.missing p.blobs;
      })

  with_workspace-Prepares :
      (a : Option ArtifactMaterialization) (runs : List DataTransferRun)
      (m : WorkspaceMaterialization)
      → Moves r.artifact a
      → length runs ≡ one_if r.artifact
      → r.workspace ≡ some m
      → (x : MovedWorkspace tools connectors catalog range_digests × W)
      → WorkspaceFor m r.workspace_transfer x.0
      → Prepares (with_workspace tools connectors catalog range_digests a runs x)
  with_workspace-Prepares a runs m moves n e (err x, w) h = tt
  with_workspace-Prepares a runs m moves n e (ok (m', run), w) (p, planned, h) =
      gate_if-Prepares _ w _ refl moves (rw e (m', p, refl, planned, h))
        (rw e (omega (arith, n, length-append runs (run ∷ []))))

  prepare_workspace-Prepares :
      (a : Option ArtifactMaterialization) (runs : List DataTransferRun) (w : W)
      → Moves r.artifact a
      → length runs ≡ one_if r.artifact
      → (o : Option WorkspaceMaterialization) → r.workspace ≡ o
      → Prepares
          (prepare_workspace tools connectors catalog range_digests a runs o r.workspace_transfer w)
  prepare_workspace-Prepares a runs w moves n none e =
      gate_if-Prepares _ w _ refl moves (rw e refl) (rw e (omega (arith, n)))
  prepare_workspace-Prepares a runs w moves n (some m) e =
      with_workspace-Prepares a runs m moves n e _
        (move_workspace-WorkspaceFor m r.workspace_transfer w)

  -- What the transfer of the executable answers is the executable that was asked for.
  abbrev MovesTo : ArtifactMaterialization → Moved tools connectors catalog range_digests → Type 0
  MovesTo m (err e, w) = Unit
  MovesTo m (ok (n, run), w) = IsSame tools m n

  answered-MovesTo :
      (m : ArtifactMaterialization) (x : Materialized W) (w : W) (o : Option TransferError)
      → IsSame tools m x.target
      → MovesTo m (answered tools connectors catalog range_digests x w o)
  answered-MovesTo m x w none h = h
  answered-MovesTo m x w (some e) h = tt

  after_save-MovesTo :
      (m : ArtifactMaterialization) (x : Materialized W) (s : Result String (Unit {0}) × W)
      → IsSame tools m x.target
      → MovesTo m (after_save tools connectors catalog range_digests x s)
  after_save-MovesTo m x (err cause, w) h = tt
  after_save-MovesTo m x (ok u, w) h = answered-MovesTo m x w x.error h

  after_save_run-MovesTo :
      (m : ArtifactMaterialization) (x : Materialized W) (s : Result String (Unit {0}) × W)
      → IsSame tools m x.target
      → MovesTo m (after_save_run tools connectors catalog range_digests x s)
  after_save_run-MovesTo m x (err cause, w) h = tt
  after_save_run-MovesTo m x (ok u, w) h = after_save-MovesTo m x _ h

  after_initial-MovesTo :
      (plan : DataTransferPlan) (m : ArtifactMaterialization) (s : Result String (Unit {0}) × W)
      → MovesTo m (
          after_initial tools connectors catalog range_digests plan
            (begun tools connectors catalog range_digests m)
            s)
  after_initial-MovesTo plan m (err cause, w) = tt
  after_initial-MovesTo plan m (ok u, w) =
      let initial = begun tools connectors catalog range_digests m in
      after_save_run-MovesTo m (materialize tools connectors plan initial w) _
        (materialize-IsSame tools connectors plan initial w)

  move_artifact-MovesTo :
      (m : ArtifactMaterialization) (plan : Option DataTransferPlan) (w : W)
      → MovesTo m (move_artifact tools connectors catalog range_digests m plan w)
  unfolding move_artifact
  move_artifact-MovesTo m none w = tt
  move_artifact-MovesTo m (some plan) w = after_initial-MovesTo plan m _

  with_artifact-Prepares :
      (m : ArtifactMaterialization) (x : Moved tools connectors catalog range_digests)
      → r.artifact ≡ some m
      → MovesTo m x
      → Prepares (with_artifact tools connectors catalog range_digests r x)
  with_artifact-Prepares m (err e, w) same h = tt
  with_artifact-Prepares m (ok (n, run), w) same h =
      prepare_workspace-Prepares (some n) (run ∷ []) w (rw same (n, refl, h.0, h.1, h.2))
        (rw same refl) r.workspace refl

  prepare_artifact-Prepares :
      (o : Option ArtifactMaterialization) (w : W)
      → r.artifact ≡ o
      → Prepares (prepare_artifact tools connectors catalog range_digests r o w)
  prepare_artifact-Prepares none w e =
      prepare_workspace-Prepares none [] w (rw e refl) (rw e refl) r.workspace refl
  prepare_artifact-Prepares (some m) w e =
      with_artifact-Prepares m _ e (move_artifact-MovesTo m r.artifact_transfer w)

  -- When `Prepare` answers a gate, the controller accepts it for a start; its executable is the one that was asked for, by id, digest and
  -- path, committed, and none if none was asked for; its workspace is the one that was asked for, by id, revision and destination, committed,
  -- and lacked what was asked for or else the blobs of its plan, and none if none was asked for; and there is a transfer run for
  -- each of the two.
  pub prepare-Prepares : (w : W) → Prepares (prepare tools connectors catalog range_digests r w)
  unfolding prepare
  prepare-Prepares w = prepare_artifact-Prepares r.artifact w refl
