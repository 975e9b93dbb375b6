-- ===== src/Domain/Materialization.antt =====
-- internal/domain/execution/materialization.go: executables and workspaces brought to where an activity runs.
pub mod Reconcile
use akoflow_workflow_engine.Prelude.{
  String, Bool, true, false, not, ◌&&◌, ◌||◌, ◌==◌, Option, none, some, List, [], ◌∷◌, map, Result,
  ok, err, fail_if, ◌>>◌, is_empty, if◌then◌else◌,
}
use akoflow_workflow_engine.Prelude.Int.{ℤ}
use akoflow_workflow_engine.Prelude.Maps.{StringMap, lookup, insert}
use akoflow_workflow_engine.Domain.Values.{Float}

pub data MaterializationStatus : Type 0 where
  planned reconciling transferring verifying committed failed : MaterializationStatus
  other_status : String → MaterializationStatus

pub data TransferStatus : Type 0 where
  transfer_planned transfer_running transfer_completed transfer_failed : TransferStatus
  other_transfer : String → TransferStatus

pub data CatalogScope : Type 0 where
  system organization project workflow run environment : CatalogScope
  other_scope : String → CatalogScope

pub data TransferStrategy : Type 0 where
  use_existing destination_pull source_push gateway : TransferStrategy
  other_strategy : String → TransferStrategy

pub record ExecutableArtifact : Type 0 where
  pub id : String
  pub name : String
  pub version : String

pub record ArtifactVariant : Type 0 where
  pub id : String
  pub artifact_id : String
  pub digest : String
  pub format : String
  pub architecture : String
  pub size_bytes : ℤ

pub record ArtifactMaterialization : Type 0 where
  pub id : String
  pub run_id : String
  pub activity_id : String
  pub variant_id : String
  pub digest : String
  pub resource_id : String
  pub environment_id : String
  pub destination_path : String
  pub status : MaterializationStatus
  pub verified_digest : String

abbrev pub is_committed : MaterializationStatus → Bool
is_committed committed = true
is_committed _ = false

-- `Committed`
unfoldable pub has_committed : ArtifactMaterialization → Bool
has_committed m =
    is_committed m.status && not (is_empty m.verified_digest) && m.verified_digest == m.digest

pub record TransferLocation : Type 0 where
  pub resource_id : String
  pub environment_id : String
  pub uri : String
  pub path : String

pub record ArtifactVersion : Type 0 where
  pub id : String
  pub artifact_id : String
  pub version : String
  pub scope : CatalogScope
  pub scope_id : String

pub record ArtifactLocation : Type 0 where
  pub id : String
  pub variant_id : String
  pub scope : CatalogScope
  pub scope_id : String
  pub endpoint_id : String
  pub uri : String
  pub digest : String
  pub available : Bool

pub record TransferEndpoint : Type 0 where
  pub id : String
  pub kind : String
  pub uri : String
  pub resource_id : String
  pub environment_id : String
  pub configuration : StringMap String

pub record BlobDescriptor : Type 0 where
  pub digest : String
  pub size_bytes : ℤ

pub record TransferChunk : Type 0 where
  pub index : ℤ
  pub offset : ℤ
  pub size_bytes : ℤ
  pub digest : String
  pub received : Bool

pub record DataTransferPlan : Type 0 where
  pub id : String
  pub strategy : TransferStrategy
  pub source : TransferLocation
  pub destination : TransferLocation
  pub blobs : List BlobDescriptor
  pub chunks : List TransferChunk
  pub resume_from : List ℤ

pub record DataTransferRun : Type 0 where
  pub id : String
  pub plan_id : String
  pub strategy : TransferStrategy
  pub status : TransferStatus
  pub verified_blobs : List String
  pub completed_chunks : List ℤ
  pub started_at : Float
  pub finished_at : Float
  pub transferred_bytes : ℤ
  pub error : String

pub record ArtifactBuild : Type 0 where
  pub id : String
  pub artifact_version_id : String
  pub source_type : String
  pub context_digest : String
  pub recipe_path : String
  pub recipe_digest : String
  pub target_format : String
  pub target_os : String
  pub target_architecture : String
  pub build_arguments : String
  pub cache_key : String

pub record BuildRun : Type 0 where
  pub id : String
  pub artifact_build_id : String
  pub status : String
  pub output_variant_id : String
  pub output_digest : String
  pub logs : String
  pub error : String

pub record WorkspaceBlob : Type 0 where
  pub path : String
  pub digest : String
  pub size_bytes : ℤ
  pub deleted : Bool

pub record WorkspaceRevision : Type 0 where
  pub id : String
  pub parent_id : String
  pub blobs : List WorkspaceBlob

pub record WorkspaceInventory : Type 0 where
  pub digests : StringMap Bool

pub record WorkspaceMaterialization : Type 0 where
  pub id : String
  pub revision_id : String
  pub destination : TransferLocation
  pub status : MaterializationStatus
  pub missing : List BlobDescriptor
  pub verified : List String

pub record PreparationRequirement : Type 0 where
  pub artifact : Option ArtifactMaterialization
  pub artifact_transfer : Option DataTransferPlan
  pub workspace : Option WorkspaceMaterialization
  pub workspace_transfer : Option DataTransferPlan

pub record PreparationGate : Type 0 where
  pub executable : Option ArtifactMaterialization
  pub workspace : Option WorkspaceMaterialization
  pub transfer_runs : List DataTransferRun

pub data MaterializationError : Type 0 where
  missing_verified_blob : (materialization digest : String) → MaterializationError
  executable_not_committed workspace_not_committed : MaterializationError

abbrev pub or_false : Option Bool → Bool
or_false none = false
or_false (some b) = b

-- set[digest], of a map to booleans
unfoldable pub is_in : StringMap Bool → String → Bool
is_in set digest = or_false (lookup digest set)

-- The loop of `ReconcileWorkspace`.
unfoldable pub missing_blobs :
    WorkspaceInventory → List WorkspaceBlob → StringMap Bool → List BlobDescriptor
missing_blobs inventory [] seen = []
missing_blobs inventory (b ∷ blobs) seen =
    let skipped = missing_blobs inventory blobs seen in
    let rest = missing_blobs inventory blobs (insert b.digest true seen) in
    if b.deleted || is_empty b.digest || is_in inventory.digests b.digest || is_in seen b.digest
    then skipped
    else record { digest = b.digest; size_bytes = b.size_bytes } ∷ rest

unfoldable pub reconcile_workspace : WorkspaceRevision → WorkspaceInventory → List BlobDescriptor
reconcile_workspace desired inventory = missing_blobs inventory desired.blobs []

unfoldable pub reconcile :
    WorkspaceMaterialization → WorkspaceRevision → WorkspaceInventory → WorkspaceMaterialization
reconcile m revision inventory = record m {
  status = reconciling;
  missing = reconcile_workspace revision inventory;
}

-- for _, d := range digests { set[d] = true }
unfoldable pub set_of : List String → StringMap Bool → StringMap Bool
set_of [] set = set
set_of (d ∷ digests) set = set_of digests (insert d true set)

-- for digest := range want { if !got[digest] { return … } }
unfoldable pub check_verified :
    String → StringMap Bool → List String → Result MaterializationError (Unit {0})
check_verified id got [] = ok tt
check_verified id got (d ∷ digests) =
    let rest = check_verified id got digests in
    if is_in got d then rest else err (missing_verified_blob id d)

abbrev pub commit_if :
    Result MaterializationError (Unit {0})
    → List String
    → WorkspaceMaterialization
    → Result MaterializationError (Unit {0}) × WorkspaceMaterialization
commit_if (ok u) verified m = (ok u, record m { status = committed; verified = verified })
commit_if (err e) verified m = (err e, m)

-- `range_digests` is the order in which `range` meets the keys of `want`.
unfoldable pub commit :
    (StringMap Bool → List String)
    → WorkspaceMaterialization
    → List String
    → Result MaterializationError (Unit {0}) × WorkspaceMaterialization
commit range_digests m verified =
    let want = set_of (map (λ (b : BlobDescriptor). b.digest) m.missing) [] in
    commit_if (check_verified m.id (set_of verified []) (range_digests want)) verified m

abbrev pub executable_open : Option ArtifactMaterialization → Bool
executable_open none = false
executable_open (some m) = not (has_committed m)

abbrev pub workspace_open : Option WorkspaceMaterialization → Bool
workspace_open none = false
workspace_open (some m) = not (is_committed m.status)

-- `Ready`
unfoldable pub ready : PreparationGate → Result MaterializationError (Unit {0})
ready g =
    fail_if (executable_open g.executable) executable_not_committed
    >> fail_if (workspace_open g.workspace) workspace_not_committed
