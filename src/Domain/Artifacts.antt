-- ===== src/Domain/Artifacts.antt =====
-- internal/domain/execution/artifact_observation.go: what a runtime has seen of the files of an activity.
use akoflow_workflow_engine.Prelude.{String, List}
use akoflow_workflow_engine.Prelude.Int.{ℤ}
use akoflow_workflow_engine.Domain.Values.{Float}

pub data ArtifactChange : Type 0 where
  created modified deleted : ArtifactChange
  other_change : String → ArtifactChange

pub record ArtifactObservation : Type 0 where
  pub path : String
  pub change : ArtifactChange
  pub size_bytes : ℤ
  pub checksum : String
  pub modified_unix_nano : ℤ

pub record LifecycleObservation : Type 0 where
  pub phase : String
  pub status : String
  pub started_at : Float
  pub finished_at : Float
  pub duration_seconds : Float
  pub error : String

pub record ArtifactSummary : Type 0 where
  pub initial_files : ℤ
  pub final_files : ℤ
  pub created_files : ℤ
  pub modified_files : ℤ
  pub deleted_files : ℤ
  pub output_bytes : ℤ

pub record ArtifactManifest : Type 0 where
  pub schema_version : ℤ
  pub run_id : String
  pub activity_id : String
  pub attempt : ℤ
  pub runtime : String
  pub hostname : String
  pub root : String
  pub started_at : Float
  pub finished_at : Float
  pub exit_code : ℤ
  pub files : List ArtifactObservation
  pub phases : List LifecycleObservation
  pub summary : ArtifactSummary
