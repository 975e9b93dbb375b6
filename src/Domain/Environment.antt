-- ===== src/Domain/Environment.antt =====
-- internal/domain/environment/environment.go: runtimes and the scope of a plan.
use akoflow_workflow_engine.Prelude.{String, Bool, true, false, List, ◌==◌}
use akoflow_workflow_engine.Domain.Values.{Metadata}

pub data RuntimeDriver : Type 0 where
  slurm kubernetes ssh local_driver serverless simgrid : RuntimeDriver
  other_driver : String → RuntimeDriver

pub data RuntimeMode : Type 0 where
  execution simulation : RuntimeMode
  other_mode : String → RuntimeMode

abbrev pub runtime_mode_eq : RuntimeMode → RuntimeMode → Bool
runtime_mode_eq execution execution = true
runtime_mode_eq simulation simulation = true
runtime_mode_eq (other_mode s) (other_mode t) = s == t
runtime_mode_eq _ _ = false

pub record Capabilities : Type 0 where
  pub batch : Bool
  pub interactive : Bool
  pub container : Bool
  pub serverless_calls : Bool
  pub gpu : Bool
  pub mpi : Bool
  pub shared_storage : Bool
  pub data_staging : Bool
  pub cancellation : Bool
  pub log_streaming : Bool
  pub simulates : Bool

pub record EnvironmentRuntime : Type 0 where
  pub environment_version_id : String
  pub id : String
  pub name : String
  pub driver : RuntimeDriver
  pub runtime_mode : RuntimeMode
  pub role : String
  pub configuration : Metadata
  pub capabilities : Capabilities

pub record ExecutionScope : Type 0 where
  pub id : String
  pub name : String
  pub network_topology_id : String
  pub environment_version_ids : List String
  pub metadata : Metadata
