-- ===== src/Domain/Resource.antt =====
-- internal/domain/resource/resource.go: what activities run on.
use akoflow_workflow_engine.Prelude.{String, Bool, Option, List}
use akoflow_workflow_engine.Prelude.Int.{ℤ}
use akoflow_workflow_engine.Domain.Values.{Float, Metadata}

pub data ResourceType : Type 0 where
  cluster node_pool kubernetes_machine hpc_partition hpc_machine cloud_vm fog_device : ResourceType
  local_machine serverless_platform serverless_function batch_queue : ResourceType
  kubernetes_namespace slurm_reservation : ResourceType
  other_resource : String → ResourceType

pub data ResourceExecutionTarget : Type 0 where
  batch direct : ResourceExecutionTarget
  other_target : String → ResourceExecutionTarget

pub record Resource : Type 0 where
  pub id : String
  pub environment_version_id : String
  pub execution_target : ResourceExecutionTarget
  pub parent_resource_id : Option String
  pub resource_type : ResourceType
  pub name : String
  pub provider_id : String
  pub tier : String
  pub region : String
  pub zone : String
  pub architecture : String
  pub cpu_cores : ℤ
  pub cpu_capacity : Float
  pub memory_bytes : ℤ
  pub storage_bytes : ℤ
  pub compute_speedup : Float
  pub price_per_second : Float
  pub boot_overhead_seconds : Float
  pub container_overhead : Float
  pub schedulable : Bool
  pub metadata : Metadata

pub record ResourceRuntimeBinding : Type 0 where
  pub resource_id : String
  pub runtime_id : String
  pub enabled : Bool
  pub configuration : Metadata

pub record NetworkLink : Type 0 where
  pub id : String
  pub topology_id : String
  pub source_resource_id : String
  pub target_resource_id : String
  pub bandwidth_bits_per_second : Float
  pub latency_seconds : Float
  pub price_per_byte : Float
  pub bidirectional : Bool
  pub sharing_policy : String
  pub max_concurrent_transfers : ℤ
  pub metadata : Metadata

pub record NetworkTopology : Type 0 where
  pub id : String
  pub name : String
  pub version : ℤ
  pub execution_scope_id : String
  pub links : List NetworkLink
  pub metadata : Metadata
