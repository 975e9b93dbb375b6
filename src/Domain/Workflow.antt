-- ===== src/Domain/Workflow.antt =====
-- internal/domain/workflow/workflow.go: activities, what they need, and how they depend on one another.
use akoflow_workflow_engine.Prelude.{
  String, Bool, true, false, Option, none, some, if◌then◌else◌, List, [], ◌∷◌, Result, fail_if,
  ◌>>◌, is_empty, is_some, not, ◌&&◌, ◌||◌, any, ◌==◌,
}
use akoflow_workflow_engine.Prelude.Int.{ℤ}
use akoflow_workflow_engine.Prelude.Maps.{StringMap}
use akoflow_workflow_engine.Domain.Values.{Float, Metadata}
use akoflow_workflow_engine.Domain.Executable.{ExecutableReference, ResolvedExecutable, oci_image}

pub data ActivityKind : Type 0 where
  task service interactive : ActivityKind
  other_kind : String → ActivityKind

pub data ActivityCapability : Type 0 where
  real simulation interactive_use : ActivityCapability
  other_capability : String → ActivityCapability

pub record ActivityCommand : Type 0 where
  pub image : String
  pub executable : Option ExecutableReference
  pub resolved_executable : Option ResolvedExecutable
  pub entrypoint : String
  pub arguments : List String
  pub environment : StringMap String
  pub working_directory : String

pub record ActivityResources : Type 0 where
  pub cpu : Float
  pub memory_bytes : ℤ
  pub storage_bytes : ℤ
  pub gpu : ℤ

pub record ServiceSpec : Type 0 where
  pub ports : List ℤ
  pub health_check : String
  pub startup_timeout_seconds : Float
  pub idle_timeout_seconds : Float
  pub keep_alive : Bool

pub record ActivitySimulation : Type 0 where
  pub model : String
  pub duration_seconds : Float
  pub flops : Float
  pub parameters : Metadata

pub record ActivityPolicy : Type 0 where
  pub timeout_seconds : Float
  pub max_attempts : ℤ
  pub retry_delay_seconds : Float

pub record Activity : Type 0 where
  pub id : String
  pub workflow_version_id : String
  pub activity_type_id : String
  pub external_id : String
  pub name : String
  pub kind : ActivityKind
  pub capabilities : List ActivityCapability
  pub command : ActivityCommand
  pub resources : ActivityResources
  pub service_spec : Option ServiceSpec
  pub simulation_spec : Option ActivitySimulation
  pub policy : ActivityPolicy
  pub priority : ℤ
  pub metadata : Metadata

pub record ActivityDependency : Type 0 where
  pub activity_id : String
  pub depends_on_activity_id : String
  pub dependency_type : String

pub record ActivityDataDependency : Type 0 where
  pub producer_activity_id : String
  pub consumer_activity_id : String
  pub logical_name : String
  pub size_bytes : ℤ

pub record WorkflowVersion : Type 0 where
  pub id : String
  pub workflow_id : String
  pub version : ℤ
  pub definition_hash : String
  pub activities : List Activity
  pub dependencies : List ActivityDependency
  pub data_dependencies : List ActivityDataDependency

pub record ActivityType : Type 0 where
  pub id : String
  pub name : String
  pub application : String
  pub default_image : String
  pub cpu_intensity : Float
  pub memory_intensity : Float
  pub io_intensity : Float
  pub network_intensity : Float
  pub metadata : Metadata

pub record Definition : Type 0 where
  pub id : String
  pub external_id : String
  pub name : String
  pub namespace : String
  pub version : WorkflowVersion
  pub types : List ActivityType

pub record ActivityResourceProfile : Type 0 where
  pub id : String
  pub activity_type_id : String
  pub resource_id : String
  pub runtime_seconds : Float
  pub runtime_std_dev_seconds : Float
  pub cpu_utilization : Float
  pub peak_memory_bytes : ℤ
  pub disk_read_bytes : ℤ
  pub disk_write_bytes : ℤ
  pub energy_joules : Float
  pub source : String
  pub sample_size : ℤ
  pub model_version : String
  pub metadata : Metadata

abbrev pub capability_eq : ActivityCapability → ActivityCapability → Bool
capability_eq real real = true
capability_eq simulation simulation = true
capability_eq interactive_use interactive_use = true
capability_eq (other_capability s) (other_capability t) = s == t
capability_eq _ _ = false

abbrev pub supports_in : List ActivityCapability → ActivityCapability → Bool
supports_in capabilities capability =
    any (λ supported. capability_eq supported capability) capabilities

unfoldable pub supports : Activity → ActivityCapability → Bool
supports a capability = supports_in a.capabilities capability

pub data ActivityError : Type 0 where
  id_and_name_required : ActivityError
  kind_required : String → ActivityError
  no_capability : String → ActivityError
  entrypoint_required : String → ActivityError
  simulation_required : String → ActivityError
  service_required : String → ActivityError
  not_interactive : String → ActivityError

abbrev pub kind_missing : ActivityKind → Bool
kind_missing (other_kind s) = is_empty s
kind_missing _ = false

abbrev pub is_served : ActivityKind → Bool
is_served service = true
is_served interactive = true
is_served _ = false

abbrev none_declared : List ActivityCapability → Bool
none_declared [] = true
none_declared (c ∷ cs) = false

unfoldable pub validate_activity : Activity → Result ActivityError (Unit {0})
unfolding supports
validate_activity a = do
  fail_if (is_empty a.id || is_empty a.name) id_and_name_required
  fail_if (kind_missing a.kind) (kind_required a.id)
  fail_if (none_declared a.capabilities) (no_capability a.id)
  fail_if (supports a real && is_empty a.command.entrypoint) (entrypoint_required a.id)
  fail_if (supports a simulation && not (is_some a.simulation_spec)) (simulation_required a.id)
  fail_if (is_served a.kind && not (is_some a.service_spec)) (service_required a.id)
  fail_if (supports a interactive_use && not (is_served a.kind)) (not_interactive a.id)

module _ (trim_space : String → String) where
  abbrev pub effective_executable : ActivityCommand → Option ExecutableReference
  effective_executable c = or_image c.executable
    where
      or_image : Option ExecutableReference → Option ExecutableReference
      or_image (some e) = some e
      or_image none = if is_empty (trim_space c.image) then none else some (oci_image c.image)
