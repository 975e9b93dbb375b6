-- ===== src/Requests.antt =====
-- internal/api/requests/workflow.go: the workflow that a user writes, and the definition that is stored.
pub mod Values
pub mod Edges
pub mod Build
pub mod RoundTrip
use akoflow_workflow_engine.Prelude.{
  ℕ, suc, ◌+◌, String, Bool, true, false, not, ◌&&◌, ◌||◌, Option, none, some, List, [], ◌∷◌, ◌++◌,
  Result, ok, err, ◌>>=◌, ◌>>◌, fail_if, if◌then◌else◌, is_empty, is_some, length, concat, map,
}
use akoflow_workflow_engine.Prelude.Int.{ℤ, pos}
use akoflow_workflow_engine.Prelude.Maps.{StringMap, lookup, insert}
use akoflow_workflow_engine.Domain.Values.{
  Float, zero_float, Metadata, text, flag, text_of, flag_of,
}
use akoflow_workflow_engine.Domain.Executable.{
  ExecutableReference, ExecutableError, oci_image, validate_executable,
}
use akoflow_workflow_engine.Domain.Workflow.{
  Activity, ActivityCommand, ActivityDependency, ActivityResources, ActivityType, Definition,
  WorkflowVersion, task, real,
}
use akoflow_workflow_engine.Requests.Values.{TextOps, identifier, cpu_value, byte_value}

pub record WorkflowActivity : Type 0 where
  pub name : String
  pub command : ActivityCommand
  pub image : String
  pub runtime : String
  pub run : String
  pub memory_limit : String
  pub cpu_limit : String
  pub depends_on : List String
  pub resource_selector : String
  pub keep_disk : Bool
  pub mount_path : String

pub record WorkflowSpec : Type 0 where
  pub namespace : String
  pub image : String
  pub storage_class_name : String
  pub storage_size : String
  pub storage_policy_type : String
  pub mount_path : String
  pub activities : List WorkflowActivity

pub record WorkflowRequest : Type 0 where
  pub name : String
  pub spec : WorkflowSpec

pub data RequestError : Type 0 where
  name_and_namespace_required activity_name_required : RequestError
  duplicate_activity : (name : String) → RequestError
  invalid_cpu_limit invalid_memory_limit : (activity cause : String) → RequestError
  command_required : (activity : String) → RequestError
  invalid_executable : (activity : String) → ExecutableError → RequestError
  unknown_activity : (activity predecessor : String) → RequestError

-- The float 3600.
abbrev pub one_hour : Float
one_hour = 4660134898793709568

abbrev pub lift_text {ℓ} :
    {A : Type ℓ} → (String → RequestError) → Result String A → Result RequestError A
lift_text e (ok a) = ok a
lift_text e (err cause) = err (e cause)

abbrev pub lift_executable :
    String → Result ExecutableError (Unit {0}) → Result RequestError (Unit {0})
lift_executable name (ok u) = ok u
lift_executable name (err e) = err (invalid_executable name e)

abbrev pub image_or : String → String → String
image_or image default_image = if is_empty image then default_image else image

abbrev pub executable_or : Option ExecutableReference → String → Option ExecutableReference
executable_or (some e) image = some e
executable_or none image = if is_empty image then none else some (oci_image image)

abbrev pub with_shell : String → ActivityCommand → ActivityCommand
with_shell run command =
    if is_empty command.entrypoint && not (is_empty run)
    then record command { entrypoint = "sh"; arguments = "-c" ∷ run ∷ [] }
    else command

-- The command of an activity, with the shell and the image that its request names.
unfoldable pub command_of : WorkflowActivity → (default_image : String) → ActivityCommand
command_of value default_image = record (with_shell value.run value.command) {
  executable = executable_or value.command.executable (image_or value.image default_image);
}

abbrev pub check_executable : String → Option ExecutableReference → Result RequestError (Unit {0})
check_executable name none = err (command_required name)
check_executable name (some e) = lift_executable name (validate_executable e)

unfoldable pub check_command : String → ActivityCommand → Result RequestError (Unit {0})
check_command name command =
    fail_if (is_empty command.entrypoint) (command_required name)
    >> check_executable name command.executable

abbrev pub metadata_of : WorkflowActivity → Metadata
metadata_of value =
    ("runtime", text value.runtime)
    ∷ ("resourceSelector", text value.resource_selector)
    ∷ ("keepDisk", flag value.keep_disk)
    ∷ ("mountPath", text value.mount_path)
    ∷ []

module _ (ops : TextOps) where
  abbrev pub made :
      WorkflowActivity
      → (default_image version_id type_id : String) → (index : ℕ) → Float
      → ℤ
      → Activity
  made value default_image version_id type_id index cpu memory = record {
    id = identifier ops value.name;
    workflow_version_id = version_id;
    activity_type_id = type_id;
    external_id = identifier ops value.name;
    name = value.name;
    kind = task;
    capabilities = real ∷ [];
    command = command_of value default_image;
    resources = record { cpu = cpu; memory_bytes = memory; storage_bytes = pos 0; gpu = pos 0 };
    service_spec = none;
    simulation_spec = none;
    policy = record {
      timeout_seconds = one_hour;
      max_attempts = pos 1;
      retry_delay_seconds = zero_float;
    };
    priority = pos (length value.depends_on + index);
    metadata = metadata_of value;
  }

  unfoldable pub activity_domain :
      WorkflowActivity
      → (default_image version_id type_id : String) → (index : ℕ) → Result RequestError Activity
  activity_domain value default_image version_id type_id index = do
    cpu ← lift_text (invalid_cpu_limit value.name) (cpu_value ops value.cpu_limit)
    memory ← lift_text (invalid_memory_limit value.name) (byte_value ops value.memory_limit)
    check_command value.name (command_of value default_image)
    ok (made value default_image version_id type_id index cpu memory)

  -- The identifiers by name: a name stands once.
  unfoldable pub names_of :
      List WorkflowActivity → StringMap String → Result RequestError (StringMap String)
  names_of [] names = ok names
  names_of (value ∷ values) names =
      let id = identifier ops value.name in
      let rest = names_of values (insert value.name id names) in
      if is_empty id
      then err activity_name_required
      else if is_some (lookup value.name names)
      then err (duplicate_activity value.name)
      else rest

  abbrev pub control : (activity predecessor : String) → ActivityDependency
  control activity predecessor = record {
    activity_id = activity;
    depends_on_activity_id = predecessor;
    dependency_type = "control";
  }

  abbrev pub depended :
      (name activity_id predecessor : String)
      → Result RequestError (List ActivityDependency)
      → Option String
      → Result RequestError (List ActivityDependency)
  depended name activity_id predecessor rest none = err (unknown_activity name predecessor)
  depended name activity_id predecessor rest (some id) = do
    later ← rest
    ok (control activity_id id ∷ later)

  -- The dependencies of one activity.
  unfoldable pub depend_on :
      StringMap String
      → (name activity_id : String) → List String
      → Result RequestError (List ActivityDependency)
  depend_on names name activity_id [] = ok []
  depend_on names name activity_id (predecessor ∷ predecessors) =
      depended name activity_id predecessor (depend_on names name activity_id predecessors)
        (lookup predecessor names)

  unfoldable pub activities_of :
      StringMap String
      → (default_image version_id type_id : String) → (index : ℕ) → List WorkflowActivity
      → Result RequestError (List Activity × List ActivityDependency)
  activities_of names default_image version_id type_id index [] = ok ([], [])
  activities_of names default_image version_id type_id index (value ∷ values) =
      let rest = activities_of names default_image version_id type_id (suc index) values in
      do
        activity ← activity_domain value default_image version_id type_id index
        dependencies ← depend_on names value.name activity.id value.depends_on
        (later, more) ← rest
        ok (activity ∷ later, dependencies ++ more)

  abbrev pub definition_of :
      WorkflowRequest → String → List Activity × List ActivityDependency → Definition
  definition_of request id (activities, dependencies) = record {
    id = id;
    external_id = id;
    name = request.name;
    namespace = request.spec.namespace;
    version = record {
      id = concat id "-v1";
      workflow_id = id;
      version = pos 1;
      definition_hash = concat id "-v1";
      activities = activities;
      dependencies = dependencies;
      data_dependencies = [];
    };
    types =
        record {
          id = concat id "-activity";
          name = concat request.name " activity";
          application = "";
          default_image = request.spec.image;
          cpu_intensity = zero_float;
          memory_intensity = zero_float;
          io_intensity = zero_float;
          network_intensity = zero_float;
          metadata = [];
        }
        ∷ [];
  }

  unfoldable pub domain : WorkflowRequest → Result RequestError Definition
  unfolding names_of activities_of
  domain request =
      let id = identifier ops request.name in
      fail_if (is_empty id || is_empty request.spec.namespace) name_and_namespace_required >> (do
        names ← names_of request.spec.activities []
        both ←
            activities_of names request.spec.image (concat id "-v1") (concat id "-activity") 0
              request.spec.activities
        ok (definition_of request id both))

abbrev pub list_or_empty : Option (List String) → List String
list_or_empty none = []
list_or_empty (some l) = l

-- The predecessors by activity, in the order of the dependencies.
unfoldable pub dependencies_of :
    List ActivityDependency → StringMap (List String) → StringMap (List String)
dependencies_of [] m = m
dependencies_of (d ∷ ds) m = dependencies_of ds (
    insert d.activity_id (list_or_empty (lookup d.activity_id m) ++ d.depends_on_activity_id ∷ [])
      m)

unfoldable pub names_by_id : List Activity → StringMap String → StringMap String
names_by_id [] m = m
names_by_id (a ∷ activities) m = names_by_id activities (insert a.id a.name m)

abbrev pub text_or_empty : Option String → String
text_or_empty none = ""
text_or_empty (some s) = s

unfoldable pub predecessor_names : StringMap String → List String → List String
predecessor_names names [] = []
predecessor_names names (id ∷ ids) =
    let rest = predecessor_names names ids in
    let name = text_or_empty (lookup id names) in if is_empty name then rest else name ∷ rest

unfoldable pub item_of :
    TextOps → StringMap (List String) → StringMap String → Activity → WorkflowActivity
unfolding predecessor_names
item_of ops dependencies names a = record {
  name = a.name;
  command = record a.command { resolved_executable = none };
  image = "";
  runtime = text_of a.metadata "runtime";
  run = "";
  memory_limit = ops.format_int a.resources.memory_bytes;
  cpu_limit = ops.format_float a.resources.cpu;
  depends_on = predecessor_names names (list_or_empty (lookup a.id dependencies));
  resource_selector = text_of a.metadata "resourceSelector";
  keep_disk = flag_of a.metadata "keepDisk";
  mount_path = text_of a.metadata "mountPath";
}

-- FromDomain
unfoldable pub from_domain : TextOps → Definition → WorkflowRequest
unfolding dependencies_of names_by_id item_of
from_domain ops d = record {
  name = d.name;
  spec = record {
    namespace = d.namespace;
    image = "";
    storage_class_name = "";
    storage_size = "";
    storage_policy_type = "";
    mount_path = "";
    activities =
        map
          (item_of ops (dependencies_of d.version.dependencies [])
            (names_by_id d.version.activities []))
          d.version.activities;
  };
}
