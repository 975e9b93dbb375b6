-- ===== src/Tests/Submitted.antt =====
-- A workflow of two activities that a user submits, and what comes back.
use akoflow_workflow_engine.Prelude.{
  ◌≡◌, refl, true, false, String, ℕ, List, [], ◌∷◌, none, ok, err, if◌then◌else◌, ◌==◌, not, nat_eq,
  distinct,
}
use akoflow_workflow_engine.Prelude.Int.{pos}
use akoflow_workflow_engine.Prelude.Maps.{lookup, insert}
use akoflow_workflow_engine.Domain.Executable.{validate_executable}
use akoflow_workflow_engine.Domain.Workflow.{Definition}
use akoflow_workflow_engine.Requests.Values.{
  TextOps, identifier, cpu_value, byte_value, trim_dashes, drop_dashes, reverse, dash, tenth,
}
use akoflow_workflow_engine.Requests.{
  WorkflowActivity, WorkflowRequest, names_of, activities_of, activity_domain, command_of, made,
  control, check_command, depend_on, definition_of, domain, from_domain,
}
use akoflow_workflow_engine.Requests.Edges.{ids_of}
use akoflow_workflow_engine.Requests.Build.{IsBlank, Defines, domain-Defines}
use akoflow_workflow_engine.Requests.RoundTrip.{ComesBack, from_domain-domain}

abbrev letters : String → List ℕ
letters s =
    if s == "w"
    then 119 ∷ []
    else if s == "a"
    then 97 ∷ []
    else if s == "b-"
    then 98 ∷ dash ∷ []
    else []

abbrev word : List ℕ → String
word [] = ""
word (r ∷ rs) = if nat_eq r 119 then "w" else if nat_eq r 97 then "a" else "b"

abbrev ops : TextOps
ops = record {
  runes = letters;
  of_runes = word;
  lower = λ s. s;
  trim_space = λ s. s;
  is_letter = λ r. not (nat_eq r dash);
  is_digit = λ r. false;
  has_suffix = λ s suffix. false;
  trim_suffix = λ s suffix. s;
  parse_float = λ s. err s;
  parse_int = λ s. err s;
  format_float = λ x. "0.1";
  format_int = λ n. "16777216";
  divide = λ x y. x;
  multiply = λ x y. x;
  to_int = λ x. pos x;
}

abbrev activity_named : String → List String → WorkflowActivity
activity_named name predecessors = record {
  name = name;
  command = record {
    image = "";
    executable = none;
    resolved_executable = none;
    entrypoint = "";
    arguments = [];
    environment = [];
    working_directory = "";
  };
  image = "";
  runtime = "docker";
  run = "make";
  memory_limit = "";
  cpu_limit = "";
  depends_on = predecessors;
  resource_selector = "gpu";
  keep_disk = true;
  mount_path = "/data";
}

abbrev request : WorkflowRequest
request = record {
  name = "w";
  spec = record {
    namespace = "lab";
    image = "alpine";
    storage_class_name = "";
    storage_size = "";
    storage_policy_type = "";
    mount_path = "";
    activities = activity_named "a" [] ∷ activity_named "b-" ("a" ∷ []) ∷ [];
  };
}

ops-IsBlank : IsBlank ops
unfolding identifier trim_dashes drop_dashes reverse
ops-IsBlank = refl

abbrev stored : Definition
stored = definition_of ops request "w" (
  made ops (activity_named "a" []) "alpine" "w-v1" "w-activity" 0 tenth (pos 16777216)
      ∷ made ops (activity_named "b-" ("a" ∷ [])) "alpine" "w-v1" "w-activity" 1 tenth
          (pos 16777216)
      ∷ [],
  control ops "b" "a" ∷ [],
)

request-domain : domain ops request ≡ ok stored
unfolding domain names_of activities_of activity_domain depend_on check_command command_of cpu_value
    byte_value identifier trim_dashes drop_dashes reverse validate_executable lookup insert
request-domain = refl

domain-Defines_example : Defines ops request stored
domain-Defines_example = domain-Defines ops ops-IsBlank request stored request-domain

once : distinct (ids_of ops request.spec.activities) ≡ true
unfolding identifier trim_dashes drop_dashes reverse
once = refl

from_domain-domain_example : ComesBack ops request (from_domain ops stored)
from_domain-domain_example = from_domain-domain ops request stored ops-IsBlank once request-domain
