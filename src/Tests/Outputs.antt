-- ===== src/Tests/Outputs.antt =====
-- The output of a build, brought to the machine of an activity.
use akoflow_workflow_engine.Prelude.{true, String, none, some, Option, ok}
use akoflow_workflow_engine.Prelude.Int.{pos}
use akoflow_workflow_engine.Domain.Materialization.{ArtifactLocation, ArtifactVariant, system}
use akoflow_workflow_engine.Builds.Resolver.{OutputCatalog}

abbrev variant : ArtifactVariant
variant = record {
  id = "variant-r";
  artifact_id = "";
  digest = "d1";
  format = "sif";
  architecture = "";
  size_bytes = pos 1;
}

abbrev location : ArtifactLocation
location = record {
  id = "location-r";
  variant_id = "variant-r";
  scope = system;
  scope_id = "";
  endpoint_id = "artifact-store";
  uri = "files";
  digest = "d1";
  available = true;
}

abbrev built : OutputCatalog
built = record {
  find_build_output = λ build. ok (some variant, some location);
  find_docker_build_output = λ image architecture. ok (none, none);
}

abbrev from_seventh : String → Option String
from_seventh s = none
