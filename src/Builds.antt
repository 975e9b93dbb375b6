-- ===== src/Builds.antt =====
-- internal/application/build/service.go: `Execute` builds an artifact with the commands that are configured, and publishes what they
-- write. Files, commands, build contexts and the catalog are functions on a state W.
pub mod Published
pub mod Resolver
use akoflow_workflow_engine.Prelude.{
  ℕ, String, Bool, true, ◌==◌, ◌||◌, not, Option, none, some, List, [], ◌∷◌, Result, ok, err,
  if◌then◌else◌, is_empty, length, concat,
}
use akoflow_workflow_engine.Prelude.Int.{ℤ, pos}
use akoflow_workflow_engine.Domain.Materialization.{
  ArtifactBuild, ArtifactLocation, ArtifactVariant, BuildRun, system,
}

-- What packages strings, filepath, sha256 and hex compute.
pub record Texts : Type 0 where
  pub trim_space : String → String
  pub trim_prefix : String → String → String
  pub contains_any : String → String → Bool
  pub join : List String → String
  pub base : String → String
  -- The sum of some bytes, in hexadecimal.
  pub sum : List ℕ → String

-- A command's output, and its error if it has one.
abbrev pub Ran : Type 0 → Type 0
Ran W = (String × Option String) × W

abbrev pub CommandRunner : Type 0 → Type 0
CommandRunner W = String → List String → W → Ran W

abbrev pub ContextResolver : Type 0 → Type 0
ContextResolver W = String → W → Result String String × W

pub record Catalog (W : Type 0) : Type 0 where
  pub save_build_run : BuildRun → W → Result String (Unit {0}) × W
  pub publish_build_output :
      String → ArtifactVariant → ArtifactLocation → W → Result String (Unit {0}) × W

pub record Executor (W : Type 0) : Type 0 where
  pub catalog : Option (Catalog W)
  pub contexts : Option (ContextResolver W)
  pub runner : Option (CommandRunner W)
  pub buildctl : String
  pub apptainer : String
  pub artifact_store_root : String

pub record Files (W : Type 0) : Type 0 where
  pub mkdir_all : String → W → Result String (Unit {0}) × W
  pub read_file : String → W → Result String (List ℕ) × W

-- The path of an output or an error, then the logs.
abbrev pub Built : Type 0 → Type 0
Built W = (Result String String × String) × W

-- The run, and its error if it has one.
abbrev pub Answer : Type 0 → Type 0
Answer W = (BuildRun × Option String) × W

abbrev pub is_docker_image : ArtifactBuild → Bool
is_docker_image spec = spec.source_type == "docker-image"

module _ {W : Type 0} (texts : Texts) (files : Files W) (executor : Executor W) where
  abbrev pub save_to : Option (Catalog W) → BuildRun → W → Result String (Unit {0}) × W
  save_to none run w = (ok tt, w)
  save_to (some c) run w = c.save_build_run run w

  unfoldable pub save : BuildRun → W → Result String (Unit {0}) × W
  save run w = save_to executor.catalog run w

  abbrev pub failed : BuildRun → String → BuildRun
  failed run message = record run { status = "failed"; error = message }

  unfoldable pub fail : BuildRun → String → W → Answer W
  fail run message w = (
    (failed run message, some (concat "build " (concat run.id (concat ": " message)))),
    (save (failed run message) w).1,
  )

  abbrev pub sif_path : BuildRun → String
  sif_path run = texts.join (executor.artifact_store_root ∷ "outputs" ∷ concat run.id ".sif" ∷ [])

  abbrev pub oci_path : BuildRun → String
  oci_path run =
      texts.join (executor.artifact_store_root ∷ "outputs" ∷ concat run.id ".oci.tar" ∷ [])

  abbrev pub image_of : ArtifactBuild → String
  image_of spec = texts.trim_prefix (texts.trim_space spec.recipe_path) "docker://"

  abbrev pub or_default : String → String → String
  or_default value default = if is_empty value then default else value

  abbrev pub after_docker : BuildRun → Ran W → Built W
  after_docker run ((output, some cause), w) = ((err cause, output), w)
  after_docker run ((output, none), w) = ((ok (sif_path run), output), w)

  abbrev pub docker_arguments : ArtifactBuild → BuildRun → List String
  docker_arguments spec run =
      "build"
      ∷ "--arch"
      ∷ or_default (texts.trim_space spec.target_architecture) "amd64"
      ∷ sif_path run
      ∷ concat "docker://" (image_of spec)
      ∷ []

  unfoldable pub docker_output : CommandRunner W → ArtifactBuild → BuildRun → W → Built W
  docker_output runner spec run w =
      if not (spec.target_format == "sif")
      then ((err "Docker image artifacts must target SIF", ""), w)
      else if is_empty (image_of spec) || texts.contains_any (image_of spec) " \t\n\r"
      then ((err "a valid Docker image reference is required", ""), w)
      else if is_empty executor.apptainer
      then ((err "Apptainer builder is not configured", ""), w)
      else after_docker run (runner executor.apptainer (docker_arguments spec run) w)

  abbrev pub build_arguments : ArtifactBuild → BuildRun → (context_path : String) → List String
  build_arguments spec run context_path =
      "build"
      ∷ "--frontend=dockerfile.v0"
      ∷ "--local"
      ∷ concat "context=" context_path
      ∷ "--local"
      ∷ concat "dockerfile=" context_path
      ∷ "--opt"
      ∷ concat "filename=" spec.recipe_path
      ∷ "--opt"
      ∷ concat "platform=" (concat spec.target_os (concat "/" spec.target_architecture))
      ∷ "--output"
      ∷ concat "type=oci,dest=" (oci_path run)
      ∷ []

  abbrev pub after_convert : BuildRun → (logs : String) → Ran W → Built W
  after_convert run logs ((output, some cause), w) =
      ((err cause, concat logs (concat "\n" output)), w)
  after_convert run logs ((output, none), w) =
      ((ok (sif_path run), concat logs (concat "\n" output)), w)

  abbrev pub convert : CommandRunner W → BuildRun → (logs : String) → W → Built W
  convert runner run logs w =
      if is_empty executor.apptainer
      then ((err "Apptainer builder is not configured", logs), w)
      else after_convert run logs (
          runner executor.apptainer
            ("build" ∷ sif_path run ∷ concat "oci-archive:" (oci_path run) ∷ []) w)

  abbrev pub after_buildctl : CommandRunner W → ArtifactBuild → BuildRun → Ran W → Built W
  after_buildctl runner spec run ((output, some cause), w) = ((err cause, output), w)
  after_buildctl runner spec run ((output, none), w) =
      if spec.target_format == "sif"
      then convert runner run output w
      else ((ok (oci_path run), output), w)

  unfoldable pub context_output :
      CommandRunner W → ArtifactBuild → BuildRun → (context_path : String) → W → Built W
  context_output runner spec run context_path w =
      after_buildctl runner spec run
        (runner (or_default executor.buildctl "buildctl") (build_arguments spec run context_path) w)

  abbrev pub after_mkdir :
      CommandRunner W
      → ArtifactBuild
      → BuildRun
      → (context_path : String) → Result String (Unit {0}) × W
      → Built W
  after_mkdir runner spec run context_path (err cause, w) = ((err cause, ""), w)
  after_mkdir runner spec run context_path (ok u, w) =
      if is_docker_image spec
      then docker_output runner spec run w
      else context_output runner spec run context_path w

  unfoldable pub build_output :
      CommandRunner W → ArtifactBuild → BuildRun → (context_path : String) → W → Built W
  build_output runner spec run context_path w =
      if is_empty executor.artifact_store_root
      then ((err "artifact store is not configured", ""), w)
      else after_mkdir runner spec run context_path
          (files.mkdir_all (texts.join (executor.artifact_store_root ∷ "outputs" ∷ [])) w)

  abbrev pub digest_of : List ℕ → String
  digest_of bytes = concat "sha256:" (texts.sum bytes)

  abbrev pub variant_of : ArtifactBuild → BuildRun → List ℕ → ArtifactVariant
  variant_of spec run bytes = record {
    id = concat "variant-" run.id;
    artifact_id = "";
    digest = digest_of bytes;
    format = or_default spec.target_format "oci";
    architecture = spec.target_architecture;
    size_bytes = pos (length bytes);
  }

  abbrev pub location_of : BuildRun → (output_path : String) → List ℕ → ArtifactLocation
  location_of run output_path bytes = record {
    id = concat "location-" run.id;
    variant_id = concat "variant-" run.id;
    scope = system;
    scope_id = "";
    endpoint_id = "artifact-store";
    uri = concat "artifact://outputs/" (texts.base output_path);
    digest = digest_of bytes;
    available = true;
  }

  abbrev pub completed : BuildRun → List ℕ → BuildRun
  completed run bytes = record run {
    status = "completed";
    output_variant_id = concat "variant-" run.id;
    output_digest = digest_of bytes;
  }

  abbrev pub after_save : BuildRun → Result String (Unit {0}) × W → Answer W
  after_save run (err cause, w) = ((run, some cause), w)
  after_save run (ok u, w) = ((run, none), w)

  abbrev pub after_publish : BuildRun → List ℕ → Result String (Unit {0}) × W → Answer W
  after_publish run bytes (err cause, w) = fail run cause w
  after_publish run bytes (ok u, w) =
      after_save (completed run bytes) (save (completed run bytes) w)

  abbrev pub publish_to :
      ArtifactBuild → BuildRun → String → List ℕ → W → Option (Catalog W) → Answer W
  publish_to spec run output_path bytes w none = fail run "build catalog is not configured" w
  publish_to spec run output_path bytes w (some c) = after_publish run bytes (
      c.publish_build_output run.id (variant_of spec run bytes) (location_of run output_path bytes)
        w)

  abbrev pub publishing : BuildRun → BuildRun
  publishing run = record run { status = "publishing" }

  abbrev pub after_read : ArtifactBuild → BuildRun → String → Result String (List ℕ) × W → Answer W
  after_read spec run output_path (err cause, w) = fail run (concat "read build output: " cause) w
  after_read spec run output_path (ok bytes, w) =
      publish_to spec (publishing run) output_path bytes (save (publishing run) w).1
        executor.catalog

  unfoldable pub publish : ArtifactBuild → BuildRun → (output_path : String) → W → Answer W
  publish spec run output_path w = after_read spec run output_path (files.read_file output_path w)

  abbrev pub with_logs : BuildRun → String → BuildRun
  with_logs run logs = record run { logs = concat run.logs logs }

  abbrev pub after_build : ArtifactBuild → BuildRun → Built W → Answer W
  after_build spec run ((err cause, logs), w) = fail (with_logs run logs) cause w
  after_build spec run ((ok output_path, logs), w) = publish spec (with_logs run logs) output_path w

  abbrev pub running : BuildRun → BuildRun
  running run = record run { status = "running" }

  abbrev pub build_and_publish :
      CommandRunner W → ArtifactBuild → BuildRun → (context_path : String) → W → Answer W
  build_and_publish runner spec run context_path w =
      after_build spec (running run)
        (build_output runner spec (running run) context_path (save (running run) w).1)

  abbrev pub after_context :
      CommandRunner W → ArtifactBuild → BuildRun → Result String String × W → Answer W
  after_context runner spec run (err cause, w) =
      fail run (concat "resolve immutable build context: " cause) w
  after_context runner spec run (ok context_path, w) =
      if is_empty (texts.trim_space context_path)
      then fail run "build context is unavailable" w
      else build_and_publish runner spec run context_path w

  abbrev pub with_contexts :
      CommandRunner W → ArtifactBuild → BuildRun → W → Option (ContextResolver W) → Answer W
  with_contexts runner spec run w none = fail run "builder is not configured" w
  with_contexts runner spec run w (some resolve) =
      after_context runner spec run (resolve spec.context_digest w)

  abbrev pub with_runner : ArtifactBuild → BuildRun → W → Option (CommandRunner W) → Answer W
  with_runner spec run w none = fail run "builder is not configured" w
  with_runner spec run w (some runner) =
      if is_docker_image spec
      then build_and_publish runner spec run "" w
      else with_contexts runner spec run w executor.contexts

  unfoldable pub execute : ArtifactBuild → BuildRun → W → Answer W
  execute spec run w = with_runner spec run w executor.runner
