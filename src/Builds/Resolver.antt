-- ===== src/Builds/Resolver.antt =====
-- internal/application/build/resolver.go: the output of a build becomes what an activity needs at its resource.
pub mod Delivery
use akoflow_workflow_engine.Prelude.{
  String, Bool, ◌==◌, ◌||◌, Option, none, some, [], ◌∷◌, Result, ok, err, ◌>>=◌, if◌then◌else◌,
  is_empty, concat,
}
use akoflow_workflow_engine.Domain.Materialization.{
  ArtifactLocation, ArtifactMaterialization, ArtifactVariant, DataTransferPlan,
  PreparationRequirement, planned, source_push,
}
use akoflow_workflow_engine.Domain.Resource.{Resource}
use akoflow_workflow_engine.Builds.{Texts}

abbrev pub Found : Type 0
Found = Option ArtifactVariant × Option ArtifactLocation

pub record OutputCatalog : Type 0 where
  pub find_build_output : String → Result String Found
  pub find_docker_build_output : (image architecture : String) → Result String Found

-- `out_of_range` stands for the panic of `Digest[7:]` on a digest that is shorter.
pub data ResolveError : Type 0 where
  catalog_unavailable out_of_range : ResolveError
  find_failed : (cause : String) → ResolveError
  no_completed_output : (build : String) → ResolveError

abbrev pub materialization_of :
    ArtifactVariant
    → (activity_id : String) → Resource
    → (destination : String) → ArtifactMaterialization
materialization_of v activity_id resource destination = record {
  id = concat "materialization-" (concat activity_id (concat "-" v.id));
  run_id = "";
  activity_id = activity_id;
  variant_id = v.id;
  digest = v.digest;
  resource_id = resource.id;
  environment_id = resource.environment_version_id;
  destination_path = destination;
  status = planned;
  verified_digest = "";
}

abbrev pub transfer_of :
    ArtifactVariant
    → ArtifactLocation
    → (activity_id : String) → Resource
    → (destination : String) → DataTransferPlan
transfer_of v l activity_id resource destination = record {
  id = concat "transfer-" (materialization_of v activity_id resource destination).id;
  strategy = source_push;
  source = record { resource_id = ""; environment_id = ""; uri = l.uri; path = "" };
  destination = record {
    resource_id = resource.id;
    environment_id = resource.environment_version_id;
    uri = concat "file://" destination;
    path = destination;
  };
  blobs = record { digest = v.digest; size_bytes = v.size_bytes } ∷ [];
  chunks = [];
  resume_from = [];
}

abbrev pub requirement_at :
    ArtifactVariant
    → ArtifactLocation
    → (activity_id : String) → Resource
    → (destination : String) → PreparationRequirement
requirement_at v l activity_id resource destination = record {
  artifact = some (materialization_of v activity_id resource destination);
  artifact_transfer = some (transfer_of v l activity_id resource destination);
  workspace = none;
  workspace_transfer = none;
}

-- `lower` is strings.ToLower, and `from_seventh` the text from byte 7, if there is one.
module _ (texts : Texts) (lower : String → String) (from_seventh : String → Option String) where
  unfoldable pub normalized_architecture : String → String
  normalized_architecture value =
      let known = lower (texts.trim_space value) in
      if known == "x86_64" || known == "x64"
      then "amd64"
      else if known == "aarch64"
      then "arm64"
      else value

  abbrev pub default_destination : ArtifactVariant → Option String → Result ResolveError String
  default_destination v none = err out_of_range
  default_destination v (some name) =
      ok (texts.join (".akoflow" ∷ "artifacts" ∷ concat name (concat "." v.format) ∷ []))

  abbrev pub destination_or : ArtifactVariant → (destination : String) → Result ResolveError String
  destination_or v destination =
      if is_empty destination then default_destination v (from_seventh v.digest) else ok destination

  unfoldable pub preparation_for_output :
      ArtifactVariant
      → ArtifactLocation
      → (activity_id : String) → Resource
      → (destination : String) → Result ResolveError PreparationRequirement
  preparation_for_output v l activity_id resource destination = do
    path ← destination_or v destination
    ok (requirement_at v l activity_id resource path)

  module _ (activity_id : String) (resource : Resource) (destination : String) where
    abbrev pub after_output :
        (build : String) → Result String Found → Result ResolveError PreparationRequirement
    after_output build (err cause) = err (find_failed cause)
    after_output build (ok (some v, some l)) =
        preparation_for_output v l activity_id resource destination
    after_output build (ok (some v, none)) = err (no_completed_output build)
    after_output build (ok (none, l)) = err (no_completed_output build)

    unfoldable pub preparation :
        Option OutputCatalog → (build : String) → Result ResolveError PreparationRequirement
    preparation none build = err catalog_unavailable
    preparation (some c) build = after_output build (c.find_build_output build)

    abbrev pub some_ok :
        PreparationRequirement → Result ResolveError (Option PreparationRequirement)
    some_ok p = ok (some p)

    abbrev pub after_image :
        Result String Found → Result ResolveError (Option PreparationRequirement)
    after_image (err cause) = err (find_failed cause)
    after_image (ok (some v, some l)) =
        preparation_for_output v l activity_id resource destination >>= some_ok
    after_image (ok (some v, none)) = ok none
    after_image (ok (none, l)) = ok none

    unfoldable pub preparation_for_docker_image :
        Option OutputCatalog
        → (image : String) → Result ResolveError (Option PreparationRequirement)
    preparation_for_docker_image none image = err catalog_unavailable
    preparation_for_docker_image (some c) image =
        after_image
          (c.find_docker_build_output image (normalized_architecture resource.architecture))
