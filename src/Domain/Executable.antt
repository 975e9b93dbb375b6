-- ===== src/Domain/Executable.antt =====
-- internal/domain/workflow/executable.go: where an activity's program comes from. A Go string type with constants is a
-- data type with a constructor for each, and one for any other string.
use akoflow_workflow_engine.Prelude.{
  String, Bool, true, Option, none, some, Result, err, fail_if, is_empty, ◌&&◌, ◌||◌, if◌then◌else◌,
}

pub data ExecutableSourceType : Type 0 where
  catalog oci local_container_image build local_file remote_file object_storage http :
      ExecutableSourceType
  other_source : String → ExecutableSourceType

pub data DeliveryStrategy : Type 0 where
  auto managed use_in_place destination_pull gateway_transfer build_and_transfer : DeliveryStrategy
  prefer_in_place : DeliveryStrategy
  other_delivery : String → DeliveryStrategy

pub data ExecutableFormat : Type 0 where
  oci_format sif_format : ExecutableFormat
  other_format : String → ExecutableFormat

pub record ArtifactReference : Type 0 where
  pub id : String
  pub version : String

pub record ExecutableSource : Type 0 where
  pub source_type : ExecutableSourceType
  pub reference : String
  pub path : String
  pub uri : String
  pub artifact_ref : Option ArtifactReference
  pub environment_ref : String
  pub resource_ref : String
  pub expected_digest : String
  pub format : ExecutableFormat
  pub artifact_build_ref : String
  pub credential_ref : String

pub record ExecutableDelivery : Type 0 where
  pub strategy : DeliveryStrategy
  pub target_format : ExecutableFormat

pub record ExecutableReference : Type 0 where
  pub source : ExecutableSource
  pub delivery : ExecutableDelivery

pub record ResolvedExecutable : Type 0 where
  pub variant_id : String
  pub digest : String
  pub format : ExecutableFormat
  pub local_path : String
  pub remote_path : String
  pub environment_id : String
  pub resource_id : String
  pub delivery : DeliveryStrategy
  pub materialization_id : String
  pub materialization_done : Bool

pub data ExecutableError : Type 0 where
  source_type_required : ExecutableError
  artifact_ref_required : ExecutableError
  reference_required : ExecutableSourceType → ExecutableError
  artifact_build_ref_required : ExecutableError
  path_required : ExecutableError
  path_and_place_required : ExecutableError
  uri_required : ExecutableSourceType → ExecutableError
  unsupported_source_type : String → ExecutableError

abbrev lacks_artifact_ref : Option ArtifactReference → Bool
lacks_artifact_ref none = true
lacks_artifact_ref (some r) = is_empty r.id

abbrev validate_source : ExecutableSourceType → ExecutableSource → Result ExecutableError (Unit {0})
validate_source catalog s = fail_if (lacks_artifact_ref s.artifact_ref) artifact_ref_required
validate_source oci s = fail_if (is_empty s.reference) (reference_required oci)
validate_source local_container_image s =
    fail_if (is_empty s.reference) (reference_required local_container_image)
validate_source build s = fail_if (is_empty s.artifact_build_ref) artifact_build_ref_required
validate_source local_file s = fail_if (is_empty s.path) path_required
validate_source remote_file s =
    fail_if (is_empty s.path || (is_empty s.environment_ref && is_empty s.resource_ref))
      path_and_place_required
validate_source object_storage s = fail_if (is_empty s.uri) (uri_required object_storage)
validate_source http s = fail_if (is_empty s.uri) (uri_required http)
validate_source (other_source name) s =
    if is_empty name then err source_type_required else err (unsupported_source_type name)

-- The delivery strategy that `Validate` defaults is that of its own copy, which it does not read again.
unfoldable pub validate_executable : ExecutableReference → Result ExecutableError (Unit {0})
validate_executable e = validate_source e.source.source_type e.source

-- The image of a registry, delivered as its runtime chooses.
abbrev pub oci_image : String → ExecutableReference
oci_image image = record {
  source = record {
    source_type = oci;
    reference = image;
    path = "";
    uri = "";
    artifact_ref = none;
    environment_ref = "";
    resource_ref = "";
    expected_digest = "";
    format = other_format "";
    artifact_build_ref = "";
    credential_ref = "";
  };
  delivery = record { strategy = auto; target_format = other_format "" };
}
