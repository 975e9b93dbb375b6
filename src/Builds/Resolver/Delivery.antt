-- ===== src/Builds/Resolver/Delivery.antt =====
-- What `Materialize` makes of the requirement that internal/application/build/resolver.go answers for the output of a build.
use akoflow_workflow_engine.Prelude.{ℕ, String, true, Option, none, List, [], ◌∷◌, ◌≡◌}
use akoflow_workflow_engine.Domain.Materialization.{
  ArtifactMaterialization, ArtifactVariant, DataTransferPlan, has_committed,
}
use akoflow_workflow_engine.Domain.Resource.{Resource}
use akoflow_workflow_engine.Transfer.{Connector, Tools, Materialized, final_name}
use akoflow_workflow_engine.Transfer.Delivered.{IsStored}
use akoflow_workflow_engine.Builds.{Texts}

-- An artifact and the plan that brings it to an activity.
record IsFor (v : ArtifactVariant) (activity_id : String) (m : ArtifactMaterialization)
    (plan : DataTransferPlan) : Type 0 where
  same_digest : m.digest ≡ v.digest
  same_variant : m.variant_id ≡ v.id
  same_activity : m.activity_id ≡ activity_id
  one_blob : plan.blobs ≡ record { digest = v.digest; size_bytes = v.size_bytes } ∷ []

module _ (texts : Texts) (lower : String → String) (from_seventh : String → Option String)
    (activity_id : String) (resource : Resource) (path : String) where
  module _ {W : Type 0} (tools : Tools W) (plan : DataTransferPlan) (dc : Connector W)
      (contents : W → String → Option (List ℕ)) where
    -- The bytes of the variant stand at the resource, and its materialization is committed for the activity.
    pub record IsInPlace (v : ArtifactVariant) (x : Materialized W) : Type 0 where
      pub no_error : x.error ≡ none
      pub there : IsStored tools plan dc contents x.world (final_name tools plan v.digest) v.digest
      pub is_committed : has_committed x.target ≡ true
      pub same_variant : x.target.variant_id ≡ v.id
      pub same_activity : x.target.activity_id ≡ activity_id
