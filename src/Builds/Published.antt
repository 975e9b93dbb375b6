-- ===== src/Builds/Published.antt =====
-- internal/application/build/service.go: what `Execute` publishes.
use akoflow_workflow_engine.Prelude.{
  ℕ, String, true, ◌==◌, Option, some, List, ◌∷◌, Result, ok, err, ◌≡◌, ◌⊎◌, if◌then◌else◌, is_some,
}
use akoflow_workflow_engine.Domain.Materialization.{
  ArtifactBuild, ArtifactLocation, ArtifactVariant, BuildRun,
}
use akoflow_workflow_engine.Builds.{
  Texts, CommandRunner, ContextResolver, Catalog, Executor, Files, Built, Answer, save, sif_path,
  oci_path, digest_of, variant_of, location_of,
}

-- An output: the id of its run, its variant and its location.
abbrev pub Output : Type 0
Output = String × (ArtifactVariant × ArtifactLocation)

module _ {W : Type 0} (texts : Texts) (files : Files W) (executor : Executor W)
    (outputs : W → List Output) where
  -- The catalog's outputs change when it takes a new one, and not otherwise.
  pub record RecordsOutputs : Type 0 where
    pub saves : (run : BuildRun) (w : W) → outputs (save texts files executor run w).1 ≡ outputs w
    pub makes : (path : String) (w : W) → outputs (files.mkdir_all path w).1 ≡ outputs w
    pub reads : (path : String) (w : W) → outputs (files.read_file path w).1 ≡ outputs w
    pub runs :
        (runner : CommandRunner W) (name : String) (arguments : List String) (w : W)
        → executor.runner ≡ some runner
        → outputs (runner name arguments w).1 ≡ outputs w
    pub resolves :
        (resolve : ContextResolver W) (digest : String) (w : W)
        → executor.contexts ≡ some resolve
        → outputs (resolve digest w).1 ≡ outputs w
    pub publishes :
        (c : Catalog W) (id : String) (v : ArtifactVariant) (l : ArtifactLocation) (w w' : W)
        → executor.catalog ≡ some c
        → c.publish_build_output id v l w ≡ (ok tt, w')
        → outputs w' ≡ (id, (v, l)) ∷ outputs w
    pub refuses :
        (c : Catalog W) (id cause : String) (v : ArtifactVariant) (l : ArtifactLocation) (w w' : W)
        → executor.catalog ≡ some c
        → c.publish_build_output id v l w ≡ (err cause, w')
        → outputs w' ≡ outputs w

  module _ (laws : RecordsOutputs) (spec : ArtifactBuild) where
    -- Where the output of a build is.
    abbrev pub output_path : BuildRun → String
    output_path run =
        if spec.target_format == "sif"
        then sif_path texts files executor run
        else oci_path texts files executor run

    abbrev pub output_of : BuildRun → List ℕ → Output
    output_of run bytes = (
      run.id,
      (
        variant_of texts files executor spec run bytes,
        location_of texts files executor run (output_path run) bytes,
      ),
    )

    -- The run has failed, with an error, and nothing is published.
    abbrev pub HasFailed : List Output → BuildRun → Option String → W → Type 0
    HasFailed before ended error w' =
        (ended.status ≡ "failed") × (is_some error ≡ true) × (outputs w' ≡ before)

    -- The run has completed, and the bytes of its output are published.
    abbrev pub HasPublished : BuildRun → List Output → BuildRun → W → Type 0
    HasPublished run before ended w' =
        (bytes : List ℕ) × (w : W) × ((files.read_file (output_path run) w).0 ≡ ok bytes)
        × (ended.status ≡ "completed")
        × (ended.output_digest ≡ digest_of texts files executor bytes)
        × (outputs w' ≡ output_of run bytes ∷ before)

    abbrev pub Ends : BuildRun → List Output → Answer W → Type 0
    Ends run before a =
        (a.0.0.id ≡ run.id) × (HasFailed before a.0.0 a.0.1 a.1 ⊎ HasPublished run before a.0.0 a.1)

    -- A path is the place of the output.
    abbrev IsInPlace : BuildRun → Result String String → Type 0
    IsInPlace run (err cause) = Unit
    IsInPlace run (ok path) = path ≡ output_path run

    -- Nothing is published, and an output is in its place.
    abbrev IsReady : BuildRun → List Output → Built W → Type 0
    IsReady run before ((r, logs), w) = (outputs w ≡ before) × IsInPlace run r
