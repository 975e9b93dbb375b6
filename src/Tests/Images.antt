-- ===== src/Tests/Images.antt =====
-- An image that is built for an environment of another architecture.
use akoflow_workflow_engine.Prelude.{
  ℕ, false, String, List, [], ◌∷◌, none, some, Option, Result, ok, err, concat,
}
use akoflow_workflow_engine.Prelude.Maps.{StringMap, lookup, insert}
use akoflow_workflow_engine.Domain.Materialization.{ArtifactBuild, BuildRun}
use akoflow_workflow_engine.Builds.{Texts, CommandRunner, Catalog, Executor, Files}
use akoflow_workflow_engine.Builds.Published.{Output}

-- The outputs of the catalog, and the files by path.
abbrev World : Type 0
World = List Output × StringMap (List ℕ)

abbrev joined : List String → String
joined [] = ""
joined (s ∷ []) = s
joined (s ∷ t ∷ rest) = concat s (concat "/" (joined (t ∷ rest)))

abbrev pub texts : Texts
texts = record {
  trim_space = λ s. s;
  trim_prefix = λ s prefix. s;
  contains_any = λ s characters. false;
  join = joined;
  base = λ s. s;
  sum = λ bytes. "01";
}

abbrev found : Option (List ℕ) → Result String (List ℕ)
found none = err "no file"
found (some bytes) = ok bytes

abbrev files : Files World
files = record {
  mkdir_all = λ path w. (ok tt, w);
  read_file = λ path w. (found (lookup path w.1), w);
}

abbrev target : List String → String
target (command ∷ option ∷ architecture ∷ path ∷ rest) = path
target _ = ""

abbrev apptainer : CommandRunner World
apptainer name arguments w = (("built", none), (w.0, insert (target arguments) (1 ∷ 2 ∷ []) w.1))

abbrev catalog : Catalog World
catalog = record {
  save_build_run = λ run w. (ok tt, w);
  publish_build_output = λ id v l w. (ok tt, ((id, (v, l)) ∷ w.0, w.1));
}

abbrev executor : Executor World
executor = record {
  catalog = some catalog;
  contexts = none;
  runner = some apptainer;
  buildctl = "";
  apptainer = "apptainer";
  artifact_store_root = "store";
}

abbrev spec : ArtifactBuild
spec = record {
  id = "b";
  artifact_version_id = "";
  source_type = "docker-image";
  context_digest = "";
  recipe_path = "alpine";
  recipe_digest = "";
  target_format = "sif";
  target_os = "linux";
  target_architecture = "";
  build_arguments = "";
  cache_key = "";
}

abbrev queued : BuildRun
queued = record {
  id = "r";
  artifact_build_id = "b";
  status = "queued";
  output_variant_id = "";
  output_digest = "";
  logs = "";
  error = "";
}

abbrev outputs : World → List Output
outputs w = w.0
