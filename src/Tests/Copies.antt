-- ===== src/Tests/Copies.antt =====
-- Runs of the transfers.
use akoflow_workflow_engine.Prelude.{
  ℕ, zero, concat, ◌≡◌, refl, true, false, String, List, [], ◌∷◌, none, some, Option, Result, ok,
  err, arith, ◌==◌, if◌then◌else◌, ◌⊎◌, ap, sym, ◌∙◌, eq_refl, is_some,
}
use akoflow_workflow_engine.Prelude.Int.{pos}
use akoflow_workflow_engine.Prelude.Maps.{StringMap, lookup, insert, lookup-insert, keys}
use akoflow_workflow_engine.Domain.Materialization.{
  ArtifactMaterialization, BlobDescriptor, DataTransferPlan, PreparationRequirement,
  TransferLocation, WorkspaceMaterialization, source_push, planned,
}
use akoflow_workflow_engine.Transfer.{
  Connector, Tools, materialize, connector, final_name, partial_name, destination_name,
}
use akoflow_workflow_engine.Transfer.Coordinator.{prepare}
use akoflow_workflow_engine.Transfer.Delivered.{
  IsStore, AllApart, IsDelivered, HasError, materialize_ends,
}
use akoflow_workflow_engine.Transfer.Prepared.{Prepares, prepare-Prepares}

-- The objects of both ends, by name; an object is hashed to the text of its first byte.
abbrev pub Files : Type 0
Files = StringMap (List ℕ)

abbrev hash : List ℕ → String
hash [] = "empty"
hash (zero ∷ bytes) = "d0"
hash (_ ∷ bytes) = "d1"

abbrev pub tools : Tools Files
tools = record {
  hash = hash;
  path_join = λ a b. concat a (concat "/" b);
  trim_scheme = λ s. if s == "sha256:d1" then "d1" else if s == "sha256:d0" then "d0" else s;
  quoted = λ s. s;
  now = λ w. (7, w);
}

abbrev found : Option (List ℕ) → Result String (Result String (List ℕ))
found none = err "no object"
found (some bytes) = ok (ok bytes)

abbrev stored : String → Result String (List ℕ) → Files → Result String (Unit {0}) × Files
stored name (err cause) w = (err cause, w)
stored name (ok bytes) w = (ok tt, insert name bytes w)

abbrev moved : String → Option (List ℕ) → Files → Result String (Unit {0}) × Files
moved final none w = (err "no object", w)
moved final (some bytes) w = (ok tt, insert final bytes w)

abbrev pub files : Connector Files
files = record {
  can_handle = λ e. true;
  exists = λ e name w. ok (is_some (lookup name w));
  read_from = λ e name offset w. found (lookup name w);
  put = λ e name input offset w. stored name input w;
  commit = λ e partial final w. moved final (lookup partial w) w;
}

abbrev blob : String → BlobDescriptor
blob digest = record { digest = digest; size_bytes = pos 0 }

abbrev place : String → TransferLocation
place path = record { resource_id = ""; environment_id = ""; uri = "files"; path = path }

abbrev two_blobs : DataTransferPlan
two_blobs = record {
  id = "t";
  strategy = source_push;
  source = place "";
  destination = place "out";
  blobs = blob "d1" ∷ blob "d0" ∷ [];
  chunks = [];
  resume_from = [];
}

read_found :
    (name : String) (w : Files) (bytes : List ℕ) (o : Option (List ℕ))
    → found o ≡ ok (ok bytes)
    → o ≡ some bytes
read_found name w bytes none e = absurd (ground arith)
read_found name w bytes (some b) e = ground arith

put_others :
    (name other : String) (input : Result String (List ℕ)) (w : Files)
    → (name == other) ≡ false
    → lookup other (stored name input w).1 ≡ lookup other w
put_others name other (err cause) w h = refl
put_others name other (ok bytes) w h =
    lookup-insert name other bytes w ∙ ap (λ b. if b then some bytes else lookup other w) h

commit_gives :
    (final : String) (w w' : Files) (o : Option (List ℕ))
    → moved final o w ≡ (ok tt, w')
    → lookup final w' ≡ o
commit_gives final w w' none e = absurd (ground arith)
commit_gives final w w' (some bytes) e =
    let same : insert final bytes w ≡ w' = ap (λ r. r.1) e in
    ap (lookup final) (sym same)
    ∙ lookup-insert final final bytes w
    ∙ ap (λ b. if b then some bytes else lookup final w) (eq_refl final)

commit_others :
    (final other : String) (w : Files) (o : Option (List ℕ))
    → (final == other) ≡ false
    → lookup other (moved final o w).1 ≡ lookup other w
commit_others final other w none h = refl
commit_others final other w (some bytes) h =
    lookup-insert final other bytes w ∙ ap (λ b. if b then some bytes else lookup other w) h

pub files-IsStore : (plan : DataTransferPlan) → IsStore tools plan files (λ w name. lookup name w)
files-IsStore plan = record {
  reads = λ name w bytes e. read_found name w bytes (lookup name w) e;
  puts = λ name other input offset w h. put_others name other input w h;
  commits = λ partial final w w' e. commit_gives final w w' (lookup partial w) e;
  commits_only = λ partial final other w h k. commit_others final other w (lookup partial w) k;
  ticks = λ w name. refl;
}

blobs-AllApart : AllApart tools two_blobs files (λ w name. lookup name w) two_blobs.blobs
unfolding partial_name final_name destination_name
blobs-AllApart = (((refl, λ h. absurd (ground arith)), tt), (tt, tt))

abbrev executable : ArtifactMaterialization
executable = record {
  id = "m";
  run_id = "r";
  activity_id = "a";
  variant_id = "v";
  digest = "d1";
  resource_id = "";
  environment_id = "";
  destination_path = "";
  status = planned;
  verified_digest = "";
}

abbrev pub origin : Files
origin = ("d1", 1 ∷ []) ∷ ("d0", 0 ∷ []) ∷ []

materialize_ends_example :
    IsDelivered tools two_blobs files
      (λ w name. lookup name w)
      (files-IsStore two_blobs)
      blobs-AllApart
      executable
      origin
      (materialize tools (files ∷ []) two_blobs executable origin)
    ⊎ HasError tools two_blobs files
        (λ w name. lookup name w)
        (files-IsStore two_blobs)
        blobs-AllApart
        executable
        origin
        (materialize tools (files ∷ []) two_blobs executable origin)
unfolding connector
materialize_ends_example =
    materialize_ends tools two_blobs files (λ w name. lookup name w) (files-IsStore two_blobs)
      blobs-AllApart executable origin (files ∷ []) refl

abbrev workspace : WorkspaceMaterialization
workspace = record {
  id = "s";
  revision_id = "v1";
  destination = place "out";
  status = planned;
  missing = [];
  verified = [];
}

abbrev requirement : PreparationRequirement
requirement = record {
  artifact = some executable;
  artifact_transfer = some two_blobs;
  workspace = some workspace;
  workspace_transfer = some two_blobs;
}

prepare-Prepares_example :
    Prepares tools
      (files ∷ [])
      none
      keys
      requirement
      (prepare tools (files ∷ []) none keys requirement origin)
prepare-Prepares_example = prepare-Prepares tools (files ∷ []) none keys requirement origin
