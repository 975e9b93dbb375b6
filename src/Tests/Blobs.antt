-- ===== src/Tests/Blobs.antt =====
-- Runs of the reconciliation of a workspace.
use akoflow_workflow_engine.Prelude.{
  ◌≡◌, refl, String, Bool, true, false, not, ◌&&◌, ◌||◌, ◌==◌, List, [], ◌∷◌, any, all, contains,
  distinct,
}
use akoflow_workflow_engine.Prelude.Int.{pos}
use akoflow_workflow_engine.Prelude.Maps.{StringMap, keys}
use akoflow_workflow_engine.Domain.Materialization.{
  WorkspaceBlob, WorkspaceRevision, WorkspaceInventory, WorkspaceMaterialization, planned,
  reconcile_workspace, reconcile, commit,
}
use akoflow_workflow_engine.Domain.Materialization.Reconcile.{
  RangesDigests, digests_of, is_lacking, is_ok, CommitsIfOk, reconcile_workspace_lem,
  commit-reconcile,
}

abbrev blob : String → String → Bool → WorkspaceBlob
blob path digest deleted = record {
  path = path;
  digest = digest;
  size_bytes = pos 4;
  deleted = deleted;
}

-- Two files with the same bytes, one deleted, one that the destination has.
abbrev revision : WorkspaceRevision
revision = record {
  id = "r2";
  parent_id = "r1";
  blobs = blob "a" "d1" false ∷ blob "b" "d1" false ∷ blob "c" "d2" true ∷ blob "d" "d3" false ∷ [];
}

abbrev inventory : WorkspaceInventory
inventory = record { digests = ("d3", true) ∷ [] }

abbrev fresh_workspace : WorkspaceMaterialization
fresh_workspace = record {
  id = "m1";
  revision_id = "r2";
  destination = record { resource_id = ""; environment_id = ""; uri = ""; path = "" };
  status = planned;
  missing = [];
  verified = [];
}

reconcile_workspace_lem_example :
    (distinct (digests_of (reconcile_workspace revision inventory)) ≡ true)
    × ((d : String)
        → contains (digests_of (reconcile_workspace revision inventory)) d
          ≡ any (λ b. is_lacking inventory b && b.digest == d) revision.blobs)
reconcile_workspace_lem_example = reconcile_workspace_lem revision inventory

unfoldable range_digests : StringMap Bool → List String
range_digests m = keys m

range_digests-RangesDigests : RangesDigests range_digests
unfolding range_digests
range_digests-RangesDigests m d h = refl

commit-reconcile_example :
    (is_ok (commit range_digests (reconcile fresh_workspace revision inventory) ("d1" ∷ [])).0
      ≡ all (λ b. not (is_lacking inventory b) || contains ("d1" ∷ []) b.digest) revision.blobs)
    × CommitsIfOk
        (reconcile fresh_workspace revision inventory)
        (commit range_digests (reconcile fresh_workspace revision inventory) ("d1" ∷ []))
commit-reconcile_example =
    commit-reconcile range_digests range_digests-RangesDigests fresh_workspace revision inventory
      ("d1" ∷ [])
