-- ===== src/Domain/Materialization/Reconcile.antt =====
-- What `ReconcileWorkspace` and `Commit` of domain/execution/materialization.go ask of each other.
use akoflow_workflow_engine.Prelude.{
  ◌≡◌, refl, sym, ◌∙◌, subst, String, Bool, true, false, not, ◌&&◌, ◌||◌, ◌==◌, eq_iff, eq_refl,
  List, [], ◌∷◌, map, Result, ok, err, is_empty, if◌then◌else◌, any, all, contains, distinct, arith,
  Bool-cases, inl, inr, same_Bool,
}
use akoflow_workflow_engine.Prelude.Maps.{
  StringMap, lookup, insert, keys, lookup-insert, contains-keys, distinct-keys-insert,
}
use akoflow_workflow_engine.Domain.Materialization.{
  BlobDescriptor, WorkspaceBlob, WorkspaceRevision, WorkspaceInventory, WorkspaceMaterialization,
  MaterializationError, committed, is_in, missing_blobs, reconcile_workspace, reconcile, set_of,
  check_verified, commit_if, commit,
}

abbrev pub digests_of : List BlobDescriptor → List String
digests_of blobs = map (λ (b : BlobDescriptor). b.digest) blobs

-- The blob stands in the revision with bytes that the destination lacks.
abbrev pub is_lacking : WorkspaceInventory → WorkspaceBlob → Bool
is_lacking inventory b = not (b.deleted || is_empty b.digest || is_in inventory.digests b.digest)

is_in-insert :
    (d e : String) (set : StringMap Bool) → is_in (insert d true set) e ≡ (d == e || is_in set e)
unfolding is_in
is_in-insert d e set = ground (arith, lookup-insert d e true set)

contains-missing_blobs :
    (inventory : WorkspaceInventory) (blobs : List WorkspaceBlob) (seen : StringMap Bool)
    (d : String)
    → contains (digests_of (missing_blobs inventory blobs seen)) d
      ≡ (not (is_in seen d) && any (λ b. is_lacking inventory b && b.digest == d) blobs)
unfolding missing_blobs
contains-missing_blobs inventory [] seen d = ground arith
contains-missing_blobs inventory (b ∷ blobs) seen d = elim (Bool-cases (b.digest == d)) [
  | inl e ↦
      subst
        (λ x.
          contains (digests_of (missing_blobs inventory (b ∷ blobs) seen)) x
          ≡ (not (is_in seen x) && any (λ c. is_lacking inventory c && c.digest == x) (b ∷ blobs)))
        ((eq_iff b.digest d).0 e)
        (ground (
          arith,
          contains-missing_blobs inventory blobs seen b.digest,
          eq_refl b.digest,
          contains-missing_blobs inventory blobs (insert b.digest true seen) b.digest,
          is_in-insert b.digest b.digest seen,
        ))
  | inr e ↦ ground (
    arith,
    contains-missing_blobs inventory blobs seen d,
    contains-missing_blobs inventory blobs (insert b.digest true seen) d,
    is_in-insert b.digest d seen,
  )
]

distinct-missing_blobs :
    (inventory : WorkspaceInventory) (blobs : List WorkspaceBlob) (seen : StringMap Bool)
    → distinct (digests_of (missing_blobs inventory blobs seen)) ≡ true
unfolding missing_blobs
distinct-missing_blobs inventory [] seen = refl
distinct-missing_blobs inventory (b ∷ blobs) seen = ground (
  arith,
  distinct-missing_blobs inventory blobs seen,
  eq_refl b.digest,
  distinct-missing_blobs inventory blobs (insert b.digest true seen),
  contains-missing_blobs inventory blobs (insert b.digest true seen) b.digest,
  is_in-insert b.digest b.digest seen,
)

-- `ReconcileWorkspace` names each digest once, and exactly those of the revision's blobs that are not deleted, have a
-- digest and are not in the inventory.
pub reconcile_workspace_lem :
    (desired : WorkspaceRevision) (inventory : WorkspaceInventory)
    → (distinct (digests_of (reconcile_workspace desired inventory)) ≡ true)
      × ((d : String)
          → contains (digests_of (reconcile_workspace desired inventory)) d
            ≡ any (λ b. is_lacking inventory b && b.digest == d) desired.blobs)
unfolding reconcile_workspace is_in lookup
reconcile_workspace_lem desired inventory = (
  distinct-missing_blobs inventory desired.blobs [],
  λ d. contains-missing_blobs inventory desired.blobs [] d,
)

is_in-set_of :
    (ds : List String) (set : StringMap Bool) (e : String)
    → is_in (set_of ds set) e ≡ (contains ds e || is_in set e)
unfolding set_of
is_in-set_of [] set e = refl
is_in-set_of (d ∷ ds) set e =
    ground (arith, is_in-set_of ds (insert d true set) e, is_in-insert d e set)

keys-set_of :
    (ds : List String) (set : StringMap Bool) (e : String)
    → contains (keys (set_of ds set)) e ≡ (contains ds e || contains (keys set) e)
unfolding set_of
keys-set_of [] set e = refl
keys-set_of (d ∷ ds) set e = ground (
  arith,
  keys-set_of ds (insert d true set) e,
  contains-keys (insert d true set) e,
  contains-keys set e,
  lookup-insert d e true set,
)

distinct-set_of :
    (ds : List String) (set : StringMap Bool)
    → distinct (keys set) ≡ true
    → distinct (keys (set_of ds set)) ≡ true
unfolding set_of
distinct-set_of [] set h = h
distinct-set_of (d ∷ ds) set h =
    distinct-set_of ds (insert d true set) (distinct-keys-insert d true set h)

-- What Go promises of `range` over the set: each key is met.
abbrev pub RangesDigests : (StringMap Bool → List String) → Type 0
RangesDigests range_digests =
    (m : StringMap Bool) (d : String)
    → distinct (keys m) ≡ true
    → contains (range_digests m) d ≡ contains (keys m) d

abbrev pub is_ok : Result MaterializationError (Unit {0}) → Bool
is_ok (ok u) = true
is_ok (err e) = false

is_ok-check_verified :
    (id : String) (got : StringMap Bool) (ds : List String)
    → is_ok (check_verified id got ds) ≡ all (is_in got) ds
unfolding check_verified
is_ok-check_verified id got [] = refl
is_ok-check_verified id got (d ∷ ds) = ground (arith, is_ok-check_verified id got ds)

is_ok-commit_if :
    (r : Result MaterializationError (Unit {0})) (verified : List String)
    (m : WorkspaceMaterialization)
    → is_ok (commit_if r verified m).0 ≡ is_ok r
is_ok-commit_if (ok u) verified m = refl
is_ok-commit_if (err e) verified m = refl

all_contained :
    (p : String → Bool) (ds : List String) (d : String)
    → all p ds ≡ true
    → contains ds d ≡ true
    → p d ≡ true
all_contained p [] d h c = cc
all_contained p (e ∷ ds) d h c = elim (Bool-cases (e == d)) [
  | inl q ↦ subst (λ x. p x ≡ true) ((eq_iff e d).0 q) (ground arith)
  | inr q ↦ all_contained p ds d (ground arith) (ground arith)
]

all_of_members :
    (p : String → Bool) (ds : List String)
    → ((d : String) → contains ds d ≡ true → p d ≡ true)
    → all p ds ≡ true
all_of_members p [] h = refl
all_of_members p (e ∷ ds) h =
    ground (arith, h e, eq_refl e, all_of_members p ds (λ d c. h d (ground arith)))

all_same_members :
    (p : String → Bool) (ds es : List String)
    → ((d : String) → contains ds d ≡ contains es d)
    → all p ds ≡ all p es
all_same_members p ds es same =
    same_Bool (all p ds) (all p es)
      (λ h. all_of_members p es (λ d c. all_contained p ds d h (same d ∙ c)))
      (λ h. all_of_members p ds (λ d c. all_contained p es d h (sym (same d) ∙ c)))

-- Of a workspace that is committed when `Commit` succeeds, and otherwise as it was.
abbrev pub CommitsIfOk :
    WorkspaceMaterialization
    → Result MaterializationError (Unit {0}) × WorkspaceMaterialization
    → Type 0
CommitsIfOk m r =
    (r.1.status ≡ (if is_ok r.0 then committed else m.status)) × (r.1.missing ≡ m.missing)

commit_if-CommitsIfOk :
    (r : Result MaterializationError (Unit {0})) (verified : List String)
    (m : WorkspaceMaterialization)
    → CommitsIfOk m (commit_if r verified m)
commit_if-CommitsIfOk (ok u) verified m = (refl, refl)
commit_if-CommitsIfOk (err e) verified m = (refl, refl)

all_digests :
    (p : String → Bool) (inventory : WorkspaceInventory) (blobs : List WorkspaceBlob)
    → ((d : String) → any (λ b. is_lacking inventory b && b.digest == d) blobs ≡ true → p d ≡ true)
    → all (λ b. not (is_lacking inventory b) || p b.digest) blobs ≡ true
all_digests p inventory [] h = refl
all_digests p inventory (b ∷ blobs) h =
    ground (
      arith,
      h b.digest,
      eq_refl b.digest,
      all_digests p inventory blobs (λ d c. h d (ground arith)),
    )

any_digest :
    (p : String → Bool) (inventory : WorkspaceInventory) (blobs : List WorkspaceBlob) (d : String)
    → all (λ b. not (is_lacking inventory b) || p b.digest) blobs ≡ true
    → any (λ b. is_lacking inventory b && b.digest == d) blobs ≡ true
    → p d ≡ true
any_digest p inventory [] d h c = cc
any_digest p inventory (b ∷ blobs) d h c =
    elim (Bool-cases (is_lacking inventory b && b.digest == d)) [
      | inl e ↦ subst (λ x. p x ≡ true) ((eq_iff b.digest d).0 (ground arith)) (ground arith)
      | inr e ↦ any_digest p inventory blobs d (ground arith) (ground arith)
    ]

-- After `Reconcile`, `Commit` succeeds exactly when each blob of the revision is deleted, has no digest, is in the inventory
-- or is among the verified ones, and the workspace is then committed; a refusal leaves it reconciling. This in
-- whatever order Go ranges over the set of missing digests.
pub commit-reconcile :
    (range_digests : StringMap Bool → List String) (ranges : RangesDigests range_digests)
    (m : WorkspaceMaterialization) (revision : WorkspaceRevision) (inventory : WorkspaceInventory)
    (verified : List String)
    → (is_ok (commit range_digests (reconcile m revision inventory) verified).0
        ≡ all (λ b. not (is_lacking inventory b) || contains verified b.digest) revision.blobs)
      × CommitsIfOk
          (reconcile m revision inventory)
          (commit range_digests (reconcile m revision inventory) verified)
unfolding commit reconcile is_in lookup keys
commit-reconcile range_digests ranges m revision inventory verified =
    let missing = digests_of (reconcile_workspace revision inventory) in
    let want = set_of missing [] in
    let got = set_of verified [] in
    let r = check_verified m.id got (range_digests want) in
    let lacking = (reconcile_workspace_lem revision inventory).1 in
    let met =
      λ (d : String). ranges want d (distinct-set_of missing [] refl) ∙ keys-set_of missing [] d in
    let known : (d : String) → is_in got d ≡ contains verified d =
      λ d. ground (arith, is_in-set_of verified [] d) in
    (
      is_ok-commit_if r verified (reconcile m revision inventory)
          ∙ is_ok-check_verified m.id got (range_digests want)
          ∙ same_Bool (all (is_in got) (range_digests want))
              (all (λ b. not (is_lacking inventory b) || contains verified b.digest) revision.blobs)
              (λ h. all_digests (contains verified) inventory revision.blobs (λ d c.
                sym (known d)
                ∙ all_contained (is_in got) (range_digests want) d h
                    (met d ∙ ground (arith, lacking d))))
              (λ h. all_of_members (is_in got) (range_digests want) (λ d c.
                known d
                ∙ any_digest (contains verified) inventory revision.blobs d h
                    (ground (arith, lacking d, met d)))),
      commit_if-CommitsIfOk r verified (reconcile m revision inventory),
    )
