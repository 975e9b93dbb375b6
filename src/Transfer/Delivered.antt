-- ===== src/Transfer/Delivered.antt =====
-- `Materialize` of internal/application/transfer/service.go: what a success says of the objects at the destination.
use akoflow_workflow_engine.Prelude.{
  ℕ, String, Bool, true, false, ◌==◌, Option, none, some, List, [], ◌∷◌, ◌++◌, map, Result, ok, err,
  ◌>>=◌, ok_inj, ok_ne_err, Bool-cases, inl, inr, ◌⊎◌, ◌≡◌, refl, sym, ap, ◌∙◌, subst, All,
  All-weaken, arith,
}
use akoflow_workflow_engine.Prelude.Int.{ℤ, pos, ltb_ℤ}
use akoflow_workflow_engine.Domain.Materialization.{
  ArtifactMaterialization, BlobDescriptor, DataTransferPlan, DataTransferRun, committed, failed,
  transfer_failed, transfer_completed,
}
use akoflow_workflow_engine.Transfer.{
  Connector, Tools, TransferError, Materialized, Copied, verify, verify_if, compared, matches,
  is_verified, destination, final_name, partial_name, copy_blob, copy_blobs, after_commit,
  after_verify, after_size, after_put, after_open, after_offset, with_bytes, next_blob, materialize,
  connector, connected, finished, from_source, failed_with, no_run, is_pull, strategy_of,
  transfer_agent_required,
}

abbrev pub digests : List BlobDescriptor → List String
digests = map (λ (b : BlobDescriptor). b.digest)

append_one :
    (xs : List String) (y : String) (ys : List String) → (xs ++ y ∷ []) ++ ys ≡ xs ++ y ∷ ys
append_one [] y ys = refl
append_one (x ∷ xs) y ys = ap (λ l. x ∷ l) (append_one xs y ys)

append_nil : (xs : List String) → xs ++ [] ≡ xs
append_nil [] = refl
append_nil (x ∷ xs) = ap (λ l. x ∷ l) (append_nil xs)

module _ {W : Type 0} (tools : Tools W) (plan : DataTransferPlan) (dc : Connector W)
    (contents : W → String → Option (List ℕ)) where
  -- What the connector promises of the objects at the destination: an object that can be read is there; `put` writes the object that it
  -- names, and no other; `commit` gives the name of the one to the content of the other, and touches no third. Time does
  -- not change them.
  pub record IsStore : Type 0 where
    pub reads :
        (name : String) (w : W) (bytes : List ℕ)
        → dc.read_from (destination plan) name (pos 0) w ≡ ok (ok bytes)
        → contents w name ≡ some bytes
    pub puts :
        (name other : String) (input : Result String (List ℕ)) (offset : ℤ) (w : W)
        → (name == other) ≡ false
        → contents (dc.put (destination plan) name input offset w).1 other ≡ contents w other
    pub commits :
        (partial final : String) (w w' : W)
        → dc.commit (destination plan) partial final w ≡ (ok tt, w')
        → contents w' final ≡ contents w partial
    pub commits_only :
        (partial final other : String) (w : W)
        → (partial == other) ≡ false
        → (final == other) ≡ false
        → contents (dc.commit (destination plan) partial final w).1 other ≡ contents w other
    pub ticks : (w : W) (name : String) → contents (tools.now w).1 name ≡ contents w name

  -- An object of that digest stands under that name.
  abbrev pub IsStored : W → String → String → Type 0
  IsStored w name digest =
      (bytes : List ℕ) × (contents w name ≡ some bytes) × (matches tools digest bytes ≡ true)

  module _ (laws : IsStore) where
    read-IsStored :
        (name digest : String) (w : W) (r : Result String (Result String (List ℕ)))
        → dc.read_from (destination plan) name (pos 0) w ≡ r
        → (r >>= compared tools digest) ≡ ok true
        → IsStored w name digest
    read-IsStored name digest w (ok (ok bytes)) e h = (bytes, laws.reads name w bytes e, ok_inj h)
    read-IsStored name digest w (ok (err cause)) e h = absurd (ok_ne_err (sym h))
    read-IsStored name digest w (err cause) e h = absurd (ok_ne_err (sym h))

    verify_if-IsStored :
        (name digest : String) (w : W) (r : Result String Bool)
        → (r >>= verify_if tools dc (destination plan) name digest w) ≡ ok true
        → IsStored w name digest
    verify_if-IsStored name digest w (ok true) h = read-IsStored name digest w _ refl h
    verify_if-IsStored name digest w (ok false) h = absurd (ground arith)
    verify_if-IsStored name digest w (err cause) h = absurd (ok_ne_err (sym h))

    verify-IsStored :
        (name digest : String) (w : W)
        → verify tools dc (destination plan) name digest w ≡ ok true
        → IsStored w name digest
    unfolding verify
    verify-IsStored name digest w h = verify_if-IsStored name digest w _ h

    is_verified-ok : (r : Result String Bool) → is_verified tools r ≡ true → r ≡ ok true
    is_verified-ok (ok b) h = ap ok h
    is_verified-ok (err cause) h = absurd (ground arith)

  -- The objects that a blob of that digest writes are not of that name.
  abbrev pub IsApart : String → String → Type 0
  IsApart digest other =
      ((partial_name tools plan digest == other) ≡ false)
      × ((final_name tools plan digest == other) ≡ false)

  -- What a blob of one digest writes is not the object of another, whose name is its own.
  abbrev pub AreApart : String → String → Type 0
  AreApart digest other =
      ((partial_name tools plan digest == final_name tools plan other) ≡ false)
      × ((final_name tools plan digest == final_name tools plan other) ≡ true → digest ≡ other)

  abbrev pub AllApart : List BlobDescriptor → Type 0
  AllApart [] = Unit
  AllApart (b ∷ blobs) =
      All (λ (c : BlobDescriptor). AreApart c.digest b.digest) blobs × AllApart blobs

  abbrev pub IsThere : W → String → Type 0
  IsThere w digest = IsStored w (final_name tools plan digest) digest

  module _ (laws : IsStore) (sc : Connector W) where
    -- Of a round of the loop: it leaves the other objects, and when it succeeds, the blob has been verified.
    record IsCopy (w : W) (digest : String) (run : DataTransferRun) (r : Copied tools)
        : Type 0 where
      others : (other : String) → IsApart digest other → contents r.2 other ≡ contents w other
      made :
          r.0 ≡ ok tt
          → IsStored r.2 (final_name tools plan digest) digest
            × (r.1.verified_blobs ≡ run.verified_blobs ++ digest ∷ [])

    abbrev Same : W → W → String → Type 0
    Same w w' digest =
        (other : String) → IsApart digest other → contents w' other ≡ contents w other

    stopped :
        (w w' : W) (digest : String) (run run' : DataTransferRun) (e : TransferError)
        → Same w w' digest
        → IsCopy w digest run (err e, run', w')
    stopped w w' digest run run' e same = record {
      others = same;
      made = λ h. absurd (ok_ne_err (sym h));
    }

    commit-IsCopy :
        (w w1 : W) (digest : String) (run run' : DataTransferRun) (r : Result String (Unit {0}) × W)
        → Same w w1 digest
        → IsStored w1 (partial_name tools plan digest) digest
        → run'.verified_blobs ≡ run.verified_blobs
        → dc.commit
            (destination plan)
            (partial_name tools plan digest)
            (final_name tools plan digest)
            w1
          ≡ r
        → IsCopy w digest run (after_commit tools digest run' r)
    commit-IsCopy w w1 digest run run' (err cause, w2) same (bytes, at, m) v e =
        stopped w w2 digest run run' _ λ other a.
          ap (λ x. contents x.1 other) (sym e)
          ∙ laws.commits_only (partial_name tools plan digest) (final_name tools plan digest) other
              w1 a.0 a.1
          ∙ same other a
    commit-IsCopy w w1 digest run run' (ok u, w2) same (bytes, at, m) v e = record {
      others = λ other a.
          ap (λ x. contents x.1 other) (sym e)
          ∙ laws.commits_only (partial_name tools plan digest) (final_name tools plan digest) other
              w1 a.0 a.1
          ∙ same other a;
      made = λ _. ((bytes, laws.commits _ _ w1 w2 e ∙ at, m), ap (λ blobs. blobs ++ digest ∷ []) v);
    }

    verify-IsCopy :
        (w w1 : W) (digest : String) (run run' : DataTransferRun) (r : Result String Bool)
        → Same w w1 digest
        → run'.verified_blobs ≡ run.verified_blobs
        → verify tools dc (destination plan) (partial_name tools plan digest) digest w1 ≡ r
        → IsCopy w digest run (after_verify tools plan sc dc digest run' w1 r)
    verify-IsCopy w w1 digest run run' (err cause) same v e = stopped w w1 digest run run' _ same
    verify-IsCopy w w1 digest run run' (ok false) same v e = stopped w w1 digest run run' _ same
    verify-IsCopy w w1 digest run run' (ok true) same v e =
        commit-IsCopy w w1 digest run run' _ same (verify-IsStored laws _ digest w1 e) v refl

    with_bytes-verified :
        (a b : ℤ) (run : DataTransferRun)
        → (with_bytes tools a b run).verified_blobs ≡ run.verified_blobs
    with_bytes-verified a b run = elim (Bool-cases (ltb_ℤ b a)) [
      | inl e ↦ rw e refl
      | inr e ↦ rw e refl
    ]

    size-IsCopy :
        (w w1 : W) (digest : String) (offset : ℤ) (run : DataTransferRun) (r : Result String ℤ)
        → Same w w1 digest
        → IsCopy w digest run (after_size tools plan sc dc digest offset run w1 r)
    size-IsCopy w w1 digest offset run (err cause) same = stopped w w1 digest run run _ same
    size-IsCopy w w1 digest offset run (ok bytes) same =
        verify-IsCopy w w1 digest run _ _ same (with_bytes-verified bytes offset run) refl

    put-IsCopy :
        (w : W) (b : BlobDescriptor) (offset : ℤ) (run : DataTransferRun)
        (r : Result String (Unit {0}) × W)
        → Same w r.1 b.digest
        → IsCopy w b.digest run (after_put tools plan sc dc b offset run r)
    put-IsCopy w b offset run (err cause, w1) same = stopped w w1 b.digest run run _ same
    put-IsCopy w b offset run (ok u, w1) same = size-IsCopy w w1 b.digest offset run _ same

    open-IsCopy :
        (w : W) (b : BlobDescriptor) (offset : ℤ) (run : DataTransferRun)
        (r : Result String (Result String (List ℕ)))
        → IsCopy w b.digest run (after_open tools plan sc dc b offset run w r)
    open-IsCopy w b offset run (err cause) = stopped w w b.digest run run _ (λ other a. refl)
    open-IsCopy w b offset run (ok input) =
        put-IsCopy w b offset run _
          λ other a. laws.puts (partial_name tools plan b.digest) other input offset w a.0

    offset-IsCopy :
        (w : W) (b : BlobDescriptor) (run : DataTransferRun) (r : Result String ℤ)
        → IsCopy w b.digest run (after_offset tools plan sc dc b run w r)
    offset-IsCopy w b run (err cause) = stopped w w b.digest run run _ (λ other a. refl)
    offset-IsCopy w b run (ok offset) = open-IsCopy w b offset run _

    copy_blob-IsCopy :
        (w : W) (b : BlobDescriptor) (run : DataTransferRun)
        → IsCopy w b.digest run (copy_blob tools plan sc dc b run w)
    unfolding copy_blob
    copy_blob-IsCopy w b run =
        let seen = verify tools dc (destination plan) (final_name tools plan b.digest) b.digest w in
        elim (Bool-cases (is_verified tools seen)) [
          | inl e ↦ rw e (record {
            others = λ other a. refl;
            made = λ _. (verify-IsStored laws _ b.digest w (is_verified-ok laws seen e), refl);
          })
          | inr e ↦ rw e (offset-IsCopy w b run _)
        ]

    still_there :
        (w : W) (digest other : String) (run : DataTransferRun) (r : Copied tools)
        → IsCopy w digest run r
        → r.0 ≡ ok tt
        → AreApart digest other
        → IsThere w other
        → IsThere r.2 other
    still_there w digest other run r c e (p, f) (bytes, at, m) =
        elim (Bool-cases (final_name tools plan digest == final_name tools plan other)) [
          | inl same ↦ subst (IsThere r.2) (f same) (c.made e).0
          | inr apart ↦ (bytes, c.others (final_name tools plan other) (p, apart) ∙ at, m)
        ]

    -- Of the loop: the blobs are there, those that were there before too, and all are listed.
    record AreCopies (w : W) (blobs : List BlobDescriptor) (run : DataTransferRun)
        (r : Copied tools) : Type 0 where
      there : All (λ (b : BlobDescriptor). IsThere r.2 b.digest) blobs
      listed : r.1.verified_blobs ≡ run.verified_blobs ++ digests blobs
      kept :
          (other : String)
          → All (λ (b : BlobDescriptor). AreApart b.digest other) blobs
          → IsThere w other
          → IsThere r.2 other

    next-AreCopies :
        (b : BlobDescriptor) (blobs : List BlobDescriptor) (run : DataTransferRun) (w : W)
        (r : Copied tools)
        → ((run' : DataTransferRun) (w' : W)
            → (copy_blobs tools plan sc dc blobs run' w').0 ≡ ok tt
            → AreCopies w' blobs run' (copy_blobs tools plan sc dc blobs run' w'))
        → AllApart (b ∷ blobs)
        → IsCopy w b.digest run r
        → (next_blob tools plan sc dc (copy_blobs tools plan sc dc blobs) r).0 ≡ ok tt
        → AreCopies w
            (b ∷ blobs)
            run
            (next_blob tools plan sc dc (copy_blobs tools plan sc dc blobs) r)
    next-AreCopies b blobs run w (err e, run', w') rest apart c h = absurd (ok_ne_err (sym h))
    next-AreCopies b blobs run w (ok u, run', w') rest apart c h =
        let later = rest run' w' h in
        let (made, listed) = c.made refl in
        record {
          there = (later.kept b.digest apart.0 made, later.there);
          listed =
              later.listed
              ∙ ap (λ l. l ++ digests blobs) listed
              ∙ append_one run.verified_blobs b.digest (digests blobs);
          kept = λ other a before.
              later.kept other a.1
                (still_there w b.digest other run (ok u, run', w') c refl a.0 before);
        }

    copy_blobs-AreCopies :
        (blobs : List BlobDescriptor) (run : DataTransferRun) (w : W)
        → AllApart blobs
        → (copy_blobs tools plan sc dc blobs run w).0 ≡ ok tt
        → AreCopies w blobs run (copy_blobs tools plan sc dc blobs run w)
    unfolding copy_blobs
    copy_blobs-AreCopies [] run w apart h = record {
      there = tt;
      listed = sym (append_nil run.verified_blobs);
      kept = λ other a t. t;
    }
    copy_blobs-AreCopies (b ∷ blobs) run w apart h =
        next-AreCopies b blobs run w (copy_blob tools plan sc dc b run w)
          (λ run' w'. copy_blobs-AreCopies blobs run' w' apart.1) apart (copy_blob-IsCopy w b run) h

  module _ (laws : IsStore) (apart : AllApart plan.blobs) (target : ArtifactMaterialization)
      (w : W) where
    -- Everything that was planned is at the destination, verified, and the target is committed.
    pub record IsDelivered (m : Materialized W) : Type 0 where
      pub no_error : m.error ≡ none
      pub there : All (λ (b : BlobDescriptor). IsThere m.world b.digest) plan.blobs
      pub listed : m.run.verified_blobs ≡ digests plan.blobs
      pub completed : m.run.status ≡ transfer_completed
      pub target_committed :
          m.target ≡ record target { status = committed; verified_digest = target.digest }

    -- An error: nothing was done, or the target and the run say that they have failed.
    pub record HasError (m : Materialized W) : Type 0 where
      pub cause : TransferError
      pub has_error : m.error ≡ some cause
      pub told :
          ((m.target ≡ target) × (m.run ≡ no_run) × (m.world ≡ w))
          ⊎ ((m.target.status ≡ failed) × (m.run.status ≡ transfer_failed))

    failed-HasError :
        (run : DataTransferRun) (e : TransferError) (w1 : W)
        → HasError (failed_with tools target run e w1)
    unfolding failed_with
    failed-HasError run e w1 = record { cause = e; has_error = refl; told = inr (refl, refl) }

    finished_ends :
        (sc : Connector W) (run : DataTransferRun) (w1 : W) (r : Copied tools)
        → run.verified_blobs ≡ []
        → (r.0 ≡ ok tt → AreCopies laws sc w1 plan.blobs run r)
        → IsDelivered (finished tools target r) ⊎ HasError (finished tools target r)
    finished_ends sc run w1 (err e, run', w2) none_yet c = inr (failed-HasError run' e w2)
    finished_ends sc run w1 (ok u, run', w2) none_yet c =
        let copies = c refl in
        inl (record {
          no_error = refl;
          there =
              All-weaken (λ (b : BlobDescriptor). IsThere w2 b.digest)
                (λ (b : BlobDescriptor). IsThere (tools.now w2).1 b.digest)
                (λ b (bytes, at, m). (bytes, laws.ticks w2 _ ∙ at, m)) plan.blobs copies.there;
          listed = copies.listed ∙ ap (λ l. l ++ digests plan.blobs) none_yet;
          completed = refl;
          target_committed = refl;
        })

    connected_ends :
        (sc : Connector W)
        → IsDelivered (connected tools plan sc dc target w)
          ⊎ HasError (connected tools plan sc dc target w)
    connected_ends sc = elim (Bool-cases (is_pull (strategy_of plan.strategy))) [
      | inl e ↦ rw e (inr (failed-HasError _ transfer_agent_required w))
      | inr e ↦
          rw e
            (finished_ends sc _ _ _ refl (λ h. copy_blobs-AreCopies laws sc plan.blobs _ _ apart h))
    ]

    from_source_ends :
        (s : Result TransferError (Connector W))
        → IsDelivered (from_source tools plan target w s (ok dc))
          ⊎ HasError (from_source tools plan target w s (ok dc))
    from_source_ends (err e) =
        inr (record { cause = e; has_error = refl; told = inl (refl, refl, refl) })
    from_source_ends (ok sc) = connected_ends sc

    -- With a connector for the destination that is a store, and blobs whose objects are apart: `Materialize` either answers an error, and then it has done
    -- nothing or its target and its run say that they have failed; or every blob of the plan stands at the destination
    -- under its final name with its digest, the run lists them all and is completed, and the target is committed with its digest.
    pub materialize_ends :
        (connectors : List (Connector W))
        → connector tools connectors (destination plan) ≡ ok dc
        → IsDelivered (materialize tools connectors plan target w)
          ⊎ HasError (materialize tools connectors plan target w)
    unfolding materialize
    materialize_ends connectors e = rw e (from_source_ends _)
