-- ===== src/Queue/Attempts.antt =====
-- What every row of the queue satisfies between two calls of queue/repository.go, and how often a job is tried.
use akoflow_workflow_engine.Prelude.{
  ℕ, suc, ◌+◌, ◌≤◌, ◌<◌, ◌≡◌, refl, sym, subst, ap, String, Bool, true, false, inl, inr, Option,
  none, some, List, [], ◌∷◌, Bool-cases, leb, if◌then◌else◌, length, arith, All, All-append,
  is_some,
}
use akoflow_workflow_engine.Domain.Queue.{Status, Job, pending, failed}
use akoflow_workflow_engine.Queue.{
  Table, is_pending, is_leased, update_where, publish, inserted, with_times, complete, renew_lease,
  retry, cancel, release_expired, holds, is_cancellable, is_expired, released,
}
use akoflow_workflow_engine.Queue.Rows.{Rows, is_terminal}
use akoflow_workflow_engine.Queue.Leasing.{Leases, lease_rows-Leases, lease_rows-ids}
use akoflow_workflow_engine.Queue.Lease.{length-ids}
use akoflow_workflow_engine.Queue.History.{
  Operation, publishes, leases, completes, renews, retries, cancels, releases, publish_cases,
  lease_cases, step, run,
}

-- `extra` is the number of times that expired leases were released.
pub record IsConsistent (extra : ℕ) (j : Job) : Type 0 where
  pub lease_marked : is_some j.lease_expires_at ≡ is_leased j.status
  pub owner_cleared : is_leased j.status ≡ false → j.lease_owner ≡ ""
  pub ended : is_some j.completed_at ≡ is_terminal j.status
  pub room : is_pending j.status ≡ true → j.attempts < j.max_attempts + extra
  pub bounded : j.attempts ≤ j.max_attempts + extra

-- A job as `New` makes it: pending, with an attempt to spare.
abbrev pub IsFresh : Operation → Type 0
IsFresh (publishes now j) = (j.status ≡ pending) × (j.attempts < j.max_attempts)
IsFresh (leases now owner categories limit duration) = Unit
IsFresh _ = Unit

abbrev pub count_releases : List Operation → ℕ
count_releases [] = 0
count_releases (releases now ∷ os) = suc (count_releases os)
count_releases (publishes now j ∷ os) = count_releases os
count_releases (_ ∷ os) = count_releases os

module _ (P Q : Job → Type 0) (same : (j : Job) → P j → Q j) where
  All-update_where :
      (test : Job → Bool) (f : Job → Job)
      → ((j : Job) → P j → test j ≡ true → Q (f j))
      → (t : Table) → All P t
      → All Q (update_where test f t)
  unfolding update_where
  All-update_where test f step [] h = tt
  All-update_where test f step (j ∷ t) h = (
    elim (Bool-cases (test j)) [
      | inl e ↦ subst (λ b. Q (if b then f j else j)) (sym e) (step j h.0 e)
      | inr e ↦ subst (λ b. Q (if b then f j else j)) (sym e) (same j h.0)
    ],
    All-update_where test f step t h.1,
  )

  All-Rows :
      (R : Job → Job → Type 0)
      → ((j k : Job) → P j → R j k → Q k)
      → (t u : Table) → Rows R t u
      → length u ≡ length t
      → All P t
      → All Q u
  All-Rows R step [] [] r n h = tt
  All-Rows R step [] (k ∷ u) r n h = absurd (omega arith)
  All-Rows R step (j ∷ t) [] r n h = absurd r
  All-Rows R step (j ∷ t) (k ∷ u) r n h =
      (step j k h.0 r.0, All-Rows R step t u r.1 (omega arith) h.1)

module _ (n : ℕ) (j : Job) where
  inserted-IsConsistent :
      (now : ℕ)
      → j.status ≡ pending
      → j.attempts < j.max_attempts
      → IsConsistent n (inserted (with_times now j))
  inserted-IsConsistent now p a = record {
    lease_marked = rw p;
    owner_cleared = λ _. refl;
    ended = rw p;
    room = λ _. omega arith;
    bounded = omega arith;
  }

  leased_to-IsConsistent :
      (owner : String) (now expires : ℕ) (k : Job)
      → IsConsistent n j
      → Leases owner now expires j k
      → IsConsistent n k
  leased_to-IsConsistent owner now expires k h (inl e) = subst (IsConsistent n) (sym e) h
  leased_to-IsConsistent owner now expires k h (inr (p, e)) =
      subst (IsConsistent n) (sym e) (record {
        lease_marked = refl;
        owner_cleared = λ f. cc;
        ended = ground arith;
        room = λ f. cc;
        bounded = omega (arith, h.room p);
      })

  written_IsConsistent :
      (k : Job)
      → IsConsistent n j
      → is_some k.lease_expires_at ≡ is_leased k.status
      → (is_leased k.status ≡ false → k.lease_owner ≡ "")
      → is_some k.completed_at ≡ is_terminal k.status
      → (is_pending k.status ≡ true → j.attempts < j.max_attempts)
      → k.attempts ≡ j.attempts
      → k.max_attempts ≡ j.max_attempts
      → IsConsistent n k
  written_IsConsistent k h a b c d e f = record {
    lease_marked = a;
    owner_cleared = b;
    ended = c;
    room = λ p. omega (arith, d p);
    bounded = omega (arith, h.bounded);
  }

  IsConsistent-suc : IsConsistent n j → IsConsistent (suc n) j
  IsConsistent-suc h = record {
    lease_marked = h.lease_marked;
    owner_cleared = h.owner_cleared;
    ended = h.ended;
    room = λ p. omega (arith, h.room p);
    bounded = omega (arith, h.bounded);
  }

  released-IsConsistent :
      (now : ℕ) → IsConsistent n j → is_expired now j ≡ true → IsConsistent (suc n) (released now j)
  released-IsConsistent now h x = record {
    lease_marked = refl;
    owner_cleared = λ _. refl;
    ended = ground (arith, h.ended);
    room = λ _. omega (arith, h.bounded);
    bounded = omega (arith, h.bounded);
  }

abbrev after_retry : Job → Status
after_retry j = if leb j.max_attempts j.attempts then failed else pending

retry_room : (j : Job) → is_pending (after_retry j) ≡ true → j.attempts < j.max_attempts
retry_room j h = ground arith

retry_marks :
    (j : Job) (at : ℕ)
    → (false ≡ is_leased (after_retry j))
      × (is_some (if leb j.max_attempts j.attempts then some at else none)
          ≡ is_terminal (after_retry j))
retry_marks j at = elim (Bool-cases (leb j.max_attempts j.attempts)) [
  | inl e ↦ (rw e, rw e)
  | inr e ↦ (rw e, rw e)
]

module _ (order_by : (Job → Job → Bool) → List Job → List Job) (n : ℕ) where
  abbrev Kept : Table → Type 0
  Kept t = All (IsConsistent n) t

  update_IsConsistent :
      (test : Job → Bool) (f : Job → Job)
      → ((j : Job) → IsConsistent n j → test j ≡ true → IsConsistent n (f j))
      → (t : Table) → Kept t
      → Kept (update_where test f t)
  update_IsConsistent = All-update_where (IsConsistent n) (IsConsistent n) (λ j h. h)

  complete-IsConsistent :
      (id owner : String) (at : ℕ) (t : Table) → Kept t → Kept (complete id owner at t).1
  unfolding complete
  complete-IsConsistent id owner at =
      update_IsConsistent (holds id owner) _
        (λ j h x. written_IsConsistent n j _ h refl (λ _. refl) refl (λ p. cc) refl refl)

  renew_lease-IsConsistent :
      (id owner : String) (expires_at : ℕ) (t : Table)
      → Kept t
      → Kept (renew_lease id owner expires_at t).1
  unfolding renew_lease
  renew_lease-IsConsistent id owner expires_at = update_IsConsistent (holds id owner) _ (λ j h x.
      let l : is_leased j.status ≡ true = ground arith in
      written_IsConsistent n j _ h (sym l) h.owner_cleared h.ended (λ p. absurd (ground arith)) refl
        refl)

  retry-IsConsistent :
      (id owner : String) (cause : Option String) (at : ℕ) (t : Table)
      → Kept t
      → Kept (retry id owner cause at t).1
  unfolding retry
  retry-IsConsistent id owner cause at = update_IsConsistent (holds id owner) _ (λ j h x.
      written_IsConsistent n j _ h (retry_marks j at).0 (λ _. refl) (retry_marks j at).1
        (retry_room j) refl refl)

  cancel-IsConsistent : (id : String) (at : ℕ) (t : Table) → Kept t → Kept (cancel id at t).1
  unfolding cancel
  cancel-IsConsistent id at =
      update_IsConsistent (is_cancellable id) _
        (λ j h x. written_IsConsistent n j _ h refl (λ _. refl) refl (λ p. cc) refl refl)

  release-IsConsistent :
      (now : ℕ) (t : Table) → Kept t → All (IsConsistent (suc n)) (release_expired now t).1
  unfolding release_expired
  release-IsConsistent now =
      All-update_where (IsConsistent n) (IsConsistent (suc n)) (IsConsistent-suc n) (is_expired now)
        (released now) (λ j. released-IsConsistent n j now)

  publish-IsConsistent :
      (now : ℕ) (j : Job) (t : Table)
      → IsFresh (publishes now j)
      → Kept t
      → Kept (publish now j t).1
  publish-IsConsistent now j t fresh h = elim (publish_cases now j t) [
    | inl e ↦ subst (All (IsConsistent n)) (sym e) h
    | inr (e, _) ↦
        subst (All (IsConsistent n)) (sym e)
          (All-append (IsConsistent n) t _ h (inserted-IsConsistent n j now fresh.0 fresh.1, tt))
  ]

  lease-IsConsistent :
      (now : ℕ) (owner : String) (categories : List String) (limit duration : ℕ) (t : Table)
      → Kept t
      → Kept (step order_by t (leases now owner categories limit duration))
  unfolding step
  lease-IsConsistent now owner categories limit duration t h =
      elim (lease_cases order_by now owner categories limit duration t) [
        | inl e ↦ subst (All (IsConsistent n)) (sym e) h
        | inr (jobs, r) ↦
            let u = (step order_by t (leases now owner categories limit duration)) in
            let expires = now + duration in
            let same_ids = lease_rows-ids owner now expires _ t u jobs r in
            All-Rows (IsConsistent n) (IsConsistent n) (λ j k. k) (Leases owner now expires)
              (λ j k c l. leased_to-IsConsistent n j owner now expires k c l) t u
              (lease_rows-Leases owner now expires _ t u jobs r)
              (omega (arith, ap length same_ids, length-ids u, length-ids t)) h
      ]

module _ (order_by : (Job → Job → Bool) → List Job → List Job) where
  run_IsConsistent_from :
      (n : ℕ) (t : Table) (os : List Operation)
      → All IsFresh os
      → All (IsConsistent n) t
      → All (IsConsistent (n + count_releases os)) (run order_by t os)
  unfolding run step
  run_IsConsistent_from n t [] f h =
      let same : n ≡ n + 0 = omega arith in subst (λ m. All (IsConsistent m) t) same h
  run_IsConsistent_from n t (publishes now j ∷ os) f h =
      run_IsConsistent_from n _ os f.1 (publish-IsConsistent order_by n now j t f.0 h)
  run_IsConsistent_from n t (leases now owner categories limit duration ∷ os) f h =
      run_IsConsistent_from n _ os f.1
        (lease-IsConsistent order_by n now owner categories limit duration t h)
  run_IsConsistent_from n t (completes id owner at ∷ os) f h =
      run_IsConsistent_from n _ os f.1 (complete-IsConsistent order_by n id owner at t h)
  run_IsConsistent_from n t (renews id owner expires_at ∷ os) f h =
      run_IsConsistent_from n _ os f.1 (renew_lease-IsConsistent order_by n id owner expires_at t h)
  run_IsConsistent_from n t (retries id owner cause at ∷ os) f h =
      run_IsConsistent_from n _ os f.1 (retry-IsConsistent order_by n id owner cause at t h)
  run_IsConsistent_from n t (cancels id at ∷ os) f h =
      run_IsConsistent_from n _ os f.1 (cancel-IsConsistent order_by n id at t h)
  run_IsConsistent_from n t (releases now ∷ os) f h =
      let table = (release_expired now t).1 in
      let shift : suc n + count_releases os ≡ n + suc (count_releases os) = omega arith in
      subst (λ m. All (IsConsistent m) (run order_by table os)) shift
        (run_IsConsistent_from (suc n) table os f.1 (release-IsConsistent order_by n now t h))

  -- From the empty table, over any history whose jobs are published pending and with an attempt to spare: every row has
  -- a lease expiry exactly while it is leased, no owner unless it is leased, a time of completion exactly once it is
  -- completed, failed or cancelled, and at most as many attempts as its maximum and the number of calls of `ReleaseExpired`
  -- together (one fewer while it is pending).
  pub run-IsConsistent :
      (os : List Operation)
      → All IsFresh os
      → All (IsConsistent (count_releases os)) (run order_by [] os)
  run-IsConsistent os f =
      let same : 0 + count_releases os ≡ count_releases os = omega arith in
      subst (λ m. All (IsConsistent m) (run order_by [] os)) same
        (run_IsConsistent_from 0 [] os f tt)
