-- ===== src/Queue/Guards.antt =====
-- Who may end or renew a lease, in queue/repository.go, and what becomes of the job.
use akoflow_workflow_engine.Prelude.{
  ℕ, ◌≡◌, refl, subst, ap, ◌∙◌, String, Bool, true, false, ◌&&◌, [], ◌∷◌, Option, none, some,
  some_inj, contains, distinct, arith, ◌==◌, eq_true, if◌then◌else◌, inl, inr, Bool-cases, count_if,
  Result, ok, err, leb,
}
use akoflow_workflow_engine.Domain.Queue.{Job, pending, completed, failed, cancelled}
use akoflow_workflow_engine.Queue.{
  Table, QueueError, affected_rows, ids, find_by_id, require_one, transition, complete, renew_lease,
  retry, retried, holds, is_leased, is_open, is_cancellable, cancel,
}
use akoflow_workflow_engine.Queue.Rows.{changed, map_row, find_by_id-update_where}

module _ (key : String) (test : Job → Bool)
    (of_key : (k : Job) → test k ≡ true → (k.id == key) ≡ true) where
  other_row : (j : Job) → (j.id == key) ≡ false → test j ≡ false
  other_row j h = elim (Bool-cases (test j)) [
    | inl e ↦ absurd (ground (arith, of_key j e))
    | inr e ↦ e
  ]

  count_fresh : (t : Table) → contains (ids t) key ≡ false → count_if test t ≡ 0
  unfolding ids
  count_fresh [] h = refl
  count_fresh (j ∷ t) h = let e = other_row j (ground arith) in rw e (count_fresh t (ground arith))

  -- With distinct ids an UPDATE by id meets the row of that id, once, or nothing.
  count_by_id :
      (t : Table) (j : Job)
      → distinct (ids t) ≡ true
      → find_by_id t key ≡ some j
      → count_if test t ≡ (if test j then 1 else 0)
  unfolding ids find_by_id
  count_by_id [] j d f = absurd (ground arith)
  count_by_id (k ∷ t) j d f = elim (Bool-cases (k.id == key)) [
    | inl e ↦
        let fresh = subst (λ x. contains (ids t) x ≡ false) (eq_true k.id key e) (ground arith) in
        subst (λ (x : Job). count_if test (k ∷ t) ≡ (if test x then 1 else 0))
          (some_inj (rw e at f)) (rw (count_fresh t fresh))
    | inr e ↦ let other = other_row k e in rw other (count_by_id t j (ground arith) (rw e at f))
  ]

  module _ (f : Job → Job) (same_id : (j : Job) → (f j).id ≡ j.id) (t : Table) (j : Job)
      (d : distinct (ids t) ≡ true) (found : find_by_id t key ≡ some j) where
    transition_result : (transition test f t).0 ≡ (if test j then ok tt else err (affected_rows 0))
    unfolding transition require_one
    transition_result =
        rw (count_by_id t j d found) (elim (Bool-cases (test j)) [ inl e ↦ rw e | inr e ↦ rw e ])

    transition_row : find_by_id (transition test f t).1 key ≡ some (changed test f j)
    unfolding transition
    transition_row =
        find_by_id-update_where test f same_id t key ∙ ap (map_row (changed test f)) found

abbrev pub completed_at : ℕ → Job → Job
completed_at at j = record j {
  status = completed;
  completed_at = some at;
  lease_owner = "";
  lease_expires_at = none;
}

abbrev pub cancelled_at : ℕ → Job → Job
cancelled_at at j = record j {
  status = cancelled;
  completed_at = some at;
  lease_owner = "";
  lease_expires_at = none;
}

abbrev pub renewed_to : ℕ → Job → Job
renewed_to expires_at j = record j { lease_expires_at = some expires_at }

-- The job is leased to that worker.
abbrev pub belongs_to : String → Job → Bool
belongs_to owner j = is_leased j.status && j.lease_owner == owner

-- A call for a job of the table: it succeeds if the job is `eligible`, and then leaves the row `after`; otherwise it is
-- an error that changes nothing of the job.
abbrev pub IsGuarded :
    (id : String) (eligible : Bool) (before after : Job)
    → Result QueueError (Unit {0}) × Table
    → Type 0
IsGuarded id eligible before after r =
    (r.0 ≡ (if eligible then ok tt else err (affected_rows 0)))
    × (find_by_id r.1 id ≡ some (if eligible then after else before))

found_id : (t : Table) (id : String) (j : Job) → find_by_id t id ≡ some j → (j.id == id) ≡ true
unfolding find_by_id
found_id [] id j f = absurd (ground arith)
found_id (k ∷ t) id j f = elim (Bool-cases (k.id == id)) [
  | inl e ↦ subst (λ (x : Job). (x.id == id) ≡ true) (some_inj (rw e at f)) e
  | inr e ↦ found_id t id j (rw e at f)
]

module _ (id : String) (t : Table) (j : Job) (d : distinct (ids t) ≡ true)
    (found : find_by_id t id ≡ some j) where
  transition-IsGuarded :
      (test : Job → Bool) (of_key : (k : Job) → test k ≡ true → (k.id == id) ≡ true) (f : Job → Job)
      (same_id : (k : Job) → (f k).id ≡ k.id) (eligible : Bool)
      → test j ≡ eligible
      → IsGuarded id eligible j (f j) (transition test f t)
  transition-IsGuarded test of_key f same_id eligible same = (
    transition_result id test of_key f same_id t j d found
        ∙ ap (λ b. if b then ok tt else err (affected_rows 0)) same,
    transition_row id test of_key f same_id t j d found
        ∙ ap (λ b. some (if b then f j else j)) same,
  )

  module _ (owner : String) where
    held_id : (k : Job) → holds id owner k ≡ true → (k.id == id) ≡ true
    held_id k h = ground arith

    holds-belongs_to : holds id owner j ≡ belongs_to owner j
    holds-belongs_to = ground (arith, found_id t id j found)

    -- In a table with distinct ids, `Complete` by a worker completes the job, and `RenewLease` moves the expiry of its
    -- lease, if it is leased to that worker; otherwise both are errors that leave the job as it is.
    pub complete_renew-IsGuarded :
        (at expires_at : ℕ)
        → IsGuarded id (belongs_to owner j) j (completed_at at j) (complete id owner at t)
          × IsGuarded id
              (belongs_to owner j)
              j
              (renewed_to expires_at j)
              (renew_lease id owner expires_at t)
    unfolding complete renew_lease
    complete_renew-IsGuarded at expires_at = (
      transition-IsGuarded (holds id owner) held_id (completed_at at) (λ k. refl)
          (belongs_to owner j) holds-belongs_to,
      transition-IsGuarded (holds id owner) held_id (renewed_to expires_at) (λ k. refl)
          (belongs_to owner j) holds-belongs_to,
    )

    -- In a table with distinct ids, `Retry` by the worker that a job is leased to makes the job failed, completed at the
    -- given time, when its attempts have reached its maximum, and pending again from that time when they have not.
    pub retry_by_owner :
        (cause : Option String) (at : ℕ)
        → belongs_to owner j ≡ true
        → (k : Job) × ((retry id owner cause at t).0 ≡ ok tt)
          × (find_by_id (retry id owner cause at t).1 id ≡ some k)
          × (k.status ≡ (if leb j.max_attempts j.attempts then failed else pending))
          × (k.completed_at ≡ (if leb j.max_attempts j.attempts then some at else none))
          × (k.available_at ≡ at)
          × (k.attempts ≡ j.attempts)
          × (k.lease_owner ≡ "")
    unfolding retry
    retry_by_owner cause at h =
        let (result, row) =
          transition-IsGuarded (holds id owner) held_id (retried cause at) (λ k. refl) true
            (holds-belongs_to ∙ h) in
        (retried cause at j, result, row, refl, refl, refl, refl, refl)

    pub retry-IsGuarded :
        (cause : Option String) (at : ℕ)
        → IsGuarded id (belongs_to owner j) j (retried cause at j) (retry id owner cause at t)
    unfolding retry
    retry-IsGuarded cause at =
        transition-IsGuarded (holds id owner) held_id (retried cause at) (λ k. refl)
          (belongs_to owner j) holds-belongs_to

  open_id : (k : Job) → is_cancellable id k ≡ true → (k.id == id) ≡ true
  open_id k h = ground arith

  -- In a table with distinct ids, `Cancel` cancels a job that is pending or leased, at the given time and free of its
  -- lease; of any other job it is an error that leaves it as it is.
  pub cancel-IsGuarded :
      (at : ℕ) → IsGuarded id (is_open j.status) j (cancelled_at at j) (cancel id at t)
  unfolding cancel
  cancel-IsGuarded at =
      transition-IsGuarded (is_cancellable id) open_id (cancelled_at at) (λ k. refl)
        (is_open j.status) (ground (arith, found_id t id j found))
