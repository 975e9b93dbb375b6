-- ===== src/Queue/History.antt =====
-- Histories of the queue: any calls of queue/repository.go, by any workers, in any order. A call that fails may
-- have changed the table, as its statement has.
use akoflow_workflow_engine.Prelude.{
  ℕ, ◌+◌, ◌≤◌, ◌≡◌, refl, sym, subst, ap, ◌∙◌, String, Bool, true, false, ◌||◌, ◌⊎◌, inl, inr,
  Option, List, [], ◌∷◌, ◌++◌, Result, ok, err, >>=-eq-ok, ok_inj, ok_ne_err, Bool-cases, ◌==◌,
  if◌then◌else◌, arith, is_empty, ltb, any, ◌>>◌,
}
use akoflow_workflow_engine.Domain.Queue.{Job, validate}
use akoflow_workflow_engine.Queue.{
  Table, QueueError, ids, lease_rows, select_leasable, lease, answer, publish, insert_row, inserted,
  with_times, lift_invalid, complete, renew_lease, retry, cancel, release_expired, stored,
  lease_arguments_required, has_key, constraint_failed,
}
use akoflow_workflow_engine.Queue.Rows.{
  Rows, Rows-refl, Rows-append, Rows-trans, Rows-weaken, Follows, Follows-refl, Evolves,
  Evolves-refl, is_terminal, complete-Evolves, renew_lease-Evolves, retry-Evolves, cancel-Evolves,
  release_expired-Evolves,
}
use akoflow_workflow_engine.Queue.Leasing.{Leases, Leases-Follows, lease_rows-Leases}

pub data Operation : Type 0 where
  publishes : (now : ℕ) → Job → Operation
  leases : (now : ℕ) (owner : String) (categories : List String) (limit duration : ℕ) → Operation
  completes : (id owner : String) (at : ℕ) → Operation
  renews : (id owner : String) (expires_at : ℕ) → Operation
  retries : (id owner : String) (cause : Option String) (available_at : ℕ) → Operation
  cancels : (id : String) (at : ℕ) → Operation
  releases : (now : ℕ) → Operation

insert_row_cases :
    (j : Job) (t : Table)
    → (insert_row j t ≡ ok t)
      ⊎ ((insert_row j t ≡ ok (t ++ inserted j ∷ [])) × (any (λ r. r.id == j.id) t ≡ false))
      ⊎ ((e : QueueError) × (insert_row j t ≡ err e))
unfolding insert_row
insert_row_cases j t = elim (Bool-cases (any (has_key j.idempotency_key) t)) [
  | inl k ↦ inl (rw k)
  | inr k ↦ elim (Bool-cases (any (λ r. r.id == j.id) t)) [
    | inl d ↦ inr (inr (constraint_failed, rw k (rw d)))
    | inr d ↦ inr (inl (rw k (rw d), d))
  ]
]

stored_cases :
    (j : Job) (t : Table) (m : Result QueueError Table)
    → ((stored j t m).1 ≡ t) ⊎ ((u : Table) × (m ≡ ok u) × ((stored j t m).1 ≡ u))
stored_cases j t (ok u) = inr (u, refl, refl)
stored_cases j t (err e) = inl refl

-- The table after `Publish`: as it was, or with the row of the job at its end.
pub publish_cases :
    (now : ℕ) (j : Job) (t : Table)
    → ((publish now j t).1 ≡ t)
      ⊎ (((publish now j t).1 ≡ t ++ inserted (with_times now j) ∷ [])
          × (any (λ r. r.id == j.id) t ≡ false))
unfolding publish
publish_cases now j t =
    let j' = with_times now j in
    elim (stored_cases j' t (lift_invalid (validate j) >> insert_row j' t)) [
      | inl e ↦ inl e
      | inr (u, m, e) ↦
          let (_, _, i) = >>=-eq-ok (lift_invalid (validate j)) (λ _. insert_row j' t) m in
          elim (insert_row_cases j' t) [
            | inl k ↦ inl (e ∙ ok_inj (sym i ∙ k))
            | inr (inl (k, fresh)) ↦ inr (e ∙ ok_inj (sym i ∙ k), fresh)
            | inr (inr (x, k)) ↦ absurd (ok_ne_err (sym i ∙ k))
          ]
    ]

answer_cases :
    {A : Type 0} (refused : Bool) (x : Result QueueError A) (t : Table)
    (m : Result QueueError (Table × A))
    → ((if refused then (x, t) else answer t m).1 ≡ t)
      ⊎ ((a : A) × (m ≡ ok ((if refused then (x, t) else answer t m).1, a)))
answer_cases true x t m = inl refl
answer_cases false x t (ok (u, a)) = inr (a, refl)
answer_cases false x t (err e) = inl refl

-- What a history leaves of a row.
pub record Persists (j k : Job) : Type 0 where
  pub same_id : k.id ≡ j.id
  pub same_key : k.idempotency_key ≡ j.idempotency_key
  pub same_maximum : k.max_attempts ≡ j.max_attempts
  pub attempts_grow : j.attempts ≤ k.attempts
  pub terminal_rests : is_terminal j.status ≡ true → k ≡ j

Persists-refl : (j : Job) → Persists j j
Persists-refl j = record {
  same_id = refl;
  same_key = refl;
  same_maximum = refl;
  attempts_grow = omega arith;
  terminal_rests = λ _. refl;
}

Persists-after : (i j k : Job) → Follows i j → Persists j k → Persists i k
Persists-after i j k f p = record {
  same_id = p.same_id ∙ f.same_id;
  same_key = p.same_key ∙ f.same_key;
  same_maximum = p.same_maximum ∙ f.same_maximum;
  attempts_grow = omega (arith, f.attempts_grow, p.attempts_grow);
  terminal_rests = λ t.
      let rests = f.terminal_rests t in
      p.terminal_rests (ap (λ (x : Job). is_terminal x.status) rests ∙ t) ∙ rests;
}

module _ (order_by : (Job → Job → Bool) → List Job → List Job) where
  unfoldable pub step : Table → Operation → Table
  step t (publishes now j) = (publish now j t).1
  step t (leases now owner categories limit duration) =
      (lease order_by now owner categories limit duration t).1
  step t (completes id owner at) = (complete id owner at t).1
  step t (renews id owner expires_at) = (renew_lease id owner expires_at t).1
  step t (retries id owner cause available_at) = (retry id owner cause available_at t).1
  step t (cancels id at) = (cancel id at t).1
  step t (releases now) = (release_expired now t).1

  unfoldable pub run : Table → List Operation → Table
  unfolding step
  run t [] = t
  run t (o ∷ os) = run (step t o) os

  -- The table after `Lease`: as it was, or after the loop over the selected ids.
  pub lease_cases :
      (now : ℕ) (owner : String) (categories : List String) (limit duration : ℕ) (t : Table)
      → ((lease order_by now owner categories limit duration t).1 ≡ t)
        ⊎ ((jobs : List Job) × (lease_rows owner now
                (now + duration)
                (ids (select_leasable order_by now categories limit t))
                t
              ≡ ok ((lease order_by now owner categories limit duration t).1, jobs)))
  unfolding lease
  lease_cases now owner categories limit duration t =
      answer_cases (is_empty owner || ltb limit 1 || ltb duration 1) (err lease_arguments_required)
        t
        (lease_rows owner now (now + duration)
          (ids (select_leasable order_by now categories limit t)) t)

  -- Whatever the call: every row stays where it is, keeps its id, key and maximum, loses no attempt, moves from its status only
  -- to itself or along an arrow (pending to leased or cancelled; leased to completed, pending, failed or cancelled), and
  -- is left alone once it is completed, failed or cancelled.
  pub step-Evolves : (t : Table) (o : Operation) → Evolves t (step t o)
  unfolding step
  step-Evolves t (publishes now j) = elim (publish_cases now j t) [
    | inl e ↦ subst (Evolves t) (sym e) (Evolves-refl t)
    | inr (e, _) ↦ subst (Evolves t) (sym e) (Rows-append Follows Follows-refl t _)
  ]
  step-Evolves t (leases now owner categories limit duration) =
      elim (lease_cases now owner categories limit duration t) [
        | inl e ↦ subst (Evolves t) (sym e) (Evolves-refl t)
        | inr (jobs, r) ↦
            Rows-weaken (Leases owner now (now + duration)) Follows
              (Leases-Follows owner now (now + duration)) t _
              (lease_rows-Leases owner now (now + duration) _ t _ jobs r)
      ]
  step-Evolves t (completes id owner at) = complete-Evolves id owner at t
  step-Evolves t (renews id owner expires_at) = renew_lease-Evolves id owner expires_at t
  step-Evolves t (retries id owner cause available_at) = retry-Evolves id owner cause available_at t
  step-Evolves t (cancels id at) = cancel-Evolves id at t
  step-Evolves t (releases now) = release_expired-Evolves now t

  -- Over any history: every row stays where it is with its id, key and maximum, its attempts never fall, and a job that is
  -- completed, failed or cancelled is never changed again.
  pub run-Persists : (t : Table) (os : List Operation) → Rows Persists t (run t os)
  unfolding run
  run-Persists t [] = Rows-refl Persists Persists-refl t
  run-Persists t (o ∷ os) =
      Rows-trans Follows Persists Persists Persists-after t (step t o) (run (step t o) os)
        (step-Evolves t o) (run-Persists (step t o) os)
