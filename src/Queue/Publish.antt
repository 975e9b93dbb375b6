-- ===== src/Queue/Publish.antt =====
-- `Publish` of queue/repository.go under an idempotency key.
use akoflow_workflow_engine.Prelude.{
  ℕ, ◌≡◌, sym, ap, ◌∙◌, Bool, true, false, [], ◌∷◌, Option, none, some, Bool-cases, inl, inr,
  Result, ok, err, >>=-eq-ok, ok_ne_err, or_fail, ◌>>◌, any, is_empty,
}
use akoflow_workflow_engine.Domain.Queue.{Job, validate}
use akoflow_workflow_engine.Queue.{
  Table, QueueError, no_rows, job_disappeared, find_by_id, find_row, has_key, insert_row,
  with_times, published, stored, publish, lift_invalid,
}

any-find_row :
    (test : Job → Bool) (t : Table) (r : Job) → find_row test t ≡ some r → any test t ≡ true
unfolding find_row
any-find_row test [] r h = cc
any-find_row test (j ∷ t) r h = elim (Bool-cases (test j)) [
  | inl e ↦ rw e
  | inr e ↦ rw e (any-find_row test t r (rw e at h))
]

or_fail-some :
    {A : Type 0} (o : Option A) (e : QueueError) (a : A) → or_fail o e ≡ ok a → o ≡ some a
or_fail-some none e a h = cc
or_fail-some (some b) e a h = cc

-- What `Publish` answers under a key depends on the key and the table alone.
published-key :
    (i j : Job) (t : Table)
    → i.idempotency_key ≡ j.idempotency_key
    → is_empty i.idempotency_key ≡ false
    → published i t ≡ published j t
unfolding published
published-key i j t e n =
    let m : is_empty j.idempotency_key ≡ false = ap is_empty (sym e) ∙ n in
    rw n (rw m (rw (ap (λ k. find_row (has_key k) t) e)))

published-any :
    (i : Job) (t : Table) (k : Job)
    → is_empty i.idempotency_key ≡ false
    → published i t ≡ ok k
    → any (has_key i.idempotency_key) t ≡ true
unfolding published
published-any i t k n h =
    let (row, found, rest) =
      >>=-eq-ok (or_fail (find_row (has_key i.idempotency_key) t) no_rows)
        (λ row. or_fail (find_by_id t row.id) job_disappeared) (rw n at h) in
    any-find_row (has_key i.idempotency_key) t row (or_fail-some _ no_rows row found)

stored_ok :
    (j : Job) (t t' : Table) (m : Result QueueError Table) (k : Job)
    → stored j t m ≡ (ok k, t')
    → published j t' ≡ ok k
stored_ok j t t' (ok u) k h =
    ap (λ v. published j v) (sym (ap (λ (r : Result QueueError Job × Table). r.1) h))
    ∙ ap (λ (r : Result QueueError Job × Table). r.0) h
stored_ok j t t' (err e) k h =
    absurd (ok_ne_err (sym (ap (λ (r : Result QueueError Job × Table). r.0) h)))

-- After a job has been published under a key that is not empty, publishing any valid job under that key answers with
-- the same job and changes nothing.
pub publish_again :
    (now later : ℕ) (i j : Job) (t t' : Table) (k : Job)
    → is_empty i.idempotency_key ≡ false
    → j.idempotency_key ≡ i.idempotency_key
    → validate j ≡ ok tt
    → publish now i t ≡ (ok k, t')
    → publish later j t' ≡ (ok k, t')
unfolding publish insert_row
publish_again now later i j t t' k n e v h =
    let i' = with_times now i in
    let j' = with_times later j in
    let first = stored_ok i' t t' (lift_invalid (validate i) >> insert_row i' t) k h in
    let taken : any (has_key j.idempotency_key) t' ≡ true =
      ap (λ key. any (has_key key) t') e ∙ published-any i' t' k n first in
    let same = published-key j' i' t' e (ap is_empty e ∙ n) ∙ first in rw v (rw taken (rw same))
