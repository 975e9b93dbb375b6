-- ===== src/Queue.antt =====
-- internal/infrastructure/database/queue/repository.go. The table `queue_jobs` is the list of its rows in the
-- order of insertion; each method is the statement that it sends. A row holds the columns that `scanJob` reads,
-- so it is a `Job` (a NULL key and an empty one are read alike). That the driver or the database answers at all
-- is assumed: a failed statement changes nothing.
pub mod Rows
pub mod Leasing
pub mod Lease
pub mod First
pub mod History
pub mod Attempts
pub mod Identity
pub mod Guards
pub mod Publish
use akoflow_workflow_engine.Prelude.{
  ℕ, zero, suc, ◌+◌, ◌≡◌, String, Bool, true, false, ◌&&◌, ◌||◌, not, Option, none, some, List, [],
  ◌∷◌, ◌++◌, Result, ok, err, fail_if, or_fail, ◌>>=◌, ◌>>◌, ltb, leb, nat_eq, ◌==◌, is_empty,
  if◌then◌else◌, length, take, select, any, count_if, contains, is_some,
}
use akoflow_workflow_engine.Prelude.Int.{ℤ, ltb_ℤ}
use akoflow_workflow_engine.Domain.Queue.{
  Status, pending, leased, completed, failed, cancelled, Job, JobError, validate,
}

abbrev pub Table : Type 0
Table = List Job

pub data QueueError : Type 0 where
  invalid_job : JobError → QueueError
  constraint_failed : QueueError
  job_disappeared : QueueError
  no_rows : QueueError
  lease_arguments_required : QueueError
  affected_rows : ℕ → QueueError

abbrev pub is_pending : Status → Bool
is_pending pending = true
is_pending _ = false

abbrev pub is_leased : Status → Bool
is_leased leased = true
is_leased _ = false

abbrev pub is_open : Status → Bool
is_open pending = true
is_open leased = true
is_open _ = false

-- `UPDATE queue_jobs SET … WHERE test`
unfoldable pub update_where : (Job → Bool) → (Job → Job) → Table → Table
update_where test f [] = []
update_where test f (j ∷ t) = (if test j then f j else j) ∷ update_where test f t

-- `SELECT … WHERE test`, for one row
unfoldable pub find_row : (Job → Bool) → Table → Option Job
find_row test [] = none
find_row test (j ∷ t) = if test j then some j else find_row test t

unfoldable pub find_by_id : Table → String → Option Job
unfolding find_row
find_by_id t id = find_row (λ j. j.id == id) t

-- The column `id`, the primary key.
unfoldable pub ids : Table → List String
ids [] = []
ids (j ∷ t) = j.id ∷ ids t

-- `requireOne`: the statement has run, whatever the count.
unfoldable pub require_one : ℕ → Table → Result QueueError (Unit {0}) × Table
require_one n t = (if nat_eq n 1 then ok tt else err (affected_rows n), t)

unfoldable pub transition :
    (Job → Bool) → (Job → Job) → Table → Result QueueError (Unit {0}) × Table
unfolding require_one update_where
transition test f t = require_one (count_if test t) (update_where test f t)

-- The row that the INSERT of `Publish` makes: the other columns take their defaults.
abbrev pub inserted : Job → Job
inserted j = record j {
  lease_owner = "";
  lease_expires_at = none;
  last_error = "";
  started_at = none;
  completed_at = none;
}

abbrev pub has_key : String → Job → Bool
has_key key j = not (is_empty key) && j.idempotency_key == key

-- `ON CONFLICT(idempotency_key) … DO NOTHING`, and the primary key. A nil payload, which the column refuses, is not told from an
-- empty one.
unfoldable pub insert_row : Job → Table → Result QueueError Table
insert_row j t =
    if any (has_key j.idempotency_key) t
    then ok t
    else if any (λ r. r.id == j.id) t
    then err constraint_failed
    else ok (t ++ inserted j ∷ [])

abbrev pub with_times : ℕ → Job → Job
with_times now j =
    let available = if nat_eq j.available_at 0 then now else j.available_at in
    record j {
      available_at = available;
      created_at = if nat_eq j.created_at 0 then available else j.created_at;
    }

-- What `Publish` answers once the row stands: the job of that key, if it has one.
unfoldable pub published : Job → Table → Result QueueError Job
unfolding find_by_id
published j t = if is_empty j.idempotency_key then ok j else (do
  row ← or_fail (find_row (has_key j.idempotency_key) t) no_rows
  or_fail (find_by_id t row.id) job_disappeared)

abbrev pub lift_invalid : Result JobError (Unit {0}) → Result QueueError (Unit {0})
lift_invalid (ok u) = ok u
lift_invalid (err e) = err (invalid_job e)

abbrev pub answer {ℓ} :
    {A : Type ℓ} → Table → Result QueueError (Table × A) → Result QueueError A × Table
answer t (ok (t', a)) = (ok a, t')
answer t (err e) = (err e, t)

abbrev pub stored : Job → Table → Result QueueError Table → Result QueueError Job × Table
stored j t (ok t') = (published j t', t')
stored j t (err e) = (err e, t)

unfoldable pub publish : ℕ → Job → Table → Result QueueError Job × Table
publish now j t =
    stored (with_times now j) t (lift_invalid (validate j) >> insert_row (with_times now j) t)

-- The WHERE of the SELECT in `Lease`; no category at all means every category.
abbrev pub is_eligible : ℕ → List String → Job → Bool
is_eligible now categories j =
    is_pending j.status
    && leb j.available_at now
    && (nat_eq (length categories) 0 || contains categories j.category)

-- `ORDER BY priority DESC, available_at, created_at`
abbrev pub is_before : Job → Job → Bool
is_before a b =
    ltb_ℤ b.priority a.priority
    || (not (ltb_ℤ a.priority b.priority)
        && (ltb a.available_at b.available_at
            || (nat_eq a.available_at b.available_at && ltb a.created_at b.created_at)))

abbrev pub is_leasable : String → Job → Bool
is_leasable id j = j.id == id && is_pending j.status

abbrev pub started : ℕ → Option ℕ → Option ℕ
started now none = some now
started now (some at) = some at

abbrev pub leased_to : String → ℕ → ℕ → Job → Job
leased_to owner now expires j = record j {
  status = leased;
  lease_owner = owner;
  lease_expires_at = some expires;
  attempts = j.attempts + 1;
  started_at = started now j.started_at;
}

-- The rows of the SELECT, one UPDATE and one read each; a row that is no longer pending is passed over.
unfoldable pub lease_rows :
    String → ℕ → ℕ → List String → Table → Result QueueError (Table × List Job)
unfolding update_where find_by_id
lease_rows owner now expires [] t = ok (t, [])
lease_rows owner now expires (id ∷ ids) t =
    let t' = update_where (is_leasable id) (leased_to owner now expires) t in
    let rest = lease_rows owner now expires ids t' in
    if nat_eq (count_if (is_leasable id) t) 1
    then (do job ← or_fail (find_by_id t' id) no_rows; (t'', jobs) ← rest; ok (t'', job ∷ jobs))
    else rest

-- How the database sorts is its own: it leaves open the order of rows that tie.
module _ (order_by : (Job → Job → Bool) → List Job → List Job) where
  -- The SELECT of `Lease`.
  unfoldable pub select_leasable : ℕ → List String → ℕ → Table → List Job
  select_leasable now categories limit t =
      take limit (order_by is_before (select (is_eligible now categories) t))

  unfoldable pub lease :
      ℕ → String → List String → ℕ → ℕ → Table → Result QueueError (List Job) × Table
  lease now owner categories limit duration t =
      if is_empty owner || ltb limit 1 || ltb duration 1
      then (err lease_arguments_required, t)
      else answer t
          (lease_rows owner now (now + duration) (ids (select_leasable now categories limit t)) t)

abbrev pub holds : String → String → Job → Bool
holds id owner j = j.id == id && is_leased j.status && j.lease_owner == owner

unfoldable pub complete : String → String → ℕ → Table → Result QueueError (Unit {0}) × Table
unfolding transition
complete id owner at = transition (holds id owner) λ j. record j {
  status = completed;
  completed_at = some at;
  lease_owner = "";
  lease_expires_at = none;
}

unfoldable pub renew_lease : String → String → ℕ → Table → Result QueueError (Unit {0}) × Table
unfolding transition
renew_lease id owner expires_at =
    transition (holds id owner) (λ j. record j { lease_expires_at = some expires_at })

-- `cause` is the message of the error, if there is one.
abbrev pub retried : Option String → ℕ → Job → Job
retried cause available_at j = record j {
  status = if leb j.max_attempts j.attempts then failed else pending;
  available_at = available_at;
  last_error = elim cause [ none ↦ "" | some message ↦ message ];
  lease_owner = "";
  lease_expires_at = none;
  completed_at = if leb j.max_attempts j.attempts then some available_at else none;
}

unfoldable pub retry :
    String → String → Option String → ℕ → Table → Result QueueError (Unit {0}) × Table
unfolding transition
retry id owner cause available_at = transition (holds id owner) (retried cause available_at)

abbrev pub is_cancellable : String → Job → Bool
is_cancellable id j = j.id == id && is_open j.status

unfoldable pub cancel : String → ℕ → Table → Result QueueError (Unit {0}) × Table
unfolding transition
cancel id at = transition (is_cancellable id) λ j. record j {
  status = cancelled;
  completed_at = some at;
  lease_owner = "";
  lease_expires_at = none;
}

-- A NULL expiry compares as neither.
abbrev pub is_expired : ℕ → Job → Bool
is_expired now j =
    is_leased j.status && elim j.lease_expires_at [ none ↦ false | some at ↦ leb at now ]

abbrev pub released : ℕ → Job → Job
released now j = record j {
  status = pending;
  lease_owner = "";
  lease_expires_at = none;
  available_at = now;
}

unfoldable pub release_expired : ℕ → Table → ℕ × Table
unfolding update_where
release_expired now t =
    (count_if (is_expired now) t, update_where (is_expired now) (released now) t)
