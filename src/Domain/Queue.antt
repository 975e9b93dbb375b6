-- ===== src/Domain/Queue.antt =====
-- internal/domain/queue/job.go: a durable job. A `time.Time` is the number of nanoseconds since the zero time,
-- so `IsZero` is a test for 0; a nil `*time.Time` is `none`. Counts of attempts are never negative.
use akoflow_workflow_engine.Prelude.{
  ℕ, String, Option, none, List, Result, err, ok, ltb, nat_eq, is_empty, if◌then◌else◌, ◌||◌,
}
use akoflow_workflow_engine.Prelude.Int.{ℤ, pos}

pub data Status : Type 0 where
  pending leased completed failed cancelled : Status

pub record Job : Type 0 where
  pub id : String
  pub category : String
  pub event_type : String
  pub aggregate_type : String
  pub aggregate_id : String
  pub payload : List ℕ
  pub status : Status
  pub priority : ℤ
  pub available_at : ℕ
  pub lease_owner : String
  pub lease_expires_at : Option ℕ
  pub attempts : ℕ
  pub max_attempts : ℕ
  pub idempotency_key : String
  pub last_error : String
  pub created_at : ℕ
  pub started_at : Option ℕ
  pub completed_at : Option ℕ

pub data JobError : Type 0 where
  category_and_type_required : JobError
  id_category_and_type_required : JobError
  max_attempts_must_be_positive : JobError

-- `id` is what `newID` draws, `clock` what `time.Now` answers.
unfoldable pub new : String → ℕ → String → String → List ℕ → ℕ → Result JobError Job
new id clock category event_type payload now =
    let now' = if nat_eq now 0 then clock else now in
    if is_empty category || is_empty event_type
    then err category_and_type_required
    else ok (record {
      id = id;
      category = category;
      event_type = event_type;
      aggregate_type = "";
      aggregate_id = "";
      payload = payload;
      status = pending;
      priority = pos 0;
      available_at = now';
      lease_owner = "";
      lease_expires_at = none;
      attempts = 0;
      max_attempts = 5;
      idempotency_key = "";
      last_error = "";
      created_at = now';
      started_at = none;
      completed_at = none;
    })

unfoldable pub validate : Job → Result JobError (Unit {0})
validate j =
    if is_empty j.id || is_empty j.category || is_empty j.event_type
    then err id_category_and_type_required
    else if ltb j.max_attempts 1
    then err max_attempts_must_be_positive
    else ok tt
