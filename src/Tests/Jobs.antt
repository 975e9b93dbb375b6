-- ===== src/Tests/Jobs.antt =====
-- Runs of the queue.
use akoflow_workflow_engine.Prelude.{
  contains, ◌⊎◌, ◌≡◌, refl, ◌≤◌, true, List, [], ◌∷◌, none, some, ok, arith, All, length,
}
use akoflow_workflow_engine.Prelude.Int.{pos}
use akoflow_workflow_engine.Domain.Queue.{Job, pending, validate}
use akoflow_workflow_engine.Queue.{
  Table, ids, select_leasable, lease, lease_rows, leased_to, update_where, find_by_id, find_row,
  publish, insert_row, published, complete, cancel, renew_lease, retry, with_times, inserted,
}
use akoflow_workflow_engine.Queue.Rows.{Rows, Evolves}
use akoflow_workflow_engine.Queue.Leasing.{Leases}
use akoflow_workflow_engine.Queue.Lease.{IsDue, lease_lem}
use akoflow_workflow_engine.Queue.First.{IsOwed, IsLeftOut, select_leasable-IsFirst}
use akoflow_workflow_engine.Queue.History.{
  Operation, publishes, leases, completes, retries, cancels, releases, step, run, Persists,
  step-Evolves, run-Persists,
}
use akoflow_workflow_engine.Queue.Attempts.{IsConsistent, run-IsConsistent}
use akoflow_workflow_engine.Queue.Guards.{
  IsGuarded, cancelled_at, cancel-IsGuarded, completed_at, renewed_to, complete_renew-IsGuarded,
  cancelled_at, cancel-IsGuarded, retry_by_owner,
}
use akoflow_workflow_engine.Queue.Publish.{publish_again}
use akoflow_workflow_engine.Tests.Sort.{place, sort, order_by, order_by-IsOrderBy}

abbrev pub low : Job
low = record {
  id = "low";
  category = "execution";
  event_type = "run.start";
  aggregate_type = "run";
  aggregate_id = "r1";
  payload = [];
  status = pending;
  priority = pos 0;
  available_at = 5;
  lease_owner = "";
  lease_expires_at = none;
  attempts = 0;
  max_attempts = 2;
  idempotency_key = "";
  last_error = "";
  created_at = 5;
  started_at = none;
  completed_at = none;
}

abbrev pub high : Job
high = record low { id = "high"; priority = pos 9; idempotency_key = "r1:start" }

abbrev pub two_rows : Table
two_rows = low ∷ high ∷ []

abbrev granted : List Job
granted = leased_to "w1" 10 70 high ∷ []

abbrev one_leased : Table
one_leased = low ∷ leased_to "w1" 10 70 high ∷ []

lease_lem_example :
    (length granted ≤ 1)
    × All (IsDue 10 "w1" ("execution" ∷ []) 70 two_rows one_leased) granted
    × Rows (Leases "w1" 10 70) two_rows one_leased
unfolding ids lease lease_rows select_leasable order_by sort place update_where find_by_id find_row
lease_lem_example =
    lease_lem order_by order_by-IsOrderBy 10 "w1" ("execution" ∷ []) 1 60 two_rows one_leased
      granted refl refl

select_leasable-IsFirst_example :
    (length (select_leasable order_by 10 [] 1 two_rows) ≤ 1)
    × All (IsOwed 10 []) (select_leasable order_by 10 [] 1 two_rows)
    × All
        (λ k.
          IsOwed 10 [] k
          → (contains (ids (select_leasable order_by 10 [] 1 two_rows)) k.id ≡ true)
            ⊎ IsLeftOut order_by order_by-IsOrderBy 10 [] 1 two_rows k)
        two_rows
select_leasable-IsFirst_example =
    select_leasable-IsFirst order_by order_by-IsOrderBy 10 [] 1 two_rows

-- Published, leased, failed once, leased again, lost, released, and leased a third time.
abbrev history : List Operation
history =
    publishes 5 low
    ∷ publishes 6 high
    ∷ leases 10 "w1" [] 1 60
    ∷ retries "high" "w1" (some "lost") 20
    ∷ leases 30 "w2" [] 2 60
    ∷ releases 100
    ∷ leases 110 "w3" [] 1 60
    ∷ completes "high" "w3" 120
    ∷ cancels "low" 130
    ∷ []

step-Evolves_example : Evolves two_rows (step order_by two_rows (leases 10 "w1" [] 1 60))
step-Evolves_example = step-Evolves order_by two_rows (leases 10 "w1" [] 1 60)

run-Persists_example : Rows Persists two_rows (run order_by two_rows history)
run-Persists_example = run-Persists order_by two_rows history

run-IsConsistent_example : All (IsConsistent 1) (run order_by [] history)
run-IsConsistent_example =
    run-IsConsistent order_by history
      ((refl, omega arith), ((refl, omega arith), (tt, (tt, (tt, (tt, (tt, (tt, (tt, tt)))))))))

complete_renew-IsGuarded_example :
    IsGuarded "high" true
      (leased_to "w1" 10 70 high)
      (completed_at 50 (leased_to "w1" 10 70 high))
      (complete "high" "w1" 50 one_leased)
    × IsGuarded "high" true
        (leased_to "w1" 10 70 high)
        (renewed_to 90 (leased_to "w1" 10 70 high))
        (renew_lease "high" "w1" 90 one_leased)
unfolding ids find_by_id find_row
complete_renew-IsGuarded_example =
    complete_renew-IsGuarded "high" one_leased (leased_to "w1" 10 70 high) refl refl "w1" 50 90

cancel-IsGuarded_example :
    IsGuarded "low" true low (cancelled_at 50 low) (cancel "low" 50 one_leased)
unfolding ids find_by_id find_row
cancel-IsGuarded_example = cancel-IsGuarded "low" one_leased low refl refl 50

retry_by_owner_example :
    (k : Job) × ((retry "high" "w1" (some "exit 1") 80 one_leased).0 ≡ ok tt)
    × (find_by_id (retry "high" "w1" (some "exit 1") 80 one_leased).1 "high" ≡ some k)
    × (k.status ≡ pending)
    × (k.completed_at ≡ none)
    × (k.available_at ≡ 80)
    × (k.attempts ≡ 1)
    × (k.lease_owner ≡ "")
unfolding ids find_by_id find_row
retry_by_owner_example =
    retry_by_owner "high" one_leased (leased_to "w1" 10 70 high) refl refl "w1" (some "exit 1") 80
      refl

-- What a second attempt to publish under the key of `high` says.
abbrev again : Job
again = record high { id = "other"; priority = pos 1 }

publish_again_example :
    publish 9 again (low ∷ inserted (with_times 6 high) ∷ [])
    ≡ (ok high, low ∷ inserted (with_times 6 high) ∷ [])
unfolding validate publish insert_row published find_by_id find_row
publish_again_example =
    publish_again 6 9 high again (low ∷ []) (low ∷ inserted (with_times 6 high) ∷ []) high refl refl
      refl refl
