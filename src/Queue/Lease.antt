-- ===== src/Queue/Lease.antt =====
-- `Lease` of queue/repository.go as a whole: what it hands out, and in which order.
use akoflow_workflow_engine.Prelude.{
  ℕ, zero, suc, ◌+◌, ◌≤◌, ◌≡◌, refl, sym, subst, ap, ◌∙◌, String, Bool, true, false, not, ◌||◌, inl,
  inr, some, some_inj, List, [], ◌∷◌, Result, ok, err, Bool-cases, ◌==◌, eq_true, eq_refl, nat_eq,
  if◌then◌else◌, length, length-take-le, take, select, all, count_if, contains, distinct, arith,
  All, All-weaken, is_empty, ltb,
}
use akoflow_workflow_engine.Domain.Queue.{Job}
use akoflow_workflow_engine.Queue.{
  Table, QueueError, is_eligible, is_before, find_by_id, ids, leased_to, lease_rows,
  select_leasable, lease, answer, lease_arguments_required,
}
use akoflow_workflow_engine.Queue.Rows.{Rows}
use akoflow_workflow_engine.Queue.Leasing.{
  Leases, IsGranted, lease_rows-Leases, lease_rows-IsGranted, length-lease_rows-le,
}

-- Each row of the list is before none of the rows that it follows.
abbrev pub IsSorted : (Job → Job → Bool) → List Job → Type 0
IsSorted less [] = Unit
IsSorted less (j ∷ js) = All (λ k. less k j ≡ false) js × IsSorted less js

-- What an ORDER BY promises: the same rows, as often, and in order.
pub record IsOrderBy (order_by : (Job → Job → Bool) → List Job → List Job) : Type 0 where
  pub same_rows :
      (rows : List Job) (test : Job → Bool)
      → count_if test (order_by is_before rows) ≡ count_if test rows
  pub sorted : (rows : List Job) → IsSorted is_before (order_by is_before rows)

abbrev has_id : String → Job → Bool
has_id key j = j.id == key

contains-ids : (key : String) (t : Table) → contains (ids t) key ≡ ltb 0 (count_if (has_id key) t)
unfolding ids
contains-ids key [] = refl
contains-ids key (j ∷ t) = ground (arith, contains-ids key t)

contains-ids-take :
    (key : String) (n : ℕ) (t : Table)
    → contains (ids (take n t)) key ≡ true
    → contains (ids t) key ≡ true
unfolding ids
contains-ids-take key zero t h = cc
contains-ids-take key (suc n) [] h = cc
contains-ids-take key (suc n) (j ∷ t) h = ground (arith, contains-ids-take key n t)

pub length-ids : (t : Table) → length (ids t) ≡ length t
unfolding ids
length-ids [] = refl
length-ids (j ∷ t) = omega (arith, length-ids t)

ids-select_fresh :
    (test : Job → Bool) (key : String) (t : Table)
    → contains (ids t) key ≡ false
    → contains (ids (select test t)) key ≡ false
unfolding ids
ids-select_fresh test key [] h = refl
ids-select_fresh test key (j ∷ t) h = ground (arith, ids-select_fresh test key t)

-- With distinct ids, the row of a selected id passes the test.
selected_row :
    (test : Job → Bool) (key : String) (t : Table) (r : Job)
    → distinct (ids t) ≡ true
    → contains (ids (select test t)) key ≡ true
    → find_by_id t key ≡ some r
    → test r ≡ true
unfolding ids find_by_id
selected_row test key [] r d c f = absurd (ground arith)
selected_row test key (j ∷ t) r d c f = elim (Bool-cases (j.id == key)) [
  | inl e ↦ elim (Bool-cases (test j)) [
    | inl p ↦ subst (λ x. test x ≡ true) (some_inj (rw e at f)) p
    | inr p ↦
        let fresh = subst (λ x. contains (ids t) x ≡ false) (eq_true j.id key e) (ground arith) in
        absurd (ground (arith, ids-select_fresh test key t fresh))
  ]
  | inr e ↦ selected_row test key t r (ground arith) (ground arith) (rw e at f)
]

answer_ok :
    (refused : Bool) (t t' : Table) (m : Result QueueError (Table × List Job)) (jobs : List Job)
    → (if refused then (err lease_arguments_required, t) else answer t m) ≡ (ok jobs, t')
    → m ≡ ok (t', jobs)
answer_ok true t t' m jobs h = ground arith
answer_ok false t t' (ok (u, js)) jobs h = ground arith
answer_ok false t t' (err e) jobs h = ground arith

all-true :
    (test : Job → Bool) (rows : List Job) → ((j : Job) → test j ≡ true) → all test rows ≡ true
all-true test [] h = refl
all-true test (j ∷ rows) h = ground (arith, h j, all-true test rows h)

pub all_join :
    (R : Job → Type 0) (p q : Job → Bool)
    → ((j : Job) → R j → q j ≡ true → p j ≡ true)
    → (rows : List Job) → All R rows
    → all q rows ≡ true
    → all p rows ≡ true
all_join R p q step [] h k = refl
all_join R p q step (j ∷ rows) h k =
    let here : p j ≡ true = step j h.0 (ground arith) in
    let later : all p rows ≡ true = all_join R p q step rows h.1 (ground arith) in ground arith

-- `k` is among the rows, by its id, or is before none of them.
abbrev pub is_behind : (Job → Job → Bool) → List Job → Job → Bool
is_behind less rows k = contains (ids rows) k.id || all (λ j. not (less k j)) rows

behind_cons :
    (less : Job → Job → Bool) (rows : List Job) (j k : Job)
    → less k j ≡ false
    → is_behind less rows k ≡ true
    → is_behind less (j ∷ rows) k ≡ true
unfolding ids
behind_cons less rows j k h b = ground arith

-- Nothing that the first `n` rows leave out is before one of them.
left_behind :
    (less : Job → Job → Bool) (n : ℕ) (rows : List Job)
    → IsSorted less rows
    → all (is_behind less (take n rows)) rows ≡ true
unfolding ids
left_behind less zero rows h = all-true (is_behind less []) rows (λ k. refl)
left_behind less (suc n) [] h = refl
left_behind less (suc n) (j ∷ rows) h =
    let later : all (is_behind less (j ∷ take n rows)) rows ≡ true =
      all_join (λ k. less k j ≡ false) (is_behind less (j ∷ take n rows))
        (is_behind less (take n rows)) (behind_cons less (take n rows) j) rows h.0
        (left_behind less n rows h.1) in
    ground (arith, eq_refl j.id)

pub all_of_count :
    (test : Job → Bool) (rows : List Job)
    → all test rows ≡ nat_eq (count_if (λ j. not (test j)) rows) 0
all_of_count test [] = refl
all_of_count test (j ∷ rows) = ground (arith, all_of_count test rows)

-- A job that `Lease` hands out was due, pending and of an asked category; it is now leased to the caller, and
-- the table holds it as handed out.
pub record IsDue (now : ℕ) (owner : String) (categories : List String) (expires : ℕ) (t t' : Table)
    (job : Job) : Type 0 where
  pub row : Job
  pub stood : find_by_id t job.id ≡ some row
  pub eligible : is_eligible now categories row ≡ true
  pub is_lease : job ≡ leased_to owner now expires row
  pub stands : find_by_id t' job.id ≡ some job

module _ (order_by : (Job → Job → Bool) → List Job → List Job) (orders : IsOrderBy order_by) where
  selected_id :
      (now : ℕ) (categories : List String) (limit : ℕ) (t : Table) (key : String)
      → contains (ids (select_leasable order_by now categories limit t)) key ≡ true
      → contains (ids (select (is_eligible now categories) t)) key ≡ true
  unfolding select_leasable
  selected_id now categories limit t key h =
      let rows = select (is_eligible now categories) t in
      let all_of = contains-ids-take key limit (order_by is_before rows) h in
      contains-ids key rows
      ∙ ap (ltb 0) (sym (orders.same_rows rows (has_id key)))
      ∙ sym (contains-ids key (order_by is_before rows))
      ∙ all_of

  length_chosen :
      (now : ℕ) (categories : List String) (limit : ℕ) (t : Table)
      → length (select_leasable order_by now categories limit t) ≤ limit
  unfolding select_leasable
  length_chosen now categories limit t =
      length-take-le limit (order_by is_before (select (is_eligible now categories) t))

  -- When `Lease` succeeds over a table whose ids are distinct: it hands out at most `limit` jobs; each is due; and every
  -- row of the table is as it was or is a pending row that is now leased to the caller.
  pub lease_lem :
      (now : ℕ) (owner : String) (categories : List String) (limit duration : ℕ) (t t' : Table)
      (jobs : List Job)
      → distinct (ids t) ≡ true
      → lease order_by now owner categories limit duration t ≡ (ok jobs, t')
      → (length jobs ≤ limit)
        × All (IsDue now owner categories (now + duration) t t') jobs
        × Rows (Leases owner now (now + duration)) t t'
  unfolding lease
  lease_lem now owner categories limit duration t t' jobs d h =
      let chosen = select_leasable order_by now categories limit t in
      let expires = now + duration in
      let r =
        answer_ok (is_empty owner || ltb limit 1 || ltb duration 1) t t'
          (lease_rows owner now expires (ids chosen) t) jobs h in
      (
        omega (
          arith,
          length-lease_rows-le owner now expires (ids chosen) t t' jobs r,
          length-ids chosen,
          length_chosen now categories limit t,
        ),
        All-weaken (IsGranted owner now expires (ids chosen) t t')
            (IsDue now owner categories expires t t')
            (λ job g. record {
              row = g.row;
              stood = g.stood;
              eligible =
                  selected_row (is_eligible now categories) job.id t g.row d
                    (selected_id now categories limit t job.id g.wanted_id) g.stood;
              is_lease = g.is_lease;
              stands = g.stands;
            })
            jobs (lease_rows-IsGranted owner now expires (ids chosen) t t' jobs d r),
        lease_rows-Leases owner now expires (ids chosen) t t' jobs r,
      )

  -- Whatever eligible row `Lease` leaves out is before none of those that it selects.
  pub select_leasable-behind :
      (now : ℕ) (categories : List String) (limit : ℕ) (t : Table)
      → all
          (is_behind is_before (select_leasable order_by now categories limit t))
          (select (is_eligible now categories) t)
        ≡ true
  unfolding select_leasable
  select_leasable-behind now categories limit t =
      let rows = select (is_eligible now categories) t in
      let test = is_behind is_before (take limit (order_by is_before rows)) in
      all_of_count test rows
      ∙ ap (λ n. nat_eq n 0) (sym (orders.same_rows rows (λ j. not (test j))))
      ∙ sym (all_of_count test (order_by is_before rows))
      ∙ left_behind is_before limit (order_by is_before rows) (orders.sorted rows)
