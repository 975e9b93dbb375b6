-- ===== src/Queue/First.antt =====
-- The SELECT of `Lease` in queue/repository.go: which rows it takes, in the words of the statement.
use akoflow_workflow_engine.Prelude.{
  ℕ, zero, suc, ◌≤◌, ◌≡◌, refl, sym, ap, ◌∙◌, String, Bool, true, false, not, ◌||◌, inl, inr, ◌⊎◌,
  List, [], ◌∷◌, Bool-cases, eq_refl, nat_eq, length, length-take-le, take, select, all, contains,
  arith, All, All-weaken, All-take,
}
use akoflow_workflow_engine.Prelude.Int.{ℤ, ltb_ℤ}
use akoflow_workflow_engine.Domain.Queue.{
  Job, Status, pending, leased, completed, failed, cancelled,
}
use akoflow_workflow_engine.Queue.{Table, is_pending, is_eligible, is_before, ids, select_leasable}
use akoflow_workflow_engine.Queue.Lease.{
  IsOrderBy, is_behind, all_of_count, all_join, select_leasable-behind,
}

-- A row that `Lease` may hand out: pending, due, and of an asked category, if any are asked for.
pub record IsOwed (now : ℕ) (categories : List String) (k : Job) : Type 0 where
  pub is_open : k.status ≡ pending
  pub is_due : k.available_at ≤ now
  pub is_asked : (categories ≡ []) ⊎ (contains categories k.category ≡ true)

-- `k` has no right to be served before `j`: its priority is not higher; at the same priority it was not due earlier; and due at the
-- same time, it was not created earlier.
pub record IsAfter (k j : Job) : Type 0 where
  pub by_priority : ltb_ℤ j.priority k.priority ≡ false
  pub by_time : j.priority ≡ k.priority → j.available_at ≤ k.available_at
  pub by_creation :
      j.priority ≡ k.priority → j.available_at ≡ k.available_at → j.created_at ≤ k.created_at

status_pending : (s : Status) → is_pending s ≡ true → s ≡ pending
status_pending pending h = refl
status_pending leased h = absurd (ground arith)
status_pending completed h = absurd (ground arith)
status_pending failed h = absurd (ground arith)
status_pending cancelled h = absurd (ground arith)

asked_of :
    (categories : List String) (category : String)
    → (nat_eq (length categories) 0 || contains categories category) ≡ true
    → (categories ≡ []) ⊎ (contains categories category ≡ true)
asked_of [] category h = inl refl
asked_of (c ∷ categories) category h = inr (ground arith)

eligible-IsOwed :
    (now : ℕ) (categories : List String) (k : Job)
    → is_eligible now categories k ≡ true
    → IsOwed now categories k
eligible-IsOwed now categories k h = record {
  is_open = status_pending k.status (ground arith);
  is_due = ground arith;
  is_asked = asked_of categories k.category (ground arith);
}

asked_again :
    (categories : List String) (category : String)
    → (categories ≡ []) ⊎ (contains categories category ≡ true)
    → (nat_eq (length categories) 0 || contains categories category) ≡ true
asked_again [] category h = refl
asked_again (c ∷ categories) category (inl e) = absurd cc
asked_again (c ∷ categories) category (inr e) = ground arith

owed_eligible :
    (now : ℕ) (categories : List String) (k : Job)
    → IsOwed now categories k
    → is_eligible now categories k ≡ true
owed_eligible now categories k h =
    let there : is_pending k.status ≡ true = ap is_pending h.is_open in
    ground (arith, h.is_due, asked_again categories k.category h.is_asked)

ltb_ℤ-irreflexive : (n m : ℤ) → n ≡ m → ltb_ℤ m n ≡ false
ltb_ℤ-irreflexive n m same = ap (λ x. ltb_ℤ m x) same ∙ ground arith

not_before-IsAfter : (k j : Job) → not (is_before k j) ≡ true → IsAfter k j
not_before-IsAfter k j h = record {
  by_priority = ground arith;
  by_time = λ same. ground (arith, ltb_ℤ-irreflexive j.priority k.priority same);
  by_creation = λ same at. ground (arith, at, ltb_ℤ-irreflexive j.priority k.priority same);
}

all-All :
    (test : Job → Bool) (rows : List Job) → all test rows ≡ true → All (λ j. test j ≡ true) rows
all-All test [] h = tt
all-All test (j ∷ rows) h = (ground arith, all-All test rows (ground arith))

all-select :
    (test chosen : Job → Bool) (rows : List Job)
    → all test (select chosen rows) ≡ true
    → All (λ j. chosen j ≡ true → test j ≡ true) rows
all-select test chosen [] h = tt
all-select test chosen (j ∷ rows) h = elim (Bool-cases (chosen j)) [
  | inl e ↦
      let both : all test (j ∷ select chosen rows) ≡ true = rw e at h in
      (λ c. ground arith, all-select test chosen rows (ground arith))
  | inr e ↦ (λ c. absurd (ground arith), all-select test chosen rows (rw e at h))
]

select-all : (chosen : Job → Bool) (rows : List Job) → all chosen (select chosen rows) ≡ true
select-all chosen [] = refl
select-all chosen (j ∷ rows) = elim (Bool-cases (chosen j)) [
  | inl e ↦ rw e (rw e (select-all chosen rows))
  | inr e ↦ rw e (select-all chosen rows)
]

all_units : (rows : List Job) → All (λ k. Unit {0}) rows
all_units [] = tt
all_units (j ∷ rows) = (tt, all_units rows)

All-both :
    (P Q R : Job → Type 0)
    → ((j : Job) → P j → Q j → R j)
    → (rows : List Job) → All P rows
    → All Q rows
    → All R rows
All-both P Q R f [] p q = tt
All-both P Q R f (j ∷ rows) p q = (f j p.0 q.0, All-both P Q R f rows p.1 q.1)

-- `k` is among the first rows, or there are as many of them as were asked for.
abbrev is_left : ℕ → List Job → Job → Bool
is_left n rows k = contains (ids rows) k.id || nat_eq (length rows) n

left_cons :
    (n : ℕ) (rows : List Job) (j k : Job)
    → is_left n rows k ≡ true
    → is_left (suc n) (j ∷ rows) k ≡ true
unfolding ids
left_cons n rows j k h = ground arith

all_left : (n : ℕ) (rows : List Job) → all (is_left n (take n rows)) rows ≡ true
unfolding ids
all_left zero [] = refl
all_left zero (j ∷ rows) = all_left zero rows
all_left (suc n) [] = refl
all_left (suc n) (j ∷ rows) =
    let later : all (is_left (suc n) (j ∷ take n rows)) rows ≡ true =
      all_join (λ k. Unit {0}) (is_left (suc n) (j ∷ take n rows)) (is_left n (take n rows))
        (λ k u. left_cons n (take n rows) j k) rows (all_units rows) (all_left n rows) in
    ground (arith, eq_refl j.id)

module _ (order_by : (Job → Job → Bool) → List Job → List Job) (orders : IsOrderBy order_by)
    (now : ℕ) (categories : List String) (limit : ℕ) (t : Table) where
  abbrev chosen : List Job
  chosen = select_leasable order_by now categories limit t

  -- A test of all rows in order is one of all rows.
  all-ordered :
      (test : Job → Bool)
      → all test (order_by is_before (select (is_eligible now categories) t))
        ≡ all test (select (is_eligible now categories) t)
  all-ordered test =
      let rows = select (is_eligible now categories) t in
      all_of_count test (order_by is_before rows)
      ∙ ap (λ n. nat_eq n 0) (orders.same_rows rows (λ j. not (test j)))
      ∙ sym (all_of_count test rows)

  chosen-IsOwed : All (IsOwed now categories) chosen
  unfolding select_leasable
  chosen-IsOwed =
      let rows = order_by is_before (select (is_eligible now categories) t) in
      All-take (IsOwed now categories) limit rows (
        All-weaken (λ j. is_eligible now categories j ≡ true) (IsOwed now categories)
          (λ j e. eligible-IsOwed now categories j e) rows
          (all-All (is_eligible now categories) rows
            (all-ordered (is_eligible now categories) ∙ select-all (is_eligible now categories) t)))

  owed_left : All (λ k. is_eligible now categories k ≡ true → is_left limit chosen k ≡ true) t
  unfolding select_leasable
  owed_left =
      let rows = order_by is_before (select (is_eligible now categories) t) in
      all-select (is_left limit (take limit rows)) (is_eligible now categories) t
        (sym (all-ordered (is_left limit (take limit rows))) ∙ all_left limit rows)

  -- A row that is left out: there are as many others as were asked for, and it comes after each of them.
  abbrev pub IsLeftOut : Job → Type 0
  IsLeftOut k = (length chosen ≡ limit) × All (IsAfter k) chosen

  left_out :
      (k : Job)
      → is_left limit chosen k ≡ true
      → is_behind is_before chosen k ≡ true
      → (contains (ids chosen) k.id ≡ true) ⊎ IsLeftOut k
  left_out k l b = elim (Bool-cases (contains (ids chosen) k.id)) [
    | inl e ↦ inl e
    | inr e ↦ inr (
      ground arith,
      All-weaken (λ j. not (is_before k j) ≡ true) (IsAfter k) (λ j n. not_before-IsAfter k j n)
          chosen (all-All (λ j. not (is_before k j)) chosen (ground arith)),
    )
  ]

  -- The SELECT of `Lease` takes at most `limit` rows; each is pending, due, and of a category that was asked for, if any was; and a
  -- row of the table that is all this and is not taken is left out for `limit` others, of which each has a priority that is not
  -- lower, at the same priority was due no later, and due at the same time was created no later.
  pub select_leasable-IsFirst :
      (length chosen ≤ limit)
      × All (IsOwed now categories) chosen
      × All (λ k. IsOwed now categories k → (contains (ids chosen) k.id ≡ true) ⊎ IsLeftOut k) t
  unfolding select_leasable
  select_leasable-IsFirst =
      let behind =
        all-select (is_behind is_before chosen) (is_eligible now categories) t
          (select_leasable-behind order_by orders now categories limit t) in
      (
        length-take-le limit (order_by is_before (select (is_eligible now categories) t)),
        chosen-IsOwed,
        All-both (λ k. is_eligible now categories k ≡ true → is_left limit chosen k ≡ true)
            (λ k. is_eligible now categories k ≡ true → is_behind is_before chosen k ≡ true)
            (λ k. IsOwed now categories k → (contains (ids chosen) k.id ≡ true) ⊎ IsLeftOut k)
            (λ k l b o. let e = owed_eligible now categories k o in left_out k (l e) (b e)) t
            owed_left behind,
      )
