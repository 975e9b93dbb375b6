-- ===== src/Queue/Rows.antt =====
-- What one statement of queue/repository.go does to the rows of the table, row by row.
use akoflow_workflow_engine.Prelude.{
  ℕ, ◌≤◌, ◌≡◌, refl, String, Bool, true, false, Option, none, some, [], ◌∷◌, ◌++◌, Bool-cases, inl,
  inr, ◌==◌, if◌then◌else◌, arith,
}
use akoflow_workflow_engine.Domain.Queue.{
  Status, pending, leased, completed, failed, cancelled, Job,
}
use akoflow_workflow_engine.Queue.{
  Table, is_pending, is_leased, is_open, update_where, find_by_id, ids, holds, complete,
  renew_lease, retry, cancel, is_cancellable, is_expired, released, release_expired,
}

-- Each row of the first table stands in the second at its place, related by `R`; rows may have been added.
abbrev pub Rows : (Job → Job → Type 0) → Table → Table → Type 0
Rows R [] u = Unit
Rows R (j ∷ t) [] = ⊥
Rows R (j ∷ t) (k ∷ u) = R j k × Rows R t u

-- The statuses a row may go to in one statement.
pub data Move : Status → Status → Type 0 where
  keep : {s : Status} → Move s s
  take_lease : Move pending leased
  finish : Move leased completed
  give_back : Move leased pending
  give_up : Move leased failed
  withdraw_pending : Move pending cancelled
  withdraw_leased : Move leased cancelled

abbrev pub is_terminal : Status → Bool
is_terminal pending = false
is_terminal leased = false
is_terminal _ = true

-- What a statement leaves of a row: its identity always, and all of it once the status is terminal.
pub record Follows (j k : Job) : Type 0 where
  pub same_id : k.id ≡ j.id
  pub same_key : k.idempotency_key ≡ j.idempotency_key
  pub same_maximum : k.max_attempts ≡ j.max_attempts
  pub attempts_grow : j.attempts ≤ k.attempts
  pub moves : Move j.status k.status
  pub terminal_rests : is_terminal j.status ≡ true → k ≡ j

pub Follows-refl : (j : Job) → Follows j j
Follows-refl j = record {
  same_id = refl;
  same_key = refl;
  same_maximum = refl;
  attempts_grow = omega arith;
  moves = keep;
  terminal_rests = λ _. refl;
}

module _ (R : Job → Job → Type 0) (same : (j : Job) → R j j) where
  pub Rows-refl : (t : Table) → Rows R t t
  Rows-refl [] = tt
  Rows-refl (j ∷ t) = (same j, Rows-refl t)

  pub Rows-append : (t u : Table) → Rows R t (t ++ u)
  Rows-append [] u = tt
  Rows-append (j ∷ t) u = (same j, Rows-append t u)

  pub Rows-update_where :
      (test : Job → Bool) (f : Job → Job)
      → ((j : Job) → test j ≡ true → R j (f j))
      → (t : Table) → Rows R t (update_where test f t)
  unfolding update_where
  Rows-update_where test f step [] = tt
  Rows-update_where test f step (j ∷ t) = (
    elim (Bool-cases (test j)) [ inl e ↦ rw e (step j e) | inr e ↦ rw e (same j) ],
    Rows-update_where test f step t,
  )

pub Rows-trans :
    (R S T : Job → Job → Type 0)
    → ((i j k : Job) → R i j → S j k → T i k)
    → (t u v : Table) → Rows R t u
    → Rows S u v
    → Rows T t v
Rows-trans R S T join [] u v h k = tt
Rows-trans R S T join (j ∷ t) [] v h k = absurd h
Rows-trans R S T join (j ∷ t) (i ∷ u) [] h k = absurd k
Rows-trans R S T join (j ∷ t) (i ∷ u) (l ∷ v) h k =
    (join j i l h.0 k.0, Rows-trans R S T join t u v h.1 k.1)

pub Rows-weaken :
    (R S : Job → Job → Type 0)
    → ((j k : Job) → R j k → S j k)
    → (t u : Table) → Rows R t u
    → Rows S t u
Rows-weaken R S f [] u h = tt
Rows-weaken R S f (j ∷ t) [] h = absurd h
Rows-weaken R S f (j ∷ t) (k ∷ u) h = (f j k h.0, Rows-weaken R S f t u h.1)

pub Move-leased : (s : Status) → is_pending s ≡ true → Move s leased
Move-leased pending h = take_lease
Move-leased leased h = keep
Move-leased completed h = cc
Move-leased _ h = cc

Move-completed : (s : Status) → is_leased s ≡ true → Move s completed
Move-completed leased h = finish
Move-completed pending h = cc
Move-completed _ h = cc

Move-pending : (s : Status) → is_leased s ≡ true → Move s pending
Move-pending leased h = give_back
Move-pending pending h = keep
Move-pending _ h = cc

Move-failed : (s : Status) → is_leased s ≡ true → Move s failed
Move-failed leased h = give_up
Move-failed pending h = cc
Move-failed _ h = cc

Move-cancelled : (s : Status) → is_open s ≡ true → Move s cancelled
Move-cancelled pending h = withdraw_pending
Move-cancelled leased h = withdraw_leased
Move-cancelled _ h = cc

open_not_terminal : (s : Status) → is_open s ≡ true → is_terminal s ≡ true → ⊥
open_not_terminal s h k = ground arith

-- An UPDATE of an open row that writes no identity and lowers no count.
pub changed_Follows :
    (j k : Job)
    → is_open j.status ≡ true
    → k.id ≡ j.id
    → k.idempotency_key ≡ j.idempotency_key
    → k.max_attempts ≡ j.max_attempts
    → j.attempts ≤ k.attempts
    → Move j.status k.status
    → Follows j k
changed_Follows j k o a b c d m = record {
  same_id = a;
  same_key = b;
  same_maximum = c;
  attempts_grow = d;
  moves = m;
  terminal_rests = λ t. absurd (open_not_terminal j.status o t);
}

is_open_of_leased : (s : Status) → is_leased s ≡ true → is_open s ≡ true
is_open_of_leased s h = ground arith

holds_leased : (id owner : String) (j : Job) → holds id owner j ≡ true → is_leased j.status ≡ true
holds_leased id owner j h = ground arith

Move-retry : (s : Status) (b : Bool) → is_leased s ≡ true → Move s (if b then failed else pending)
Move-retry s true h = Move-failed s h
Move-retry s false h = Move-pending s h

-- A relation between the table before and after a statement, as wide as `Follows`.
abbrev pub Evolves : Table → Table → Type 0
Evolves = Rows Follows

pub Evolves-refl : (t : Table) → Evolves t t
Evolves-refl = Rows-refl Follows Follows-refl

pub complete-Evolves :
    (id owner : String) (at : ℕ) (t : Table) → Evolves t (complete id owner at t).1
unfolding complete
complete-Evolves id owner at = Rows-update_where Follows Follows-refl (holds id owner) _ λ j h.
    let l = holds_leased id owner j h in
    changed_Follows j _ (is_open_of_leased j.status l) refl refl refl (omega arith)
      (Move-completed j.status l)

pub renew_lease-Evolves :
    (id owner : String) (expires_at : ℕ) (t : Table)
    → Evolves t (renew_lease id owner expires_at t).1
unfolding renew_lease
renew_lease-Evolves id owner expires_at =
    Rows-update_where Follows Follows-refl (holds id owner) _ λ j h.
      changed_Follows j _ (is_open_of_leased j.status (holds_leased id owner j h)) refl refl refl
        (omega arith) keep

pub retry-Evolves :
    (id owner : String) (cause : Option String) (available_at : ℕ) (t : Table)
    → Evolves t (retry id owner cause available_at t).1
unfolding retry
retry-Evolves id owner cause available_at =
    Rows-update_where Follows Follows-refl (holds id owner) _ λ j h.
      let l = holds_leased id owner j h in
      changed_Follows j _ (is_open_of_leased j.status l) refl refl refl (omega arith)
        (Move-retry j.status _ l)

pub cancel-Evolves : (id : String) (at : ℕ) (t : Table) → Evolves t (cancel id at t).1
unfolding cancel
cancel-Evolves id at = Rows-update_where Follows Follows-refl (is_cancellable id) _ λ j h.
    let o : is_open j.status ≡ true = ground arith in
    changed_Follows j _ o refl refl refl (omega arith) (Move-cancelled j.status o)

pub release_expired-Evolves : (now : ℕ) (t : Table) → Evolves t (release_expired now t).1
unfolding release_expired
release_expired-Evolves now =
    Rows-update_where Follows Follows-refl (is_expired now) (released now) λ j h.
      let l : is_leased j.status ≡ true = ground arith in
      changed_Follows j _ (is_open_of_leased j.status l) refl refl refl (omega arith)
        (Move-pending j.status l)

-- A row as an UPDATE leaves it.
abbrev pub changed : (Job → Bool) → (Job → Job) → Job → Job
changed test f j = if test j then f j else j

abbrev pub map_row : (Job → Job) → Option Job → Option Job
map_row f none = none
map_row f (some j) = some (f j)

module _ (test : Job → Bool) (f : Job → Job) (same_id : (j : Job) → (f j).id ≡ j.id) where
  changed_id : (j : Job) → (changed test f j).id ≡ j.id
  changed_id j = elim (Bool-cases (test j)) [ inl e ↦ rw e (same_id j) | inr e ↦ rw e ]

  pub find_by_id-update_where :
      (t : Table) (key : String)
      → find_by_id (update_where test f t) key ≡ map_row (changed test f) (find_by_id t key)
  unfolding find_by_id update_where
  find_by_id-update_where [] key = refl
  find_by_id-update_where (j ∷ t) key = elim (Bool-cases (j.id == key)) [
    | inl e ↦ rw (changed_id j) (rw e)
    | inr e ↦ rw (changed_id j) (rw e (find_by_id-update_where t key))
  ]

  pub ids-update_where : (t : Table) → ids (update_where test f t) ≡ ids t
  unfolding ids update_where
  ids-update_where [] = refl
  ids-update_where (j ∷ t) = rw (changed_id j) (rw (ids-update_where t))
