-- ===== src/Supervisor/Answers.antt =====
-- What the loop of `executeActivities` in controlplane/execution/supervisor.go answers, and lemmas on its lists and
-- counts.
use akoflow_workflow_engine.Prelude.{
  ℕ, zero, suc, ◌+◌, ◌≤◌, ◌≡◌, refl, String, Bool, true, false, Option, none, some, List, [], ◌∷◌,
  Result, ok, err, All, Bool-cases, inl, inr, length, take, contains, distinct, arith, ltb, ◌-◌,
  ◌<◌, sym, subst, ◌==◌, eq_refl, eq_iff, map, count_if,
}
use akoflow_workflow_engine.Prelude.Maps.{StringMap, has, lookup}
use akoflow_workflow_engine.Domain.Workflow.{Activity, ActivityDependency}
use akoflow_workflow_engine.Domain.Planning.{ExecutionMode}
use akoflow_workflow_engine.Domain.Execution.{ActivityHandle, ExecutionTrace}
use akoflow_workflow_engine.Plan.Dag.Kahn.{IsTopological}
use akoflow_workflow_engine.Supervisor.Request.{
  SupervisorError, cannot_progress, slice_out_of_range,
}
use akoflow_workflow_engine.Supervisor.{
  State, Outcome, Answer, stopped, waited, available, is_interactive,
}
use akoflow_workflow_engine.Supervisor.Inv.{Inv}

-- What Go promises of `range` over the running handles: it meets entries of the map.
abbrev pub RangesHandles : (StringMap ActivityHandle → List (String × ActivityHandle)) → Type 0
RangesHandles range_handles =
    (m : StringMap ActivityHandle)
    → All (λ (e : String × ActivityHandle). has e.0 m ≡ true) (range_handles m)

abbrev pub is_returned : Result SupervisorError ExecutionTrace → Bool
is_returned (ok trace) = true
is_returned (err e) = false

abbrev pub is_out_of_range : Result SupervisorError ExecutionTrace → Bool
is_out_of_range (err slice_out_of_range) = true
is_out_of_range (err _) = false
is_out_of_range (ok trace) = false

abbrev pub is_blocked : Result SupervisorError ExecutionTrace → Bool
is_blocked (err cannot_progress) = true
is_blocked (err _) = false
is_blocked (ok trace) = false

-- However the loop stops: the maps satisfy the invariant; no slice was out of range; if it returns a trace of a run that is
-- not interactive, as many activities have completed as there are; and if the activities can be put in order, it
-- does not stop because it cannot progress.
pub record IsSound {W : Type 0} (activities : StringMap Activity)
    (dependencies : List ActivityDependency) (max_parallel : ℕ) (mode : ExecutionMode)
    (a : Answer W) : Type 0 where
  pub kept : Inv activities dependencies max_parallel a.1
  pub in_range : is_out_of_range a.0 ≡ false
  pub finishes :
      is_returned a.0 ≡ true
      → is_interactive mode ≡ false
      → length activities ≤ length a.1.completed
  pub progresses :
      (order : List String)
      → IsTopological dependencies [] order
      → ((v : String) → contains order v ≡ has v activities)
      → is_blocked a.0 ≡ false

pub available_none :
    (max ready running : ℕ) → running ≤ max → available max ready running ≡ none → ⊥
unfolding available
available_none max ready running b h = ground arith

pub available_le :
    (max ready running n : ℕ)
    → running ≤ max
    → available max ready running ≡ some n
    → running + n ≤ max
unfolding available
available_le max ready running n b h = ground arith

pub distinct-take : (n : ℕ) (xs : List String) → distinct xs ≡ true → distinct (take n xs) ≡ true
distinct-take zero xs h = refl
distinct-take (suc n) [] h = refl
distinct-take (suc n) (x ∷ xs) h = ground (arith, distinct-take n xs, contains_take n xs x)
  where
    contains_take :
        (n : ℕ) (xs : List String) (v : String)
        → contains xs v ≡ false
        → contains (take n xs) v ≡ false
    contains_take zero xs v h = refl
    contains_take (suc n) [] v h = refl
    contains_take (suc n) (y ∷ xs) v h = ground (arith, contains_take n xs v)

-- `range` over the running handles meets each entry of the map, and no other.
pub record RangesAllHandles
    (range_handles : StringMap ActivityHandle → List (String × ActivityHandle)) : Type 0 where
  pub only : RangesHandles range_handles
  pub each :
      (m : StringMap ActivityHandle) (v : String)
      → has v m ≡ true
      → contains (map (λ (e : String × ActivityHandle). e.0) (range_handles m)) v ≡ true

pub none_has : {V : Type 0} (m : StringMap V) → ((v : String) → has v m ≡ false) → length m ≡ 0
unfolding has lookup
none_has [] h = refl
none_has ((k, v) ∷ m) h = absurd (ground (arith, h k, eq_refl k))

pub count_if_le :
    (p q : String → Bool) (xs : List String)
    → ((v : String) → p v ≡ true → q v ≡ true)
    → count_if p xs ≤ count_if q xs
count_if_le p q [] h = omega arith
count_if_le p q (x ∷ xs) h = ground (arith, h x, count_if_le p q xs h)

pub count_if_lt :
    (p q : String → Bool) (xs : List String) (x : String)
    → ((v : String) → p v ≡ true → q v ≡ true)
    → contains xs x ≡ true
    → q x ≡ true
    → p x ≡ false
    → count_if p xs < count_if q xs
count_if_lt p q [] x h c a b = cc
count_if_lt p q (y ∷ xs) x h c a b = elim (Bool-cases (y == x)) [
  | inl e ↦
      let qy = subst (λ z. q z ≡ true) (sym ((eq_iff y x).0 e)) a in
      let py = subst (λ z. p z ≡ false) (sym ((eq_iff y x).0 e)) b in
      ground (arith, count_if_le p q xs h)
  | inr e ↦ ground (arith, h y, count_if_lt p q xs x h)
]

pub available_some :
    (max ready running : ℕ)
    → 1 ≤ max
    → running ≡ 0
    → (n : ℕ) × (available max (suc ready) running ≡ some (suc n))
unfolding available
available_some zero ready running m r = absurd (omega (arith, m))
available_some (suc max) ready running m r = elim (Bool-cases (ltb (suc ready) (suc max))) [
  | inl e ↦ (ready, ground (arith, e, r))
  | inr e ↦ (max, ground (arith, e, r))
]

pub available_any :
    (max ready running : ℕ) → running ≡ 0 → (n : ℕ) × (available max ready running ≡ some n)
unfolding available
available_any max ready running r = elim (Bool-cases (ltb ready (max - running))) [
  | inl e ↦ (ready, ground (arith, e, r))
  | inr e ↦ (max - running, ground (arith, e, r))
]

module _ {W : Type 0} where
  pub stopped_ok :
      (next : State → W → Answer W) (o : Outcome W) → o.0 ≡ ok tt → stopped next o ≡ next o.1 o.2
  stopped_ok next (ok u, s, w) h = refl
  stopped_ok next (err e, s, w) h = cc

  pub waited-none :
      (next : State → W → Answer W) (s : State) (r : Option String × W)
      → r.0 ≡ none
      → waited next s r ≡ next s r.1
  waited-none next s (none, w) h = refl
  waited-none next s (some e, w) h = cc

pub count_if-length-le : (p : String → Bool) (xs : List String) → count_if p xs ≤ length xs
count_if-length-le p [] = omega arith
count_if-length-le p (x ∷ xs) = ground (arith, count_if-length-le p xs)
