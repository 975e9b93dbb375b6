-- ===== src/Tests/Sort.antt =====
-- A sort by insertion: what the database and Go's `sort.Slice` are taken to do, as a function that runs.
use akoflow_workflow_engine.Prelude.{
  ◌≡◌, refl, sym, Bool, true, false, List, [], ◌∷◌, All, All-weaken, count_if, arith, if◌then◌else◌,
  Bool-cases, inl, inr, subst,
}
use akoflow_workflow_engine.Prelude.Int.{ltb_ℤ, leb_ℤ}
use akoflow_workflow_engine.Domain.Queue.{Job}
use akoflow_workflow_engine.Domain.Planning.{PlanAssignment}
use akoflow_workflow_engine.Queue.{is_before}
use akoflow_workflow_engine.Queue.Lease.{IsSorted, IsOrderBy}
use akoflow_workflow_engine.Plan.Lanes.{IsAscending, SortsLane}

module _ {A : Type 0} (less : A → A → Bool) where
  unfoldable pub place : A → List A → List A
  place x [] = x ∷ []
  place x (y ∷ ys) = let rest = place x ys in if less y x then y ∷ rest else x ∷ y ∷ ys

  unfoldable pub sort : List A → List A
  unfolding place
  sort [] = []
  sort (x ∷ xs) = place x (sort xs)

  count_if-place :
      (test : A → Bool) (x : A) (ys : List A) → count_if test (place x ys) ≡ count_if test (x ∷ ys)
  unfolding place
  count_if-place test x [] = refl
  count_if-place test x (y ∷ ys) = ground (arith, count_if-place test x ys)

  pub count_if-sort : (test : A → Bool) (xs : List A) → count_if test (sort xs) ≡ count_if test xs
  unfolding sort
  count_if-sort test [] = refl
  count_if-sort test (x ∷ xs) =
      ground (arith, count_if-sort test xs, count_if-place test x (sort xs))

  abbrev pub InOrder : List A → Type 0
  InOrder [] = Unit
  InOrder (x ∷ xs) = All (λ y. less y x ≡ false) xs × InOrder xs

  All-place : (P : A → Type 0) (x : A) (ys : List A) → P x → All P ys → All P (place x ys)
  unfolding place
  All-place P x [] p h = (p, tt)
  All-place P x (y ∷ ys) p h = elim (Bool-cases (less y x)) [
    | inl e ↦
        subst (λ b. All P (if b then y ∷ place x ys else x ∷ y ∷ ys)) (sym e)
          (h.0, All-place P x ys p h.1)
    | inr e ↦ subst (λ b. All P (if b then y ∷ place x ys else x ∷ y ∷ ys)) (sym e) (p, h)
  ]

  module _ (asymmetric : (x y : A) → less x y ≡ true → less y x ≡ false)
      (steps : (x y z : A) → less z y ≡ false → less y x ≡ false → less z x ≡ false) where
    place-InOrder : (x : A) (ys : List A) → InOrder ys → InOrder (place x ys)
    unfolding place
    place-InOrder x [] h = (tt, tt)
    place-InOrder x (y ∷ ys) h = elim (Bool-cases (less y x)) [
      | inl e ↦
          subst (λ b. InOrder (if b then y ∷ place x ys else x ∷ y ∷ ys)) (sym e)
            (All-place (λ z. less z y ≡ false) x ys (asymmetric y x e) h.0, place-InOrder x ys h.1)
      | inr e ↦
          subst (λ b. InOrder (if b then y ∷ place x ys else x ∷ y ∷ ys)) (sym e)
            (
              (
                e,
                All-weaken (λ z. less z y ≡ false) (λ z. less z x ≡ false) (λ z k. steps x y z k e)
                    ys h.0,
              ),
              h,
            )
    ]

    pub sort-InOrder : (xs : List A) → InOrder (sort xs)
    unfolding sort
    sort-InOrder [] = tt
    sort-InOrder (x ∷ xs) = place-InOrder x (sort xs) (sort-InOrder xs)

is_before_asymmetric : (j k : Job) → is_before j k ≡ true → is_before k j ≡ false
is_before_asymmetric j k h = ground arith

is_before_steps :
    (j k l : Job) → is_before l k ≡ false → is_before k j ≡ false → is_before l j ≡ false
is_before_steps j k l h i = ground arith

InOrder-IsSorted : (rows : List Job) → InOrder is_before rows → IsSorted is_before rows
InOrder-IsSorted [] h = tt
InOrder-IsSorted (j ∷ rows) h = (h.0, InOrder-IsSorted rows h.1)

unfoldable pub order_by : (Job → Job → Bool) → List Job → List Job
unfolding sort
order_by less rows = sort less rows

pub order_by-IsOrderBy : IsOrderBy order_by
unfolding order_by
order_by-IsOrderBy = record {
  same_rows = λ rows test. count_if-sort is_before test rows;
  sorted = λ rows.
      InOrder-IsSorted (sort is_before rows)
        (sort-InOrder is_before is_before_asymmetric is_before_steps rows);
}

abbrev pub is_lower : PlanAssignment → PlanAssignment → Bool
is_lower a b = ltb_ℤ a.order_on_resource b.order_on_resource

is_lower_asymmetric : (a b : PlanAssignment) → is_lower a b ≡ true → is_lower b a ≡ false
is_lower_asymmetric a b h = ground arith

is_lower_steps :
    (a b c : PlanAssignment) → is_lower c b ≡ false → is_lower b a ≡ false → is_lower c a ≡ false
is_lower_steps a b c h i = ground arith

InOrder-IsAscending : (items : List PlanAssignment) → InOrder is_lower items → IsAscending items
InOrder-IsAscending [] h = tt
InOrder-IsAscending (a ∷ items) h = (
  All-weaken (λ b. is_lower b a ≡ false) (λ b. leb_ℤ a.order_on_resource b.order_on_resource ≡ true)
      (λ b k. ground arith) items h.0,
  InOrder-IsAscending items h.1,
)

unfoldable pub sort_lane : List PlanAssignment → List PlanAssignment
unfolding sort
sort_lane items = sort is_lower items

pub sort_lane-SortsLane : SortsLane sort_lane
unfolding sort_lane
sort_lane-SortsLane = record {
  same_items = λ items test. count_if-sort is_lower test items;
  ascending = λ items.
      InOrder-IsAscending (sort is_lower items)
        (sort-InOrder is_lower is_lower_asymmetric is_lower_steps items);
}
