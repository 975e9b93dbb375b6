-- ===== src/Queue/Identity.antt =====
-- The ids of the queue's rows, over any history of queue/repository.go.
use akoflow_workflow_engine.Prelude.{
  ◌≡◌, refl, sym, ap, ◌∙◌, String, Bool, true, false, List, [], ◌∷◌, ◌++◌, contains,
  contains-append, distinct, arith, any, ◌==◌, eq_iff, inl, inr,
}
use akoflow_workflow_engine.Domain.Queue.{Job}
use akoflow_workflow_engine.Queue.{
  Table, ids, complete, renew_lease, retry, cancel, release_expired, holds, is_cancellable,
  is_expired,
}
use akoflow_workflow_engine.Queue.Rows.{ids-update_where}
use akoflow_workflow_engine.Queue.Leasing.{lease_rows-ids}
use akoflow_workflow_engine.Queue.History.{
  Operation, publishes, leases, completes, renews, retries, cancels, releases, publish_cases,
  lease_cases, step,
}

ids-append : (t u : Table) → ids (t ++ u) ≡ ids t ++ ids u
unfolding ids
ids-append [] u = refl
ids-append (j ∷ t) u = ground (arith, ids-append t u)

any_id : (id : String) (t : Table) → any (λ r. r.id == id) t ≡ contains (ids t) id
unfolding ids
any_id id [] = refl
any_id id (j ∷ t) = ground (arith, any_id id t)

distinct_last :
    (xs : List String) (x : String)
    → distinct xs ≡ true
    → contains xs x ≡ false
    → distinct (xs ++ x ∷ []) ≡ true
distinct_last [] x d f = refl
distinct_last (y ∷ xs) x d f =
    ground (arith, distinct_last xs x, contains-append xs (x ∷ []) y, eq_iff x y, eq_iff y x)

module _ (order_by : (Job → Job → Bool) → List Job → List Job) where
  abbrev AreDistinct : Table → Type 0
  AreDistinct t = distinct (ids t) ≡ true

  same_AreDistinct : (t u : Table) → ids u ≡ ids t → AreDistinct t → AreDistinct u
  same_AreDistinct t u e d = ap distinct e ∙ d

  pub step-AreDistinct :
      (t : Table) (o : Operation) → AreDistinct t → AreDistinct (step order_by t o)
  unfolding step ids complete renew_lease retry cancel release_expired
  step-AreDistinct t (publishes now j) d = elim (publish_cases now j t) [
    | inl e ↦ same_AreDistinct t _ (ap ids e) d
    | inr (e, fresh) ↦
        ap distinct (ap ids e ∙ ids-append t _)
        ∙ distinct_last (ids t) j.id d (sym (any_id j.id t) ∙ fresh)
  ]
  step-AreDistinct t (leases now owner categories limit duration) d =
      elim (lease_cases order_by now owner categories limit duration t) [
        | inl e ↦ same_AreDistinct t _ (ap ids e) d
        | inr (jobs, r) ↦ same_AreDistinct t _ (lease_rows-ids owner now _ _ t _ jobs r) d
      ]
  step-AreDistinct t (completes id owner at) d =
      same_AreDistinct t _ (ids-update_where (holds id owner) _ (λ j. refl) t) d
  step-AreDistinct t (renews id owner expires_at) d =
      same_AreDistinct t _ (ids-update_where (holds id owner) _ (λ j. refl) t) d
  step-AreDistinct t (retries id owner cause at) d =
      same_AreDistinct t _ (ids-update_where (holds id owner) _ (λ j. refl) t) d
  step-AreDistinct t (cancels id at) d =
      same_AreDistinct t _ (ids-update_where (is_cancellable id) _ (λ j. refl) t) d
  step-AreDistinct t (releases now) d =
      same_AreDistinct t _ (ids-update_where (is_expired now) _ (λ j. refl) t) d
