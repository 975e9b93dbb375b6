-- ===== src/Plan/Assign/Cover.antt =====
-- What the loop over the assignments in `Validate` of planning/validator.go has checked when it accepts.
use akoflow_workflow_engine.Prelude.{
  ◌≡◌, refl, sym, ap, ◌∙◌, String, Bool, true, false, ◌||◌, eq_iff, Option, none, some, List, [],
  ◌∷◌, map, ok, fail_if, or_fail, >>=-eq-ok, ok_inj, All, contains, distinct, arith,
}
use akoflow_workflow_engine.Prelude.Maps.{
  StringMap, lookup, insert, has, keys, has-contains, contains-keys-insert, distinct-keys-insert,
}
use akoflow_workflow_engine.Domain.Values.{FloatOps}
use akoflow_workflow_engine.Domain.Workflow.{Activity}
use akoflow_workflow_engine.Domain.Resource.{Resource}
use akoflow_workflow_engine.Domain.Planning.{PlanAssignment}
use akoflow_workflow_engine.Plan.Error.{
  PlanError, unknown_activity, duplicate_assignment, unknown_resource,
}
use akoflow_workflow_engine.Plan.Assign.{check_pair, check_assignment, check_assignments}

abbrev pub assigned_ids : List PlanAssignment → List String
assigned_ids assignments = map (λ (a : PlanAssignment). a.activity_id) assignments

pub or_fail_ok :
    {A : Type 0} (o : Option A) (e : PlanError) {a : A} → or_fail o e ≡ ok a → o ≡ some a
or_fail_ok none e h = cc
or_fail_ok (some b) e h = cc

pub fail_if_ok : (b : Bool) (e : PlanError) {u : Unit {0}} → fail_if b e ≡ ok u → b ≡ false
fail_if_ok true e h = cc
fail_if_ok false e h = refl

module _ (floats : FloatOps) (scope : List String) (activities : StringMap Activity)
    (resources : StringMap Resource) where
  -- The assignment names a known activity and a known resource that suit one another.
  pub record Suits (a : PlanAssignment) : Type 0 where
    pub activity : Activity
    pub known_activity : lookup a.activity_id activities ≡ some activity
    pub resource : Resource
    pub known_resource : lookup a.resource_id resources ≡ some resource
    pub suited : check_pair floats scope a activity resource ≡ ok tt

  check_assignment-Suits :
      (assigned : StringMap PlanAssignment) (a : PlanAssignment)
      → check_assignment floats scope activities resources assigned a ≡ ok tt
      → Suits a × (has a.activity_id assigned ≡ false)
  unfolding check_assignment
  check_assignment-Suits assigned a h =
      let (activity, found, h1) =
        >>=-eq-ok (or_fail (lookup a.activity_id activities) (unknown_activity a.id a.activity_id))
          _ h in
      let (_, fresh, h2) =
        >>=-eq-ok (fail_if (has a.activity_id assigned) (duplicate_assignment a.activity_id)) _
          h1 in
      let (resource, placed, h3) =
        >>=-eq-ok (or_fail (lookup a.resource_id resources) (unknown_resource a.id a.resource_id)) _
          h2 in
      (
        record {
          activity = activity;
          known_activity = or_fail_ok _ _ found;
          resource = resource;
          known_resource = or_fail_ok _ _ placed;
          suited = h3;
        },
        fail_if_ok _ _ fresh,
      )

  pub record Covers (assignments : List PlanAssignment) (before after : StringMap PlanAssignment)
      : Type 0 where
    pub suits : All Suits assignments
    pub keyed :
        (v : String)
        → contains (keys after) v
          ≡ (contains (keys before) v || contains (assigned_ids assignments) v)
    pub fresh :
        (v : String)
        → contains (keys before) v ≡ true
        → contains (assigned_ids assignments) v ≡ false
    pub once : distinct (assigned_ids assignments) ≡ true
    pub distinct_keys : distinct (keys before) ≡ true → distinct (keys after) ≡ true

  -- When the loop over the assignments succeeds: each of them names a known activity and a known resource that pass the
  -- checks of the pair, no activity is assigned twice or was assigned before, and the map it leaves has as keys those
  -- it had and the activities assigned.
  pub check_assignments-Covers :
      (assignments : List PlanAssignment) (before after : StringMap PlanAssignment)
      → check_assignments floats scope activities resources assignments before ≡ ok after
      → Covers assignments before after
  unfolding check_assignments
  check_assignments-Covers [] before after h =
      let same : before ≡ after = ok_inj h in
      record {
        suits = tt;
        keyed = λ v. ap (λ m. contains (keys m) v) (sym same) ∙ ground arith;
        fresh = λ v p. refl;
        once = refl;
        distinct_keys = λ d. ap (λ m. distinct (keys m)) (sym same) ∙ d;
      }
  check_assignments-Covers (a ∷ assignments) before after h =
      let (_, checked, h') =
        >>=-eq-ok (check_assignment floats scope activities resources before a) _ h in
      let (suits, absent) = check_assignment-Suits before a checked in
      let rest = check_assignments-Covers assignments (insert a.activity_id a before) after h' in
      let inserted = λ (v : String). contains-keys-insert a.activity_id v a before in
      record {
        suits = (suits, rest.suits);
        keyed = λ v. ground (arith, rest.keyed v, inserted v);
        fresh = λ v p. ground (
          arith,
          rest.fresh v,
          inserted v,
          eq_iff a.activity_id v,
          absent,
          has-contains before a.activity_id,
        );
        once = ground (
          arith,
          rest.once,
          rest.fresh a.activity_id,
          inserted a.activity_id,
          eq_iff a.activity_id a.activity_id,
        );
        distinct_keys = λ d. rest.distinct_keys (distinct-keys-insert a.activity_id a before d);
      }
