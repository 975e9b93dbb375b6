-- ===== src/Plan/Dag/Kahn.antt =====
-- The invariant of the loops of `validateDAG`, in planning/validator.go.
use akoflow_workflow_engine.Prelude.{
  ℕ, zero, suc, ◌+◌, ◌<◌, ◌≡◌, refl, sym, ap, ◌∙◌, subst, String, true, false, ◌&&◌, ◌||◌, ◌==◌,
  eq_iff, eq_true, eq_refl, some, List, [], ◌∷◌, ◌++◌, if◌then◌else◌, length, length-append,
  contains, contains-append, count, distinct, distinct-length-le, all, nat_eq, arith, Bool-cases,
  inl, inr,
}
use mathlib.Core.List.{append-nil, append_assoc}
use akoflow_workflow_engine.Prelude.Int.{pos, pred_ℤ, is_zero}
use akoflow_workflow_engine.Prelude.Maps.{insert, keys, contains-keys, keys-insert_present}
use akoflow_workflow_engine.Domain.Workflow.{ActivityDependency}
use akoflow_workflow_engine.Plan.Dag.{
  Indegrees, Successors, degree, successors_of, release_successors, visit,
}
use akoflow_workflow_engine.Plan.Dag.Edges.{open_edges, targets, is_proper, degree-insert}

-- In the order `rest`, after `done`, each id has all its predecessors before it.
abbrev pub IsTopological : List ActivityDependency → List String → List String → Type 0
IsTopological dependencies done [] = Unit
IsTopological dependencies done (v ∷ rest) =
    (open_edges dependencies done v ≡ 0) × IsTopological dependencies (done ++ v ∷ []) rest

IsTopological-snoc :
    (dependencies : List ActivityDependency) (done rest : List String) (v : String)
    → IsTopological dependencies done rest
    → open_edges dependencies (done ++ rest) v ≡ 0
    → IsTopological dependencies done (rest ++ v ∷ [])
IsTopological-snoc dependencies done [] v t h =
    (ap (λ l. open_edges dependencies l v) (sym (append-nil done)) ∙ h, tt)
IsTopological-snoc dependencies done (x ∷ rest) v t h = (
  t.0,
  IsTopological-snoc dependencies (done ++ x ∷ []) rest v t.1
      (ap (λ l. open_edges dependencies l v) (append_assoc done (x ∷ []) rest) ∙ h),
)

pub distinct-snoc :
    (xs : List String) (x : String)
    → distinct xs ≡ true
    → contains xs x ≡ false
    → distinct (xs ++ x ∷ []) ≡ true
distinct-snoc [] x d f = refl
distinct-snoc (y ∷ xs) x d f =
    ground (arith, distinct-snoc xs x, contains-append xs (x ∷ []) y, eq_iff x y, eq_iff y x)

distinct_middle :
    (xs ys : List String) (x : String) → distinct (xs ++ x ∷ ys) ≡ true → contains xs x ≡ false
distinct_middle [] ys x d = refl
distinct_middle (y ∷ xs) ys x d = ground (
  arith,
  distinct_middle xs ys x,
  contains-append xs (x ∷ ys) y,
  eq_iff x x,
  eq_iff y x,
  eq_iff x y,
)

pub is_zero-pos : (n : ℕ) → is_zero (pos n) ≡ nat_eq n 0
is_zero-pos zero = refl
is_zero-pos (suc n) = ground arith

module _ (dependencies : List ActivityDependency) (nodes : List String) where
  -- `rest` are the successors of the last id of `done` that are still to be released.
  pub record Inv (done rest queue : List String) (m : Indegrees) : Type 0 where
    pub degrees : (v : String) → degree m v ≡ pos (open_edges dependencies done v + count v rest)
    pub seen :
        (v : String)
        → contains (done ++ queue) v
          ≡ (contains nodes v && nat_eq (open_edges dependencies done v + count v rest) 0)
    pub once : distinct (done ++ queue) ≡ true
    pub order : IsTopological dependencies [] done
    pub same_keys : keys m ≡ nodes

  left : List String → List String → String → ℕ
  left done rest v = open_edges dependencies done v + count v rest

  -- What a round of the inner loop for `s` meets and leaves.
  module _ (done rest queue : List String) (m : Indegrees) (s : String)
      (inv : Inv done (s ∷ rest) queue m) (k : contains nodes s ≡ true) where
    abbrev queue' : List String
    queue' = if is_zero (pred_ℤ (degree m s)) then queue ++ s ∷ [] else queue

    abbrev m' : Indegrees
    m' = insert s (pred_ℤ (degree m s)) m

    pred_left : pred_ℤ (degree m s) ≡ pos (left done rest s)
    unfolding left
    pred_left =
        let more : open_edges dependencies done s
              + (if s == s then suc (count s rest) else count s rest)
            ≡ suc (open_edges dependencies done s + count s rest) =
          rw (eq_refl s) (omega arith) in
        ap pred_ℤ (inv.degrees s ∙ ap pos more)

    is_last : is_zero (pred_ℤ (degree m s)) ≡ nat_eq (left done rest s) 0
    is_last = ap is_zero pred_left ∙ is_zero-pos (left done rest s)

    not_seen : contains (done ++ queue) s ≡ false
    unfolding left
    not_seen = ground (arith, inv.seen s, eq_refl s)

    seen_left :
        (v : String)
        → contains (done ++ queue) v ≡ (contains nodes v && nat_eq (left done (s ∷ rest) v) 0)
    unfolding left
    seen_left v = inv.seen v

    same_left : (v : String) → (s == v) ≡ false → left done (s ∷ rest) v ≡ left done rest v
    unfolding left
    same_left v h = rw h

    release_degrees : (v : String) → degree m' v ≡ pos (left done rest v)
    unfolding left
    release_degrees v =
        ground
          (arith, degree-insert s v (pred_ℤ (degree m s)) m, eq_iff s v, pred_left, inv.degrees v)

    release_once : distinct (done ++ queue') ≡ true
    release_once = elim (Bool-cases (is_zero (pred_ℤ (degree m s)))) [
      | inl z ↦ rw z (
          ap distinct (sym (append_assoc done queue (s ∷ [])))
          ∙ distinct-snoc (done ++ queue) s inv.once not_seen)
      | inr z ↦ rw z inv.once
    ]

    contains-queue' :
        (v : String)
        → contains (done ++ queue') v
          ≡ (contains (done ++ queue) v || (is_zero (pred_ℤ (degree m s)) && s == v))
    contains-queue' v = elim (Bool-cases (is_zero (pred_ℤ (degree m s)))) [
      | inl z ↦ rw z (
          ground (
            arith,
            contains-append done (queue ++ s ∷ []) v,
            contains-append queue (s ∷ []) v,
            contains-append done queue v,
          ))
      | inr z ↦ rw z (ground arith)
    ]

    release_seen :
        (v : String)
        → contains (done ++ queue') v ≡ (contains nodes v && nat_eq (left done rest v) 0)
    release_seen v = elim (Bool-cases (s == v)) [
      | inl e ↦
          subst
            (λ x. contains (done ++ queue') x ≡ (contains nodes x && nat_eq (left done rest x) 0))
            (eq_true s v e) (ground (arith, contains-queue' s, not_seen, is_last, k, eq_refl s))
      | inr e ↦ contains-queue' v ∙ ground (arith, seen_left v, same_left v e)
    ]

    release_one-Inv : Inv done rest queue' m'
    unfolding left
    release_one-Inv = record {
      degrees = release_degrees;
      seen = release_seen;
      once = release_once;
      order = inv.order;
      same_keys =
          keys-insert_present s (pred_ℤ (degree m s)) m
            (sym (contains-keys m s) ∙ ap (λ l. contains l s) inv.same_keys ∙ k)
          ∙ inv.same_keys;
    }

opened_pop :
    (dependencies : List ActivityDependency) (done : List String) (id v : String)
    → contains done id ≡ false
    → open_edges dependencies done v
      ≡ open_edges dependencies (done ++ id ∷ []) v + count v (targets dependencies id)
unfolding targets
opened_pop [] done id v h = omega arith
opened_pop (d ∷ dependencies) done id v h = ground (
  arith,
  opened_pop dependencies done id v,
  contains-append done (id ∷ []) d.depends_on_activity_id,
  eq_iff d.depends_on_activity_id id,
  eq_iff id d.depends_on_activity_id,
)

is_zero_sum : (a b : ℕ) → nat_eq (a + b) 0 ≡ true → a ≡ 0
is_zero_sum a b h = ground arith

module _ (dependencies : List ActivityDependency) (nodes : List String) where
  contains_middle : (xs ys : List String) (x : String) → contains (xs ++ x ∷ ys) x ≡ true
  contains_middle xs ys x = ground (arith, contains-append xs (x ∷ ys) x, eq_refl x)

  -- An id of the queue waits for no edge.
  no_open :
      (done queue : List String) (id : String) (m : Indegrees)
      → Inv dependencies nodes done [] (id ∷ queue) m
      → open_edges dependencies done id ≡ 0
  no_open done queue id m inv =
      is_zero_sum (open_edges dependencies done id) 0
        (ground (arith, inv.seen id, contains_middle done queue id))

  -- An id is taken from the queue: its successors are now to be released.
  pop-Inv :
      (done queue : List String) (id : String) (m : Indegrees)
      → Inv dependencies nodes done [] (id ∷ queue) m
      → Inv dependencies nodes (done ++ id ∷ []) (targets dependencies id) queue m
  pop-Inv done queue id m inv =
      let fresh = distinct_middle done queue id inv.once in
      let moved : (v : String)
          → open_edges dependencies done v + 0
            ≡ open_edges dependencies (done ++ id ∷ []) v + count v (targets dependencies id) =
        λ v. omega (arith, opened_pop dependencies done id v fresh) in
      let same = append_assoc done (id ∷ []) queue in
      record {
        degrees = λ v. inv.degrees v ∙ ap pos (moved v);
        seen = λ v.
            ap (λ l. contains l v) same
            ∙ inv.seen v
            ∙ ap (λ n. contains nodes v && nat_eq n 0) (moved v);
        once = ap distinct same ∙ inv.once;
        order = IsTopological-snoc dependencies [] done id inv.order (no_open done queue id m inv);
        same_keys = inv.same_keys;
      }

  -- The inner loop, to its end.
  release-Inv :
      (done rest queue : List String) (m : Indegrees)
      → Inv dependencies nodes done rest queue m
      → all (contains nodes) rest ≡ true
      → let r = release_successors rest m queue in Inv dependencies nodes done [] r.1 r.0
  unfolding release_successors
  release-Inv done [] queue m inv k = inv
  release-Inv done (s ∷ rest) queue m inv k =
      release-Inv done rest _ _
        (release_one-Inv dependencies nodes done rest queue m s inv (ground arith)) (ground arith)

  all-targets :
      (ds : List ActivityDependency) (u : String)
      → all (is_proper nodes) ds ≡ true
      → all (contains nodes) (targets ds u) ≡ true
  unfolding targets
  all-targets [] u h = refl
  all-targets (d ∷ ds) u h = ground (arith, all-targets ds u)

  -- An id that is visited was among the activities, and so there are no more of these than of those.
  seen_node :
      (done queue : List String) (m : Indegrees)
      → Inv dependencies nodes done [] queue m
      → (v : String) → contains (done ++ queue) v ≡ true
      → contains nodes v ≡ true
  seen_node done queue m inv v h = ground (arith, inv.seen v)

  pub record Visited (rounds : ℕ) (s : Successors) (m : Indegrees) (queue done : List String)
      : Type 0 where
    pub order : List String
    pub result : visit rounds s m queue (length done) ≡ some (length order)
    pub indegrees : Indegrees
    pub inv : Inv dependencies nodes order [] [] indegrees

  -- With more rounds than there are ids left to visit, the outer loop ends, with an empty queue.
  pub visit-Inv :
      (rounds : ℕ) (s : Successors) (m : Indegrees) (queue done : List String)
      → ((u : String) → successors_of s u ≡ targets dependencies u)
      → all (is_proper nodes) dependencies ≡ true
      → Inv dependencies nodes done [] queue m
      → length nodes < length done + rounds
      → Visited rounds s m queue done
  unfolding visit
  visit-Inv zero s m queue done same proper inv enough = absurd (
      omega (
        arith,
        length-append done queue,
        distinct-length-le (done ++ queue) nodes inv.once (seen_node done queue m inv),
      ))
  visit-Inv (suc rounds) s m [] done same proper inv enough = record {
    order = done;
    result = refl;
    indegrees = m;
    inv = inv;
  }
  visit-Inv (suc rounds) s m (id ∷ queue) done same proper inv enough =
      let next = release_successors (successors_of s id) m queue in
      let inv' : Inv dependencies nodes (done ++ id ∷ []) [] next.1 next.0 =
        subst
          (λ l.
            let r = release_successors l m queue in
            Inv dependencies nodes (done ++ id ∷ []) [] r.1 r.0)
          (sym (same id))
          (release-Inv (done ++ id ∷ []) (targets dependencies id) queue m
            (pop-Inv done queue id m inv) (all-targets dependencies id proper)) in
      let longer : length (done ++ id ∷ []) ≡ suc (length done) =
        omega (arith, length-append done (id ∷ [])) in
      let rest =
        visit-Inv rounds s next.0 next.1 (done ++ id ∷ []) same proper inv' (omega arith) in
      record {
        order = rest.order;
        result = ap (visit rounds s next.0 next.1) (sym longer) ∙ rest.result;
        indegrees = rest.indegrees;
        inv = rest.inv;
      }
