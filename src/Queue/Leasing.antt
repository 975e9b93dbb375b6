-- ===== src/Queue/Leasing.antt =====
-- `Lease` and `Publish` of queue/repository.go, which send several statements.
use akoflow_workflow_engine.Prelude.{
  ℕ, ◌≤◌, ◌≡◌, refl, sym, subst, ap, ◌∙◌, String, true, false, ◌⊎◌, inl, inr, Option, none, some,
  List, [], ◌∷◌, ok, Result-cases, Bool-cases, Option-cases, some_inj, ◌==◌, eq_iff, eq_true,
  length, count_if, contains, distinct, nat_eq, arith, All, All-weaken,
}
use akoflow_workflow_engine.Domain.Queue.{leased, Job}
use akoflow_workflow_engine.Queue.{
  Table, is_pending, update_where, find_by_id, ids, is_leasable, leased_to, lease_rows,
}
use akoflow_workflow_engine.Queue.Rows.{
  Rows, Rows-refl, Rows-update_where, Rows-trans, Follows, Follows-refl, changed_Follows, changed,
  map_row, find_by_id-update_where, ids-update_where, Move-leased,
}

count_leasable_fresh :
    (id : String) (t : Table) → contains (ids t) id ≡ false → count_if (is_leasable id) t ≡ 0
unfolding ids
count_leasable_fresh id [] h = refl
count_leasable_fresh id (j ∷ t) h = ground (arith, count_leasable_fresh id t)

-- With distinct ids, one row to lease is the row of that id.
leasable_row :
    (id : String) (t : Table)
    → distinct (ids t) ≡ true
    → count_if (is_leasable id) t ≡ 1
    → (r : Job) × (find_by_id t id ≡ some r) × (is_pending r.status ≡ true) × (r.id ≡ id)
unfolding ids find_by_id
leasable_row id [] d c = absurd (ground arith)
leasable_row id (j ∷ t) d c = elim (Bool-cases (j.id == id)) [
  | inl e ↦
      let same : j.id ≡ id = eq_true j.id id e in
      let fresh : contains (ids t) id ≡ false =
        subst (λ x. contains (ids t) x ≡ false) same (ground arith) in
      (j, rw e, ground (arith, count_leasable_fresh id t fresh), same)
  | inr e ↦
      let (r, found, p, same) = leasable_row id t (ground arith) (ground arith) in
      (r, rw e found, p, same)
]

module _ (owner : String) (now expires : ℕ) where
  -- A row is as it was, or was pending and is now leased to the caller.
  abbrev pub Leases : Job → Job → Type 0
  Leases j k = (k ≡ j) ⊎ ((is_pending j.status ≡ true) × (k ≡ leased_to owner now expires j))

  Leases-trans : (i j k : Job) → Leases i j → Leases j k → Leases i k
  Leases-trans i j k h l = ground arith

  pub Leases-Follows : (j k : Job) → Leases j k → Follows j k
  Leases-Follows j k (inl e) = rw e (Follows-refl j)
  Leases-Follows j k (inr (p, e)) = rw e (
      changed_Follows j (leased_to owner now expires j) (ground arith) refl refl refl (omega arith)
        (Move-leased j.status p))

  lease_one-Leases :
      (id : String) (t : Table)
      → Rows Leases t (update_where (is_leasable id) (leased_to owner now expires) t)
  lease_one-Leases id =
      Rows-update_where Leases (λ j. inl refl) (is_leasable id) (leased_to owner now expires)
        λ j h. inr (ground arith, refl)

  abbrev lease_one : String → Table → Table
  lease_one id t = update_where (is_leasable id) (leased_to owner now expires) t

  -- A step of the loop that succeeds: the row was leased and read back, or was passed over.
  lease_rows_cases :
      (id : String) (ids : List String) (t t' : Table) (jobs : List Job)
      → lease_rows owner now expires (id ∷ ids) t ≡ ok (t', jobs)
      → ((job : Job) × (rest : List Job) × (find_by_id (lease_one id t) id ≡ some job)
          × (lease_rows owner now expires ids (lease_one id t) ≡ ok (t', rest))
          × (jobs ≡ job ∷ rest)
          × (count_if (is_leasable id) t ≡ 1))
        ⊎ (lease_rows owner now expires ids (lease_one id t) ≡ ok (t', jobs))
  unfolding lease_rows
  lease_rows_cases id ids t t' jobs h = elim (Bool-cases (nat_eq (count_if (is_leasable id) t) 1)) [
    | inl e ↦ elim (Option-cases (find_by_id (lease_one id t) id)) [
      | inl m ↦ absurd (ground arith)
      | inr (job, m) ↦ elim (Result-cases (lease_rows owner now expires ids (lease_one id t))) [
        | inl ((u, rest), r) ↦ inl (job, rest, m, ground arith, ground arith, ground arith)
        | inr (x, r) ↦ absurd (ground arith)
      ]
    ]
    | inr e ↦ inr (ground arith)
  ]

  pub lease_rows-Leases :
      (ids : List String) (t t' : Table) (jobs : List Job)
      → lease_rows owner now expires ids t ≡ ok (t', jobs)
      → Rows Leases t t'
  unfolding lease_rows
  lease_rows-Leases [] t t' jobs h =
      subst (Rows Leases t) (ground arith) (Rows-refl Leases (λ j. inl refl) t)
  lease_rows-Leases (id ∷ ids) t t' jobs h =
      let first = lease_one-Leases id t in
      let join = Rows-trans Leases Leases Leases Leases-trans t (lease_one id t) t' first in
      elim (lease_rows_cases id ids t t' jobs h) [
        | inl (job, rest, m, r, e, c) ↦ join (lease_rows-Leases ids (lease_one id t) t' rest r)
        | inr r ↦ join (lease_rows-Leases ids (lease_one id t) t' jobs r)
      ]

  find_by_id-lease_one :
      (id key : String) (t : Table)
      → find_by_id (lease_one id t) key
        ≡ map_row (changed (is_leasable id) (leased_to owner now expires)) (find_by_id t key)
  find_by_id-lease_one id key t =
      find_by_id-update_where (is_leasable id) (leased_to owner now expires) (λ j. refl) t key

  -- A leased row is met again where it stands: later rounds of the loop leave it alone.
  find_by_id-lease_one_rests :
      (id key : String) (t : Table) (job : Job)
      → find_by_id t key ≡ some job
      → is_pending job.status ≡ false
      → find_by_id (lease_one id t) key ≡ some job
  find_by_id-lease_one_rests id key t job h p =
      let idle : is_leasable id job ≡ false = ground arith in
      rw (find_by_id-lease_one id key t) (rw h (rw idle))

  find_by_id-lease_rows :
      (ids : List String) (t t' : Table) (jobs : List Job) (key : String) (job : Job)
      → lease_rows owner now expires ids t ≡ ok (t', jobs)
      → find_by_id t key ≡ some job
      → is_pending job.status ≡ false
      → find_by_id t' key ≡ some job
  unfolding lease_rows
  find_by_id-lease_rows [] t t' jobs key job h f p = ground arith
  find_by_id-lease_rows (id ∷ ids) t t' jobs key job h f p =
      let f' = find_by_id-lease_one_rests id key t job f p in
      elim (lease_rows_cases id ids t t' jobs h) [
        | inl (first, rest, m, r, e, c) ↦
            find_by_id-lease_rows ids (lease_one id t) t' rest key job r f' p
        | inr r ↦ find_by_id-lease_rows ids (lease_one id t) t' jobs key job r f' p
      ]

  pending_row :
      (id : String) (o : Option Job) (r : Job)
      → map_row (changed (is_leasable id) (leased_to owner now expires)) o ≡ some r
      → is_pending r.status ≡ true
      → o ≡ some r
  pending_row id none r h p = cc
  pending_row id (some j) r h p = elim (Bool-cases (is_leasable id j)) [
    | inl e ↦
        let written : leased_to owner now expires j ≡ r = some_inj (rw e at h) in
        let status : leased ≡ r.status = ap (λ (x : Job). x.status) written in absurd (ground arith)
    | inr e ↦ rw e at h
  ]

  -- A row that is still pending after a round is the row that stood there before.
  find_by_id-lease_one_pending :
      (id key : String) (t : Table) (r : Job)
      → find_by_id (lease_one id t) key ≡ some r
      → is_pending r.status ≡ true
      → find_by_id t key ≡ some r
  find_by_id-lease_one_pending id key t r h p =
      pending_row id (find_by_id t key) r (sym (find_by_id-lease_one id key t) ∙ h) p

  ids-lease_one : (id : String) (t : Table) → ids (lease_one id t) ≡ ids t
  ids-lease_one id = ids-update_where (is_leasable id) (leased_to owner now expires) (λ j. refl)

  pub lease_rows-ids :
      (wanted : List String) (t t' : Table) (jobs : List Job)
      → lease_rows owner now expires wanted t ≡ ok (t', jobs)
      → ids t' ≡ ids t
  unfolding lease_rows
  lease_rows-ids [] t t' jobs h = ap ids (ground arith)
  lease_rows-ids (id ∷ wanted) t t' jobs h = elim (lease_rows_cases id wanted t t' jobs h) [
    | inl (job, rest, m, r, e, c) ↦
        lease_rows-ids wanted (lease_one id t) t' rest r ∙ ids-lease_one id t
    | inr r ↦ lease_rows-ids wanted (lease_one id t) t' jobs r ∙ ids-lease_one id t
  ]

  -- The row that a round leases, in a table whose ids are distinct.
  lease_one_row :
      (id : String) (t : Table) (job : Job)
      → distinct (ids t) ≡ true
      → count_if (is_leasable id) t ≡ 1
      → find_by_id (lease_one id t) id ≡ some job
      → (r : Job) × (find_by_id t id ≡ some r)
        × (is_pending r.status ≡ true)
        × (job ≡ leased_to owner now expires r)
        × (r.id ≡ id)
  lease_one_row id t job d c f =
      let (r, found, p, same) = leasable_row id t d c in
      let leasable : is_leasable id r ≡ true = ground (arith, eq_iff r.id id) in
      let written : map_row (changed (is_leasable id) (leased_to owner now expires)) (some r)
          ≡ some job =
        ap (map_row (changed (is_leasable id) (leased_to owner now expires))) (sym found)
        ∙ sym (find_by_id-lease_one id id t)
        ∙ f in
      (r, found, p, sym (some_inj (rw leasable at written)), same)

  -- What the caller may rely on for a job that it is handed.
  pub record IsGranted (wanted : List String) (t t' : Table) (job : Job) : Type 0 where
    pub row : Job
    pub stood : find_by_id t job.id ≡ some row
    pub was_pending : is_pending row.status ≡ true
    pub is_lease : job ≡ leased_to owner now expires row
    pub stands : find_by_id t' job.id ≡ some job
    pub wanted_id : contains wanted job.id ≡ true

  IsGranted-weaken :
      (id : String) (wanted : List String) (t t' : Table) (job : Job)
      → IsGranted wanted (lease_one id t) t' job
      → IsGranted (id ∷ wanted) t t' job
  IsGranted-weaken id wanted t t' job g = record {
    row = g.row;
    stood = find_by_id-lease_one_pending id job.id t g.row g.stood g.was_pending;
    was_pending = g.was_pending;
    is_lease = g.is_lease;
    stands = g.stands;
    wanted_id = ground (arith, g.wanted_id);
  }

  first_IsGranted :
      (id : String) (wanted : List String) (t t' : Table) (job : Job) (rest : List Job)
      → distinct (ids t) ≡ true
      → count_if (is_leasable id) t ≡ 1
      → find_by_id (lease_one id t) id ≡ some job
      → lease_rows owner now expires wanted (lease_one id t) ≡ ok (t', rest)
      → IsGranted (id ∷ wanted) t t' job
  first_IsGranted id wanted t t' job rest d c m r =
      let (row, stood, p, e, same) = lease_one_row id t job d c m in
      let job_id : job.id ≡ id = ap (λ (x : Job). x.id) e ∙ same in
      let job_status : is_pending job.status ≡ false = ap (λ (x : Job). is_pending x.status) e in
      record {
        row = row;
        stood = rw job_id stood;
        was_pending = p;
        is_lease = e;
        stands =
            ap (find_by_id t') job_id
            ∙ find_by_id-lease_rows wanted (lease_one id t) t' rest id job r m job_status;
        wanted_id = ground (arith, eq_iff id job.id);
      }

  pub lease_rows-IsGranted :
      (wanted : List String) (t t' : Table) (jobs : List Job)
      → distinct (ids t) ≡ true
      → lease_rows owner now expires wanted t ≡ ok (t', jobs)
      → All (IsGranted wanted t t') jobs
  unfolding lease_rows
  lease_rows-IsGranted [] t t' jobs d h =
      let none_granted : [] ≡ jobs = ground arith in subst (All (IsGranted [] t t')) none_granted tt
  lease_rows-IsGranted (id ∷ wanted) t t' jobs d h =
      let d' : distinct (ids (lease_one id t)) ≡ true = rw (ids-lease_one id t) d in
      let weaken =
        All-weaken (IsGranted wanted (lease_one id t) t') (IsGranted (id ∷ wanted) t t')
          (IsGranted-weaken id wanted t t') in
      elim (lease_rows_cases id wanted t t' jobs h) [
        | inl (job, rest, m, r, e, c) ↦ subst (All (IsGranted (id ∷ wanted) t t')) (sym e) (
          first_IsGranted id wanted t t' job rest d c m r,
          weaken rest (lease_rows-IsGranted wanted (lease_one id t) t' rest d' r),
        )
        | inr r ↦ weaken jobs (lease_rows-IsGranted wanted (lease_one id t) t' jobs d' r)
      ]

  pub length-lease_rows-le :
      (wanted : List String) (t t' : Table) (jobs : List Job)
      → lease_rows owner now expires wanted t ≡ ok (t', jobs)
      → length jobs ≤ length wanted
  unfolding lease_rows
  length-lease_rows-le [] t t' jobs h =
      let none_granted : [] ≡ jobs = ground arith in omega (arith, ap length (sym none_granted))
  length-lease_rows-le (id ∷ wanted) t t' jobs h = elim (lease_rows_cases id wanted t t' jobs h) [
    | inl (job, rest, m, r, e, c) ↦
        omega (arith, ap length e, length-lease_rows-le wanted (lease_one id t) t' rest r)
    | inr r ↦ omega (arith, length-lease_rows-le wanted (lease_one id t) t' jobs r)
  ]
