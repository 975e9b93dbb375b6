-- ===== src/EventLoop/Capacity.antt =====
-- What every event of the loop of internal/controlplane/eventloop/eventloop.go keeps.
use akoflow_workflow_engine.Prelude.{
  ℕ, zero, suc, ◌+◌, ◌-◌, ◌≤◌, ◌≡◌, refl, subst, ap, ◌∙◌, String, Bool, true, false, inl, inr,
  Option, none, some, List, [], ◌∷◌, map, Result, ok, err, Bool-cases, if◌then◌else◌, arith, leb,
  length, All, All-append, distinct, length-append, Result-cases,
}
use akoflow_workflow_engine.Prelude.Maps.{StringMap}
use akoflow_workflow_engine.Domain.Queue.{Job}
use akoflow_workflow_engine.Queue.{Table, QueueError, ids, lease, renew_lease}
use akoflow_workflow_engine.Queue.Lease.{IsOrderBy, IsDue, lease_lem}
use akoflow_workflow_engine.Queue.History.{leases, completes, retries, releases, step}
use akoflow_workflow_engine.Queue.History as History
use akoflow_workflow_engine.Queue.Identity.{step-AreDistinct}
use akoflow_workflow_engine.EventLoop.{
  State, Handling, Event, capacity, duration, starts, ticks, wakes, notifies, renews, returns,
  frees, elsewhere, held, drain, handle_all, react, run_loop, nth, without, replace, handle,
  keep_lease_alive, free, kept_by, then_run, message,
}
use akoflow_workflow_engine.EventLoop.Settings.{Config, backoff_tried}
use akoflow_workflow_engine.EventLoop.Dispatcher.{Handled, dispatch}
use akoflow_workflow_engine.Prelude.Int.{add_time}

module _ {ℓ κ} {A : Type ℓ} (P : A → Type κ) where
  pub All-nth : (n : ℕ) (xs : List A) (x : A) → All P xs → nth n xs ≡ some x → P x
  All-nth n [] x h e = absurd (ground arith)
  All-nth zero (y ∷ xs) x h e = subst P (ground arith) h.0
  All-nth (suc n) (y ∷ xs) x h e = All-nth n xs x h.1 e

  All-without : (n : ℕ) (xs : List A) → All P xs → All P (without n xs)
  All-without n [] h = tt
  All-without zero (x ∷ xs) h = h.1
  All-without (suc n) (x ∷ xs) h = (h.0, All-without n xs h.1)

  All-replace : (n : ℕ) (x : A) (xs : List A) → P x → All P xs → All P (replace n x xs)
  All-replace n x [] p h = tt
  All-replace zero x (y ∷ xs) p h = (p, h.1)
  All-replace (suc n) x (y ∷ xs) p h = (h.0, All-replace n x xs p h.1)

module _ {ℓ} {A : Type ℓ} where
  pub length-without :
      (n : ℕ) (xs : List A) (x : A) → nth n xs ≡ some x → suc (length (without n xs)) ≡ length xs
  length-without n [] x e = absurd (ground arith)
  length-without zero (y ∷ xs) x e = refl
  length-without (suc n) (y ∷ xs) x e = omega (arith, length-without n xs x e)

  length-replace : (n : ℕ) (x : A) (xs : List A) → length (replace n x xs) ≡ length xs
  length-replace n x [] = refl
  length-replace zero x (y ∷ xs) = refl
  length-replace (suc n) x (y ∷ xs) = omega (arith, length-replace n x xs)

abbrev pub WasTried : Handling → Type 0
WasTried h = 1 ≤ h.job.attempts

-- The ids of the table differ, no more slots are held than there are, and each job that is handled has been tried.
pub record IsSound (config : Config) (s : State) : Type 0 where
  pub unique : distinct (ids s.table) ≡ true
  pub within : held s ≤ capacity config
  pub tried : All WasTried s.running

abbrev kept : Job → Handling
kept j = record { job = j; kept = true }

handled_WasTried :
    (now : ℕ) (owner : String) (categories : List String) (expires : ℕ) (t t' : Table)
    (jobs : List Job)
    → All (IsDue now owner categories expires t t') jobs
    → All WasTried (map kept jobs)
handled_WasTried now owner categories expires t t' [] h = tt
handled_WasTried now owner categories expires t t' (j ∷ jobs) (d, h) = (
  omega (arith, ap (λ (x : Job). x.attempts) d.is_lease),
  handled_WasTried now owner categories expires t t' jobs h,
)

length-map : {A B : Type 0} (f : A → B) (xs : List A) → length (map f xs) ≡ length xs
length-map f [] = refl
length-map f (x ∷ xs) = omega (arith, length-map f xs)

module _ {H : Type 0} (order_by : (Job → Job → Bool) → List Job → List Job)
    (orders : IsOrderBy order_by) (config : Config) (handlers : StringMap H) where
  with_table :
      (s : State) (t : Table)
      → distinct (ids t) ≡ true
      → IsSound config s
      → IsSound config (record s { table = t })
  with_table s t d h = record { unique = d; within = h.within; tried = h.tried }

  handle_all-IsSound :
      (s : State) (t : Table) (r : Result QueueError (List Job))
      → distinct (ids t) ≡ true
      → ((jobs : List Job)
          → r ≡ ok jobs
          → (length jobs ≤ capacity config - held s) × All WasTried (map kept jobs))
      → IsSound config s
      → IsSound config (handle_all s (r, t))
  handle_all-IsSound s t (err e) d granted h = with_table s t d h
  handle_all-IsSound s t (ok jobs) d granted h =
      let (few, fresh) = granted jobs refl in
      record {
        unique = d;
        within =
            omega (arith, length-append s.running (map kept jobs), length-map kept jobs, h.within);
        tried = All-append WasTried s.running (map kept jobs) h.tried fresh;
      }

  drain-IsSound :
      (now : ℕ) (s : State) → IsSound config s → IsSound config (drain order_by config now s)
  unfolding drain step
  drain-IsSound now s h = elim (Bool-cases (leb (capacity config) (held s))) [
    | inl e ↦ rw e h
    | inr e ↦
        let n = capacity config - held s in
        let r = lease order_by now config.owner config.categories n (duration config) s.table in
        rw e (
          handle_all-IsSound s r.1 r.0
            (step-AreDistinct order_by s.table
              (leases now config.owner config.categories n (duration config)) h.unique)
            (λ jobs same.
              let (few, due, _) =
                lease_lem order_by orders now config.owner config.categories n (duration config)
                  s.table r.1 jobs h.unique (ap (λ x. (x, r.1)) same) in
              (few, handled_WasTried now config.owner config.categories _ s.table r.1 jobs due))
            h)
  ]

  settled-IsSound :
      (position : ℕ) (s : State) (h : Handling) (t : Table)
      → nth position s.running ≡ some h
      → distinct (ids t) ≡ true
      → IsSound config s
      → IsSound config
          (record s { table = t; running = without position s.running; settled = s.settled + 1 })
  settled-IsSound position s h t e d p = record {
    unique = d;
    within = omega (arith, length-without position s.running h e, p.within);
    tried = All-without WasTried position s.running p.tried;
  }

  -- A handler comes back: the loop never panics on a job that has been tried.
  handle-IsSound :
      (position now : ℕ) (call : H → Job → Handled) (o : Option Handling) (s : State)
      → nth position s.running ≡ o
      → IsSound config s
      → (s' : State) × (handle config handlers position now call o s ≡ some s') × IsSound config s'
  unfolding handle step
  handle-IsSound position now call none s e p = (s, refl, p)
  handle-IsSound position now call (some h) s e p =
      elim (Result-cases (dispatch call handlers h.job)) [
        | inl (u, r) ↦ (
          _,
          rw r refl,
          settled-IsSound position s h _ e
              (step-AreDistinct order_by s.table (completes h.job.id config.owner now) p.unique) p,
        )
        | inr (cause, r) ↦
            let (wait, b) =
              backoff_tried config.retry_base_interval h.job.attempts
                (All-nth WasTried position s.running h p.tried e) in
            (
              _,
              rw r (rw b refl),
              settled-IsSound position s h _ e
                  (step-AreDistinct order_by s.table
                    (retries h.job.id config.owner (some (message cause)) (add_time now wait))
                    p.unique)
                  p,
            )
      ]

  keep_lease_alive-IsSound :
      (position now : ℕ) (o : Option Handling) (s : State)
      → nth position s.running ≡ o
      → IsSound config s
      → IsSound config (keep_lease_alive config position now o s)
  unfolding step
  keep_lease_alive-IsSound position now none s e p = p
  keep_lease_alive-IsSound position now (some h) s e p = elim (Bool-cases h.kept) [
    | inr k ↦ rw k p
    | inl k ↦
        let expires = now + duration config in
        let r = renew_lease h.job.id config.owner expires s.table in
        let h' = record h { kept = kept_by r.0 } in
        rw k (record {
          unique =
              step-AreDistinct order_by s.table (History.renews h.job.id config.owner expires)
                p.unique;
          within = omega (arith, length-replace position h' s.running, p.within);
          tried =
              All-replace WasTried position h' s.running
                (All-nth WasTried position s.running h p.tried e) p.tried;
        })
  ]

  free-IsSound : (n : ℕ) (s : State) → s.settled ≡ n → IsSound config s → IsSound config (free n s)
  free-IsSound zero s e p = p
  free-IsSound (suc n) s e p = record {
    unique = p.unique;
    within = omega (arith, p.within, e);
    tried = p.tried;
  }

  marked-IsSound :
      (s : State) (b : Bool) → IsSound config s → IsSound config (record s { woken = b })
  marked-IsSound s b p = record { unique = p.unique; within = p.within; tried = p.tried }

  if-IsSound :
      (b : Bool) (s u : State)
      → IsSound config s
      → IsSound config u
      → IsSound config (if b then s else u)
  if-IsSound true s u p q = p
  if-IsSound false s u p q = q

  pub react-IsSound :
      (s : State) (e : Event H)
      → IsSound config s
      → (s' : State) × (react order_by config handlers s e ≡ some s') × IsSound config s'
  unfolding react step
  react-IsSound s (starts now) p = (_, refl, drain-IsSound now s p)
  react-IsSound s (ticks released_at leased_at) p =
      let d = step-AreDistinct order_by s.table (releases released_at) p.unique in
      (_, refl, drain-IsSound leased_at _ (with_table s _ d p))
  react-IsSound s (wakes now) p = (
    _,
    refl,
    if-IsSound s.woken _ s
        (drain-IsSound now (record s { woken = false }) (marked-IsSound s false p)) p,
  )
  react-IsSound s notifies p = (_, refl, marked-IsSound s true p)
  react-IsSound s (renews position now) p =
      (_, refl, keep_lease_alive-IsSound position now (nth position s.running) s refl p)
  react-IsSound s (returns position now call) p =
      handle-IsSound position now call (nth position s.running) s refl p
  react-IsSound s frees p = (_, refl, free-IsSound s.settled s refl p)
  react-IsSound s (elsewhere o) p =
      (_, refl, with_table s _ (step-AreDistinct order_by s.table o p.unique) p)

  -- From a state whose ids differ, that holds no more slots than there are and handles only jobs that have been tried, over any events
  -- in any order, with calls of the queue by others between them, and with a database whose ORDER BY sorts: the loop never
  -- panics, and the state that it reaches is of that kind again.
  pub run_loop-IsSound :
      (es : List (Event H)) (s : State)
      → IsSound config s
      → (s' : State) × (run_loop order_by config handlers es s ≡ some s') × IsSound config s'
  unfolding run_loop
  run_loop-IsSound [] s p = (s, refl, p)
  run_loop-IsSound (e ∷ es) s p =
      let (s', r, p') = react-IsSound s e p in
      let (s'', r', p'') = run_loop-IsSound es s' p' in
      (s'', ap (then_run (run_loop order_by config handlers es)) r ∙ r', p'')
