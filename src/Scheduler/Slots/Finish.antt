-- ===== src/Scheduler/Slots/Finish.antt =====
-- src/scheduler.rs, reports: a slot is given back for each attempt that ends, and for no other.
use fairlead.Base.{
  ℕ, ◌+◌, String, Option, none, some, List, [], ◌∷◌, ◌≡◌, ◌∙◌, refl, ap, sym, subst, arith, count,
  string_eq, string_beq_iff, true, false, Eq, Bool,
}
use fairlead.Base.Maps.{get, insert, total}
use fairlead.Jobs.Types.{JobRecord, JobFailure, JobLease, running, FinishJobResult}
use fairlead.Jobs.Store.{JobRegistry, put_job}
use fairlead.Jobs.Callbacks.{prepare_callback}
use fairlead.Jobs.Leases.{
  completed_job, requeued_job, failed_job, complete_lease, fail_lease, requeue_as,
}
use fairlead.Jobs.Effects.Reports.{
  Completes, Fails, Refused, complete_lease_exact, fail_lease_exact,
}
use fairlead.Jobs.Steps.Leases.{complete_lease-Step, fail_lease-Step}
use fairlead.Jobs.Valid.{IsValid}
use fairlead.Jobs.Valid.Runs.{Step-IsValid}
use fairlead.Jobs.Held.{held, held_by, put-held}
use fairlead.Scheduler.State.{AppState, Moment, now_ms}
use fairlead.Scheduler.Finish.{finish_reply, complete_swept, fail_swept}
use fairlead.Scheduler.Slots.{Owes, Balanced, HasRoom, release-Owes, jobs-Owes}

module _ {V : Type 0} where
  completed-held :
      (w worker_id : String) (now : ℕ) (result : V) (lease : JobLease) (job : JobRecord V)
      → held_by w (completed_job worker_id now result lease job) ≡ 0
  unfolding completed_job prepare_callback
  completed-held w worker_id now result lease job = ground arith

  failed-held :
      (w worker_id : String) (now : ℕ) (failure : JobFailure) (lease : JobLease) (job : JobRecord V)
      → held_by w (failed_job worker_id now failure lease job) ≡ 0
  unfolding failed_job prepare_callback
  failed-held w worker_id now failure lease job = ground arith

  requeued-held :
      (w : String) (now : ℕ) (failure : JobFailure) (job : JobRecord V)
      → held_by w (requeued_job now failure job) ≡ 0
  unfolding requeued_job
  requeued-held w now failure job = refl

  -- A running job that gives up its lease is owed a slot.
  ends-held :
      (w id worker_id : String) (job job' : JobRecord V) (lease : JobLease) (s : AppState V)
      → get id s.jobs.inner.jobs ≡ some job
      → job.status ≡ running
      → job.lease ≡ some lease
      → lease.worker_id ≡ worker_id
      → held_by w job' ≡ 0
      → held w s.jobs.inner + 0
        ≡ total (held_by w) (insert id job' s.jobs.inner.jobs) + count w (worker_id ∷ [])
  ends-held w id worker_id job job' lease s at on leased mine idle = ground (
    arith,
    put-held w id job job' s.jobs.inner at,
    string_beq_iff lease.worker_id w,
    string_beq_iff w worker_id,
    idle,
  )

  -- The reply to what the registry answered is in balance.
  abbrev Ends :
      Moment → String → Bool → AppState V → List String → JobRegistry V × FinishJobResult V → Type 0
  Ends at worker_id of_failure s dispatched p =
      Balanced (finish_reply at worker_id of_failure (record s { jobs = p.0 }) dispatched p.1).state

  -- A report that is refused leaves the state in balance.
  refused-Balanced :
      (at : Moment) (s : AppState V) (dispatched : List String) (worker_id id : String)
      (attempt : Option ℕ) (of_failure : Bool) (p : JobRegistry V × FinishJobResult V)
      → Balanced s
      → Refused (now_ms at) s.jobs id worker_id attempt p
      → Ends at worker_id of_failure s dispatched p
  unfolding finish_reply
  refused-Balanced at s dispatched worker_id id attempt of_failure p b (Refused.unknown e out) =
      subst (λ x. Ends at worker_id of_failure s dispatched x) (sym out) b
  refused-Balanced at s dispatched worker_id id attempt of_failure p b
        (Refused.not_running job found off out) =
      subst (λ x. Ends at worker_id of_failure s dispatched x) (sym out) b
  refused-Balanced at s dispatched worker_id id attempt of_failure p b
        (Refused.not_held job lease found on held why out) =
      subst (λ x. Ends at worker_id of_failure s dispatched x) (sym out) b
  refused-Balanced at s dispatched worker_id id attempt of_failure p b
        (Refused.late job lease found on held mine same end out) =
      subst (λ x. Ends at worker_id of_failure s dispatched x) (sym out) b

  -- A report that ends the attempt gives the slot of its worker back.
  ended-Owes :
      (s : AppState V) (id worker_id : String) (job job' : JobRecord V) (lease : JobLease)
      (r : JobRegistry V)
      → Balanced s
      → IsValid r.inner
      → r.store ≡ none
      → r.inner.jobs ≡ insert id job' s.jobs.inner.jobs
      → get id s.jobs.inner.jobs ≡ some job
      → job.status ≡ running
      → job.lease ≡ some lease
      → lease.worker_id ≡ worker_id
      → ((w : String) → held_by w job' ≡ 0)
      → Owes (worker_id ∷ []) (record s { jobs = r })
  ended-Owes s id worker_id job job' lease r b valid mem jobs at on leased mine idle =
      jobs-Owes [] (worker_id ∷ []) s r r refl mem b valid (λ w.
        ends-held w id worker_id job job' lease s at on leased mine (idle w)
        ∙ ap (λ m. total (held_by w) m + count w (worker_id ∷ [])) (sym jobs))

  pub fail_swept-Balanced :
      (at : Moment) (s : AppState V) (dispatched : List String) (worker_id id : String)
      (attempt : Option ℕ) (failure : JobFailure)
      → HasRoom s
      → Balanced s
      → Balanced (fail_swept at s dispatched worker_id id attempt failure).state
  unfolding fail_swept finish_reply
  fail_swept-Balanced at s dispatched worker_id id attempt failure room b =
      let now = now_ms at in
      let p = fail_lease at.fault now s.jobs id worker_id attempt failure in
      let valid =
        Step-IsValid room.ids b.jobs
          (fail_lease-Step at.fault now s.jobs id worker_id attempt failure) in
      elim (fail_lease_exact at.fault now s.jobs id worker_id attempt failure b.memory) [
        | Fails.refused why ↦ refused-Balanced at s dispatched worker_id id attempt true p b why
        | Fails.repeated job found over match same out ↦
            subst (λ x. Ends at worker_id true s dispatched x) (sym out) b
        | Fails.again job lease force retry left out ↦
            let next = record (s.jobs) {
              inner = requeue_as id (requeued_job now failure job) s.jobs.inner;
            } in
            subst (λ x. Ends at worker_id true s dispatched x) (sym out)
              (release-Owes at worker_id [] (record s { jobs = next })
                (ended-Owes s id worker_id job (requeued_job now failure job) lease next b
                  (subst (λ x. IsValid x.0.inner) out valid) b.memory refl force.at force.on
                  force.held force.mine (λ w. requeued-held w now failure job)))
        | Fails.ended job lease force last out ↦
            let next = put_job s.jobs id (failed_job worker_id now failure lease job) in
            subst (λ x. Ends at worker_id true s dispatched x) (sym out)
              (release-Owes at worker_id [] (record s { jobs = next })
                (ended-Owes s id worker_id job (failed_job worker_id now failure lease job) lease
                  next b (subst (λ x. IsValid x.0.inner) out valid) b.memory refl force.at force.on
                  force.held force.mine (λ w. failed-held w worker_id now failure lease job)))
      ]

  pub complete_swept-Balanced :
      ⦃q : Eq V⦄ (at : Moment) (s : AppState V) (dispatched : List String) (worker_id id : String)
      (attempt : Option ℕ) (result : V)
      → HasRoom s
      → Balanced s
      → Balanced (complete_swept at s dispatched worker_id id attempt result).state
  unfolding complete_swept finish_reply
  complete_swept-Balanced ⦃q⦄ at s dispatched worker_id id attempt result room b =
      let now = now_ms at in
      let p = complete_lease at.fault now s.jobs id worker_id attempt result in
      let valid =
        Step-IsValid room.ids b.jobs
          (complete_lease-Step at.fault now s.jobs id worker_id attempt result) in
      elim (complete_lease_exact at.fault now s.jobs id worker_id attempt result b.memory) [
        | Completes.refused why ↦
            refused-Balanced at s dispatched worker_id id attempt false p b why
        | Completes.repeated job found over match same out ↦
            subst (λ x. Ends at worker_id false s dispatched x) (sym out) b
        | Completes.accepted job lease force out ↦
            let next = put_job s.jobs id (completed_job worker_id now result lease job) in
            subst (λ x. Ends at worker_id false s dispatched x) (sym out)
              (release-Owes at worker_id [] (record s { jobs = next })
                (ended-Owes s id worker_id job (completed_job worker_id now result lease job) lease
                  next b (subst (λ x. IsValid x.0.inner) out valid) b.memory refl force.at force.on
                  force.held force.mine (λ w. completed-held w worker_id now result lease job)))
      ]
