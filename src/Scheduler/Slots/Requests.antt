-- ===== src/Scheduler/Slots/Requests.antt =====
-- src/scheduler.rs: the requests of workers keep the slots in step with the leases.
use fairlead.Base.{
  ℕ, String, Option, some, [], ◌≡◌, ◌∙◌, ap, sym, subst, arith, string_eq, Eq, Bool, inl, inr,
  Option-cases, Bool-cases,
}
use fairlead.Base.Text.{text_is_empty, trim}
use fairlead.Jobs.Types.{JobRecord, JobLease, running, status_eq}
use fairlead.Jobs.Store.{put_job}
use fairlead.Jobs.Leases.{renewed_job, renew_lease}
use fairlead.Jobs.Effects.Others.{Renews, renew_lease_exact}
use fairlead.Jobs.Steps.Leases.{renew_lease-Step}
use fairlead.Jobs.Valid.Runs.{Step-IsValid}
use fairlead.Jobs.Held.{held_by, put-held}
use fairlead.Workers.Types.{snapshot_from_entry}
use fairlead.Workers.Registry
use fairlead.Workers.Valid.{WorkerCall, after_worker, after_worker-IsValid}
use fairlead.Workers.Slots.{IsAdmin, admin-slots}
use fairlead.Scheduler.State.{AppState, Moment, now_ms, sweep_expired_leases}
use fairlead.Scheduler.Handlers
use fairlead.Scheduler.Finish.{fail_worker_job_handler, complete_worker_job_handler}
use fairlead.Scheduler.Slots.{Balanced, HasRoom, jobs-Owes}
use fairlead.Scheduler.Slots.Sweep.{sweep-Balanced, sweep-HasRoom}
use fairlead.Scheduler.Slots.Claim.{claim_swept-Balanced}
use fairlead.Scheduler.Slots.Finish.{fail_swept-Balanced, complete_swept-Balanced}

module _ {V : Type 0} where
  renewed-held :
      (w : String) (duration now : ℕ) (job : JobRecord V) (lease : JobLease)
      → job.status ≡ running
      → job.lease ≡ some lease
      → held_by w (renewed_job lease duration now job) ≡ held_by w job
  renewed-held w duration now job lease on leased = ground arith

  pub admin-Balanced :
      (at : Moment) (s : AppState V) (call : WorkerCall)
      → Balanced s
      → IsAdmin call
      → Balanced (record s { workers = after_worker at.clock s.workers call })
  admin-Balanced at s call b admin = record {
    memory = b.memory;
    jobs = b.jobs;
    workers = after_worker-IsValid at.clock s.workers call b.workers;
    balanced = λ w. admin-slots at.clock s.workers call w b.workers admin ∙ b.balanced w;
  }

  -- What the claim handler does after its sweep.
  pub claim-Balanced :
      (swept at : Moment) (s : AppState V) (worker_id : String)
      → HasRoom s
      → Balanced s
      → Balanced (Handlers.claim_worker_job_handler swept at s worker_id).state
  unfolding Handlers.claim_worker_job_handler
  claim-Balanced swept at s worker_id room b =
      claim_swept-Balanced at (sweep_expired_leases swept s).0 worker_id
        (sweep-HasRoom swept s room b) (sweep-Balanced swept s room b)

  -- A renewal leaves the count of the worker as it is.
  renew_lease-Balanced :
      (at : Moment) (s : AppState V) (worker_id id : String) (duration : ℕ)
      → HasRoom s
      → Balanced s
      → Balanced
          (record s { jobs = (renew_lease at.fault (now_ms at) s.jobs id worker_id duration).0 })
  renew_lease-Balanced at s worker_id id duration room b =
      let now = now_ms at in
      let p = renew_lease at.fault now s.jobs id worker_id duration in
      let valid =
        Step-IsValid room.ids b.jobs (renew_lease-Step at.fault now s.jobs id worker_id duration) in
      elim (renew_lease_exact at.fault now s.jobs id worker_id duration b.memory) [
        | Renews.unknown e out ↦ subst (λ x. Balanced (record s { jobs = x.0 })) (sym out) b
        | Renews.not_running job found off out ↦
            subst (λ x. Balanced (record s { jobs = x.0 })) (sym out) b
        | Renews.not_held job lease found on leased other out ↦
            subst (λ x. Balanced (record s { jobs = x.0 })) (sym out) b
        | Renews.late job lease found on leased mine end out ↦
            subst (λ x. Balanced (record s { jobs = x.0 })) (sym out) b
        | Renews.renewed job lease found on leased mine early out ↦
            jobs-Owes [] [] s p.0 (put_job s.jobs id (renewed_job lease duration now job))
              (ap (λ x. x.0) out) b.memory b valid
              (λ w. omega (
                arith,
                put-held w id job (renewed_job lease duration now job) s.jobs.inner found,
                renewed-held w duration now job lease on leased,
              ))
      ]

  pub renew-Balanced :
      (swept at : Moment) (s : AppState V) (worker_id id : String)
      → HasRoom s
      → Balanced s
      → Balanced (Handlers.renew_worker_job_lease_handler swept at s worker_id id).state
  unfolding Handlers.renew_worker_job_lease_handler snapshot_from_entry
  renew-Balanced swept at s worker_id id room b =
      elim (Option-cases (Registry.get_worker swept.clock s.workers worker_id)) [
        | inl e ↦ rw (e, Handlers.renew_worker_job_lease_handler) b
        | inr (worker, e) ↦ elim (Bool-cases worker.stale) [
          | inl old ↦ rw (e, old, Handlers.renew_worker_job_lease_handler) b
          | inr young ↦
              let s1 = (sweep_expired_leases swept s).0 in
              rw (e, young, Handlers.renew_worker_job_lease_handler)
                (renew_lease-Balanced at s1 worker.id id s1.lease_duration_ms
                  (sweep-HasRoom swept s room b) (sweep-Balanced swept s room b))
        ]
      ]

  pub fail-Balanced :
      (swept at : Moment) (s : AppState V) (worker_id id : String) (attempt : Option ℕ)
      (error : String) (retryable : Bool)
      → HasRoom s
      → Balanced s
      → Balanced (fail_worker_job_handler swept at s worker_id id attempt error retryable).state
  unfolding fail_worker_job_handler
  fail-Balanced swept at s worker_id id attempt error retryable room b =
      elim (Option-cases (Registry.get_worker swept.clock s.workers worker_id)) [
        | inl e ↦ rw (e, fail_worker_job_handler) b
        | inr (worker, e) ↦ elim (Bool-cases worker.stale) [
          | inl old ↦ rw (e, old, fail_worker_job_handler) b
          | inr young ↦ elim (Bool-cases (text_is_empty (trim error))) [
            | inl blank ↦ rw (e, young, blank, fail_worker_job_handler) b
            | inr full ↦
                rw (e, young, full, fail_worker_job_handler)
                  (fail_swept-Balanced at (sweep_expired_leases swept s).0
                    (sweep_expired_leases swept s).1 worker.id id attempt
                    (record { message = trim error; retryable = retryable })
                    (sweep-HasRoom swept s room b) (sweep-Balanced swept s room b))
          ]
        ]
      ]

  pub complete-Balanced :
      ⦃q : Eq V⦄ (swept at : Moment) (s : AppState V) (worker_id id : String) (attempt : Option ℕ)
      (result : V)
      → HasRoom s
      → Balanced s
      → Balanced (complete_worker_job_handler swept at s worker_id id attempt result).state
  unfolding complete_worker_job_handler
  complete-Balanced ⦃q⦄ swept at s worker_id id attempt result room b =
      elim (Option-cases (Registry.get_worker swept.clock s.workers worker_id)) [
        | inl e ↦ rw (e, complete_worker_job_handler) b
        | inr (worker, e) ↦ elim (Bool-cases worker.stale) [
          | inl old ↦ rw (e, old, complete_worker_job_handler) b
          | inr young ↦
              rw (e, young, complete_worker_job_handler)
                (complete_swept-Balanced at (sweep_expired_leases swept s).0
                  (sweep_expired_leases swept s).1 worker.id id attempt result
                  (sweep-HasRoom swept s room b) (sweep-Balanced swept s room b))
        ]
      ]
