-- ===== src/Jobs/Outcomes/Others.antt =====
-- src/jobs.rs: renewals and cancellations, spelled out.
use fairlead.Base.{
  true, false, ℕ, ◌+◌, ◌≤◌, ◌<◌, String, Option, none, some, ◌==◌, ◌&&◌, ◌≡◌, ◌≢◌, refl, sym, ap,
  ◌∙◌, subst, u128, nat_eq,
}
use fairlead.Base.Maps.{get, is_some}
use fairlead.Jobs.Types.{
  JobRecord, JobLease, JobStatus, running, status_eq, is_terminal, RenewJobLeaseResult,
  CancelJobResult,
}
use fairlead.Jobs.Store.{JobRegistry}
use fairlead.Jobs.Queues.{for_priority, remove}
use fairlead.Jobs.Leases.{renewed_job, renew_lease}
use fairlead.Jobs.Cancel.{cancel, cancelled_job}
use fairlead.Jobs.Effects.Others.{Cancels, Renews, cancel_exact, renew_lease_exact}
use fairlead.Jobs.Outcomes.{
  Leaves, WritesTo, for-remove, insert-WritesTo, owed, prepare_callback-owed,
}

module _ {V : Type 0} (now : ℕ) (r : JobRegistry V) (id : String) where
  pub data RenewAnswer (worker_id : String) (duration : ℕ)
      (p : JobRegistry V × RenewJobLeaseResult V) : Type 0 where
    renewed :
        (job : JobRecord V) (lease : JobLease) (job' : JobRecord V)
        → get id r.inner.jobs ≡ some job
        → job.status ≡ running
        → job.lease ≡ some lease
        → lease.worker_id ≡ worker_id
        → now < lease.expires_at_unix_ms
        → job' ≡ record job {
          lease = some (record lease { expires_at_unix_ms = u128 (now + duration) });
          updated_at_unix_ms = now;
        }
        → WritesTo id job' r p.0
        → p.0.inner.queues ≡ r.inner.queues
        → p.1 ≡ RenewJobLeaseResult.renewed job'
        → RenewAnswer worker_id duration p
    late :
        (job : JobRecord V) (lease : JobLease)
        → get id r.inner.jobs ≡ some job
        → job.status ≡ running
        → job.lease ≡ some lease
        → lease.worker_id ≡ worker_id
        → lease.expires_at_unix_ms ≤ now
        → p ≡ (r, RenewJobLeaseResult.expired job)
        → RenewAnswer worker_id duration p
    not_held :
        (job : JobRecord V) (lease : JobLease)
        → get id r.inner.jobs ≡ some job
        → job.status ≡ running
        → job.lease ≡ some lease
        → lease.worker_id ≢ worker_id
        → p ≡ (r, RenewJobLeaseResult.lease_not_held job)
        → RenewAnswer worker_id duration p
    not_running :
        (job : JobRecord V)
        → get id r.inner.jobs ≡ some job
        → ((job.status == running) && is_some job.lease) ≡ false
        → p ≡ (r, RenewJobLeaseResult.not_running job)
        → RenewAnswer worker_id duration p
    unknown :
        get id r.inner.jobs ≡ none
        → p ≡ (r, RenewJobLeaseResult.not_found)
        → RenewAnswer worker_id duration p

  pub data CancelAnswer (p : JobRegistry V × CancelJobResult V) : Type 0 where
    cancelled :
        (job job' : JobRecord V)
        → get id r.inner.jobs ≡ some job
        → is_terminal job.status ≡ false
        → job' ≡ record job {
          status = JobStatus.cancelled;
          callback = owed job.callback_url job.callback;
          terminal_attempt = none;
          updated_at_unix_ms = now;
        }
        → WritesTo id job' r p.0
        → Leaves job.priority id r.inner p.0.inner
        → p.1 ≡ CancelJobResult.cancelled job'
        → CancelAnswer p
    finished :
        (job : JobRecord V)
        → get id r.inner.jobs ≡ some job
        → is_terminal job.status ≡ true
        → p ≡ (r, CancelJobResult.already_terminal job)
        → CancelAnswer p
    unknown : get id r.inner.jobs ≡ none → p ≡ (r, CancelJobResult.not_found) → CancelAnswer p

module _ {V : Type 0} (fault : Option String) (now : ℕ) (r : JobRegistry V) (id : String) where
  priority_kept : (job : JobRecord V) → (cancelled_job now job).priority ≡ job.priority
  unfolding cancelled_job
  priority_kept job =
      ap (λ (x : JobRecord V). x.priority)
        (prepare_callback-owed
          (record job {
            status = JobStatus.cancelled;
            updated_at_unix_ms = now;
            terminal_attempt = none;
          })
          refl)

  -- How a cancellation is answered: a job that is not finished becomes cancelled and leaves its queue, its
  -- callback is owed, and it keeps its lease; a finished job stays as it is. The registry has no store.
  pub cancel_answered : r.store ≡ none → CancelAnswer now r id (cancel fault now r id)
  unfolding cancelled_job
  cancel_answered mem = elim (cancel_exact fault now r id mem) [
    | Cancels.unknown e out ↦ CancelAnswer.unknown e out
    | Cancels.finished job at done out ↦ CancelAnswer.finished job at done out
    | Cancels.cancelled job at open_ out ↦
        let job' = cancelled_job now job in
        let kept = priority_kept job in
        CancelAnswer.cancelled job job' at open_ (prepare_callback-owed _ refl)
          (subst (λ x. WritesTo id job' r x.0) (sym out)
            (insert-WritesTo id job' r (remove job'.priority id r.inner.queues)))
          (λ queue.
            ap (λ x. for_priority queue x.0.inner.queues) out
            ∙ ap (λ x. for_priority queue (remove x id r.inner.queues)) kept
            ∙ for-remove job.priority queue id r.inner.queues)
          (ap (λ x. x.1) out)
  ]

  -- How a renewal is answered: the holder of a lease that has not run out gets a lease that ends
  -- `duration` after now, in the 128 bits of a time; any other request changes nothing and names its
  -- reason. The registry has no store.
  pub renew_lease_answered :
      (worker_id : String) (duration : ℕ)
      → r.store ≡ none
      → RenewAnswer now r id worker_id duration (renew_lease fault now r id worker_id duration)
  renew_lease_answered worker_id duration mem =
      elim (renew_lease_exact fault now r id worker_id duration mem) [
        | Renews.renewed job lease at on held mine early out ↦
            let job' = renewed_job lease duration now job in
            RenewAnswer.renewed job lease job' at on held mine early refl
              (subst (λ x. WritesTo id job' r x.0) (sym out)
                (insert-WritesTo id job' r r.inner.queues))
              (ap (λ x. x.0.inner.queues) out) (ap (λ x. x.1) out)
        | Renews.late job lease at on held mine over out ↦
            RenewAnswer.late job lease at on held mine over out
        | Renews.not_held job lease at on held other out ↦
            RenewAnswer.not_held job lease at on held other out
        | Renews.not_running job at off out ↦ RenewAnswer.not_running job at off out
        | Renews.unknown e out ↦ RenewAnswer.unknown e out
      ]
