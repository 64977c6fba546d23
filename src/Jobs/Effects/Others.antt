-- ===== src/Jobs/Effects/Others.antt =====
-- src/jobs.rs: how a renewal and a cancellation are answered, in a registry without a store.
use fairlead.Base.{
  true, false, ℕ, ◌≤◌, ◌<◌, String, Option, none, some, ◌==◌, ◌&&◌, ◌≡◌, ◌≢◌, Bool-cases,
  Option-cases, string_eq, string_beq_iff, leb, arith, inl, inr, nat_eq,
}
use fairlead.Base.Maps.{get, is_some, is_some-some}
use fairlead.Jobs.Types.{
  JobRecord, JobLease, running, status_eq, is_terminal, RenewJobLeaseResult, CancelJobResult,
}
use fairlead.Jobs.Store.{JobRegistry, settle_memory, put_job}
use fairlead.Jobs.Leases.{renewed_job, renew_held, renew_lease, dequeue_as}
use fairlead.Jobs.Cancel.{cancelled_job, cancel}

module _ {V : Type 0} (now : ℕ) (r : JobRegistry V) (id : String) where
  pub data Renews (worker_id : String) (duration : ℕ) (p : JobRegistry V × RenewJobLeaseResult V)
      : Type 0 where
    renewed :
        (job : JobRecord V) (lease : JobLease)
        → get id r.inner.jobs ≡ some job
        → job.status ≡ running
        → job.lease ≡ some lease
        → lease.worker_id ≡ worker_id
        → now < lease.expires_at_unix_ms
        → (let job' = renewed_job lease duration now job in
            p ≡ (put_job r id job', RenewJobLeaseResult.renewed job'))
        → Renews worker_id duration p
    late :
        (job : JobRecord V) (lease : JobLease)
        → get id r.inner.jobs ≡ some job
        → job.status ≡ running
        → job.lease ≡ some lease
        → lease.worker_id ≡ worker_id
        → lease.expires_at_unix_ms ≤ now
        → p ≡ (r, RenewJobLeaseResult.expired job)
        → Renews worker_id duration p
    not_held :
        (job : JobRecord V) (lease : JobLease)
        → get id r.inner.jobs ≡ some job
        → job.status ≡ running
        → job.lease ≡ some lease
        → lease.worker_id ≢ worker_id
        → p ≡ (r, RenewJobLeaseResult.lease_not_held job)
        → Renews worker_id duration p
    not_running :
        (job : JobRecord V)
        → get id r.inner.jobs ≡ some job
        → ((job.status == running) && is_some job.lease) ≡ false
        → p ≡ (r, RenewJobLeaseResult.not_running job)
        → Renews worker_id duration p
    unknown :
        get id r.inner.jobs ≡ none
        → p ≡ (r, RenewJobLeaseResult.not_found)
        → Renews worker_id duration p

  pub data Cancels (p : JobRegistry V × CancelJobResult V) : Type 0 where
    cancelled :
        (job : JobRecord V)
        → get id r.inner.jobs ≡ some job
        → is_terminal job.status ≡ false
        → (let job' = cancelled_job now job in
            p ≡ (record r { inner = dequeue_as id job' r.inner }, CancelJobResult.cancelled job'))
        → Cancels p
    finished :
        (job : JobRecord V)
        → get id r.inner.jobs ≡ some job
        → is_terminal job.status ≡ true
        → p ≡ (r, CancelJobResult.already_terminal job)
        → Cancels p
    unknown : get id r.inner.jobs ≡ none → p ≡ (r, CancelJobResult.not_found) → Cancels p

module _ {V : Type 0} (fault : Option String) (now : ℕ) (r : JobRegistry V) (id : String) where
  renew_held_exact :
      (worker_id : String) (duration : ℕ) (job : JobRecord V) (lease : JobLease)
      → r.store ≡ none
      → get id r.inner.jobs ≡ some job
      → job.status ≡ running
      → job.lease ≡ some lease
      → Renews now r id worker_id duration (renew_held fault now r id worker_id duration job lease)
  unfolding renew_held
  renew_held_exact worker_id duration job lease mem at on held =
      elim (Bool-cases (lease.worker_id == worker_id)) [
        | inr other ↦
            Renews.not_held job lease at on held
              (λ same. ground (arith, string_beq_iff lease.worker_id worker_id)) (ground arith)
        | inl mine ↦ elim (Bool-cases (leb lease.expires_at_unix_ms now)) [
          | inl over ↦
              Renews.late job lease at on held ((string_beq_iff lease.worker_id worker_id).0 mine)
                (ground arith) (ground arith)
          | inr early ↦
              Renews.renewed job lease at on held
                ((string_beq_iff lease.worker_id worker_id).0 mine) (ground arith)
                (rw (mine, early, renew_held) (settle_memory fault _ _ _ mem))
        ]
      ]

  -- How a renewal is answered: the holder of a lease that has not run out gets the new end; any other
  -- request changes nothing and names its reason. The registry has no store.
  pub renew_lease_exact :
      (worker_id : String) (duration : ℕ)
      → r.store ≡ none
      → Renews now r id worker_id duration (renew_lease fault now r id worker_id duration)
  unfolding renew_lease
  renew_lease_exact worker_id duration mem = elim (Option-cases (get id r.inner.jobs)) [
    | inl e ↦ Renews.unknown e (ground arith)
    | inr (job, at) ↦ elim (Bool-cases ((job.status == running) && is_some job.lease)) [
      | inr off ↦ Renews.not_running job at off (ground arith)
      | inl on ↦
          let (lease, held) = is_some-some job.lease (ground arith) in
          let state : (job.status == running) ≡ true = ground arith in
          rw (at, state, held, renew_lease)
            (renew_held_exact worker_id duration job lease mem at (ground arith) held)
    ]
  ]

  -- How a cancellation is answered: a job that is not finished is cancelled and leaves its queue, a
  -- finished one stays as it is. The registry has no store.
  pub cancel_exact : r.store ≡ none → Cancels now r id (cancel fault now r id)
  unfolding cancel
  cancel_exact mem = elim (Option-cases (get id r.inner.jobs)) [
    | inl e ↦ Cancels.unknown e (ground arith)
    | inr (job, at) ↦ elim (Bool-cases (is_terminal job.status)) [
      | inl done ↦ Cancels.finished job at done (ground arith)
      | inr open_ ↦
          Cancels.cancelled job at open_ (rw (at, open_, cancel) (settle_memory fault _ _ _ mem))
    ]
  ]
