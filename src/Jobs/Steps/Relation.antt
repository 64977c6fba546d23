-- ===== src/Jobs/Steps/Relation.antt =====
-- The step relation of the registry. Each constructor names the call that makes the step, the record
-- that it finds, and the state that it leaves; a call that is refused leaves the state alone. Pruning,
-- which alone forgets jobs, is not among the steps.
use fairlead.Base.{true, false, ℕ, ◌<◌, String, Option, none, some, ◌≡◌, ltb, string_eq}
use fairlead.Base.Maps.{get, insert, is_some}
use fairlead.Jobs.Types.{
  JobRecord, JobRegistryInner, JobFailure, JobLease, JobCallbackState, SubmitJobRequest, queued,
  running, is_terminal,
}
use fairlead.Jobs.Submit.{existing_for_key, accept_new}
use fairlead.Jobs.Leases.{
  claimed_job, renewed_job, completed_job, requeued_job, failed_job, dequeue_as, requeue_as,
}
use fairlead.Jobs.Cancel.{cancelled_job}
use fairlead.Jobs.Expiry.{requeue_expired_leases_locked}

module _ {V : Type 0} where
  -- The record at `id` is replaced and nothing else.
  abbrev pub put : String → JobRecord V → JobRegistryInner V → JobRegistryInner V
  put id job s = record s { jobs = insert id job s.jobs }

  pub data Step (s s' : JobRegistryInner V) : Type 0 where
    stays : s' ≡ s → Step s s'
    submits :
        (now : ℕ) (request : SubmitJobRequest V) (url key : Option String)
        → existing_for_key s key ≡ none
        → s' ≡ accept_new now request url key s
        → Step s s'
    claims :
        (id : String) (job : JobRecord V) (worker_id : String) (duration now : ℕ)
        → get id s.jobs ≡ some job
        → job.status ≡ queued
        → s' ≡ dequeue_as id (claimed_job worker_id duration now job) s
        → Step s s'
    renews :
        (id : String) (job : JobRecord V) (lease : JobLease) (duration now : ℕ)
        → get id s.jobs ≡ some job
        → job.status ≡ running
        → job.lease ≡ some lease
        → now < lease.expires_at_unix_ms
        → s' ≡ put id (renewed_job lease duration now job) s
        → Step s s'
    completes :
        (id : String) (job : JobRecord V) (lease : JobLease) (now : ℕ) (result : V)
        → get id s.jobs ≡ some job
        → job.status ≡ running
        → job.lease ≡ some lease
        → now < lease.expires_at_unix_ms
        → s' ≡ put id (completed_job lease.worker_id now result lease job) s
        → Step s s'
    requeues :
        (id : String) (job : JobRecord V) (lease : JobLease) (now : ℕ) (failure : JobFailure)
        → get id s.jobs ≡ some job
        → job.status ≡ running
        → job.lease ≡ some lease
        → now < lease.expires_at_unix_ms
        → ltb job.attempts job.max_attempts ≡ true
        → s' ≡ requeue_as id (requeued_job now failure job) s
        → Step s s'
    fails :
        (id : String) (job : JobRecord V) (lease : JobLease) (now : ℕ) (failure : JobFailure)
        → get id s.jobs ≡ some job
        → job.status ≡ running
        → job.lease ≡ some lease
        → now < lease.expires_at_unix_ms
        → s' ≡ put id (failed_job lease.worker_id now failure lease job) s
        → Step s s'
    cancels :
        (id : String) (job : JobRecord V) (now : ℕ)
        → get id s.jobs ≡ some job
        → is_terminal job.status ≡ false
        → s' ≡ dequeue_as id (cancelled_job now job) s
        → Step s s'
    -- The bookkeeping of a callback that the job already has.
    notes :
        (id : String) (job : JobRecord V) (callback : JobCallbackState)
        → get id s.jobs ≡ some job
        → is_some job.callback ≡ true
        → s' ≡ put id (record job { callback = some callback }) s
        → Step s s'
    sweeps : (now : ℕ) → s' ≡ (requeue_expired_leases_locked now s).0 → Step s s'

  -- Any number of steps.
  pub data Reach (s : JobRegistryInner V) : JobRegistryInner V → Type 0 where
    here : Reach s s
    next : {t u : JobRegistryInner V} → Reach s t → Step t u → Reach s u
