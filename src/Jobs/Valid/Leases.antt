-- ===== src/Jobs/Valid/Leases.antt =====
-- The records that a worker's calls write are valid, and so is the registry that holds them.
use fairlead.Base.{true, ℕ, String, some, ◌≡◌, refl, ltb, arith}
use fairlead.Base.Maps.{get, insert}
use fairlead.Jobs.Types.{
  JobRecord, JobFailure, JobLease, JobRegistryInner, queued, running, status_eq,
}
use fairlead.Jobs.Leases.{
  claimed_job, renewed_job, completed_job, requeued_job, failed_job, dequeue_as, requeue_as,
}
use fairlead.Jobs.Valid.{JobIsValid, IsValid}
use fairlead.Jobs.Valid.Replace.{Replaces, replaced-IsValid, fit_same, fit_remove, fit_push}

module _ {V : Type 0} {job : JobRecord V} (v : JobIsValid job) where
  claimed_job-JobIsValid :
      (worker_id : String) (duration now : ℕ)
      → job.status ≡ queued
      → JobIsValid (claimed_job worker_id duration now job)
  unfolding claimed_job
  claimed_job-JobIsValid worker_id duration now h = ground arith

  renewed_job-JobIsValid :
      (lease : JobLease) (duration now : ℕ)
      → job.lease ≡ some lease
      → JobIsValid (renewed_job lease duration now job)
  renewed_job-JobIsValid lease duration now h = ground arith

  completed_job-JobIsValid :
      (worker_id : String) (now : ℕ) (result : V) (lease : JobLease)
      → job.lease ≡ some lease
      → job.status ≡ running
      → JobIsValid (completed_job worker_id now result lease job)
  unfolding completed_job
  completed_job-JobIsValid worker_id now result lease h g = ground arith

  requeued_job-JobIsValid :
      (now : ℕ) (failure : JobFailure)
      → job.status ≡ running
      → ltb job.attempts job.max_attempts ≡ true
      → JobIsValid (requeued_job now failure job)
  unfolding requeued_job
  requeued_job-JobIsValid now failure h g = ground arith

  failed_job-JobIsValid :
      (worker_id : String) (now : ℕ) (failure : JobFailure) (lease : JobLease)
      → job.lease ≡ some lease
      → job.status ≡ running
      → JobIsValid (failed_job worker_id now failure lease job)
  unfolding failed_job
  failed_job-JobIsValid worker_id now failure lease h g = ground arith

-- One record moves on, and its queue with it.
module _ {V : Type 0} {s : JobRegistryInner V} (v : IsValid s) (id : String) {job : JobRecord V}
    (at : get id s.jobs ≡ some job) where
  pub claimed-IsValid :
      (worker_id : String) (duration now : ℕ)
      → job.status ≡ queued
      → IsValid (dequeue_as id (claimed_job worker_id duration now job) s)
  unfolding claimed_job
  claimed-IsValid worker_id duration now h =
      let better = claimed_job-JobIsValid (v.valid id job at) worker_id duration now h in
      let same : Replaces job (claimed_job worker_id duration now job) = ground arith in
      replaced-IsValid v id at same better _ (fit_remove v id at same refl)

  pub renewed-IsValid :
      (lease : JobLease) (duration now : ℕ)
      → job.lease ≡ some lease
      → IsValid (record s { jobs = insert id (renewed_job lease duration now job) s.jobs })
  renewed-IsValid lease duration now h =
      let better = renewed_job-JobIsValid (v.valid id job at) lease duration now h in
      let same : Replaces job (renewed_job lease duration now job) = ground arith in
      replaced-IsValid v id at same better _ (fit_same v id at same (λ p. refl))

  pub completed-IsValid :
      (worker_id : String) (now : ℕ) (result : V) (lease : JobLease)
      → job.lease ≡ some lease
      → job.status ≡ running
      → IsValid
          (record s { jobs = insert id (completed_job worker_id now result lease job) s.jobs })
  unfolding completed_job
  completed-IsValid worker_id now result lease h g =
      let better = completed_job-JobIsValid (v.valid id job at) worker_id now result lease h g in
      let same : Replaces job (completed_job worker_id now result lease job) = ground arith in
      replaced-IsValid v id at same better _ (fit_same v id at same (λ p. ground arith))

  pub requeued-IsValid :
      (now : ℕ) (failure : JobFailure)
      → job.status ≡ running
      → ltb job.attempts job.max_attempts ≡ true
      → IsValid (requeue_as id (requeued_job now failure job) s)
  unfolding requeued_job
  requeued-IsValid now failure h g =
      let better = requeued_job-JobIsValid (v.valid id job at) now failure h g in
      let same : Replaces job (requeued_job now failure job) = ground arith in
      replaced-IsValid v id at same better _ (fit_push v id at same (ground arith) refl)

  pub failed-IsValid :
      (worker_id : String) (now : ℕ) (failure : JobFailure) (lease : JobLease)
      → job.lease ≡ some lease
      → job.status ≡ running
      → IsValid (record s { jobs = insert id (failed_job worker_id now failure lease job) s.jobs })
  unfolding failed_job
  failed-IsValid worker_id now failure lease h g =
      let better = failed_job-JobIsValid (v.valid id job at) worker_id now failure lease h g in
      let same : Replaces job (failed_job worker_id now failure lease job) = ground arith in
      replaced-IsValid v id at same better _ (fit_same v id at same (λ p. ground arith))
