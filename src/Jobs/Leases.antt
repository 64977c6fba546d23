-- ===== src/Jobs/Leases.antt =====
-- src/jobs.rs: the life of a lease. A worker claims a job, renews its lease, and completes or fails it.
use fairlead.Base.{
  Bool, false, ℕ, ◌+◌, String, Option, none, some, List, [], Eq, ◌==◌, ◌&&◌, not, string_eq, nat_eq,
  option_beq, contains, find_map, ltb, leb, u32, u128, if◌then◌else◌,
}
use fairlead.Base.Maps.{get, insert}
use fairlead.Config.{WorkloadPoolPolicy, allows}
use fairlead.Jobs.Types.{
  JobKind, JobRecord, JobRegistryInner, JobFailure, JobLease, queued, running, complete, failed,
  kind_eq, status_eq, kind_str, failure_beq, RenewJobLeaseResult, FinishJobResult,
}
use fairlead.Jobs.Queues.{iter, push_back, remove}
use fairlead.Jobs.Store.{JobRegistry, persist_locked, settle, put_job}
use fairlead.Jobs.Callbacks.{prepare_callback}

-- `attempt.is_some_and(|reported| reported != lease.attempt)`
abbrev pub reports_other : Option ℕ → JobLease → Bool
reports_other none lease = false
reports_other (some reported) lease = not (reported == lease.attempt)

module _ {V : Type 0} where
  -- A job that the worker may take.
  unfoldable pub is_claimable : List JobKind → String → WorkloadPoolPolicy → JobRecord V → Bool
  is_claimable kinds pool policy job =
      (job.status == queued) && (contains kinds job.kind && allows policy (kind_str job.kind) pool)

  abbrev pub claimable_id :
      List JobKind → String → WorkloadPoolPolicy → JobRegistryInner V → String → Option String
  claimable_id kinds pool policy s id = elim (get id s.jobs) [
    | none ↦ none
    | some job ↦ if is_claimable kinds pool policy job then some id else none
  ]

  -- The first claimable id, the queues taken in the order in which they are served.
  unfoldable pub next_claimable :
      List JobKind → String → WorkloadPoolPolicy → JobRegistryInner V → Option String
  unfolding iter
  next_claimable kinds pool policy s =
      find_map (λ pq. find_map (claimable_id kinds pool policy s) pq.1) (iter s.queues)

  -- The record of a job that `worker_id` has just claimed. Times are `u128`, attempts `u32`.
  unfoldable pub claimed_job : String → ℕ → ℕ → JobRecord V → JobRecord V
  claimed_job worker_id lease_duration_ms now job = record job {
    status = running;
    attempts = u32 (job.attempts + 1);
    result = none;
    terminal_attempt = none;
    lease = some (record {
      worker_id = worker_id;
      attempt = u32 (job.attempts + 1);
      claimed_at_unix_ms = now;
      expires_at_unix_ms = u128 (now + lease_duration_ms);
    });
    updated_at_unix_ms = now;
  }

  -- The state in which `job` at `id` has become `job'` and has left its queue.
  abbrev pub dequeue_as : String → JobRecord V → JobRegistryInner V → JobRegistryInner V
  dequeue_as id job' s = record s {
    jobs = insert id job' s.jobs;
    queues = remove job'.priority id s.queues;
  }

  unfoldable pub claim_next_for_worker_in_pool :
      Option String
      → ℕ
      → JobRegistry V
      → String
      → List JobKind
      → String
      → WorkloadPoolPolicy
      → ℕ
      → JobRegistry V × Option (JobRecord V)
  claim_next_for_worker_in_pool fault now r worker_id kinds pool policy lease_duration_ms =
      elim (next_claimable kinds pool policy r.inner) [
        | none ↦ (r, none)
        | some id ↦ elim (get id r.inner.jobs) [
          | none ↦ (r, none)
          | some job ↦
              let job' = claimed_job worker_id lease_duration_ms now job in
              settle (persist_locked fault (record r { inner = dequeue_as id job' r.inner }))
                (some job') (λ _. none)
        ]
      ]

  -- In the default pool, with the policy that allows everything.
  unfoldable pub claim_next_for_worker :
      Option String
      → ℕ
      → JobRegistry V
      → String
      → List JobKind
      → ℕ
      → JobRegistry V × Option (JobRecord V)
  claim_next_for_worker fault now r worker_id kinds lease_duration_ms =
      claim_next_for_worker_in_pool fault now r worker_id kinds "default"
        (record { pools_by_workload = [] }) lease_duration_ms

  abbrev pub renewed_job : JobLease → ℕ → ℕ → JobRecord V → JobRecord V
  renewed_job lease lease_duration_ms now job = record job {
    lease = some (record lease { expires_at_unix_ms = u128 (now + lease_duration_ms) });
    updated_at_unix_ms = now;
  }

  -- `renew_lease`, for a running job with a lease.
  unfoldable pub renew_held :
      Option String
      → ℕ
      → JobRegistry V
      → String
      → String
      → ℕ
      → JobRecord V
      → JobLease
      → JobRegistry V × RenewJobLeaseResult V
  renew_held fault now r id worker_id lease_duration_ms job lease =
      if not (lease.worker_id == worker_id)
      then (r, RenewJobLeaseResult.lease_not_held job)
      else if leb lease.expires_at_unix_ms now
      then (r, RenewJobLeaseResult.expired job)
      else let job' = renewed_job lease lease_duration_ms now job in
        settle (persist_locked fault (put_job r id job')) (RenewJobLeaseResult.renewed job')
          (λ _. RenewJobLeaseResult.not_found)

  unfoldable pub renew_lease :
      Option String
      → ℕ
      → JobRegistry V
      → String
      → String
      → ℕ
      → JobRegistry V × RenewJobLeaseResult V
  unfolding renew_held
  renew_lease fault now r id worker_id lease_duration_ms = elim (get id r.inner.jobs) [
    | none ↦ (r, RenewJobLeaseResult.not_found)
    | some job ↦
        if not (job.status == running)
        then (r, RenewJobLeaseResult.not_running job)
        else elim job.lease [
          | none ↦ (r, RenewJobLeaseResult.not_running job)
          | some lease ↦ renew_held fault now r id worker_id lease_duration_ms job lease
        ]
  ]

  -- `terminal_attempt_matches`: an unnumbered report matches nothing.
  unfoldable pub terminal_attempt_matches : JobRecord V → String → Option ℕ → Bool
  terminal_attempt_matches job worker_id none = false
  terminal_attempt_matches job worker_id (some reported) = elim job.terminal_attempt [
    | none ↦ false
    | some terminal ↦ (terminal.worker_id == worker_id) && (terminal.attempt == reported)
  ]

  -- The checks that completing and failing share: the refusal, if there is one.
  abbrev pub held_refusal :
      ℕ → String → Option ℕ → JobRecord V → JobLease → Option (FinishJobResult V)
  held_refusal now worker_id attempt job lease =
      if not (lease.worker_id == worker_id)
      then some (FinishJobResult.lease_not_held job)
      else if reports_other attempt lease
      then some (FinishJobResult.lease_not_held job)
      else if leb lease.expires_at_unix_ms now
      then some (FinishJobResult.expired job)
      else none

  unfoldable pub completed_job : String → ℕ → V → JobLease → JobRecord V → JobRecord V
  unfolding prepare_callback
  completed_job worker_id now result lease job = prepare_callback (record job {
    status = complete;
    result = some result;
    error = none;
    lease = none;
    terminal_attempt = some (record { worker_id = worker_id; attempt = lease.attempt });
    updated_at_unix_ms = now;
  })

  unfoldable pub complete_held :
      Option String
      → ℕ
      → JobRegistry V
      → String
      → String
      → Option ℕ
      → V
      → JobRecord V
      → JobLease
      → JobRegistry V × FinishJobResult V
  complete_held fault now r id worker_id attempt result job lease =
      elim (held_refusal now worker_id attempt job lease) [
        | some refusal ↦ (r, refusal)
        | none ↦
            let job' = completed_job worker_id now result lease job in
            settle (persist_locked fault (put_job r id job')) (FinishJobResult.completed job')
              (λ _. FinishJobResult.not_found)
      ]

  -- A failed attempt that is not the last one, and the end of the job.
  unfoldable pub requeued_job : ℕ → JobFailure → JobRecord V → JobRecord V
  requeued_job now failure job = record job {
    result = none;
    error = some failure;
    lease = none;
    updated_at_unix_ms = now;
    status = queued;
    terminal_attempt = none;
  }

  unfoldable pub failed_job : String → ℕ → JobFailure → JobLease → JobRecord V → JobRecord V
  unfolding prepare_callback
  failed_job worker_id now failure lease job = prepare_callback (record job {
    result = none;
    error = some failure;
    lease = none;
    updated_at_unix_ms = now;
    status = failed;
    terminal_attempt = some (record { worker_id = worker_id; attempt = lease.attempt });
  })

  -- The state in which `job'` has been put back at the end of its queue.
  abbrev pub requeue_as : String → JobRecord V → JobRegistryInner V → JobRegistryInner V
  requeue_as id job' s = record s {
    jobs = insert id job' s.jobs;
    queues = push_back job'.priority job'.id s.queues;
  }

  unfoldable pub fail_held :
      Option String
      → ℕ
      → JobRegistry V
      → String
      → String
      → Option ℕ
      → JobFailure
      → JobRecord V
      → JobLease
      → JobRegistry V × FinishJobResult V
  fail_held fault now r id worker_id attempt failure job lease =
      elim (held_refusal now worker_id attempt job lease) [
        | some refusal ↦ (r, refusal)
        | none ↦
            if failure.retryable && ltb job.attempts job.max_attempts
            then (let job' = requeued_job now failure job in
                settle (persist_locked fault (record r { inner = requeue_as id job' r.inner }))
                  (FinishJobResult.requeued job') (λ _. FinishJobResult.not_found))
            else let job' = failed_job worker_id now failure lease job in
              settle (persist_locked fault (put_job r id job')) (FinishJobResult.failed job')
                (λ _. FinishJobResult.not_found)
      ]

  unfoldable pub fail_lease :
      Option String
      → ℕ
      → JobRegistry V
      → String
      → String
      → Option ℕ
      → JobFailure
      → JobRegistry V × FinishJobResult V
  unfolding fail_held
  fail_lease fault now r id worker_id attempt failure = elim (get id r.inner.jobs) [
    | none ↦ (r, FinishJobResult.not_found)
    | some job ↦
        if not (job.status == running)
        then if (job.status == failed)
            && (terminal_attempt_matches job worker_id attempt
                && elim job.error [ none ↦ false | some error ↦ failure_beq error failure ])
          then (r, FinishJobResult.idempotent_failed job)
          else (r, FinishJobResult.not_running job)
        else elim job.lease [
          | none ↦ (r, FinishJobResult.not_running job)
          | some lease ↦ fail_held fault now r id worker_id attempt failure job lease
        ]
  ]

module _ {V : Type 0} ⦃e : Eq V⦄ where
  unfoldable pub complete_lease :
      Option String
      → ℕ
      → JobRegistry V
      → String
      → String
      → Option ℕ
      → V
      → JobRegistry V × FinishJobResult V
  unfolding complete_held
  complete_lease fault now r id worker_id attempt result = elim (get id r.inner.jobs) [
    | none ↦ (r, FinishJobResult.not_found)
    | some job ↦
        if not (job.status == running)
        then if (job.status == complete)
            && (terminal_attempt_matches job worker_id attempt
                && option_beq job.result (some result))
          then (r, FinishJobResult.idempotent_completed job)
          else (r, FinishJobResult.not_running job)
        else elim job.lease [
          | none ↦ (r, FinishJobResult.not_running job)
          | some lease ↦ complete_held fault now r id worker_id attempt result job lease
        ]
  ]
