-- ===== src/Jobs/Expiry.antt =====
-- src/jobs.rs: `requeue_expired_leases`, the sweep that takes back leases which have run out.
use fairlead.Base.{
  ℕ, ◌+◌, String, Option, none, some, List, [], ◌∷◌, ◌++◌, Bool, ◌==◌, not, string_eq, nat_eq,
  contains, ltb, if◌then◌else◌,
}
use fairlead.Base.Maps.{get, insert}
use fairlead.Config.{Priority}
use fairlead.Jobs.Types.{
  JobRecord, JobRegistryInner, JobQueues, JobLease, queued, running, failed, status_eq,
  attempt_timeout_error,
}
use fairlead.Jobs.Queues.{for_priority, push_back}
use fairlead.Jobs.Store.{JobRegistry, persist_locked}
use fairlead.Jobs.Callbacks.{prepare_callback}

pub record LeaseExpiryReport (V : Type 0) : Type 0 where
  pub requeued : ℕ
  pub failed : ℕ
  pub released_workers : List String
  pub failed_jobs : List (JobRecord V)

-- What the loop over `order` carries: the jobs, the report, and the ids to be queued again.
pub record Sweep (V : Type 0) : Type 0 where
  pub inner : JobRegistryInner V
  pub report : LeaseExpiryReport V
  pub requeued_jobs : List (Priority × String)

module _ {V : Type 0} where
  abbrev pub has_retry : JobRecord V → Bool
  has_retry job = ltb job.attempts job.max_attempts

  -- The record after its lease ran out at `now`.
  unfoldable pub timed_out_job : ℕ → JobRecord V → JobRecord V
  unfolding prepare_callback
  timed_out_job now job =
      let retryable = has_retry job in
      let stopped = record job {
        result = none;
        error = some (record { message = attempt_timeout_error; retryable = retryable });
        lease = none;
        updated_at_unix_ms = now;
      } in
      if retryable
      then record stopped { status = queued }
      else prepare_callback (record stopped { status = failed })

  -- One expired lease.
  unfoldable pub expire : ℕ → String → JobRecord V → JobLease → Sweep V → Sweep V
  expire now id job lease w =
      let job' = timed_out_job now job in
      let inner' = record (w.inner) { jobs = insert id job' w.inner.jobs } in
      let workers' = w.report.released_workers ++ lease.worker_id ∷ [] in
      if has_retry job
      then record {
        inner = inner';
        report = record (w.report) {
          requeued = w.report.requeued + 1;
          released_workers = workers';
        };
        requeued_jobs = w.requeued_jobs ++ (job.priority, id) ∷ [];
      }
      else record {
        inner = inner';
        report = record (w.report) {
          failed = w.report.failed + 1;
          released_workers = workers';
          failed_jobs = w.report.failed_jobs ++ job' ∷ [];
        };
        requeued_jobs = w.requeued_jobs;
      }

  -- One round of the loop over the order.
  unfoldable pub sweep_one : ℕ → String → Sweep V → Sweep V
  sweep_one now id w = elim (get id w.inner.jobs) [
    | none ↦ w
    | some job ↦ if not (job.status == running) then w else elim job.lease [
      | none ↦ w
      | some lease ↦ if ltb now lease.expires_at_unix_ms then w else expire now id job lease w
    ]
  ]

  unfoldable pub sweep : ℕ → List String → Sweep V → Sweep V
  sweep now [] w = w
  sweep now (id ∷ ids) w = sweep now ids (sweep_one now id w)

  unfoldable pub empty_report : LeaseExpiryReport V
  empty_report = record { requeued = 0; failed = 0; released_workers = []; failed_jobs = [] }

  unfoldable pub start : JobRegistryInner V → Sweep V
  unfolding empty_report
  start s = record { inner = s; report = empty_report; requeued_jobs = [] }

-- An id that its queue already holds is not pushed again.
unfoldable pub requeue_one : Priority → String → JobQueues → JobQueues
requeue_one p id q = if contains (for_priority p q) id then q else push_back p id q

unfoldable pub requeue_all : List (Priority × String) → JobQueues → JobQueues
unfolding requeue_one
requeue_all [] q = q
requeue_all ((p, id) ∷ rest) q = requeue_all rest (requeue_one p id q)

module _ {V : Type 0} where
  unfoldable pub requeue_expired_leases_locked :
      ℕ → JobRegistryInner V → JobRegistryInner V × LeaseExpiryReport V
  unfolding sweep start requeue_all
  requeue_expired_leases_locked now s =
      let w = sweep now s.order (start s) in
      (record (w.inner) { queues = requeue_all w.requeued_jobs w.inner.queues }, w.report)

  -- A fault of the store is passed over.
  unfoldable pub requeue_expired_leases :
      Option String → ℕ → JobRegistry V → JobRegistry V × LeaseExpiryReport V
  requeue_expired_leases fault now r =
      let (inner', report) = requeue_expired_leases_locked now r.inner in
      ((persist_locked fault (record r { inner = inner' })).0, report)
