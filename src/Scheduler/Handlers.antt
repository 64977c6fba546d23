-- ===== src/Scheduler/Handlers.antt =====
-- src/scheduler.rs: claiming a job and renewing its lease; src/jobs.rs: submitting and cancelling;
-- src/workers.rs: the requests about workers.
use fairlead.Base.{
  ℕ, String, Option, none, some, [], ◌∷◌, ok, err, ◌==◌, ◌&&◌, not, string_eq, any, if◌then◌else◌,
  Eq,
}
use fairlead.Base.Text.{trim}
use Prim.Native.String.{◌++◌ as ◌^^◌}
use fairlead.Jobs.Types.{
  JobRecord, SubmitJobRequest, JobStatus, status_eq, CancelJobResult, RenewJobLeaseResult,
}
use fairlead.Jobs.Store.{JobRegistry}
use fairlead.Jobs.Submit.{submit}
use fairlead.Jobs.Views.{get_job}
use fairlead.Jobs.Leases.{claim_next_for_worker_in_pool, renew_lease}
use fairlead.Jobs.Cancel.{cancel}
use fairlead.Workers.Types.{
  WorkerRegistry, WorkerSnapshot, RegisterWorkerRequest, AcquireWorkerSlotResult,
  DeregisterWorkerResult,
}
use fairlead.Workers.Registry
use fairlead.Scheduler.State.{
  AppState, Moment, Response, Reply, now_ms, release, sweep_expired_leases,
}

module _ {V : Type 0} where
  -- The claim of a worker that holds a slot: without a job it gives the slot back.
  unfoldable pub claim_with_slot : Moment → AppState V → WorkerSnapshot → AppState V × Response V
  claim_with_slot at s worker =
      let (jobs', claimed) =
        claim_next_for_worker_in_pool at.fault (now_ms at) s.jobs worker.id worker.job_types
          worker.pool s.workload_pools s.lease_duration_ms in
      elim claimed [
        | some job ↦ (record s { jobs = jobs' }, Response.job 200 job)
        | none ↦ (release at worker.id (record s { jobs = jobs' }), Response.no_content)
      ]

  -- After the sweep.
  unfoldable pub claim_swept : Moment → AppState V → String → AppState V × Response V
  unfolding claim_with_slot
  claim_swept at s worker_id =
      let (workers', slot) = Registry.try_acquire_slot at.clock s.workers worker_id in
      elim slot [
        | AcquireWorkerSlotResult.acquired worker ↦
            claim_with_slot at (record s { workers = workers' }) worker
        | AcquireWorkerSlotResult.at_capacity worker ↦
            (s, Response.text 409 "worker is at capacity")
        | AcquireWorkerSlotResult.draining worker ↦ (s, Response.text 409 "worker is draining")
        | AcquireWorkerSlotResult.stale worker ↦ (s, Response.text 409 "worker is stale")
        | AcquireWorkerSlotResult.not_found ↦ (s, Response.text 404 "worker not found")
      ]

  unfoldable pub claim_worker_job_handler : Moment → Moment → AppState V → String → Reply V
  unfolding claim_swept
  claim_worker_job_handler swept at s worker_id =
      let (s1, dispatched) = sweep_expired_leases swept s in
      let (s2, response) = claim_swept at s1 worker_id in
      record { state = s2; response = response; dispatched = dispatched }

  unfoldable pub renew_response : RenewJobLeaseResult V → Response V
  renew_response (RenewJobLeaseResult.renewed job) = Response.job 200 job
  renew_response (RenewJobLeaseResult.not_running job) = Response.job 409 job
  renew_response (RenewJobLeaseResult.lease_not_held job) = Response.job 409 job
  renew_response (RenewJobLeaseResult.expired job) = Response.job 409 job
  renew_response RenewJobLeaseResult.not_found = Response.text 404 "job not found"

  abbrev pub refuse : AppState V → ℕ → String → Reply V
  refuse s status message = record {
    state = s;
    response = Response.text status message;
    dispatched = [];
  }

  unfoldable pub renew_worker_job_lease_handler :
      Moment → Moment → AppState V → String → String → Reply V
  unfolding renew_response
  renew_worker_job_lease_handler swept at s worker_id job_id =
      elim (Registry.get_worker swept.clock s.workers worker_id) [
        | none ↦ refuse s 404 "worker not found"
        | some worker ↦
            if worker.stale
            then refuse s 409 "worker is stale"
            else let (s1, dispatched) = sweep_expired_leases swept s in
              let (jobs', result) =
                renew_lease at.fault (now_ms at) s1.jobs job_id worker.id s1.lease_duration_ms in
              record {
                state = record s1 { jobs = jobs' };
                response = renew_response result;
                dispatched = dispatched;
              }
      ]

  -- The slot of a cancelled job goes back to the worker that its lease names.
  abbrev pub release_lease : Moment → JobRecord V → AppState V → AppState V
  release_lease at job s = elim job.lease [ none ↦ s | some lease ↦ release at lease.worker_id s ]

  -- The reply of a cancellation to what the registry answered.
  abbrev pub cancel_reply : Moment → AppState V → JobRegistry V × CancelJobResult V → Reply V
  cancel_reply at s (jobs', CancelJobResult.cancelled job) = record {
    state = release_lease at job (record s { jobs = jobs' });
    response = Response.job 200 job;
    dispatched = job.id ∷ [];
  }
  cancel_reply at s (jobs', CancelJobResult.already_terminal job) = record {
    state = record s { jobs = jobs' };
    response = Response.job (if job.status == JobStatus.cancelled then 200 else 409) job;
    dispatched = [];
  }
  cancel_reply at s (jobs', CancelJobResult.not_found) =
      refuse (record s { jobs = jobs' }) 404 "job not found"

  unfoldable pub cancel_job : Moment → AppState V → String → Reply V
  cancel_job at s id = cancel_reply at s (cancel at.fault (now_ms at) s.jobs id)

  unfoldable pub get_job_handler : AppState V → String → Response V
  get_job_handler s id = elim (get_job s.jobs id) [
    | some job ↦ Response.job 200 job
    | none ↦ Response.text 404 "job not found"
  ]

  abbrev pub worker_response : Option WorkerSnapshot → Response V
  worker_response (some worker) = Response.worker 200 worker
  worker_response none = Response.text 404 "worker not found"

  -- `heartbeat_worker`, `drain_worker` and `reactivate_worker` differ in their operation only.
  abbrev pub worker_reply : AppState V → WorkerRegistry × Option WorkerSnapshot → Reply V
  worker_reply s (workers', found) = record {
    state = record s { workers = workers' };
    response = worker_response found;
    dispatched = [];
  }

  unfoldable pub heartbeat_worker : Moment → AppState V → String → Reply V
  heartbeat_worker at s id = worker_reply s (Registry.heartbeat at.clock s.workers id)

  unfoldable pub drain_worker : Moment → AppState V → String → Reply V
  drain_worker at s id = worker_reply s (Registry.drain at.clock s.workers id)

  unfoldable pub reactivate_worker : Moment → AppState V → String → Reply V
  reactivate_worker at s id = worker_reply s (Registry.reactivate at.clock s.workers id)

  unfoldable pub deregister_worker : Moment → AppState V → String → Reply V
  deregister_worker at s id =
      let (workers', result) = Registry.deregister at.clock s.workers id in
      record {
        state = record s { workers = workers' };
        response = elim result [
          | DeregisterWorkerResult.removed ↦ Response.no_content
          | DeregisterWorkerResult.draining worker ↦ Response.worker 202 worker
          | DeregisterWorkerResult.not_found ↦ Response.text 404 "worker not found"
        ];
        dispatched = [];
      }

  unfoldable pub register_worker : Moment → AppState V → RegisterWorkerRequest → Reply V
  register_worker at s request =
      let pool = trim request.pool in
      if s.strict_worker_pools && not (any (λ configured. configured == pool) s.worker_pool_ids)
      then refuse s 400 ("worker pool '" ^^ (pool ^^ "' is not configured"))
      else let (workers', result) = Registry.register at.clock s.workers request in
        elim result [
          | ok worker ↦ record {
            state = record s { workers = workers' };
            response = Response.worker 200 worker;
            dispatched = [];
          }
          | err message ↦ refuse s 400 message
        ]

module _ {V : Type 0} ⦃q : Eq V⦄ where
  unfoldable pub submit_job : Moment → AppState V → SubmitJobRequest V → Reply V
  submit_job at s request =
      let (jobs', result) = submit at.fault (now_ms at) s.jobs request in
      let s1 = record s { jobs = jobs' } in
      elim result [
        | ok job ↦ record { state = s1; response = Response.job 202 job; dispatched = [] }
        | err message ↦ refuse s1 400 message
      ]
