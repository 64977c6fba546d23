-- ===== src/Scheduler/Requests.antt =====
-- The requests that clients and workers make, and the sweep of the recovery loop, as one type. The pruning
-- loop makes the same call as the request to prune.
use fairlead.Base.{ℕ, Bool, String, Option, Eq}
use fairlead.Jobs.Types.{SubmitJobRequest}
use fairlead.Workers.Types.{RegisterWorkerRequest}
use fairlead.Scheduler.State.{AppState, Moment, prune_jobs, sweep_expired_leases}
use fairlead.Scheduler.Handlers
use fairlead.Scheduler.Finish.{complete_worker_job_handler, fail_worker_job_handler}

pub data Request (V : Type 0) : Type 0 where
  submit : SubmitJobRequest V → Request V
  cancel claim : String → Request V
  renew : String → String → Request V
  complete : String → String → Option ℕ → V → Request V
  fail : String → String → Option ℕ → String → Bool → Request V
  register : RegisterWorkerRequest → Request V
  heartbeat drain reactivate deregister : String → Request V
  recover prune : Request V

module _ {V : Type 0} ⦃q : Eq V⦄ where
  -- The state after a request; the first moment is that of its sweep, if it makes one.
  unfoldable pub handle : Moment → Moment → AppState V → Request V → AppState V
  handle swept at s (submit request) = (Handlers.submit_job at s request).state
  handle swept at s (cancel id) = (Handlers.cancel_job at s id).state
  handle swept at s (claim worker_id) =
      (Handlers.claim_worker_job_handler swept at s worker_id).state
  handle swept at s (renew worker_id job_id) =
      (Handlers.renew_worker_job_lease_handler swept at s worker_id job_id).state
  handle swept at s (complete worker_id job_id attempt result) =
      (complete_worker_job_handler swept at s worker_id job_id attempt result).state
  handle swept at s (fail worker_id job_id attempt error retryable) =
      (fail_worker_job_handler swept at s worker_id job_id attempt error retryable).state
  handle swept at s (register request) = (Handlers.register_worker at s request).state
  handle swept at s (heartbeat id) = (Handlers.heartbeat_worker at s id).state
  handle swept at s (drain id) = (Handlers.drain_worker at s id).state
  handle swept at s (reactivate id) = (Handlers.reactivate_worker at s id).state
  handle swept at s (deregister id) = (Handlers.deregister_worker at s id).state
  handle swept at s recover = (sweep_expired_leases swept s).0
  handle swept at s prune = (prune_jobs at s).0
