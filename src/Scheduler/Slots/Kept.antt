-- ===== src/Scheduler/Slots/Kept.antt =====
-- No request loses a slot or hands one out twice.
use fairlead.Base.{ℕ, ◌+◌, ◌<◌, Eq, Bool, String, List, [], none, ◌≡◌, refl, arith}
use fairlead.Config.{WorkloadPoolPolicy}
use fairlead.Jobs.Types.{JobRetentionPolicy}
use fairlead.Jobs.Store.{new}
use fairlead.Jobs.Valid.Runs.{empty_inner-IsValid}
use fairlead.Workers.Types.{new_workers}
use fairlead.Scheduler.State.{AppState, Moment}
use fairlead.Scheduler.Requests.{
  Request, handle, submit, cancel, claim, renew, complete, fail, register, heartbeat, drain,
  reactivate, deregister, recover, prune,
}
use fairlead.Scheduler.Slots.{Balanced, HasRoom}
use fairlead.Scheduler.Slots.Prune.{prune-Balanced}
use fairlead.Scheduler.Slots.Sweep.{sweep-Balanced}
use fairlead.Scheduler.Slots.Requests.{
  claim-Balanced, renew-Balanced, complete-Balanced, fail-Balanced,
}
use fairlead.Scheduler.Slots.Clients.{cancel-Balanced, submit-Balanced}
use fairlead.Scheduler.Slots.Admin.{
  register-Balanced, heartbeat-Balanced, drain-Balanced, reactivate-Balanced, deregister-Balanced,
}

module _ {V : Type 0} ⦃q : Eq V⦄ where
  -- After any request of a client or a worker, pruning among them, and after a recovery sweep, each worker has exactly as
  -- many slots in use as there are running jobs leased to it, and both registries are valid, if this
  -- was so before the request. The jobs are kept in memory, requests are handled one after another,
  -- and the counters of ids and slots do not wrap around.
  pub handle-Balanced :
      (swept at : Moment) (s : AppState V) (request : Request V)
      → HasRoom s
      → Balanced s
      → Balanced (handle swept at s request)
  unfolding handle
  handle-Balanced swept at s (submit request) room b = submit-Balanced at s request room b
  handle-Balanced swept at s (cancel id) room b = cancel-Balanced at s id room b
  handle-Balanced swept at s (claim worker_id) room b = claim-Balanced swept at s worker_id room b
  handle-Balanced swept at s (renew worker_id job_id) room b =
      renew-Balanced swept at s worker_id job_id room b
  handle-Balanced swept at s (complete worker_id job_id attempt result) room b =
      complete-Balanced swept at s worker_id job_id attempt result room b
  handle-Balanced swept at s (fail worker_id job_id attempt error retryable) room b =
      fail-Balanced swept at s worker_id job_id attempt error retryable room b
  handle-Balanced swept at s (register request) room b = register-Balanced at s b request
  handle-Balanced swept at s (heartbeat id) room b = heartbeat-Balanced at s b id
  handle-Balanced swept at s (drain id) room b = drain-Balanced at s b id
  handle-Balanced swept at s (reactivate id) room b = reactivate-Balanced at s b id
  handle-Balanced swept at s (deregister id) room b = deregister-Balanced at s b id
  handle-Balanced swept at s recover room b = sweep-Balanced swept s room b
  handle-Balanced swept at s prune room b = prune-Balanced at s b

module _ {V : Type 0} where
  -- The state at the start, in memory.
  abbrev pub start_state :
      JobRetentionPolicy → ℕ → WorkloadPoolPolicy → Bool → List String → ℕ → AppState V
  start_state retention stale_after pools strict ids duration = record {
    jobs = new retention;
    workers = new_workers stale_after;
    workload_pools = pools;
    strict_worker_pools = strict;
    worker_pool_ids = ids;
    lease_duration_ms = duration;
  }

  pub start-Balanced :
      (retention : JobRetentionPolicy) (stale_after : ℕ) (pools : WorkloadPoolPolicy)
      (strict : Bool) (ids : List String) (duration : ℕ)
      → Balanced (start_state retention stale_after pools strict ids duration)
  unfolding new new_workers fairlead.Jobs.Types.empty_inner fairlead.Base.Maps.get
      fairlead.Base.Maps.total
  start-Balanced retention stale_after pools strict ids duration = record {
    memory = refl;
    jobs = empty_inner-IsValid;
    workers = record { valid = λ id entry h. absurd (cc); unique = tt };
    balanced = λ w. refl;
  }
