-- ===== src/Scheduler/Slots/Admin.antt =====
-- src/workers.rs: the requests about workers leave the slots as they are.
use fairlead.Base.{String, ◌&&◌, inl, inr, Bool-cases, any, Result-cases, ◌==◌, not, string_eq}
use fairlead.Base.Text.{trim}
use fairlead.Workers.Types.{RegisterWorkerRequest}
use fairlead.Workers.Registry
use fairlead.Workers.Valid.{WorkerCall, after_worker}
use fairlead.Workers.Slots.{IsAdmin}
use fairlead.Scheduler.State.{AppState, Moment}
use fairlead.Scheduler.Handlers
use fairlead.Scheduler.Slots.{Balanced}
use fairlead.Scheduler.Slots.Requests.{admin-Balanced}

module _ {V : Type 0} (at : Moment) (s : AppState V) (b : Balanced s) where
  pub heartbeat-Balanced : (id : String) → Balanced (Handlers.heartbeat_worker at s id).state
  unfolding Handlers.heartbeat_worker after_worker
  heartbeat-Balanced id = admin-Balanced at s (WorkerCall.heartbeat id) b (IsAdmin.heartbeat id)

  pub drain-Balanced : (id : String) → Balanced (Handlers.drain_worker at s id).state
  unfolding Handlers.drain_worker after_worker
  drain-Balanced id = admin-Balanced at s (WorkerCall.drain id) b (IsAdmin.drain id)

  pub reactivate-Balanced : (id : String) → Balanced (Handlers.reactivate_worker at s id).state
  unfolding Handlers.reactivate_worker after_worker
  reactivate-Balanced id = admin-Balanced at s (WorkerCall.reactivate id) b (IsAdmin.reactivate id)

  pub deregister-Balanced : (id : String) → Balanced (Handlers.deregister_worker at s id).state
  unfolding Handlers.deregister_worker after_worker
  deregister-Balanced id = admin-Balanced at s (WorkerCall.deregister id) b (IsAdmin.deregister id)

  pub register-Balanced :
      (request : RegisterWorkerRequest) → Balanced (Handlers.register_worker at s request).state
  unfolding Handlers.register_worker after_worker
  register-Balanced request =
      elim (Bool-cases (
        s.strict_worker_pools
        && not (any (λ configured. configured == trim request.pool) s.worker_pool_ids))) [
          | inl unknown ↦ rw (unknown, Handlers.register_worker) b
          | inr known ↦ elim (Result-cases (Registry.register at.clock s.workers request).1) [
            | inl (worker, e) ↦
                rw (known, e, Handlers.register_worker)
                  (admin-Balanced at s (WorkerCall.register request) b (IsAdmin.register request))
            | inr (message, e) ↦ rw (known, e, Handlers.register_worker) b
          ]
        ]
