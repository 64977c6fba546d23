-- ===== src/Examples/Machines.antt =====
-- Workers and the scheduler, on small states.
use fairlead.Base.{
  false, ℕ, ◌+◌, ◌<◌, String, none, some, [], ◌∷◌, ◌≡◌, refl, nat_eq, arith, subst, string_eq,
  string_beq_iff, ◌==◌, Bool-cases, inl, inr,
}
use fairlead.Base.Maps.{get, insert}
use fairlead.Jobs.Types.{JobKind, default_retention, empty_inner}
use fairlead.Workers.Types.{
  new_workers, unix_ms, Clock, WorkerEntry, WorkerRegistry, RegisterWorkerRequest,
  snapshot_from_entry, WorkerSnapshot,
}
use fairlead.Workers.Registry.{try_acquire_slot, register, validate_worker, merge_existing}
use fairlead.Workers.Valid.{
  EntryIsValid, WorkersIsValid, WorkerCall, after_worker, after_worker-IsValid,
}
use fairlead.Workers.Slots.{slots_of, Acquires, try_acquire_slot-Acquires, IsAdmin, admin-slots}
use fairlead.Scheduler.State.{AppState, Moment}
use fairlead.Scheduler.Preview.{preview_from_snapshots}
use fairlead.Scheduler.Preview.First.{Previews, preview-Previews}
use fairlead.Scheduler.Requests.{Request, handle}
use fairlead.Scheduler.Slots.{Balanced, HasRoom}
use fairlead.Scheduler.Slots.Kept.{handle-Balanced, start_state, start-Balanced}
use fairlead.Jobs.Store.{new, persist_locked}
use fairlead.Jobs.Queues.{push_back, for_priority, set_priority}
use fairlead.Jobs.Submit.{
  submit, submit_normalized, normalize_callback_url, normalize_idempotency_key, accept_new,
  enqueue_new, new_job, job_id,
}
use fairlead.Base.Text.{
  trim, trim_start, trim_end, is_whitespace, to_decimal, digits_onto, push_digit, lt_wf,
  starts_with,
}
use fairlead.Examples.{request, any_pool, job_queued, registry_queued}

abbrev clock : Clock
clock = record { system = 1000000000; monotonic = 1000000000 }

abbrev moment : Moment
moment = record { clock = clock; fault = none }

abbrev worker_request : RegisterWorkerRequest
worker_request = record {
  id = "w1";
  endpoint_url = "http://worker-1:9000";
  node_id = some "node-a";
  pool = "default";
  job_types = JobKind.vision_analysis ∷ [];
  max_concurrent_jobs = some 2;
  available_vram_mb = none;
}

abbrev entry : WorkerEntry
entry = record {
  id = "w1";
  endpoint_url = "http://worker-1:9000";
  node_id = some "node-a";
  pool = "default";
  job_types = JobKind.vision_analysis ∷ [];
  max_concurrent_jobs = some 2;
  available_vram_mb = none;
  in_flight_jobs = 1;
  draining = false;
  registered_at = 1000000000;
  last_seen_at = 1000000000;
  observed_at = 1000000000;
}

abbrev workers : WorkerRegistry
workers = record { workers = ("w1", entry) ∷ []; stale_after = 30000000000 }

one_slot_room : slots_of workers "w1" + 1 < 18446744073709551616
unfolding get
one_slot_room = omega arith

try_acquire_slot-Acquires_example :
    Acquires clock workers "w1" (try_acquire_slot clock workers "w1")
try_acquire_slot-Acquires_example = try_acquire_slot-Acquires clock workers "w1" one_slot_room

entry-IsValid : EntryIsValid "w1" entry
entry-IsValid = record {
  named = refl;
  has_id = refl;
  has_pool = refl;
  has_types = refl;
  limit_positive = λ h. ground arith;
}

only_entry :
    (id : String) (x : WorkerEntry) → get id workers.workers ≡ some x → ("w1" ≡ id) × (entry ≡ x)
unfolding get
only_entry id x at = elim (Bool-cases ("w1" == id)) [
  | inl e ↦ ((string_beq_iff "w1" id).0 e, cc (e, at))
  | inr e ↦ absurd (cc (e, at))
]

workers-IsValid : WorkersIsValid workers
unfolding get
workers-IsValid = record {
  valid = λ id x at.
      let (named, same) = only_entry id x at in
      subst (λ i. EntryIsValid i x) named (subst (λ y. EntryIsValid "w1" y) same entry-IsValid);
  unique = (refl, tt);
}

after_worker-IsValid_example :
    WorkersIsValid (after_worker clock workers (WorkerCall.try_acquire_slot "w1"))
after_worker-IsValid_example =
    after_worker-IsValid clock workers (WorkerCall.try_acquire_slot "w1") workers-IsValid

admin-slots_example :
    slots_of (after_worker clock workers (WorkerCall.register worker_request)) "w1"
    ≡ slots_of workers "w1"
admin-slots_example =
    admin-slots clock workers (WorkerCall.register worker_request) "w1" workers-IsValid
      (IsAdmin.register worker_request)

abbrev snapshot : WorkerSnapshot
snapshot = snapshot_from_entry clock 30000000000 entry

preview-Previews_example :
    Previews any_pool
      (job_queued ∷ [])
      (snapshot ∷ [])
      (preview_from_snapshots (job_queued ∷ []) (snapshot ∷ []) any_pool)
preview-Previews_example = preview-Previews any_pool (job_queued ∷ []) (snapshot ∷ [])

-- A server with no worker yet.
abbrev server : AppState ℕ
server = start_state default_retention 30000000000 any_pool false [] 50

server-HasRoom : HasRoom server
unfolding new new_workers empty_inner get
server-HasRoom = record { ids = omega arith; slots = λ w. omega arith }

server-Balanced : Balanced server
server-Balanced = start-Balanced default_retention 30000000000 any_pool false [] 50

-- The same server with a worker and a job that waits for it.
abbrev ready : AppState ℕ
ready = record server {
  jobs = registry_queued;
  workers = record {
    workers = ("w1", record entry { in_flight_jobs = 0 }) ∷ [];
    stale_after = 30000000000;
  };
}

ready_reached :
    handle moment moment
      (handle moment moment server (Request.register worker_request))
      (Request.submit request)
    ≡ ready
unfolding handle fairlead.Scheduler.Handlers.register_worker fairlead.Scheduler.Handlers.submit_job
    register validate_worker merge_existing starts_with new_workers unix_ms snapshot_from_entry
    fairlead.Workers.Types.available_slots new empty_inner default_retention submit
    submit_normalized normalize_callback_url normalize_idempotency_key trim trim_start trim_end
    is_whitespace accept_new enqueue_new new_job job_id to_decimal digits_onto push_digit lt_wf get
    insert push_back for_priority set_priority persist_locked
ready_reached = refl

registered-HasRoom : HasRoom (handle moment moment server (Request.register worker_request))
unfolding handle fairlead.Scheduler.Handlers.register_worker register validate_worker merge_existing
    starts_with new_workers snapshot_from_entry new empty_inner trim trim_start trim_end
    is_whitespace get insert
registered-HasRoom = record {
  ids = omega arith;
  slots = λ w. ground (arith, string_beq_iff "w1" w);
}

ready-Balanced : Balanced ready
ready-Balanced =
    subst (λ s. Balanced s) ready_reached
      (handle-Balanced moment moment (handle moment moment server (Request.register worker_request))
        (Request.submit request) registered-HasRoom
        (handle-Balanced moment moment server (Request.register worker_request) server-HasRoom
          server-Balanced))

ready-HasRoom : HasRoom ready
unfolding get
ready-HasRoom = record { ids = omega arith; slots = λ w. ground (arith, string_beq_iff "w1" w) }

handle-Balanced_example : Balanced (handle moment moment ready (Request.claim "w1"))
handle-Balanced_example =
    handle-Balanced moment moment ready (Request.claim "w1") ready-HasRoom ready-Balanced
