-- ===== src/Workers/Slots.antt =====
-- The slots of a worker: when one is taken, and what every operation does to their number.
use fairlead.Base.{
  ℕ, ◌+◌, ◌-◌, ◌≤◌, ◌<◌, String, Option, none, some, ◌≡◌, refl, ◌==◌, inl, inr, arith, string_eq,
  string_beq_iff, Option-cases, Bool-cases, leb, if◌then◌else◌, true, false, Result-cases,
}
use fairlead.Base.Maps.{get, get-insert, get-remove}
use fairlead.Workers.Types
use fairlead.Workers.Registry
use fairlead.Workers.Valid.{Within, WorkersIsValid, WorkerCall, after_worker}

-- The slots in use at an id; a worker that is not there uses none.
abbrev pub in_flight : Option Types.WorkerEntry → ℕ
in_flight none = 0
in_flight (some entry) = entry.in_flight_jobs

abbrev pub slots_of : Types.WorkerRegistry → String → ℕ
slots_of r id = in_flight (get id r.workers)

-- Why a slot is granted or refused: the registry that is left, and the answer.
pub data Acquires (clock : Types.Clock) (r : Types.WorkerRegistry) (id : String)
    (p : Types.WorkerRegistry × Types.AcquireWorkerSlotResult) : Type 0 where
  granted :
      (entry entry' : Types.WorkerEntry)
      → get id r.workers ≡ some entry
      → clock.monotonic - entry.observed_at < r.stale_after
      → entry.draining ≡ false
      → entry' ≡ record entry { in_flight_jobs = entry.in_flight_jobs + 1 }
      → Within entry.max_concurrent_jobs (entry.in_flight_jobs + 1)
      → p ≡ (
        Registry.put_worker r id entry',
        Types.AcquireWorkerSlotResult.acquired
            (Types.snapshot_from_entry clock r.stale_after entry'),
      )
      → Acquires clock r id p
  refused_stale :
      (entry : Types.WorkerEntry)
      → get id r.workers ≡ some entry
      → r.stale_after ≤ clock.monotonic - entry.observed_at
      → p ≡ (
        r,
        Types.AcquireWorkerSlotResult.stale (Types.snapshot_from_entry clock r.stale_after entry),
      )
      → Acquires clock r id p
  refused_draining :
      (entry : Types.WorkerEntry)
      → get id r.workers ≡ some entry
      → clock.monotonic - entry.observed_at < r.stale_after
      → entry.draining ≡ true
      → p ≡ (
        r,
        Types.AcquireWorkerSlotResult.draining
            (Types.snapshot_from_entry clock r.stale_after entry),
      )
      → Acquires clock r id p
  refused_full :
      (entry : Types.WorkerEntry) (max : ℕ)
      → get id r.workers ≡ some entry
      → clock.monotonic - entry.observed_at < r.stale_after
      → entry.draining ≡ false
      → entry.max_concurrent_jobs ≡ some max
      → max ≤ entry.in_flight_jobs
      → p ≡ (
        r,
        Types.AcquireWorkerSlotResult.at_capacity
            (Types.snapshot_from_entry clock r.stale_after entry),
      )
      → Acquires clock r id p
  unknown :
      get id r.workers ≡ none
      → p ≡ (r, Types.AcquireWorkerSlotResult.not_found)
      → Acquires clock r id p

full_max :
    (entry : Types.WorkerEntry)
    → Registry.is_full entry ≡ true
    → (max : ℕ) × (entry.max_concurrent_jobs ≡ some max) × (max ≤ entry.in_flight_jobs)
full_max entry h = elim (Option-cases entry.max_concurrent_jobs) [
  | inl e ↦ absurd (ground arith)
  | inr (max, e) ↦ (max, e, ground arith)
]

free-Within :
    (entry : Types.WorkerEntry)
    → Registry.is_full entry ≡ false
    → Within entry.max_concurrent_jobs (entry.in_flight_jobs + 1)
free-Within entry h = ground arith

-- `try_acquire_slot` takes a slot exactly when the worker is known, was seen recently, is not draining
-- and has a slot free; then only its count changes, by one, and stays within its limit. Otherwise it
-- reports the first reason that holds, in the order stale, draining, full, and changes nothing. The
-- count is a `usize` that does not wrap around.
pub try_acquire_slot-Acquires :
    (clock : Types.Clock) (r : Types.WorkerRegistry) (id : String)
    → slots_of r id + 1 < 18446744073709551616
    → Acquires clock r id (Registry.try_acquire_slot clock r id)
unfolding Registry.try_acquire_slot Types.snapshot_from_entry
try_acquire_slot-Acquires clock r id room = elim (Option-cases (get id r.workers)) [
  | inl e ↦ Acquires.unknown e (rw (e, Registry.try_acquire_slot) refl)
  | inr (entry, e) ↦ elim (Bool-cases (leb r.stale_after (clock.monotonic - entry.observed_at))) [
    | inl old ↦ Acquires.refused_stale entry e (ground arith) (ground arith)
    | inr young ↦ elim (Bool-cases entry.draining) [
      | inl d ↦ Acquires.refused_draining entry e (ground arith) d (ground arith)
      | inr d ↦ elim (Bool-cases (Registry.is_full entry)) [
        | inl full ↦
            let (max, limit, over) = full_max entry full in
            Acquires.refused_full entry max e (ground arith) d limit over (ground arith)
        | inr free ↦
            Acquires.granted entry (record entry { in_flight_jobs = entry.in_flight_jobs + 1 }) e
              (ground arith) d refl (free-Within entry free) (ground arith)
      ]
    ]
  ]
]

pub acquire-slots :
    (clock : Types.Clock) (r : Types.WorkerRegistry) (id : String) (snapshot : Types.WorkerSnapshot)
    → slots_of r id + 1 < 18446744073709551616
    → (Registry.try_acquire_slot clock r id).1 ≡ Types.AcquireWorkerSlotResult.acquired snapshot
    → (k : String)
    → slots_of (Registry.try_acquire_slot clock r id).0 k
      ≡ slots_of r k + (if id == k then 1 else 0)
acquire-slots clock r id snapshot room won k = elim (try_acquire_slot-Acquires clock r id room) [
  | Acquires.granted entry entry' e young d same free out ↦
      rw out (ground (arith, get-insert id k entry' r.workers, string_beq_iff id k, e, same))
  | Acquires.refused_stale entry e old out ↦ absurd (cc (out, won))
  | Acquires.refused_draining entry e young d out ↦ absurd (cc (out, won))
  | Acquires.refused_full entry max e young d limit over out ↦ absurd (cc (out, won))
  | Acquires.unknown e out ↦ absurd (cc (out, won))
]

pub release-slots :
    (clock : Types.Clock) (r : Types.WorkerRegistry) (id k : String)
    → slots_of (Registry.release_slot clock r id).0 k ≡ slots_of r k - (if id == k then 1 else 0)
unfolding Registry.release_slot
release-slots clock r id k = elim (Option-cases (get id r.workers)) [
  | inl e ↦ ground (arith, string_beq_iff id k)
  | inr (entry, e) ↦ ground (
    arith,
    get-insert id k (record entry { in_flight_jobs = entry.in_flight_jobs - 1 }) r.workers,
    string_beq_iff id k,
  )
]

-- A change of an entry that keeps its count.
update-slots :
    (clock : Types.Clock) (r : Types.WorkerRegistry) (id k : String)
    (f : Types.WorkerEntry → Types.WorkerEntry)
    → ((entry : Types.WorkerEntry) → (f entry).in_flight_jobs ≡ entry.in_flight_jobs)
    → slots_of (Registry.update_entry clock r id f).0 k ≡ slots_of r k
update-slots clock r id k f keeps = elim (Option-cases (get id r.workers)) [
  | inl e ↦ ground arith
  | inr (entry, e) ↦
      ground (arith, keeps entry, get-insert id k (f entry) r.workers, string_beq_iff id k)
]

register-slots :
    (clock : Types.Clock) (r : Types.WorkerRegistry) (request : Types.RegisterWorkerRequest)
    (k : String)
    → WorkersIsValid r
    → slots_of (Registry.register clock r request).0 k ≡ slots_of r k
unfolding Registry.register Registry.merge_existing
register-slots clock r request k v = elim (Result-cases (Registry.validate_worker clock request)) [
  | inr (message, e) ↦ rw (e, Registry.register) refl
  | inl (fresh, e) ↦
      let entry = Registry.merge_existing clock (get fresh.id r.workers) fresh in
      rw (e, Registry.register)
        (ground (arith, get-insert entry.id k entry r.workers, string_beq_iff entry.id k))
]

deregister-slots :
    (clock : Types.Clock) (r : Types.WorkerRegistry) (id k : String)
    → slots_of (Registry.deregister clock r id).0 k ≡ slots_of r k
unfolding Registry.deregister
deregister-slots clock r id k = elim (Option-cases (get id r.workers)) [
  | inl e ↦ ground arith
  | inr (entry, e) ↦ ground (
    arith,
    get-insert id k (record entry { draining = true }) r.workers,
    get-remove id k r.workers,
    string_beq_iff id k,
  )
]

-- The requests about workers that move no job.
pub data IsAdmin : WorkerCall → Type 0 where
  register : (request : Types.RegisterWorkerRequest) → IsAdmin (WorkerCall.register request)
  heartbeat : (id : String) → IsAdmin (WorkerCall.heartbeat id)
  drain : (id : String) → IsAdmin (WorkerCall.drain id)
  reactivate : (id : String) → IsAdmin (WorkerCall.reactivate id)
  deregister : (id : String) → IsAdmin (WorkerCall.deregister id)

-- Registering a worker, a heartbeat, draining, reactivating and deregistering change no worker's
-- number of slots in use: a worker that registers again keeps its slots, and only one with no slot in
-- use is removed. The registry is valid.
pub admin-slots :
    (clock : Types.Clock) (r : Types.WorkerRegistry) (call : WorkerCall) (k : String)
    → WorkersIsValid r
    → IsAdmin call
    → slots_of (after_worker clock r call) k ≡ slots_of r k
unfolding after_worker Registry.heartbeat Registry.drain Registry.reactivate
admin-slots clock r _ k v (IsAdmin.register request) = register-slots clock r request k v
admin-slots clock r _ k v (IsAdmin.heartbeat id) = update-slots clock r id k _ (λ entry. refl)
admin-slots clock r _ k v (IsAdmin.drain id) = update-slots clock r id k _ (λ entry. refl)
admin-slots clock r _ k v (IsAdmin.reactivate id) = update-slots clock r id k _ (λ entry. refl)
admin-slots clock r _ k v (IsAdmin.deregister id) = deregister-slots clock r id k
