-- ===== src/Workers/Registry.antt =====
-- src/workers.rs: the operations of `WorkerRegistry`.
use fairlead.Base.{
  Bool, true, false, ◌+◌, ◌-◌, String, Option, none, some, ◌==◌, ◌||◌, not, nat_eq, option_eq, leb,
  ltb, u64, Result, ok, err, is_empty, if◌then◌else◌,
}
use fairlead.Base.Maps.{get, insert, remove}
use fairlead.Base.Text.{trim, text_is_empty, starts_with}
use fairlead.Workers.Types

-- `node_id.map(trim).filter(|value| !value.is_empty())`
abbrev pub normalize_node_id : Option String → Option String
normalize_node_id none = none
normalize_node_id (some value) =
    let trimmed = trim value in if text_is_empty trimmed then none else some trimmed

-- The entry that a valid request describes.
abbrev pub fresh_entry : Types.Clock → Types.RegisterWorkerRequest → Types.WorkerEntry
fresh_entry clock request = record {
  id = trim request.id;
  endpoint_url = trim request.endpoint_url;
  node_id = normalize_node_id request.node_id;
  pool = trim request.pool;
  job_types = request.job_types;
  max_concurrent_jobs = request.max_concurrent_jobs;
  available_vram_mb = request.available_vram_mb;
  in_flight_jobs = 0;
  draining = false;
  registered_at = clock.system;
  last_seen_at = clock.system;
  observed_at = clock.monotonic;
}

unfoldable pub validate_worker :
    Types.Clock → Types.RegisterWorkerRequest → Result String Types.WorkerEntry
validate_worker clock request =
    let endpoint_url = trim request.endpoint_url in
    if text_is_empty (trim request.id)
    then err "worker id cannot be empty"
    else if text_is_empty endpoint_url
    then err "endpoint_url cannot be empty"
    else if not (starts_with "http://" endpoint_url || starts_with "https://" endpoint_url)
    then err "endpoint_url must start with http:// or https://"
    else if is_empty request.job_types
    then err "worker must support at least one job type"
    else if request.max_concurrent_jobs == some 0
    then err "max_concurrent_jobs must be greater than zero"
    else if text_is_empty (trim request.pool)
    then err "worker pool cannot be empty"
    else ok (fresh_entry clock request)

-- The map with one entry written.
abbrev pub put_worker : Types.WorkerRegistry → String → Types.WorkerEntry → Types.WorkerRegistry
put_worker r id entry = record r { workers = insert id entry r.workers }

-- A worker that registers again keeps its slots, its drain flag and the time of its first arrival.
unfoldable pub merge_existing :
    Types.Clock → Option Types.WorkerEntry → Types.WorkerEntry → Types.WorkerEntry
merge_existing clock none entry = record entry {
  registered_at = clock.system;
  in_flight_jobs = 0;
  draining = false;
  last_seen_at = clock.system;
  observed_at = clock.monotonic;
}
merge_existing clock (some existing) entry = record entry {
  registered_at = existing.registered_at;
  in_flight_jobs = existing.in_flight_jobs;
  draining = existing.draining;
  last_seen_at = clock.system;
  observed_at = clock.monotonic;
}

unfoldable pub register :
    Types.Clock
    → Types.WorkerRegistry
    → Types.RegisterWorkerRequest
    → Types.WorkerRegistry × Result String Types.WorkerSnapshot
unfolding validate_worker merge_existing
register clock r request = elim (validate_worker clock request) [
  | err message ↦ (r, err message)
  | ok fresh ↦
      let entry = merge_existing clock (get fresh.id r.workers) fresh in
      (put_worker r entry.id entry, ok (Types.snapshot_from_entry clock r.stale_after entry))
]

-- A change of the entry at `id`, and its snapshot after it.
abbrev pub update_entry :
    Types.Clock
    → Types.WorkerRegistry
    → String
    → (Types.WorkerEntry → Types.WorkerEntry)
    → Types.WorkerRegistry × Option Types.WorkerSnapshot
update_entry clock r id f = elim (get id r.workers) [
  | none ↦ (r, none)
  | some entry ↦
      (put_worker r id (f entry), some (Types.snapshot_from_entry clock r.stale_after (f entry)))
]

abbrev pub seen : Types.Clock → Types.WorkerEntry → Types.WorkerEntry
seen clock entry = record entry { last_seen_at = clock.system; observed_at = clock.monotonic }

unfoldable pub heartbeat :
    Types.Clock → Types.WorkerRegistry → String → Types.WorkerRegistry × Option Types.WorkerSnapshot
heartbeat clock r id = update_entry clock r id (seen clock)

unfoldable pub get_worker :
    Types.Clock → Types.WorkerRegistry → String → Option Types.WorkerSnapshot
get_worker clock r id = elim (get id r.workers) [
  | none ↦ none
  | some entry ↦ some (Types.snapshot_from_entry clock r.stale_after entry)
]

abbrev pub is_full : Types.WorkerEntry → Bool
is_full entry = elim entry.max_concurrent_jobs [
  | none ↦ false
  | some max ↦ leb max entry.in_flight_jobs
]

unfoldable pub try_acquire_slot :
    Types.Clock
    → Types.WorkerRegistry
    → String
    → Types.WorkerRegistry × Types.AcquireWorkerSlotResult
try_acquire_slot clock r id = elim (get id r.workers) [
  | none ↦ (r, Types.AcquireWorkerSlotResult.not_found)
  | some entry ↦
      let snapshot = Types.snapshot_from_entry clock r.stale_after entry in
      if snapshot.stale
      then (r, Types.AcquireWorkerSlotResult.stale snapshot)
      else if entry.draining
      then (r, Types.AcquireWorkerSlotResult.draining snapshot)
      else if is_full entry
      then (r, Types.AcquireWorkerSlotResult.at_capacity snapshot)
      else let entry' = record entry { in_flight_jobs = u64 (entry.in_flight_jobs + 1) } in
        (
          put_worker r id entry',
          Types.AcquireWorkerSlotResult.acquired
              (Types.snapshot_from_entry clock r.stale_after entry'),
        )
]

-- `saturating_sub(1)`
unfoldable pub release_slot :
    Types.Clock → Types.WorkerRegistry → String → Types.WorkerRegistry × Option Types.WorkerSnapshot
release_slot clock r id =
    update_entry clock r id (λ entry. record entry { in_flight_jobs = entry.in_flight_jobs - 1 })

unfoldable pub drain :
    Types.Clock → Types.WorkerRegistry → String → Types.WorkerRegistry × Option Types.WorkerSnapshot
drain clock r id = update_entry clock r id (λ entry. record entry { draining = true })

unfoldable pub reactivate :
    Types.Clock → Types.WorkerRegistry → String → Types.WorkerRegistry × Option Types.WorkerSnapshot
reactivate clock r id =
    update_entry clock r id (λ entry. record (seen clock entry) { draining = false })

-- A worker that still has jobs is drained instead.
unfoldable pub deregister :
    Types.Clock
    → Types.WorkerRegistry
    → String
    → Types.WorkerRegistry × Types.DeregisterWorkerResult
deregister clock r id = elim (get id r.workers) [
  | none ↦ (r, Types.DeregisterWorkerResult.not_found)
  | some entry ↦
      if ltb 0 entry.in_flight_jobs
      then (let entry' = record entry { draining = true } in
          (
            put_worker r id entry',
            Types.DeregisterWorkerResult.draining
                (Types.snapshot_from_entry clock r.stale_after entry'),
          ))
      else (record r { workers = remove id r.workers }, Types.DeregisterWorkerResult.removed)
]
