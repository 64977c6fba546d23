-- ===== src/Workers/Types.antt =====
-- src/workers.rs: a worker, how it is shown to clients, and the results of the operations.
use fairlead.Base.{Bool, ℕ, ◌-◌, ◌/◌, String, Option, none, some, List, [], leb, if◌then◌else◌}
use fairlead.Base.Maps.{HashMap}
use fairlead.Jobs.Types.{JobKind}

-- The two clocks when an operation runs: `SystemTime::now()` as nanoseconds after the epoch, and
-- `Instant::now()`. An operation reads them once here.
pub record Clock : Type 0 where
  pub system : ℕ
  pub monotonic : ℕ

pub record RegisterWorkerRequest : Type 0 where
  pub id : String
  pub endpoint_url : String
  pub node_id : Option String
  pub pool : String
  pub job_types : List JobKind
  pub max_concurrent_jobs : Option ℕ  -- usize
  pub available_vram_mb : Option ℕ

pub record WorkerEntry : Type 0 where
  pub id : String
  pub endpoint_url : String
  pub node_id : Option String
  pub pool : String
  pub job_types : List JobKind
  pub max_concurrent_jobs : Option ℕ
  pub available_vram_mb : Option ℕ
  pub in_flight_jobs : ℕ  -- usize, 64 bits
  pub draining : Bool
  pub registered_at : ℕ
  pub last_seen_at : ℕ
  pub observed_at : ℕ

-- `age` is in nanoseconds; the code shows it as `age_seconds`, a floating point number.
pub record WorkerSnapshot : Type 0 where
  pub id : String
  pub endpoint_url : String
  pub node_id : Option String
  pub pool : String
  pub job_types : List JobKind
  pub max_concurrent_jobs : Option ℕ
  pub available_vram_mb : Option ℕ
  pub in_flight_jobs : ℕ
  pub available_job_slots : Option ℕ
  pub registered_at_unix_ms : ℕ
  pub last_seen_unix_ms : ℕ
  pub age : ℕ
  pub stale : Bool
  pub draining : Bool

pub data AcquireWorkerSlotResult : Type 0 where
  acquired at_capacity draining stale : WorkerSnapshot → AcquireWorkerSlotResult
  not_found : AcquireWorkerSlotResult

pub data DeregisterWorkerResult : Type 0 where
  removed not_found : DeregisterWorkerResult
  draining : WorkerSnapshot → DeregisterWorkerResult

-- `WorkerRegistry` with what its lock guards.
pub record WorkerRegistry : Type 0 where
  pub workers : HashMap WorkerEntry
  pub stale_after : ℕ

-- `WorkerRegistry::new`, and its default of 30 seconds.
unfoldable pub new_workers : ℕ → WorkerRegistry
new_workers stale_after = record { workers = []; stale_after = stale_after }

unfoldable pub default_workers : WorkerRegistry
unfolding new_workers
default_workers = new_workers 30000000000

unfoldable pub unix_ms : ℕ → ℕ
unix_ms time = time / 1000000

-- The slots that are left, if the worker has a limit.
unfoldable pub available_slots : WorkerEntry → Option ℕ
available_slots entry = elim entry.max_concurrent_jobs [
  | none ↦ none
  | some max ↦ if entry.draining then some 0 else some (max - entry.in_flight_jobs)
]

unfoldable pub snapshot_from_entry : Clock → ℕ → WorkerEntry → WorkerSnapshot
unfolding available_slots unix_ms
snapshot_from_entry clock stale_after entry = record {
  id = entry.id;
  endpoint_url = entry.endpoint_url;
  node_id = entry.node_id;
  pool = entry.pool;
  job_types = entry.job_types;
  max_concurrent_jobs = entry.max_concurrent_jobs;
  available_vram_mb = entry.available_vram_mb;
  in_flight_jobs = entry.in_flight_jobs;
  available_job_slots = available_slots entry;
  registered_at_unix_ms = unix_ms entry.registered_at;
  last_seen_unix_ms = unix_ms entry.last_seen_at;
  age = clock.monotonic - entry.observed_at;
  stale = leb stale_after (clock.monotonic - entry.observed_at);
  draining = entry.draining;
}
