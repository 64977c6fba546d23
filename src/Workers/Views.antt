-- ===== src/Workers/Views.antt =====
-- src/workers.rs: the lists and counts that clients and metrics read.
use fairlead.Base.{
  Bool, ℕ, ◌+◌, String, Option, List, [], ◌∷◌, map, ◌==◌, ◌&&◌, not, string_eq, leb, lex_le,
  sort_by, if◌then◌else◌,
}
use fairlead.Base.Maps.{values}
use fairlead.Base.Text.{text_le}
use fairlead.Jobs.Types.{JobKind, kind_str}
use fairlead.Workers.Types.{Clock, WorkerRegistry, WorkerSnapshot, snapshot_from_entry}

unfoldable pub can_accept_work : WorkerSnapshot → Bool
can_accept_work worker = not worker.stale && not worker.draining

unfoldable pub availability_status : WorkerSnapshot → String
availability_status worker =
    if worker.stale then "stale" else if worker.draining then "draining" else "available"

-- The workers in the order of their ids.
unfoldable pub list : Clock → WorkerRegistry → List WorkerSnapshot
list clock r =
    sort_by (λ a b. text_le a.id b.id)
      (map (snapshot_from_entry clock r.stale_after) (values r.workers))

unfoldable pub job_type_rank : String → ℕ
job_type_rank label =
    if label == "vision_analysis"
    then 0
    else if label == "embed_batch"
    then 1
    else if label == "index_build"
    then 2
    else if label == "cluster"
    then 3
    else 4

unfoldable pub status_rank : String → ℕ
status_rank label =
    if label == "available"
    then 0
    else if label == "draining"
    then 1
    else if label == "stale"
    then 2
    else 3

pub record WorkerAvailabilitySnapshot : Type 0 where
  pub job_type : String
  pub status : String
  pub count : ℕ

-- One worker more in the entry of its type and status, or a new entry at the end.
unfoldable pub count_available :
    String → String → List WorkerAvailabilitySnapshot → List WorkerAvailabilitySnapshot
count_available job_type status [] = record { job_type = job_type; status = status; count = 1 } ∷ []
count_available job_type status (s ∷ rest) =
    if (s.job_type == job_type) && (s.status == status)
    then record s { count = s.count + 1 } ∷ rest
    else s ∷ count_available job_type status rest

unfoldable pub count_types :
    String → List JobKind → List WorkerAvailabilitySnapshot → List WorkerAvailabilitySnapshot
unfolding count_available
count_types status [] acc = acc
count_types status (kind ∷ kinds) acc =
    count_types status kinds (count_available (kind_str kind) status acc)

unfoldable pub count_workers :
    List WorkerSnapshot → List WorkerAvailabilitySnapshot → List WorkerAvailabilitySnapshot
unfolding count_types availability_status
count_workers [] acc = acc
count_workers (worker ∷ rest) acc =
    count_workers rest (count_types (availability_status worker) worker.job_types acc)

abbrev pub availability_le : WorkerAvailabilitySnapshot → WorkerAvailabilitySnapshot → Bool
availability_le a b =
    lex_le (job_type_rank a.job_type) (job_type_rank b.job_type)
      (leb (status_rank a.status) (status_rank b.status))

unfoldable pub availability_snapshots : Clock → WorkerRegistry → List WorkerAvailabilitySnapshot
unfolding count_workers list job_type_rank status_rank
availability_snapshots clock r = sort_by availability_le (count_workers (list clock r) [])

pub record WorkerUtilizationSnapshot : Type 0 where
  pub worker_id : String
  pub node_id : Option String
  pub in_flight_jobs : ℕ
  pub max_concurrent_jobs : Option ℕ
  pub available_job_slots : Option ℕ

unfoldable pub utilization_of : WorkerSnapshot → WorkerUtilizationSnapshot
utilization_of worker = record {
  worker_id = worker.id;
  node_id = worker.node_id;
  in_flight_jobs = worker.in_flight_jobs;
  max_concurrent_jobs = worker.max_concurrent_jobs;
  available_job_slots = worker.available_job_slots;
}

unfoldable pub utilization_snapshots : Clock → WorkerRegistry → List WorkerUtilizationSnapshot
unfolding list utilization_of
utilization_snapshots clock r = map utilization_of (list clock r)
