-- ===== src/Jobs/Views.antt =====
-- src/jobs.rs: what can be read from the registry without changing it.
use fairlead.Base.{
  Bool, ℕ, ◌+◌, String, Option, none, some, List, [], ◌∷◌, ◌==◌, ◌&&◌, string_eq, nat_eq, filter,
  flat_map, sort_by, lex_le, leb, if◌then◌else◌,
}
use fairlead.Base.Maps.{get}
use fairlead.Config.{Priority, realtime, batch, background, priority_str}
use fairlead.Jobs.Types.{JobRecord, JobRegistryInner, queued, status_eq, kind_str}
use fairlead.Jobs.Queues.{iter}
use fairlead.Jobs.Store.{JobRegistry}

-- `priority_rank`, `kind_rank`, `status_rank`: the place of a label in a report.
unfoldable pub priority_rank : String → ℕ
priority_rank label =
    if label == "realtime"
    then 0
    else if label == "batch"
    then 1
    else if label == "background"
    then 2
    else 3

unfoldable pub kind_rank : String → ℕ
kind_rank label =
    if label == "vision_analysis"
    then 0
    else if label == "embed_batch"
    then 1
    else if label == "index_build"
    then 2
    else if label == "cluster"
    then 3
    else 4

unfoldable pub status_rank : String → ℕ
status_rank label =
    if label == "queued"
    then 0
    else if label == "running"
    then 1
    else if label == "complete"
    then 2
    else if label == "failed"
    then 3
    else if label == "cancelled"
    then 4
    else 5

pub record JobQueueSnapshot : Type 0 where
  pub priority : String
  pub kind : String
  pub depth : ℕ

abbrev snapshot_le : JobQueueSnapshot → JobQueueSnapshot → Bool
snapshot_le a b =
    lex_le (priority_rank a.priority) (priority_rank b.priority)
      (leb (kind_rank a.kind) (kind_rank b.kind))

-- Adds a job to the entry of its group, or a new entry at the end.
unfoldable pub count_depth : String → String → List JobQueueSnapshot → List JobQueueSnapshot
count_depth priority kind [] = record { priority = priority; kind = kind; depth = 1 } ∷ []
count_depth priority kind (s ∷ rest) =
    if (s.priority == priority) && (s.kind == kind)
    then record s { depth = s.depth + 1 } ∷ rest
    else s ∷ count_depth priority kind rest

module _ {V : Type 0} where
  unfoldable pub get_job : JobRegistry V → String → Option (JobRecord V)
  get_job r id = get id r.inner.jobs

  -- The records of a list of ids; ids with no record are passed over.
  unfoldable pub listed : List String → JobRegistryInner V → List (JobRecord V)
  listed [] s = []
  listed (id ∷ ids) s =
      let rest = listed ids s in elim (get id s.jobs) [ none ↦ rest | some job ↦ job ∷ rest ]

  unfoldable pub list : JobRegistry V → List (JobRecord V)
  unfolding listed
  list r = listed r.inner.order r.inner

  abbrev pub is_queued : JobRecord V → Bool
  is_queued job = job.status == queued

  -- The queued jobs of one queue, in its order.
  abbrev pub queued_in : JobRegistryInner V → Priority × List String → List (JobRecord V)
  queued_in s pq = filter is_queued (listed pq.1 s)

  unfoldable pub queued_jobs_by_priority : JobRegistry V → List (JobRecord V)
  unfolding listed iter
  queued_jobs_by_priority r = flat_map (queued_in r.inner) (iter r.inner.queues)

  -- Counts the queued jobs of one queue.
  unfoldable pub count_queue :
      JobRegistryInner V → Priority → List String → List JobQueueSnapshot → List JobQueueSnapshot
  unfolding count_depth
  count_queue s p [] acc = acc
  count_queue s p (id ∷ ids) acc = count_queue s p ids (elim (get id s.jobs) [
    | none ↦ acc
    | some job ↦
        if job.status == queued then count_depth (priority_str p) (kind_str job.kind) acc else acc
  ])

  unfoldable pub queue_snapshots : JobRegistry V → List JobQueueSnapshot
  unfolding count_queue priority_rank kind_rank priority_str kind_str
  queue_snapshots r =
      let s = r.inner in
      let q = s.queues in
      sort_by snapshot_le (
        count_queue s background q.background
          (count_queue s batch q.batch (count_queue s realtime q.realtime [])))
