-- ===== src/Scheduler/State.antt =====
-- What the handlers share, and what a request answers. Metrics are left out; a callback that is handed
-- to the dispatcher is reported by the id of its job.
use fairlead.Base.{Bool, ℕ, String, Option, List, [], ◌∷◌, map}
use fairlead.Config.{WorkloadPoolPolicy}
use fairlead.Jobs.Types.{JobRecord}
use fairlead.Jobs.Store.{JobRegistry}
use fairlead.Jobs.Prune
use fairlead.Jobs.Prune.{JobPruneReport}
use fairlead.Jobs.Expiry.{requeue_expired_leases}
use fairlead.Workers.Types.{Clock, WorkerRegistry, WorkerSnapshot, unix_ms}
use fairlead.Workers.Registry.{release_slot}

-- The part of `AppState` that these handlers use.
pub record AppState (V : Type 0) : Type 0 where
  pub jobs : JobRegistry V
  pub workers : WorkerRegistry
  pub workload_pools : WorkloadPoolPolicy
  pub strict_worker_pools : Bool
  pub worker_pool_ids : List String
  pub lease_duration_ms : ℕ

-- When a call runs, and what SQLite answers to its save.
pub record Moment : Type 0 where
  pub clock : Clock
  pub fault : Option String

abbrev pub now_ms : Moment → ℕ
now_ms at = unix_ms at.clock.system

pub data Response (V : Type 0) : Type 0 where
  job : ℕ → JobRecord V → Response V
  worker : ℕ → WorkerSnapshot → Response V
  text : ℕ → String → Response V
  no_content : Response V

-- The state after a request, its response, and the jobs whose callbacks were dispatched.
pub record Reply (V : Type 0) : Type 0 where
  pub state : AppState V
  pub response : Response V
  pub dispatched : List String

-- `state.workers.release_slot(id).await`, its result dropped.
unfoldable pub release : {V : Type 0} → Moment → String → AppState V → AppState V
release at id s = record s { workers = (release_slot at.clock s.workers id).0 }

unfoldable pub release_all : {V : Type 0} → Moment → List String → AppState V → AppState V
unfolding release
release_all at [] s = s
release_all at (id ∷ ids) s = release_all at ids (release at id s)

-- `sweep_expired_leases`: the state, and the callbacks that were dispatched.
unfoldable pub sweep_expired_leases : {V : Type 0} → Moment → AppState V → AppState V × List String
unfolding release_all
sweep_expired_leases at s =
    let (jobs', report) = requeue_expired_leases at.fault (now_ms at) s.jobs in
    (
      release_all at report.released_workers (record s { jobs = jobs' }),
      map (λ job. job.id) report.failed_jobs,
    )

-- `prune_terminal_jobs` of src/scheduler.rs: the pruning loop and the handler call it.
unfoldable pub prune_terminal_jobs :
    {V : Type 0} → Moment → AppState V → AppState V × JobPruneReport
prune_terminal_jobs at s =
    let (jobs', report) = Prune.prune_terminal_jobs at.fault (now_ms at) s.jobs in
    (record s { jobs = jobs' }, report)

-- `prune_jobs`, with the report as the body of its response.
unfoldable pub prune_jobs : {V : Type 0} → Moment → AppState V → AppState V × JobPruneReport
unfolding prune_terminal_jobs
prune_jobs at s = prune_terminal_jobs at s
