-- ===== src/Scheduler/Preview.antt =====
-- src/scheduler.rs: which job would go to which worker.
pub mod First
use fairlead.Base.{
  Bool, ℕ, Option, none, some, List, [], ◌∷◌, ◌≡◌, ◌&&◌, find, filter, length, contains, arith,
  Option-cases, ◌⊎◌, inl, inr, refl,
}
use fairlead.Base.Maps.{is_some}
use fairlead.Config.{WorkloadPoolPolicy, allows}
use fairlead.Jobs.Types.{JobRecord, kind_eq, kind_str}
use fairlead.Jobs.Store.{JobRegistry}
use fairlead.Jobs.Views.{queued_jobs_by_priority}
use fairlead.Workers.Types.{Clock, WorkerRegistry, WorkerSnapshot}
use fairlead.Workers.Views.{can_accept_work, list}

pub record SchedulerPreview (V : Type 0) : Type 0 where
  pub job : JobRecord V
  pub worker : WorkerSnapshot

module _ {V : Type 0} where
  -- The worker may be given the job.
  unfoldable pub is_candidate : WorkloadPoolPolicy → JobRecord V → WorkerSnapshot → Bool
  is_candidate policy job worker =
      can_accept_work worker
      && (contains worker.job_types job.kind && allows policy (kind_str job.kind) worker.pool)

  unfoldable pub preview_from_snapshots :
      List (JobRecord V) → List WorkerSnapshot → WorkloadPoolPolicy → Option (SchedulerPreview V)
  unfolding is_candidate
  preview_from_snapshots [] workers policy = none
  preview_from_snapshots (job ∷ jobs) workers policy =
      let rest = preview_from_snapshots jobs workers policy in
      elim (find (is_candidate policy job) workers) [
        | some worker ↦ some (record { job = job; worker = worker })
        | none ↦ rest
      ]

  unfoldable pub preview_next_assignment_with_policy :
      Clock → JobRegistry V → WorkerRegistry → WorkloadPoolPolicy → Option (SchedulerPreview V)
  unfolding preview_from_snapshots
  preview_next_assignment_with_policy clock jobs workers policy =
      preview_from_snapshots (queued_jobs_by_priority jobs) (list clock workers) policy

  unfoldable pub count_candidate_workers_for_job :
      List WorkerSnapshot → JobRecord V → WorkloadPoolPolicy → ℕ
  unfolding is_candidate
  count_candidate_workers_for_job workers job policy =
      length (filter (is_candidate policy job) workers)
