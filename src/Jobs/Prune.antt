-- ===== src/Jobs/Prune.antt =====
-- src/jobs.rs: `prune_terminal_jobs`, which forgets finished jobs after their retention time.
pub mod Rule
use fairlead.Base.{
  ℕ, ◌+◌, ◌-◌, String, Option, none, some, List, [], ◌∷◌, ◌++◌, Bool, false, ◌==◌, not, string_eq,
  filter, length, ltb, leb, sort_by, if◌then◌else◌,
}
use fairlead.Base.Maps.{get, remove, contains_key}
use fairlead.Config.{Priority}
use fairlead.Jobs.Types.{
  JobRecord, JobRegistryInner, JobStatus, JobRetentionPolicy, is_terminal, status_str,
}
use fairlead.Jobs.Queues
use fairlead.Jobs.Store.{JobRegistry, persist_locked}
use fairlead.Jobs.Callbacks.{has_pending_callback}
use fairlead.Jobs.Views.{status_rank}

pub record JobPruneStatusSnapshot : Type 0 where
  pub status : String
  pub removed : ℕ

pub record JobPruneReport : Type 0 where
  pub removed : ℕ
  pub retained_pending_callbacks : ℕ
  pub by_status : List JobPruneStatusSnapshot

-- One removal more in the entry of its status, or a new entry at the end.
unfoldable pub bump_status : String → List JobPruneStatusSnapshot → List JobPruneStatusSnapshot
bump_status label [] = record { status = label; removed = 1 } ∷ []
bump_status label (s ∷ rest) =
    if s.status == label
    then record s { removed = s.removed + 1 } ∷ rest
    else s ∷ bump_status label rest

unfoldable pub record_removed : JobStatus → JobPruneReport → JobPruneReport
unfolding bump_status
record_removed status report = record report {
  removed = report.removed + 1;
  by_status = bump_status (status_str status) report.by_status;
}

abbrev pub Removal : Type 0
Removal = String × Priority × JobStatus

abbrev pub removal : {V : Type 0} → JobRecord V → Removal
removal job = (job.id, job.priority, job.status)

module _ {V : Type 0} where
  -- Finished, and old enough at `now`.
  unfoldable pub is_due : ℕ → JobRetentionPolicy → JobRecord V → Bool
  is_due now policy job =
      if not (is_terminal job.status)
      then false
      else not (ltb (now - job.updated_at_unix_ms) policy.terminal_retention_ms)

  -- The loop over the order: the jobs to remove, oldest first, and how many wait for their callback.
  unfoldable pub select :
      ℕ
      → JobRetentionPolicy
      → JobRegistryInner V
      → List String
      → List Removal
      → ℕ
      → List Removal × ℕ
  select now policy s [] chosen waiting = (chosen, waiting)
  select now policy s (id ∷ ids) chosen waiting =
      let on = λ (c : List Removal) (n : ℕ). select now policy s ids c n in
      if leb policy.max_pruned_jobs (length chosen)
      then (chosen, waiting)
      else elim (get id s.jobs) [
        | none ↦ on chosen waiting
        | some job ↦
            if not (is_due now policy job)
            then on chosen waiting
            else if has_pending_callback job
            then on chosen (waiting + 1)
            else on (chosen ++ removal job ∷ []) waiting
      ]

  abbrev pub forget_key : Option String → JobRegistryInner V → JobRegistryInner V
  forget_key none s = s
  forget_key (some key) s = record s { idempotency_keys = remove key s.idempotency_keys }

  -- Takes one job out of the map, its key out of the keys, and its id out of the queue.
  unfoldable pub remove_one : Removal → JobRegistryInner V → JobRegistryInner V
  remove_one (id, priority, status) s = elim (get id s.jobs) [
    | none ↦ record s { queues = Queues.remove priority id s.queues }
    | some job ↦
        forget_key job.idempotency_key
          (record s { jobs = remove id s.jobs; queues = Queues.remove priority id s.queues })
  ]

  unfoldable pub remove_all :
      List Removal → JobRegistryInner V → JobPruneReport → JobRegistryInner V × JobPruneReport
  unfolding remove_one record_removed
  remove_all [] s report = (s, report)
  remove_all (x ∷ rest) s report = remove_all rest (remove_one x s) (record_removed x.2 report)

  abbrev pub retain_known : JobRegistryInner V → JobRegistryInner V
  retain_known s = record s { order = filter (contains_key s.jobs) s.order }

  unfoldable pub prune_terminal_jobs_locked :
      ℕ → JobRetentionPolicy → JobRegistryInner V → JobRegistryInner V × JobPruneReport
  unfolding select remove_all status_rank
  prune_terminal_jobs_locked now policy s =
      let (chosen, waiting) = select now policy s s.order [] 0 in
      let (s', report) =
        remove_all chosen s
          (record { removed = 0; retained_pending_callbacks = waiting; by_status = [] }) in
      (
        retain_known s',
        record report {
          by_status =
              sort_by (λ a b. leb (status_rank a.status) (status_rank b.status)) report.by_status;
        },
      )

  -- A fault of the store is passed over.
  unfoldable pub prune_terminal_jobs :
      Option String → ℕ → JobRegistry V → JobRegistry V × JobPruneReport
  prune_terminal_jobs fault now r =
      let (inner', report) = prune_terminal_jobs_locked now r.retention_policy r.inner in
      ((persist_locked fault (record r { inner = inner' })).0, report)
