-- ===== src/Scheduler/Preview/First.antt =====
-- src/scheduler.rs: the preview is the first assignment in the order of the jobs and of the workers.
use fairlead.Base.{
  true, false, Option, none, some, List, [], ◌∷◌, ◌++◌, ◌≡◌, refl, sym, ap, ◌∙◌, subst, All,
  contains, find, string_eq, Bool-cases, Option-cases, inl, inr, arith,
}
use fairlead.Config.{WorkloadPoolPolicy}
use fairlead.Config.InPools.{InPools, InPools-allows, allows-InPools}
use fairlead.Jobs.Types.{JobRecord, kind_eq, kind_str}
use fairlead.Workers.Types.{WorkerSnapshot}
use fairlead.Workers.Views.{can_accept_work}
use fairlead.Scheduler.Preview.{SchedulerPreview, is_candidate, preview_from_snapshots}

module _ {V : Type 0} (policy : WorkloadPoolPolicy) where
  -- The worker may be given the job: it is neither stale nor draining, serves the kind of the job, and is
  -- in a pool that the policy allows.
  pub record MayGet (job : JobRecord V) (worker : WorkerSnapshot) : Type 0 where
    pub alive : worker.stale ≡ false
    pub open_ : worker.draining ≡ false
    pub kind : contains worker.job_types job.kind ≡ true
    pub in_pool : InPools policy (kind_str job.kind) worker.pool

  is_candidate-MayGet :
      (job : JobRecord V) (worker : WorkerSnapshot)
      → is_candidate policy job worker ≡ true
      → MayGet job worker
  unfolding is_candidate can_accept_work
  is_candidate-MayGet job worker h = record {
    alive = ground (arith, h);
    open_ = ground (arith, h);
    kind = ground (arith, h);
    in_pool = allows-InPools policy (kind_str job.kind) worker.pool (ground (arith, h));
  }

  MayGet-is_candidate :
      (job : JobRecord V) (worker : WorkerSnapshot)
      → MayGet job worker
      → is_candidate policy job worker ≡ true
  unfolding is_candidate can_accept_work
  MayGet-is_candidate job worker m = ground (
    arith,
    m.alive,
    m.open_,
    m.kind,
    InPools-allows policy (kind_str job.kind) worker.pool m.in_pool,
  )

  -- The first worker on the list that may be given the job, if there is one.
  pub data FirstWorker (job : JobRecord V) (workers : List WorkerSnapshot)
      : Option WorkerSnapshot → Type 0 where
    nobody : All (λ w. ¬ MayGet job w) workers → FirstWorker job workers none
    somebody :
        (before after : List WorkerSnapshot) (worker : WorkerSnapshot)
        → workers ≡ before ++ worker ∷ after
        → All (λ w. ¬ MayGet job w) before
        → MayGet job worker
        → FirstWorker job workers (some worker)

  FirstWorker-cons :
      (job : JobRecord V) (w : WorkerSnapshot) (ws : List WorkerSnapshot)
      (o : Option WorkerSnapshot)
      → ¬ MayGet job w
      → FirstWorker job ws o
      → FirstWorker job (w ∷ ws) o
  FirstWorker-cons job w ws _ no_ (FirstWorker.nobody all) = FirstWorker.nobody (no_, all)
  FirstWorker-cons job w ws _ no_ (FirstWorker.somebody before after worker e all m) =
      FirstWorker.somebody (w ∷ before) after worker (ap (λ xs. w ∷ xs) e) (no_, all) m

  find-FirstWorker :
      (job : JobRecord V) (workers : List WorkerSnapshot)
      → FirstWorker job workers (find (is_candidate policy job) workers)
  find-FirstWorker job [] = FirstWorker.nobody tt
  find-FirstWorker job (w ∷ ws) =
      let rest = find-FirstWorker job ws in
      let test = is_candidate policy job in
      elim (Bool-cases (test w)) [
        | inl y ↦
            let found : find test (w ∷ ws) ≡ some w = ground (arith, y) in
            subst (FirstWorker job (w ∷ ws)) (sym found)
              (FirstWorker.somebody [] ws w refl tt (is_candidate-MayGet job w y))
        | inr n ↦
            let skip : find test (w ∷ ws) ≡ find test ws = ground (arith, n) in
            subst (FirstWorker job (w ∷ ws)) (sym skip) (
              FirstWorker-cons job w ws _ (λ m. absurd (cc (sym n ∙ MayGet-is_candidate job w m)))
                rest)
      ]

  pub data Previews (jobs : List (JobRecord V)) (workers : List WorkerSnapshot)
      : Option (SchedulerPreview V) → Type 0 where
    nothing : All (λ job. All (λ w. ¬ MayGet job w) workers) jobs → Previews jobs workers none
    assigned :
        (before after : List (JobRecord V)) (job : JobRecord V) (worker : WorkerSnapshot)
        → jobs ≡ before ++ job ∷ after
        → All (λ x. All (λ w. ¬ MayGet x w) workers) before
        → FirstWorker job workers (some worker)
        → Previews jobs workers (some (record { job = job; worker = worker }))

  Previews-cons :
      (job : JobRecord V) (jobs : List (JobRecord V)) (workers : List WorkerSnapshot)
      (o : Option (SchedulerPreview V))
      → All (λ w. ¬ MayGet job w) workers
      → Previews jobs workers o
      → Previews (job ∷ jobs) workers o
  Previews-cons job jobs workers _ none_ (Previews.nothing all) = Previews.nothing (none_, all)
  Previews-cons job jobs workers _ none_ (Previews.assigned before after x worker e all first) =
      Previews.assigned (job ∷ before) after x worker (ap (λ xs. job ∷ xs) e) (none_, all) first

  nobody-All :
      (job : JobRecord V) (workers : List WorkerSnapshot) (o : Option WorkerSnapshot)
      → o ≡ none
      → FirstWorker job workers o
      → All (λ w. ¬ MayGet job w) workers
  nobody-All job workers _ e (FirstWorker.nobody all) = all
  nobody-All job workers _ e (FirstWorker.somebody before after worker f all m) = absurd (cc e)

  -- The preview is the first job, in the given order, that some worker may be given, with the first such
  -- worker: a worker that is neither stale nor draining, serves the kind of the job, and is in a pool that
  -- the policy allows. There is no preview only if no job has such a worker.
  pub preview-Previews :
      (jobs : List (JobRecord V)) (workers : List WorkerSnapshot)
      → Previews jobs workers (preview_from_snapshots jobs workers policy)
  unfolding preview_from_snapshots
  preview-Previews [] workers = Previews.nothing tt
  preview-Previews (job ∷ jobs) workers =
      let first = find-FirstWorker job workers in
      let rest = preview-Previews jobs workers in
      elim (Option-cases (find (is_candidate policy job) workers)) [
        | inr (worker, e) ↦
            let out : preview_from_snapshots (job ∷ jobs) workers policy
                ≡ some (record { job = job; worker = worker }) =
              rw (e, preview_from_snapshots) refl in
            subst (Previews (job ∷ jobs) workers) (sym out) (
              Previews.assigned [] jobs job worker refl tt
                (subst (FirstWorker job workers) e first))
        | inl e ↦
            let out : preview_from_snapshots (job ∷ jobs) workers policy
                ≡ preview_from_snapshots jobs workers policy =
              rw (e, preview_from_snapshots) refl in
            subst (Previews (job ∷ jobs) workers) (sym out)
              (Previews-cons job jobs workers _ (nobody-All job workers _ e first) rest)
      ]
