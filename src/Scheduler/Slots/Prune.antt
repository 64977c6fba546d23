-- ===== src/Scheduler/Slots/Prune.antt =====
-- src/jobs.rs, `prune_jobs`: pruning takes no slot and gives none back.
use fairlead.Base.{
  ℕ, true, String, List, [], ◌∷◌, ◌≡◌, refl, sym, ap, ◌∙◌, subst, All, inl, inr, arith,
}
use fairlead.Base.Maps.{Unique, remove, remove-Unique, total, total-remove}
use fairlead.Jobs.Types.{JobRecord, JobRegistryInner, JobRetentionPolicy, is_terminal}
use fairlead.Jobs.Prune
use fairlead.Jobs.Prune.{
  JobPruneReport, Removal, prune_terminal_jobs_locked, remove_all, remove_one, select,
}
use fairlead.Jobs.Valid.{IsValid}
use fairlead.Jobs.Valid.Prune.{
  Removable, prune_terminal-IsValid, remove_one-All, remove_one-jobs, select-Removable,
}
use fairlead.Jobs.Held.{held, held_by}
use fairlead.Scheduler.State.{AppState, Moment, now_ms, prune_jobs, prune_terminal_jobs}
use fairlead.Scheduler.Slots.{Balanced}
use fairlead.Scheduler.Slots.Sweep.{persist-memory}

module _ {V : Type 0} where
  -- A finished job holds no lease that counts.
  finished-held :
      (w : String) (job : JobRecord V) → is_terminal job.status ≡ true → held_by w job ≡ 0
  finished-held w job done = ground (arith, done)

  remove_one-held :
      (w : String) (s : JobRegistryInner V) (x : Removal)
      → Unique s.jobs
      → Removable s x
      → (held w (remove_one x s) ≡ held w s) × Unique (remove_one x s).jobs
  remove_one-held w s x u removable =
      let look = remove_one-jobs s x in
      elim removable [
        | inl gone ↦
            let same : (remove_one x s).jobs ≡ s.jobs = ground (arith, look, gone) in
            (ap (total (held_by w)) same, subst Unique (sym same) u)
        | inr (job, at, _, done) ↦
            let less : (remove_one x s).jobs ≡ remove x.0 s.jobs = ground (arith, look, at) in
            (
              ap (total (held_by w)) less
                  ∙ ground
                      (arith, total-remove (held_by w) x.0 s.jobs u, at, finished-held w job done),
              subst Unique (sym less) (remove-Unique x.0 s.jobs u),
            )
      ]

  remove_all-held :
      (w : String) (xs : List Removal) (s : JobRegistryInner V) (report : JobPruneReport)
      → Unique s.jobs
      → All (Removable s) xs
      → held w (remove_all xs s report).0 ≡ held w s
  unfolding remove_all
  remove_all-held w [] s report u h = refl
  remove_all-held w (x ∷ xs) s report u h =
      let one = remove_one-held w s x u h.0 in
      remove_all-held w xs (remove_one x s) _ one.1 (remove_one-All s x xs h.1) ∙ one.0

  prune-held :
      (now : ℕ) (policy : JobRetentionPolicy) (s : JobRegistryInner V) (w : String)
      → IsValid s
      → held w (prune_terminal_jobs_locked now policy s).0 ≡ held w s
  unfolding prune_terminal_jobs_locked
  prune-held now policy s w v =
      remove_all-held w (select now policy s s.order [] 0).0 s _ v.unique
        (select-Removable now policy s v)

  -- Pruning keeps the slots in step with the leases: it forgets only jobs that hold none.
  pub prune-Balanced : (at : Moment) (s : AppState V) → Balanced s → Balanced (prune_jobs at s).0
  unfolding prune_jobs prune_terminal_jobs Prune.prune_terminal_jobs
  prune-Balanced at s b =
      let now = now_ms at in
      let policy = s.jobs.retention_policy in
      let inner' = (prune_terminal_jobs_locked now policy s.jobs.inner).0 in
      let saved = persist-memory at.fault (record (s.jobs) { inner = inner' }) b.memory in
      record {
        memory = ap (λ p. p.0.store) saved ∙ b.memory;
        jobs =
            subst IsValid (sym (ap (λ p. p.0.inner) saved))
              (prune_terminal-IsValid now policy s.jobs.inner b.jobs);
        workers = b.workers;
        balanced = λ w. omega (
          arith,
          b.balanced w,
          prune-held now policy s.jobs.inner w b.jobs,
          ap (λ p. held w p.0.inner) saved,
        );
      }
