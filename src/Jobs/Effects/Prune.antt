-- ===== src/Jobs/Effects/Prune.antt =====
-- Pruning, seen from one job.
use fairlead.Base.{
  true, false, ℕ, ◌+◌, ◌-◌, ◌≤◌, String, Option, none, some, List, [], ◌∷◌, ◌≡◌, refl, sym, ◌∙◌, ap,
  inl, inr, length, length-append, All, All-append, arith,
}
use fairlead.Base.Maps.{get}
use fairlead.Jobs.Types.{JobRecord, JobRegistryInner, JobRetentionPolicy, is_terminal}
use fairlead.Jobs.Callbacks.{has_pending_callback}
use fairlead.Jobs.Prune.{
  JobPruneReport, Removal, removal, is_due, select, remove_one, remove_all, record_removed,
  prune_terminal_jobs_locked,
}
use fairlead.Jobs.Prune.Rule.{select-rule}
use fairlead.Jobs.Valid.{IsValid}
use fairlead.Jobs.Valid.Prune.{remove_one-look}

module _ {V : Type 0} (now : ℕ) (policy : JobRetentionPolicy) where
  -- A job that pruning may forget: finished, kept long enough, and with no callback to deliver.
  pub record MayForget (job : JobRecord V) : Type 0 where
    pub done : is_terminal job.status ≡ true
    pub old : policy.terminal_retention_ms ≤ now - job.updated_at_unix_ms
    pub told : has_pending_callback job ≡ false

  -- What pruning may have done to the record under one id.
  pub data Pruned (old new : Option (JobRecord V)) : Type 0 where
    kept : new ≡ old → Pruned old new
    forgotten : (job : JobRecord V) → old ≡ some job → MayForget job → new ≡ none → Pruned old new

  -- A removal names a job that may be forgotten.
  abbrev pub Chosen : JobRegistryInner V → Removal → Type 0
  Chosen s x = (job : JobRecord V) × (get x.0 s.jobs ≡ some job) × MayForget job

  select-Chosen :
      (s : JobRegistryInner V) → IsValid s → All (Chosen s) (select now policy s s.order [] 0).0
  unfolding is_due
  select-Chosen s v =
      select-rule now policy s (All (Chosen s))
        (λ id job at due free chosen room h.
          All-append (Chosen s) chosen (removal job ∷ []) h
            ((job, ap (λ k. get k s.jobs) (v.named id job at) ∙ at, ground arith), tt))
        s.order [] 0 tt

  -- At most `max_pruned_jobs` are chosen.
  select-length :
      (s : JobRegistryInner V)
      → length (select now policy s s.order [] 0).0 ≤ policy.max_pruned_jobs
  select-length s =
      select-rule now policy s (λ chosen. length chosen ≤ policy.max_pruned_jobs)
        (λ id job at due free chosen room h. omega (arith, length-append chosen (removal job ∷ [])))
        s.order [] 0 (omega arith)

  Pruned-same : {old mid new : Option (JobRecord V)} → new ≡ mid → Pruned old mid → Pruned old new
  Pruned-same e (kept f) = kept (e ∙ f)
  Pruned-same e (forgotten job at may gone) = forgotten job at may (e ∙ gone)

  -- A removal leaves a record as it was, or takes the one that was chosen.
  remove_one-Pruned :
      (s₀ s : JobRegistryInner V) (x : Removal) (k : String)
      → Chosen s₀ x
      → Pruned (get k s₀.jobs) (get k s.jobs)
      → Pruned (get k s₀.jobs) (get k (remove_one x s).jobs)
  remove_one-Pruned s₀ s x k (job, at, may) h = elim (remove_one-look s x k) [
    | inl (e, gone) ↦ forgotten job (ap (λ i. get i s₀.jobs) (sym e) ∙ at) may gone
    | inr same ↦ Pruned-same same h
  ]

  remove_all-Pruned :
      (xs : List Removal) (s₀ s : JobRegistryInner V) (report : JobPruneReport) (k : String)
      → All (Chosen s₀) xs
      → Pruned (get k s₀.jobs) (get k s.jobs)
      → Pruned (get k s₀.jobs) (get k (remove_all xs s report).0.jobs)
  unfolding remove_all
  remove_all-Pruned [] s₀ s report k c h = h
  remove_all-Pruned (x ∷ xs) s₀ s report k c h =
      remove_all-Pruned xs s₀ (remove_one x s) _ k c.1 (remove_one-Pruned s₀ s x k c.0 h)

  -- Each removal is counted.
  remove_all-removed :
      (xs : List Removal) (s : JobRegistryInner V) (report : JobPruneReport)
      → (remove_all xs s report).1.removed ≡ report.removed + length xs
  unfolding remove_all record_removed
  remove_all-removed [] s report = omega arith
  remove_all-removed (x ∷ xs) s report =
      omega (arith, remove_all-removed xs (remove_one x s) (record_removed x.2 report))

  -- Pruning a valid registry forgets only finished jobs that are older than the retention time and
  -- have no callback to deliver, and leaves every other record as it was. It forgets at most
  -- `max_pruned_jobs` jobs.
  pub prune_exact :
      (s : JobRegistryInner V)
      → IsValid s
      → (k : String)
      → Pruned (get k s.jobs) (get k (prune_terminal_jobs_locked now policy s).0.jobs)
        × ((prune_terminal_jobs_locked now policy s).1.removed ≤ policy.max_pruned_jobs)
  unfolding prune_terminal_jobs_locked
  prune_exact s v k = (
    remove_all-Pruned _ s s _ k (select-Chosen s v) (kept refl),
    omega (
      arith,
      select-length s,
      remove_all-removed (select now policy s s.order [] 0).0 s (record {
        removed = 0;
        retained_pending_callbacks = (select now policy s s.order [] 0).1;
        by_status = [];
      }),
    ),
  )
