-- ===== src/Jobs/Effects/Expiry.antt =====
-- The sweep over expired leases, seen from one job.
use fairlead.Base.{
  true, false, ℕ, ◌≤◌, String, Option, none, some, List, [], ◌∷◌, ◌≡◌, refl, sym, subst, ◌∙◌, ◌==◌,
  inl, inr, Bool-cases, Option-cases, string_eq, string_beq_iff, contains, count_zero, ltb, arith,
}
use fairlead.Base.Maps.{get, insert, get-insert}
use fairlead.Jobs.Types.{JobRecord, JobRegistryInner, JobLease, running, status_eq}
use fairlead.Jobs.Valid.{IsValid}
use fairlead.Jobs.Expiry.{
  Sweep, sweep, sweep_one, expire, start, timed_out_job, has_retry, requeue_expired_leases_locked,
}

module _ {V : Type 0} (now : ℕ) where
  -- A lease that has run out at `now`.
  pub record Expired (job : JobRecord V) : Type 0 where
    pub lease : JobLease
    pub on : job.status ≡ running
    pub held : job.lease ≡ some lease
    pub over : lease.expires_at_unix_ms ≤ now

  -- What a sweep may have done to the record under one id.
  pub data Swept (old new : Option (JobRecord V)) : Type 0 where
    kept : new ≡ old → Swept old new
    timed_out :
        (job : JobRecord V)
        → old ≡ some job
        → Expired job
        → new ≡ some (timed_out_job now job)
        → Swept old new

  timed_out_job-stopped : (job : JobRecord V) → ((timed_out_job now job).status == running) ≡ false
  unfolding timed_out_job
  timed_out_job-stopped job = ground arith

  expire-jobs :
      (id : String) (job : JobRecord V) (lease : JobLease) (w : Sweep V)
      → (expire now id job lease w).inner.jobs ≡ insert id (timed_out_job now job) w.inner.jobs
  unfolding expire
  expire-jobs id job lease w = elim (Bool-cases (has_retry job)) [
    | inl again ↦ rw (again, expire)
    | inr last ↦ rw (last, expire)
  ]

  expire-look :
      (id : String) (job : JobRecord V) (lease : JobLease) (w : Sweep V)
      → get id (expire now id job lease w).inner.jobs ≡ some (timed_out_job now job)
  expire-look id job lease w =
      rw (expire-jobs id job lease w) (
        ground (arith, get-insert id id (timed_out_job now job) w.inner.jobs, string_beq_iff id id))

  expire-Swept :
      (id : String) (job : JobRecord V) (w : Sweep V) (x : Expired job) (k : String)
      → get id w.inner.jobs ≡ some job
      → Swept (get k w.inner.jobs) (get k (expire now id job x.lease w).inner.jobs)
  expire-Swept id job w x k at =
      let look = get-insert id k (timed_out_job now job) w.inner.jobs in
      let jobs = expire-jobs id job x.lease w in
      elim (Bool-cases (id == k)) [
        | inl e ↦
            timed_out job (ground (arith, string_beq_iff id k)) x (rw jobs (ground (arith, look)))
        | inr e ↦ kept (rw jobs (ground (arith, look)))
      ]

  sweep_one-Swept :
      (id : String) (w : Sweep V) (k : String)
      → Swept (get k w.inner.jobs) (get k (sweep_one now id w).inner.jobs)
  unfolding sweep_one
  sweep_one-Swept id w k = elim (Option-cases (get id w.inner.jobs)) [
    | inl e ↦ kept (rw (e, sweep_one))
    | inr (job, at) ↦ elim (Bool-cases (job.status == running)) [
      | inr off ↦ kept (rw (at, off, sweep_one))
      | inl on ↦ elim (Option-cases job.lease) [
        | inl e ↦ kept (rw (at, on, e, sweep_one))
        | inr (lease, e) ↦ elim (Bool-cases (ltb now lease.expires_at_unix_ms)) [
          | inl early ↦ kept (rw (at, on, e, early, sweep_one))
          | inr late ↦
              rw (at, on, e, late, sweep_one)
                (expire-Swept id job w
                  (record { lease = lease; on = ground arith; held = e; over = ground arith }) k at)
        ]
      ]
    ]
  ]

  -- A job that has been timed out is not running, so it is not touched again.
  Swept-trans : (old mid new : Option (JobRecord V)) → Swept old mid → Swept mid new → Swept old new
  Swept-trans old mid new (kept e) (kept f) = kept (f ∙ e)
  Swept-trans old mid new (kept e) (timed_out job at x f) = timed_out job (sym e ∙ at) x f
  Swept-trans old mid new (timed_out job at x f) (kept e) = timed_out job at x (e ∙ f)
  Swept-trans old mid new (timed_out job at x f) (timed_out job' at' x' f') =
      absurd (ground (arith, timed_out_job-stopped job, x'.on))

  pub sweep-Swept :
      (ids : List String) (w : Sweep V) (k : String)
      → Swept (get k w.inner.jobs) (get k (sweep now ids w).inner.jobs)
  unfolding sweep
  sweep-Swept [] w k = kept refl
  sweep-Swept (id ∷ ids) w k =
      Swept-trans _ (get k (sweep_one now id w).inner.jobs) _ (sweep_one-Swept id w k)
        (sweep-Swept ids (sweep_one now id w) k)

  -- The record under an id has no lease that has run out.
  abbrev pub IsCurrent : Option (JobRecord V) → Type 0
  IsCurrent none = Unit
  IsCurrent (some job) = ¬ Expired job

  Swept-IsCurrent : (old new : Option (JobRecord V)) → Swept old new → IsCurrent old → IsCurrent new
  Swept-IsCurrent old new (kept e) c = subst (λ o. IsCurrent o) (sym e) c
  Swept-IsCurrent old new (timed_out job at x f) c =
      subst (λ o. IsCurrent o) (sym f)
        (λ y. absurd (ground (arith, timed_out_job-stopped job, y.on)))

  current :
      {o : Option (JobRecord V)} {job : JobRecord V} → o ≡ some job → ¬ Expired job → IsCurrent o
  current e c = subst (λ o. IsCurrent o) (sym e) c

  sweep_one-IsCurrent :
      (id : String) (w : Sweep V) → IsCurrent (get id (sweep_one now id w).inner.jobs)
  unfolding sweep_one
  sweep_one-IsCurrent id w = elim (Option-cases (get id w.inner.jobs)) [
    | inl e ↦ rw (e, sweep_one) (rw e tt)
    | inr (job, at) ↦ elim (Bool-cases (job.status == running)) [
      | inr off ↦ rw (at, off, sweep_one) (current at (λ x. ground (arith, x.on)))
      | inl on ↦ elim (Option-cases job.lease) [
        | inl e ↦ rw (at, on, e, sweep_one) (current at (λ x. ground (arith, x.held)))
        | inr (lease, e) ↦ elim (Bool-cases (ltb now lease.expires_at_unix_ms)) [
          | inl early ↦
              rw (at, on, e, early, sweep_one) (current at (λ x. ground (arith, x.held, x.over)))
          | inr late ↦
              rw (at, on, e, late, sweep_one)
                (current (expire-look id job lease w)
                  (λ x. ground (arith, timed_out_job-stopped job, x.on)))
        ]
      ]
    ]
  ]

  pub sweep-IsCurrent :
      (ids : List String) (w : Sweep V) (k : String)
      → contains ids k ≡ true
      → IsCurrent (get k (sweep now ids w).inner.jobs)
  unfolding sweep
  sweep-IsCurrent [] w k h = absurd (cc)
  sweep-IsCurrent (id ∷ ids) w k h = elim (Bool-cases (id == k)) [
    | inl e ↦ Swept-IsCurrent _ _ (sweep-Swept ids (sweep_one now id w) k) (
        subst (λ j. IsCurrent (get j (sweep_one now id w).inner.jobs)) ((string_beq_iff id k).0 e)
          (sweep_one-IsCurrent id w))
    | inr e ↦ sweep-IsCurrent ids (sweep_one now id w) k (ground arith)
  ]

  requeue_expired-Swept :
      (s : JobRegistryInner V) (k : String)
      → Swept (get k s.jobs) (get k (requeue_expired_leases_locked now s).0.jobs)
  unfolding requeue_expired_leases_locked start
  requeue_expired-Swept s k = sweep-Swept s.order (start s) k

  -- In a valid registry every job is in the order, so the sweep comes by it.
  requeue_expired-IsCurrent :
      (s : JobRegistryInner V)
      → IsValid s
      → (k : String) → IsCurrent (get k (requeue_expired_leases_locked now s).0.jobs)
  unfolding requeue_expired_leases_locked start
  requeue_expired-IsCurrent s v k = elim (Bool-cases (contains s.order k)) [
    | inl listed ↦ sweep-IsCurrent s.order (start s) k listed
    | inr out ↦
        let gone : get k s.jobs ≡ none = ground (arith, v.ordered_once k, count_zero k s.order) in
        Swept-IsCurrent _ _ (sweep-Swept s.order (start s) k) (rw gone tt)
  ]

  -- A sweep at `now` leaves every job as it was or times it out, which it does only to a running job
  -- whose lease has run out. After it no such job is left.
  pub requeue_expired_exact :
      (s : JobRegistryInner V)
      → IsValid s
      → (k : String)
      → Swept (get k s.jobs) (get k (requeue_expired_leases_locked now s).0.jobs)
        × IsCurrent (get k (requeue_expired_leases_locked now s).0.jobs)
  requeue_expired_exact s v k = (requeue_expired-Swept s k, requeue_expired-IsCurrent s v k)
