-- ===== src/Jobs/Held.antt =====
-- src/jobs.rs: how many running jobs a worker holds a lease on, and what the operations do to it.
use fairlead.Base.{
  ℕ, ◌+◌, String, Option, none, some, List, [], ◌∷◌, ◌==◌, ◌≡◌, refl, ◌∙◌, inl, inr, count,
  count-append, string_eq, nat_eq, string_beq_iff, Bool-cases, Option-cases, ltb, if◌then◌else◌,
  arith,
}
use fairlead.Base.Maps.{get, insert, total, total-insert}
use fairlead.Jobs.Types.{JobRecord, JobRegistryInner, JobLease, running, status_eq}
use fairlead.Jobs.Callbacks.{prepare_callback}
use fairlead.Jobs.Expiry.{
  Sweep, timed_out_job, expire, sweep_one, sweep, start, empty_report,
  requeue_expired_leases_locked,
}

abbrev pub names : String → Option JobLease → ℕ
names w none = 0
names w (some lease) = if lease.worker_id == w then 1 else 0

module _ {V : Type 0} where
  -- 1 for a running job that is leased to `w`.
  abbrev pub held_by : String → JobRecord V → ℕ
  held_by w job = if job.status == running then names w job.lease else 0

  -- The running jobs that are leased to `w`.
  abbrev pub held : String → JobRegistryInner V → ℕ
  held w s = total (held_by w) s.jobs

  timed_out-idle :
      (now : ℕ) (w : String) (job : JobRecord V) → held_by w (timed_out_job now job) ≡ 0
  unfolding timed_out_job prepare_callback
  timed_out-idle now w job = ground arith

  -- A sweep carries the count over from the jobs to the list of released workers.
  abbrev carried : String → Sweep V → ℕ
  carried w x = held w x.inner + count w x.report.released_workers

  expire-carried :
      (now : ℕ) (w id : String) (job : JobRecord V) (lease : JobLease) (x : Sweep V)
      → get id x.inner.jobs ≡ some job
      → job.status ≡ running
      → job.lease ≡ some lease
      → carried w (expire now id job lease x) ≡ carried w x
  unfolding expire
  expire-carried now w id job lease x at on leased = ground (
    arith,
    total-insert (held_by w) id (timed_out_job now job) x.inner.jobs,
    timed_out-idle now w job,
    count-append w x.report.released_workers (lease.worker_id ∷ []),
    string_beq_iff lease.worker_id w,
    string_beq_iff w lease.worker_id,
  )

  sweep_one-carried :
      (now : ℕ) (w id : String) (x : Sweep V) → carried w (sweep_one now id x) ≡ carried w x
  unfolding sweep_one
  sweep_one-carried now w id x = elim (Option-cases (get id x.inner.jobs)) [
    | inl e ↦ ground arith
    | inr (job, e) ↦ elim (Bool-cases (job.status == running)) [
      | inr off ↦ ground arith
      | inl on ↦ elim (Option-cases job.lease) [
        | inl no_lease ↦ ground arith
        | inr (lease, leased) ↦ elim (Bool-cases (ltb now lease.expires_at_unix_ms)) [
          | inl early ↦ ground arith
          | inr late ↦
              rw (e, on, leased, late, sweep_one)
                (expire-carried now w id job lease x e (ground arith) leased)
        ]
      ]
    ]
  ]

  sweep-carried :
      (now : ℕ) (w : String) (ids : List String) (x : Sweep V)
      → carried w (sweep now ids x) ≡ carried w x
  unfolding sweep
  sweep-carried now w [] x = refl
  sweep-carried now w (id ∷ ids) x =
      sweep-carried now w ids (sweep_one now id x) ∙ sweep_one-carried now w id x

  -- The sweep for expired leases releases each worker as often as it takes a running job from it.
  pub requeue_expired-held :
      (now : ℕ) (w : String) (s : JobRegistryInner V)
      → (let (s', report) = requeue_expired_leases_locked now s in
          held w s' + count w report.released_workers ≡ held w s)
  unfolding requeue_expired_leases_locked start empty_report
  requeue_expired-held now w s = ground (arith, sweep-carried now w s.order (start s))

  -- A record that is replaced changes the count by what it and its successor hold.
  pub put-held :
      (w id : String) (job job' : JobRecord V) (s : JobRegistryInner V)
      → get id s.jobs ≡ some job
      → total (held_by w) (insert id job' s.jobs) + held_by w job ≡ held w s + held_by w job'
  put-held w id job job' s at = let both = total-insert (held_by w) id job' s.jobs in ground arith
