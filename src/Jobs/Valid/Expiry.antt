-- ===== src/Jobs/Valid/Expiry.antt =====
-- The sweep over expired leases keeps the registry valid, and queues a job again exactly once.
use fairlead.Base.{
  true, false, ℕ, String, some, List, [], ◌∷◌, ◌++◌, ◌≡◌, refl, ap, ◌∙◌, ◌==◌, inl, inr, Bool-cases,
  Option-cases, string_eq, contains-count, ltb, arith,
}
use fairlead.Base.Maps.{get}
use fairlead.Config.{Priority}
use fairlead.Jobs.Types.{JobRecord, JobRegistryInner, JobQueues, JobLease, running, status_eq}
use fairlead.Jobs.Queues.{for_priority, push_back}
use fairlead.Jobs.Expiry.{
  Sweep, sweep, sweep_one, expire, start, timed_out_job, has_retry, requeue_one, requeue_all,
  requeue_expired_leases_locked,
}
use fairlead.Jobs.Valid.{JobIsValid, IsValid}
use fairlead.Jobs.Valid.Replace.{Replaces, replaced, replaced-IsValid, fit_same, fit_push}

requeue_all-append :
    (xs : List (Priority × String)) (p : Priority) (id : String) (q : JobQueues)
    → requeue_all (xs ++ (p, id) ∷ []) q ≡ requeue_one p id (requeue_all xs q)
unfolding requeue_all
requeue_all-append [] p id q = refl
requeue_all-append ((r, i) ∷ xs) p id q = requeue_all-append xs p id (requeue_one r i q)

module _ {V : Type 0} where
  timed_out_job-JobIsValid :
      {job : JobRecord V} (now : ℕ)
      → JobIsValid job
      → job.status ≡ running
      → JobIsValid (timed_out_job now job)
  unfolding timed_out_job
  timed_out_job-JobIsValid now v h = ground arith

  -- What the sweep would leave if its loop ended here.
  abbrev pub finish : Sweep V → JobRegistryInner V
  finish w = record (w.inner) { queues = requeue_all w.requeued_jobs w.inner.queues }

  module _ (w : Sweep V) (v : IsValid (finish w)) (now : ℕ) (id : String) {job : JobRecord V}
      (at : get id w.inner.jobs ≡ some job) (on : job.status ≡ running) where
    abbrev later : JobRecord V
    later = timed_out_job now job

    same : Replaces job later
    unfolding timed_out_job
    same = ground arith

    -- A running job is in no queue, so it is pushed.
    requeue_one-push :
        requeue_one job.priority id (finish w).queues
        ≡ push_back later.priority later.id (finish w).queues
    unfolding requeue_one
    requeue_one-push = ground (
      arith,
      contains-count id (for_priority job.priority (finish w).queues),
      v.queued_once job.priority id,
      v.named id job at,
      same,
    )

    expire_again :
        (lease : JobLease)
        → has_retry job ≡ true
        → finish (expire now id job lease w)
          ≡ replaced (finish w) id later (push_back later.priority later.id (finish w).queues)
    unfolding expire
    expire_again lease h =
        rw (h, expire)
          (ap (replaced (finish w) id later)
            (requeue_all-append w.requeued_jobs job.priority id w.inner.queues ∙ requeue_one-push))

    expire_last :
        (lease : JobLease)
        → has_retry job ≡ false
        → finish (expire now id job lease w) ≡ replaced (finish w) id later (finish w).queues
    unfolding expire
    expire_last lease h = rw (h, expire)

    expire-IsValid : (lease : JobLease) → IsValid (finish (expire now id job lease w))
    unfolding timed_out_job
    expire-IsValid lease =
        let better = timed_out_job-JobIsValid now (v.valid id job at) on in
        elim (Bool-cases (has_retry job)) [
          | inl again ↦ rw (expire_again lease again) (
              replaced-IsValid v id at same better _
                (fit_push v id at same (ground arith) (ground arith)))
          | inr last ↦
              rw (expire_last lease last)
                (replaced-IsValid v id at same better _ (fit_same v id at same (λ p. ground arith)))
        ]

  sweep_one-IsValid :
      (now : ℕ) (id : String) (w : Sweep V)
      → IsValid (finish w)
      → IsValid (finish (sweep_one now id w))
  unfolding sweep_one
  sweep_one-IsValid now id w v = elim (Option-cases (get id w.inner.jobs)) [
    | inl e ↦ rw (e, sweep_one) v
    | inr (job, at) ↦ elim (Bool-cases (job.status == running)) [
      | inr off ↦ rw (at, off, sweep_one) v
      | inl on ↦ elim (Option-cases job.lease) [
        | inl e ↦ rw (at, on, e, sweep_one) v
        | inr (lease, e) ↦ elim (Bool-cases (ltb now lease.expires_at_unix_ms)) [
          | inl early ↦ rw (at, on, e, early, sweep_one) v
          | inr late ↦
              rw (at, on, e, late, sweep_one) (expire-IsValid w v now id at (ground arith) lease)
        ]
      ]
    ]
  ]

  sweep-IsValid :
      (now : ℕ) (ids : List String) (w : Sweep V)
      → IsValid (finish w)
      → IsValid (finish (sweep now ids w))
  unfolding sweep
  sweep-IsValid now [] w v = v
  sweep-IsValid now (id ∷ ids) w v = sweep-IsValid now ids _ (sweep_one-IsValid now id w v)

  pub requeue_expired-IsValid :
      (now : ℕ) (s : JobRegistryInner V)
      → IsValid s
      → IsValid (requeue_expired_leases_locked now s).0
  unfolding requeue_expired_leases_locked start
  requeue_expired-IsValid now s v = sweep-IsValid now s.order (start s) v
