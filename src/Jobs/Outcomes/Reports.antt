-- ===== src/Jobs/Outcomes/Reports.antt =====
-- src/jobs.rs: the reports of workers on their attempts, spelled out.
use fairlead.Base.{
  true, false, ℕ, ◌≤◌, ◌<◌, String, Option, none, some, Eq, ◌==◌, ◌&&◌, ◌≡◌, ◌≢◌, ◌⊎◌, inl, inr,
  refl, sym, ap, ◌∙◌, subst, Option-cases, string_eq, nat_eq, string_beq_iff, nat_beq_iff,
  option_beq_iff, arith,
}
use fairlead.Base.Maps.{get, is_some}
use fairlead.Jobs.Types.{
  JobRecord, JobFailure, JobLease, queued, running, complete, JobStatus, status_eq, FinishJobResult,
}
use fairlead.Jobs.Store.{JobRegistry}
use fairlead.Jobs.Queues.{for_priority, push_back}
use fairlead.Jobs.Leases.{
  terminal_attempt_matches, reports_other, completed_job, complete_lease, requeued_job, failed_job,
  fail_lease,
}
use fairlead.Jobs.Effects.Reports.{
  Completes, Fails, failure_beq-same, InForce, Refused, complete_lease_exact, fail_lease_exact,
}
use fairlead.Jobs.Outcomes.{
  Joins, WritesTo, for-push_back, insert-WritesTo, owed, prepare_callback-owed,
}

-- The report does not name an attempt other than that of the lease.
abbrev pub Fits : Option ℕ → JobLease → Type 0
Fits attempt lease = (n : ℕ) → attempt ≡ some n → n ≡ lease.attempt

reports_other-Fits :
    (attempt : Option ℕ) (lease : JobLease)
    → reports_other attempt lease ≡ false
    → Fits attempt lease
reports_other-Fits none lease h n e = absurd (cc e)
reports_other-Fits (some m) lease h n e =
    let same : m ≡ n = cc e in ground (arith, same, nat_beq_iff m lease.attempt)

reports_other-names :
    (attempt : Option ℕ) (lease : JobLease)
    → reports_other attempt lease ≡ true
    → (n : ℕ) × (attempt ≡ some n) × (n ≢ lease.attempt)
reports_other-names none lease h = absurd (cc h)
reports_other-names (some m) lease h =
    (m, refl, λ same. ground (arith, h, same, nat_beq_iff m lease.attempt))

module _ {V : Type 0} where
  -- The report names the attempt that ended the job, and its worker.
  abbrev pub Ended : JobRecord V → String → Option ℕ → Type 0
  Ended job worker_id attempt =
      (n : ℕ) × (attempt ≡ some n)
      × (job.terminal_attempt ≡ some (record { worker_id = worker_id; attempt = n }))

  matches-Ended :
      (job : JobRecord V) (worker_id : String) (attempt : Option ℕ)
      → terminal_attempt_matches job worker_id attempt ≡ true
      → Ended job worker_id attempt
  unfolding terminal_attempt_matches
  matches-Ended job worker_id none h = absurd (cc h)
  matches-Ended job worker_id (some n) h = elim (Option-cases job.terminal_attempt) [
    | inl e ↦ absurd (ground arith)
    | inr (t, e) ↦
        let mine : t.worker_id ≡ worker_id = ground (arith, string_beq_iff t.worker_id worker_id) in
        let same : t.attempt ≡ n = ground (arith, nat_beq_iff t.attempt n) in
        (n, refl, e ∙ cc (mine, same))
  ]

  Ended-matches :
      (job : JobRecord V) (worker_id : String) (attempt : Option ℕ)
      → Ended job worker_id attempt
      → terminal_attempt_matches job worker_id attempt ≡ true
  unfolding terminal_attempt_matches
  Ended-matches job worker_id attempt (n, e, f) =
      rw (e, f, terminal_attempt_matches)
        (ground (arith, string_beq_iff worker_id worker_id, nat_beq_iff n n))

module _ {V : Type 0} (now : ℕ) (r : JobRegistry V) (id worker_id : String) (attempt : Option ℕ)
    (p : JobRegistry V × FinishJobResult V) where
  -- The reports that change nothing, but for one on a job that does not run.
  pub data Rejected : Type 0 where
    unknown : get id r.inner.jobs ≡ none → p ≡ (r, FinishJobResult.not_found) → Rejected
    not_held :
        (job : JobRecord V) (lease : JobLease)
        → get id r.inner.jobs ≡ some job
        → job.status ≡ running
        → job.lease ≡ some lease
        → (lease.worker_id ≢ worker_id) ⊎ ((n : ℕ) × (attempt ≡ some n) × (n ≢ lease.attempt))
        → p ≡ (r, FinishJobResult.lease_not_held job)
        → Rejected
    late :
        (job : JobRecord V) (lease : JobLease)
        → get id r.inner.jobs ≡ some job
        → job.status ≡ running
        → job.lease ≡ some lease
        → lease.worker_id ≡ worker_id
        → Fits attempt lease
        → lease.expires_at_unix_ms ≤ now
        → p ≡ (r, FinishJobResult.expired job)
        → Rejected

  -- The report is of the lease that is in force.
  pub record Holds (job : JobRecord V) (lease : JobLease) : Type 0 where
    pub at : get id r.inner.jobs ≡ some job
    pub on : job.status ≡ running
    pub held : job.lease ≡ some lease
    pub mine : lease.worker_id ≡ worker_id
    pub same : Fits attempt lease
    pub early : now < lease.expires_at_unix_ms

  pub data CompleteAnswer (result : V) : Type 0 where
    completed :
        (job : JobRecord V) (lease : JobLease) (job' : JobRecord V)
        → Holds job lease
        → job' ≡ record job {
          status = complete;
          result = some result;
          error = none;
          callback = owed job.callback_url job.callback;
          lease = none;
          terminal_attempt = some (record { worker_id = worker_id; attempt = lease.attempt });
          updated_at_unix_ms = now;
        }
        → WritesTo id job' r p.0
        → p.0.inner.queues ≡ r.inner.queues
        → p.1 ≡ FinishJobResult.completed job'
        → CompleteAnswer result
    repeated :
        (job : JobRecord V)
        → get id r.inner.jobs ≡ some job
        → job.status ≡ complete
        → Ended job worker_id attempt
        → job.result ≡ some result
        → p ≡ (r, FinishJobResult.idempotent_completed job)
        → CompleteAnswer result
    not_running :
        (job : JobRecord V)
        → get id r.inner.jobs ≡ some job
        → ((job.status == running) && is_some job.lease) ≡ false
        → ¬ ((job.status ≡ complete) × Ended job worker_id attempt × (job.result ≡ some result))
        → p ≡ (r, FinishJobResult.not_running job)
        → CompleteAnswer result
    rejected : Rejected → CompleteAnswer result

  pub data FailAnswer (failure : JobFailure) : Type 0 where
    requeued :
        (job : JobRecord V) (lease : JobLease) (job' : JobRecord V)
        → Holds job lease
        → failure.retryable ≡ true
        → job.attempts < job.max_attempts
        → job' ≡ record job {
          status = queued;
          result = none;
          error = some failure;
          lease = none;
          terminal_attempt = none;
          updated_at_unix_ms = now;
        }
        → WritesTo id job' r p.0
        → Joins job.priority job.id r.inner p.0.inner
        → p.1 ≡ FinishJobResult.requeued job'
        → FailAnswer failure
    failed :
        (job : JobRecord V) (lease : JobLease) (job' : JobRecord V)
        → Holds job lease
        → (failure.retryable ≡ false) ⊎ (job.max_attempts ≤ job.attempts)
        → job' ≡ record job {
          status = JobStatus.failed;
          result = none;
          error = some failure;
          callback = owed job.callback_url job.callback;
          lease = none;
          terminal_attempt = some (record { worker_id = worker_id; attempt = lease.attempt });
          updated_at_unix_ms = now;
        }
        → WritesTo id job' r p.0
        → p.0.inner.queues ≡ r.inner.queues
        → p.1 ≡ FinishJobResult.failed job'
        → FailAnswer failure
    repeated :
        (job : JobRecord V)
        → get id r.inner.jobs ≡ some job
        → job.status ≡ JobStatus.failed
        → Ended job worker_id attempt
        → job.error ≡ some failure
        → p ≡ (r, FinishJobResult.idempotent_failed job)
        → FailAnswer failure
    not_running :
        (job : JobRecord V)
        → get id r.inner.jobs ≡ some job
        → ((job.status == running) && is_some job.lease) ≡ false
        → ¬ (
            (job.status ≡ JobStatus.failed)
            × Ended job worker_id attempt
            × (job.error ≡ some failure))
        → p ≡ (r, FinishJobResult.not_running job)
        → FailAnswer failure
    rejected : Rejected → FailAnswer failure

module _ {V : Type 0} (fault : Option String) (now : ℕ) (r : JobRegistry V) (id worker_id : String)
    (attempt : Option ℕ) where
  Refused-Rejected :
      (p : JobRegistry V × FinishJobResult V)
      → Refused now r id worker_id attempt p
      → Rejected now r id worker_id attempt p
        ⊎ ((job : JobRecord V) × (get id r.inner.jobs ≡ some job)
            × (((job.status == running) && is_some job.lease) ≡ false)
            × (p ≡ (r, FinishJobResult.not_running job)))
  Refused-Rejected p (Refused.unknown e out) = inl (Rejected.unknown e out)
  Refused-Rejected p (Refused.not_running job at off out) = inr (job, at, off, out)
  Refused-Rejected p (Refused.not_held job lease at on held why out) = inl (
      Rejected.not_held job lease at on held
        (elim why [ inl x ↦ inl x | inr x ↦ inr (reports_other-names attempt lease x) ]) out)
  Refused-Rejected p (Refused.late job lease at on held mine same end out) =
      inl (Rejected.late job lease at on held mine (reports_other-Fits attempt lease same) end out)

  InForce-Holds :
      (p : JobRegistry V × FinishJobResult V) (job : JobRecord V) (lease : JobLease)
      → InForce now r id worker_id attempt p job lease
      → Holds now r id worker_id attempt p job lease
  InForce-Holds p job lease f = record {
    at = f.at;
    on = f.on;
    held = f.held;
    mine = f.mine;
    same = reports_other-Fits attempt lease f.same;
    early = f.early;
  }

  again-complete :
      ⦃q : Eq V⦄ (result : V) (job : JobRecord V)
      → get id r.inner.jobs ≡ some job
      → job.status ≡ complete
      → Ended job worker_id attempt
      → job.result ≡ some result
      → complete_lease fault now r id worker_id attempt result
        ≡ (r, FinishJobResult.idempotent_completed job)
  unfolding complete_lease terminal_attempt_matches
  again-complete ⦃q⦄ result job at done ended got =
      let twice = Ended-matches job worker_id attempt ended in
      let same = (option_beq_iff job.result (some result)).1 got in
      rw (at, done, twice, same, complete_lease) refl

  again-fail :
      (failure : JobFailure) (job : JobRecord V)
      → get id r.inner.jobs ≡ some job
      → job.status ≡ JobStatus.failed
      → Ended job worker_id attempt
      → job.error ≡ some failure
      → fail_lease fault now r id worker_id attempt failure
        ≡ (r, FinishJobResult.idempotent_failed job)
  unfolding fail_lease terminal_attempt_matches
  again-fail failure job at done ended got =
      let twice = Ended-matches job worker_id attempt ended in
      let same = (failure_beq-same failure failure).1 refl in
      rw (at, done, twice, got, same, fail_lease) refl

  -- How a completion report is answered. The report of the lease in force completes the job: the result
  -- is kept, the lease ends, the attempt is remembered, and the callback is owed. A report of the attempt
  -- that completed the job, with the same result, is recognised as repeated and changes nothing. Any other
  -- report changes nothing and names its reason: no such job, not running, not the holder of the lease or
  -- not its attempt, too late. The registry has no store.
  pub complete_lease_answered :
      ⦃q : Eq V⦄ (result : V)
      → r.store ≡ none
      → CompleteAnswer now r id worker_id attempt
          (complete_lease fault now r id worker_id attempt result)
          result
  unfolding completed_job
  complete_lease_answered ⦃q⦄ result mem =
      let p = complete_lease fault now r id worker_id attempt result in
      elim (complete_lease_exact fault now r id worker_id attempt result mem) [
        | Completes.accepted job lease force out ↦
            let job' = completed_job worker_id now result lease job in
            CompleteAnswer.completed job lease job' (InForce-Holds p job lease force)
              (prepare_callback-owed _ refl)
              (subst (λ x. WritesTo id job' r x.0) (sym out)
                (insert-WritesTo id job' r r.inner.queues))
              (ap (λ x. x.0.inner.queues) out) (ap (λ x. x.1) out)
        | Completes.repeated job at done twice same out ↦
            CompleteAnswer.repeated job at done (matches-Ended job worker_id attempt twice) same out
        | Completes.refused refused ↦ elim (Refused-Rejected p refused) [
          | inl why ↦ CompleteAnswer.rejected why
          | inr (job, at, off, out) ↦
              CompleteAnswer.not_running job at off
                (λ twice.
                  absurd (cc (sym out ∙ again-complete result job at twice.0 twice.1 twice.2)))
                out
        ]
      ]

  -- How a failure report is answered. A report of the lease in force puts the job back at the end of its
  -- queue if the failure is retryable and attempts are left, and ends the job otherwise. A report of the
  -- attempt that ended the job, with the same failure, is recognised as repeated and changes nothing. Any
  -- other report changes nothing and names its reason. The registry has no store.
  pub fail_lease_answered :
      (failure : JobFailure)
      → r.store ≡ none
      → FailAnswer now r id worker_id attempt
          (fail_lease fault now r id worker_id attempt failure)
          failure
  unfolding failed_job requeued_job
  fail_lease_answered failure mem =
      let p = fail_lease fault now r id worker_id attempt failure in
      elim (fail_lease_exact fault now r id worker_id attempt failure mem) [
        | Fails.again job lease force retry left out ↦
            let job' = requeued_job now failure job in
            FailAnswer.requeued job lease job' (InForce-Holds p job lease force) retry left refl
              (subst (λ x. WritesTo id job' r x.0) (sym out)
                (insert-WritesTo id job' r (push_back job.priority job.id r.inner.queues)))
              (λ queue.
                ap (λ x. for_priority queue x.0.inner.queues) out
                ∙ for-push_back job.priority queue job.id r.inner.queues)
              (ap (λ x. x.1) out)
        | Fails.ended job lease force last out ↦
            let job' = failed_job worker_id now failure lease job in
            FailAnswer.failed job lease job' (InForce-Holds p job lease force) last
              (prepare_callback-owed _ refl)
              (subst (λ x. WritesTo id job' r x.0) (sym out)
                (insert-WritesTo id job' r r.inner.queues))
              (ap (λ x. x.0.inner.queues) out) (ap (λ x. x.1) out)
        | Fails.repeated job at done twice same out ↦
            FailAnswer.repeated job at done (matches-Ended job worker_id attempt twice) same out
        | Fails.refused refused ↦ elim (Refused-Rejected p refused) [
          | inl why ↦ FailAnswer.rejected why
          | inr (job, at, off, out) ↦
              FailAnswer.not_running job at off
                (λ twice. absurd (cc (sym out ∙ again-fail failure job at twice.0 twice.1 twice.2)))
                out
        ]
      ]
