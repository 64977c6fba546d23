-- ===== src/Jobs/Effects/Reports.antt =====
-- src/jobs.rs: how a worker's report on an attempt is answered, in a registry without a store.
use fairlead.Base.{
  Bool, ap, ◌↔◌, true, false, ℕ, ◌≤◌, ◌<◌, String, Option, none, some, Eq, ◌==◌, ◌&&◌, ◌≡◌, ◌≢◌,
  ◌⊎◌, inl, inr, refl, Bool-cases, Option-cases, string_eq, string_beq_iff, option_beq,
  option_beq_iff, ltb, leb, arith,
}
use fairlead.Base.Maps.{get, is_some, is_some-some}
use fairlead.Jobs.Types.{
  JobRecord, JobFailure, JobLease, running, complete, failed, status_eq, failure_beq,
  FinishJobResult,
}
use fairlead.Jobs.Store.{JobRegistry, settle_memory, put_job}
use fairlead.Jobs.Leases.{
  terminal_attempt_matches, held_refusal, reports_other, completed_job, complete_held,
  complete_lease, requeued_job, requeue_as, failed_job, fail_held, fail_lease,
}

pub failure_beq-same : (a b : JobFailure) → (failure_beq a b ≡ true) ↔ (a ≡ b)
failure_beq-same a b = (
  (λ h.
      let text : a.message ≡ b.message = ground (arith, string_beq_iff a.message b.message) in
      let again : a.retryable ≡ b.retryable = ground arith in cc (text, again)),
  (λ h. rw h (ground (arith, string_beq_iff b.message b.message))),
)

error_same :
    (error : Option JobFailure) (failure : JobFailure)
    → elim error as (λ x. Bool) [ none ↦ false | some e ↦ failure_beq e failure ] ≡ true
    → error ≡ some failure
error_same none failure h = absurd (cc h)
error_same (some e) failure h = ap some ((failure_beq-same e failure).0 h)

module _ {V : Type 0} (now : ℕ) (r : JobRegistry V) (id worker_id : String) (attempt : Option ℕ)
    (p : JobRegistry V × FinishJobResult V) where
  -- The reports that change nothing, and why.
  pub data Refused : Type 0 where
    unknown : get id r.inner.jobs ≡ none → p ≡ (r, FinishJobResult.not_found) → Refused
    not_running :
        (job : JobRecord V)
        → get id r.inner.jobs ≡ some job
        → ((job.status == running) && is_some job.lease) ≡ false
        → p ≡ (r, FinishJobResult.not_running job)
        → Refused
    not_held :
        (job : JobRecord V) (lease : JobLease)
        → get id r.inner.jobs ≡ some job
        → job.status ≡ running
        → job.lease ≡ some lease
        → (lease.worker_id ≢ worker_id) ⊎ (reports_other attempt lease ≡ true)
        → p ≡ (r, FinishJobResult.lease_not_held job)
        → Refused
    late :
        (job : JobRecord V) (lease : JobLease)
        → get id r.inner.jobs ≡ some job
        → job.status ≡ running
        → job.lease ≡ some lease
        → lease.worker_id ≡ worker_id
        → reports_other attempt lease ≡ false
        → lease.expires_at_unix_ms ≤ now
        → p ≡ (r, FinishJobResult.expired job)
        → Refused

  -- The report is of the lease that is in force.
  pub record InForce (job : JobRecord V) (lease : JobLease) : Type 0 where
    pub at : get id r.inner.jobs ≡ some job
    pub on : job.status ≡ running
    pub held : job.lease ≡ some lease
    pub mine : lease.worker_id ≡ worker_id
    pub same : reports_other attempt lease ≡ false
    pub early : now < lease.expires_at_unix_ms

  pub data Completes (result : V) : Type 0 where
    accepted :
        (job : JobRecord V) (lease : JobLease)
        → InForce job lease
        → (let job' = completed_job worker_id now result lease job in
            p ≡ (put_job r id job', FinishJobResult.completed job'))
        → Completes result
    repeated :
        (job : JobRecord V)
        → get id r.inner.jobs ≡ some job
        → job.status ≡ complete
        → terminal_attempt_matches job worker_id attempt ≡ true
        → job.result ≡ some result
        → p ≡ (r, FinishJobResult.idempotent_completed job)
        → Completes result
    refused : Refused → Completes result

  pub data Fails (failure : JobFailure) : Type 0 where
    again :
        (job : JobRecord V) (lease : JobLease)
        → InForce job lease
        → failure.retryable ≡ true
        → job.attempts < job.max_attempts
        → (let job' = requeued_job now failure job in
            p ≡ (record r { inner = requeue_as id job' r.inner }, FinishJobResult.requeued job'))
        → Fails failure
    ended :
        (job : JobRecord V) (lease : JobLease)
        → InForce job lease
        → (failure.retryable ≡ false) ⊎ (job.max_attempts ≤ job.attempts)
        → (let job' = failed_job worker_id now failure lease job in
            p ≡ (put_job r id job', FinishJobResult.failed job'))
        → Fails failure
    repeated :
        (job : JobRecord V)
        → get id r.inner.jobs ≡ some job
        → job.status ≡ failed
        → terminal_attempt_matches job worker_id attempt ≡ true
        → job.error ≡ some failure
        → p ≡ (r, FinishJobResult.idempotent_failed job)
        → Fails failure
    refused : Refused → Fails failure

-- The checks of a lease that is there.
pub data Checks {V : Type 0} (now : ℕ) (worker_id : String) (attempt : Option ℕ) (job : JobRecord V)
    (lease : JobLease) : Type 0 where
  passed :
      held_refusal now worker_id attempt job lease ≡ none
      → lease.worker_id ≡ worker_id
      → reports_other attempt lease ≡ false
      → now < lease.expires_at_unix_ms
      → Checks now worker_id attempt job lease
  other :
      held_refusal now worker_id attempt job lease ≡ some (FinishJobResult.lease_not_held job)
      → (lease.worker_id ≢ worker_id) ⊎ (reports_other attempt lease ≡ true)
      → Checks now worker_id attempt job lease
  over :
      held_refusal now worker_id attempt job lease ≡ some (FinishJobResult.expired job)
      → lease.worker_id ≡ worker_id
      → reports_other attempt lease ≡ false
      → lease.expires_at_unix_ms ≤ now
      → Checks now worker_id attempt job lease

check :
    {V : Type 0} (now : ℕ) (worker_id : String) (attempt : Option ℕ) (job : JobRecord V)
    (lease : JobLease)
    → Checks now worker_id attempt job lease
check now worker_id attempt job lease = elim (Bool-cases (lease.worker_id == worker_id)) [
  | inr e ↦
      other (ground arith) (inl (λ same. ground (arith, string_beq_iff lease.worker_id worker_id)))
  | inl e ↦
      let mine : lease.worker_id ≡ worker_id = (string_beq_iff lease.worker_id worker_id).0 e in
      elim (Bool-cases (reports_other attempt lease)) [
        | inl o ↦ other (ground arith) (inr o)
        | inr o ↦ elim (Bool-cases (leb lease.expires_at_unix_ms now)) [
          | inl l ↦ over (ground arith) mine o (ground arith)
          | inr l ↦ passed (ground arith) mine o (ground arith)
        ]
      ]
]

module _ {V : Type 0} (fault : Option String) (now : ℕ) (r : JobRegistry V) (id worker_id : String)
    (attempt : Option ℕ) where
  complete_held_exact :
      (result : V) (job : JobRecord V) (lease : JobLease)
      → r.store ≡ none
      → get id r.inner.jobs ≡ some job
      → job.status ≡ running
      → job.lease ≡ some lease
      → Completes now r id worker_id attempt
          (complete_held fault now r id worker_id attempt result job lease)
          result
  unfolding complete_held
  complete_held_exact result job lease mem at on held =
      elim (check now worker_id attempt job lease) [
        | Checks.other e why ↦
            Completes.refused
              (Refused.not_held job lease at on held why (rw (e, complete_held) refl))
        | Checks.over e mine same end ↦
            Completes.refused
              (Refused.late job lease at on held mine same end (rw (e, complete_held) refl))
        | Checks.passed e mine same early ↦
            Completes.accepted job lease
              (record { at = at; on = on; held = held; mine = mine; same = same; early = early })
              (rw (e, complete_held) (settle_memory fault _ _ _ mem))
      ]

  fail_held_exact :
      (failure : JobFailure) (job : JobRecord V) (lease : JobLease)
      → r.store ≡ none
      → get id r.inner.jobs ≡ some job
      → job.status ≡ running
      → job.lease ≡ some lease
      → Fails now r id worker_id attempt
          (fail_held fault now r id worker_id attempt failure job lease)
          failure
  unfolding fail_held
  fail_held_exact failure job lease mem at on held = elim (check now worker_id attempt job lease) [
    | Checks.other e why ↦
        Fails.refused (Refused.not_held job lease at on held why (rw (e, fail_held) refl))
    | Checks.over e mine same end ↦
        Fails.refused (Refused.late job lease at on held mine same end (rw (e, fail_held) refl))
    | Checks.passed e mine same early ↦
        let force : InForce now r id worker_id attempt _ job lease = (record {
          at = at;
          on = on;
          held = held;
          mine = mine;
          same = same;
          early = early;
        }) in
        elim (Bool-cases (failure.retryable && ltb job.attempts job.max_attempts)) [
          | inl more ↦
              Fails.again job lease force (ground arith) (ground arith)
                (rw (e, more, fail_held) (settle_memory fault _ _ _ mem))
          | inr last ↦
              Fails.ended job lease force (ground arith)
                (rw (e, last, fail_held) (settle_memory fault _ _ _ mem))
        ]
  ]

  -- How a failure report is answered: with a new attempt if the failure is retryable and attempts are
  -- left, with the end of the job otherwise; a repeated report of the attempt that ended the job is
  -- recognised; any other report changes nothing and names its reason. The registry has no store.
  pub fail_lease_exact :
      (failure : JobFailure)
      → r.store ≡ none
      → Fails now r id worker_id attempt
          (fail_lease fault now r id worker_id attempt failure)
          failure
  unfolding fail_lease
  fail_lease_exact failure mem = elim (Option-cases (get id r.inner.jobs)) [
    | inl e ↦ Fails.refused (Refused.unknown e (ground arith))
    | inr (job, at) ↦ elim (Bool-cases ((job.status == running) && is_some job.lease)) [
      | inl on ↦
          let (lease, held) = is_some-some job.lease (ground arith) in
          let state : (job.status == running) ≡ true = ground arith in
          rw (at, state, held, fail_lease)
            (fail_held_exact failure job lease mem at (ground arith) held)
      | inr off ↦
          elim (Bool-cases (
            (job.status == failed)
            && (terminal_attempt_matches job worker_id attempt
                && elim job.error [ none ↦ false | some error ↦ failure_beq error failure ]))) [
                  | inl twice ↦
                      Fails.repeated job at (ground arith) (ground arith)
                        (error_same job.error failure (ground arith)) (ground arith)
                  | inr no_match ↦ Fails.refused (Refused.not_running job at off (ground arith))
                ]
    ]
  ]

  -- How a completion report is answered: the report of the lease in force completes the job; a
  -- repeated report of the attempt that completed it, with the same result, is recognised; any other
  -- report changes nothing and names its reason: no such job, not running, not the holder of the
  -- lease or not its attempt, too late. The registry has no store.
  pub complete_lease_exact :
      ⦃q : Eq V⦄ (result : V)
      → r.store ≡ none
      → Completes now r id worker_id attempt
          (complete_lease fault now r id worker_id attempt result)
          result
  unfolding complete_lease
  complete_lease_exact ⦃q⦄ result mem = elim (Option-cases (get id r.inner.jobs)) [
    | inl e ↦ Completes.refused (Refused.unknown e (ground arith))
    | inr (job, at) ↦ elim (Bool-cases ((job.status == running) && is_some job.lease)) [
      | inl on ↦
          let (lease, held) = is_some-some job.lease (ground arith) in
          let state : (job.status == running) ≡ true = ground arith in
          rw (at, state, held, complete_lease)
            (complete_held_exact result job lease mem at (ground arith) held)
      | inr off ↦
          elim (Bool-cases (
            (job.status == complete)
            && (terminal_attempt_matches job worker_id attempt
                && option_beq job.result (some result)))) [
                  | inl twice ↦
                      Completes.repeated job at (ground arith) (ground arith)
                        ((option_beq_iff job.result (some result)).0 (ground arith)) (ground arith)
                  | inr no_match ↦ Completes.refused (Refused.not_running job at off (ground arith))
                ]
    ]
  ]
