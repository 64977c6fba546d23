-- ===== src/Jobs/Steps/Others.antt =====
-- The other calls are steps: submit, cancel, the callback bookkeeping, and the two sweeps.
use fairlead.Base.{
  true, false, ℕ, String, Option, Eq, ◌&&◌, ◌≡◌, not, inl, inr, Bool-cases, Option-cases,
  Result-cases, arith,
}
use fairlead.Base.Maps.{get, is_some}
use fairlead.Jobs.Types.{SubmitJobRequest, is_terminal, is_delivered}
use fairlead.Jobs.Store.{JobRegistry, settle-inner, persist_locked-inner}
use fairlead.Jobs.Submit.{
  submit, submit_normalized, existing_for_key, normalize_callback_url, normalize_idempotency_key,
}
use fairlead.Jobs.Cancel.{cancel}
use fairlead.Jobs.Callbacks.{
  begin_attempt, begin_callback_attempt, record_success, record_callback_success, record_failure,
  record_callback_failure, begun, succeeded, refused,
}
use fairlead.Jobs.Expiry.{requeue_expired_leases}
use fairlead.Jobs.Prune.{prune_terminal_jobs, prune_terminal_jobs_locked}
use fairlead.Jobs.Steps.Relation.{Step, stays, submits, cancels, notes, sweeps}

module _ {V : Type 0} (fault : Option String) (now : ℕ) (r : JobRegistry V) where
  submit_normalized-Step :
      ⦃q : Eq V⦄ (request : SubmitJobRequest V) (url key : Option String)
      → Step r.inner (submit_normalized fault now r request url key).0.inner
  unfolding submit_normalized
  submit_normalized-Step ⦃q⦄ request url key = elim (Option-cases (existing_for_key r.inner key)) [
    | inr (job, e) ↦ stays (ground arith)
    | inl e ↦ submits now request url key e (rw (e, submit_normalized) (settle-inner _ _ _ _))
  ]

  pub submit-Step :
      ⦃q : Eq V⦄ (request : SubmitJobRequest V) → Step r.inner (submit fault now r request).0.inner
  unfolding submit
  submit-Step ⦃q⦄ request = elim (Result-cases (normalize_callback_url request.callback_url)) [
    | inr (message, e) ↦ stays (ground arith)
    | inl (url, e) ↦ elim (Result-cases (normalize_idempotency_key request.idempotency_key)) [
      | inr (message, f) ↦ stays (ground arith)
      | inl (key, f) ↦ rw (e, f, submit) (submit_normalized-Step request url key)
    ]
  ]

  pub cancel-Step : (id : String) → Step r.inner (cancel fault now r id).0.inner
  unfolding cancel
  cancel-Step id = elim (Option-cases (get id r.inner.jobs)) [
    | inl e ↦ stays (ground arith)
    | inr (job, at) ↦ elim (Bool-cases (is_terminal job.status)) [
      | inl done ↦ stays (ground arith)
      | inr open_ ↦ cancels id job now at open_ (rw (at, open_, cancel) (settle-inner _ _ _ _))
    ]
  ]

  pub begin_callback_attempt-Step :
      (id : String) → Step r.inner (begin_callback_attempt fault now r id).0.inner
  unfolding begin_callback_attempt
  begin_callback_attempt-Step id = elim (Option-cases (get id r.inner.jobs)) [
    | inl e ↦ stays (ground arith)
    | inr (job, at) ↦ elim (Option-cases job.callback) [
      | inl f ↦ stays (ground arith)
      | inr (callback, f) ↦
          elim (Bool-cases (
            (is_some job.callback_url && is_terminal job.status)
            && not (is_delivered callback.status))) [
              | inr off ↦ stays (ground arith)
              | inl on ↦
                  let addressed : is_some job.callback_url ≡ true = ground arith in
                  let done : is_terminal job.status ≡ true = ground arith in
                  let open_ : is_delivered callback.status ≡ false = ground arith in
                  notes id job (begun now callback) at (ground arith) (
                    rw (at, addressed, done, f, open_, begin_callback_attempt, begin_attempt)
                      (settle-inner _ _ _ _))
            ]
    ]
  ]

  pub record_callback_success-Step :
      (id : String) (http_status : ℕ)
      → Step r.inner (record_callback_success fault now r id http_status).0.inner
  unfolding record_callback_success
  record_callback_success-Step id http_status = elim (Option-cases (get id r.inner.jobs)) [
    | inl e ↦ stays (ground arith)
    | inr (job, at) ↦ elim (Option-cases job.callback) [
      | inl f ↦ stays (ground arith)
      | inr (callback, f) ↦
          notes id job (succeeded now http_status callback) at (ground arith)
            (rw (at, f, record_callback_success, record_success) (settle-inner _ _ _ _))
    ]
  ]

  pub record_callback_failure-Step :
      (id : String) (http_status : Option ℕ) (error : Option String)
      → Step r.inner (record_callback_failure fault r id http_status error).0.inner
  unfolding record_callback_failure
  record_callback_failure-Step id http_status error = elim (Option-cases (get id r.inner.jobs)) [
    | inl e ↦ stays (ground arith)
    | inr (job, at) ↦ elim (Option-cases job.callback) [
      | inl f ↦ stays (ground arith)
      | inr (callback, f) ↦ elim (Bool-cases (is_delivered callback.status)) [
        | inl done ↦ stays (ground arith)
        | inr open_ ↦
            notes id job (refused http_status error callback) at (ground arith)
              (rw (at, f, open_, record_callback_failure, record_failure) (settle-inner _ _ _ _))
      ]
    ]
  ]

  pub requeue_expired_leases-Step : Step r.inner (requeue_expired_leases fault now r).0.inner
  unfolding requeue_expired_leases
  requeue_expired_leases-Step = sweeps now (persist_locked-inner fault _)

  pub prune_terminal_jobs-inner :
      (prune_terminal_jobs fault now r).0.inner
      ≡ (prune_terminal_jobs_locked now r.retention_policy r.inner).0
  unfolding prune_terminal_jobs
  prune_terminal_jobs-inner = persist_locked-inner fault _
