-- ===== src/Jobs/Callbacks.antt =====
-- src/jobs.rs: the callback of a finished job, and the bookkeeping of its delivery.
use fairlead.Base.{
  Bool, false, ℕ, ◌+◌, String, Option, none, some, List, not, ◌&&◌, ◌||◌, filter, u32,
  if◌then◌else◌, unwrap_or,
}
use fairlead.Base.Maps.{get, is_some}
use fairlead.Jobs.Types.{JobRecord, JobCallbackState, pending, delivered, is_delivered, is_terminal}
use fairlead.Jobs.Store.{JobRegistry, persist_locked, settle, put_job}
use fairlead.Jobs.Views.{listed}

abbrev pub new_callback : JobCallbackState
new_callback = record {
  status = pending;
  attempts = 0;
  last_attempt_at_unix_ms = none;
  delivered_at_unix_ms = none;
  last_http_status = none;
  last_error = none;
}

-- `job.callback.as_ref().is_some_and(|callback| callback.status == Delivered)`
abbrev pub was_delivered : Option JobCallbackState → Bool
was_delivered none = false
was_delivered (some callback) = is_delivered callback.status

-- One attempt more, started at `now`.
abbrev pub begun : ℕ → JobCallbackState → JobCallbackState
begun now callback = record callback {
  attempts = u32 (callback.attempts + 1);
  last_attempt_at_unix_ms = some now;
}

abbrev pub succeeded : ℕ → ℕ → JobCallbackState → JobCallbackState
succeeded now http_status callback = record callback {
  status = delivered;
  delivered_at_unix_ms = some now;
  last_http_status = some http_status;
  last_error = none;
}

abbrev pub refused : Option ℕ → Option String → JobCallbackState → JobCallbackState
refused http_status error callback = record callback {
  last_http_status = http_status;
  last_error = error;
}

module _ {V : Type 0} where
  -- A finished job with a URL gets a pending callback; the attempts made so far stay counted.
  unfoldable pub prepare_callback : JobRecord V → JobRecord V
  prepare_callback job =
      if not (is_some job.callback_url) || not (is_terminal job.status)
      then job
      else if was_delivered job.callback
      then job
      else record job {
        callback = some (record (unwrap_or job.callback new_callback) {
          status = pending;
          delivered_at_unix_ms = none;
          last_error = none;
          last_http_status = none;
        });
      }

  unfoldable pub has_pending_callback : JobRecord V → Bool
  has_pending_callback job =
      if not (is_some job.callback_url) then false else not (was_delivered job.callback)

  abbrev pub awaits_callback : JobRecord V → Bool
  awaits_callback job =
      (is_some job.callback_url && is_terminal job.status)
      && elim job.callback [ none ↦ false | some callback ↦ not (is_delivered callback.status) ]

  unfoldable pub pending_callback_jobs : JobRegistry V → List (JobRecord V)
  pending_callback_jobs r = filter awaits_callback (listed r.inner.order r.inner)

  -- `begin_callback_attempt`, once the job is found.
  unfoldable pub begin_attempt :
      Option String
      → ℕ
      → JobRegistry V
      → String
      → JobRecord V
      → JobRegistry V × Option (JobRecord V)
  begin_attempt fault now r id job =
      if not (is_some job.callback_url) || not (is_terminal job.status)
      then (r, none)
      else elim job.callback [
        | none ↦ (r, none)
        | some callback ↦
            if is_delivered callback.status
            then (r, none)
            else let job' = record job { callback = some (begun now callback) } in
              settle (persist_locked fault (put_job r id job')) (some job') (λ _. none)
      ]

  unfoldable pub begin_callback_attempt :
      Option String → ℕ → JobRegistry V → String → JobRegistry V × Option (JobRecord V)
  unfolding begin_attempt
  begin_callback_attempt fault now r id = elim (get id r.inner.jobs) [
    | none ↦ (r, none)
    | some job ↦ begin_attempt fault now r id job
  ]

  unfoldable pub record_success :
      Option String
      → ℕ
      → JobRegistry V
      → String
      → ℕ
      → JobRecord V
      → JobRegistry V × Option (JobRecord V)
  record_success fault now r id http_status job = elim job.callback [
    | none ↦ (r, none)
    | some callback ↦
        let job' = record job { callback = some (succeeded now http_status callback) } in
        settle (persist_locked fault (put_job r id job')) (some job') (λ _. none)
  ]

  unfoldable pub record_callback_success :
      Option String → ℕ → JobRegistry V → String → ℕ → JobRegistry V × Option (JobRecord V)
  unfolding record_success
  record_callback_success fault now r id http_status = elim (get id r.inner.jobs) [
    | none ↦ (r, none)
    | some job ↦ record_success fault now r id http_status job
  ]

  unfoldable pub record_failure :
      Option String
      → JobRegistry V
      → String
      → Option ℕ
      → Option String
      → JobRecord V
      → JobRegistry V × Option (JobRecord V)
  record_failure fault r id http_status error job = elim job.callback [
    | none ↦ (r, none)
    | some callback ↦
        if is_delivered callback.status
        then (r, none)
        else let job' = record job { callback = some (refused http_status error callback) } in
          settle (persist_locked fault (put_job r id job')) (some job') (λ _. none)
  ]

  unfoldable pub record_callback_failure :
      Option String
      → JobRegistry V
      → String
      → Option ℕ
      → Option String
      → JobRegistry V × Option (JobRecord V)
  unfolding record_failure
  record_callback_failure fault r id http_status error = elim (get id r.inner.jobs) [
    | none ↦ (r, none)
    | some job ↦ record_failure fault r id http_status error job
  ]
